-- ===== src/Dag.antt =====
-- src/core/dag.rs: the hash-indexed store of deltas with its frontier, and searches of the causal
-- closure. `V` are the values of `serde_json`, and `digest` gives a delta's identity.
pub mod Insert
pub mod Walk
pub mod Reach
pub mod Trace
pub mod Closure
pub mod Find
pub mod Collect
use did_crdt.Base.{
  ℕ, zero, suc, ◌+◌, Bool, true, false, not, ◌||◌, ◌&&◌, List, [], ◌∷◌, ◌++◌, reverse, Option, none,
  some, any, all, length, if◌then◌else◌,
}
use did_crdt.Ord.{nat_ord, Ord, eq?}
use did_crdt.Ord.Text.{Text, list_ord, text_ord}
use did_crdt.Std.Map
use did_crdt.Std.Map.{Map, contains_key, values, is_some}
use did_crdt.Std.Set
use did_crdt.Std.Sort.{sort, sort_dedup}
use did_crdt.Delta.{
  SignedDelta, DeltaHash, DeltaOp, Payload, content_hash, add_verification_method,
  revoke_verification_method, deactivate,
}

-- `struct DeltaDag`.
pub record DeltaDag (V : Type 0) : Type 0 where
  pub by_hash : Map DeltaHash (SignedDelta V)
  pub referenced : List DeltaHash
  pub frontier : List DeltaHash

-- `enum ClosureQuery`.
pub data ClosureQuery : Type 0 where
  found : ClosureQuery
  not_found : ClosureQuery
  incomplete : List DeltaHash → ClosureQuery

-- What the body of a search loop does at an ancestor: go on with a new state, or return.
pub data Flow (S : Type 0) (R : Type 0) : Type 0 where
  next : S → Flow S R
  stop : R → Flow S R

infixl 5 ◌>>=◌
abbrev pub ◌>>=◌ : {S T R : Type 0} → Flow S R → (S → Flow T R) → Flow T R
next s >>= f = f s
stop r >>= f = stop r

-- After the loop of `closure_find`: the missing hashes, sorted and deduplicated.
unfoldable pub find_end : Flow (List DeltaHash) ClosureQuery → ClosureQuery
find_end (stop r) = r
find_end (next []) = not_found
find_end (next (h ∷ hs)) = incomplete (sort_dedup (reverse (h ∷ hs)))

-- After the loop of `closure_collect`.
unfoldable pub collect_end : {T : Type 0} → Flow (List T) (List T) → List T
collect_end (stop out) = reverse out
collect_end (next out) = reverse out

-- The loop over the parents of a delta: those not yet visited are pushed, the last one on top.
unfoldable pub push_unvisited : List DeltaHash → List DeltaHash → List DeltaHash → List DeltaHash
push_unvisited visited [] stack = stack
push_unvisited visited (p ∷ ps) stack =
    push_unvisited visited ps (if Set.contains visited p then stack else p ∷ stack)

module _ {V : Type 0} where
  -- `DeltaDag::new`.
  unfoldable pub new : DeltaDag V
  new = record { by_hash = []; referenced = []; frontier = [] }

  -- `DeltaDag::len`.
  unfoldable pub len : DeltaDag V → ℕ
  len g = length g.by_hash

  -- `DeltaDag::is_empty`.
  unfoldable pub is_empty : DeltaDag V → Bool
  is_empty g = elim g.by_hash [ [] ↦ true | _ ∷ _ ↦ false ]

  -- `DeltaDag::get`.
  unfoldable pub get : DeltaDag V → DeltaHash → Option (SignedDelta V)
  get g h = Map.get g.by_hash h

  -- `DeltaDag::contains`.
  unfoldable pub contains : DeltaDag V → DeltaHash → Bool
  unfolding get
  contains g h = is_some (get g h)

  -- `DeltaDag::has_authorising_delta`, `has_revoking_delta`, `has_deactivate_delta`.
  unfoldable pub adds_key : Text → SignedDelta V → Bool
  adds_key key_id d = elim d.op [ add_verification_method id _ _ _ ↦ eq? id key_id | _ ↦ false ]

  unfoldable pub revokes_key : Text → SignedDelta V → Bool
  revokes_key key_id d = elim d.op [ revoke_verification_method k ↦ eq? k key_id | _ ↦ false ]

  unfoldable pub deactivates : SignedDelta V → Bool
  deactivates d = elim d.op [ deactivate ↦ true | _ ↦ false ]

  unfoldable pub has_authorising_delta : DeltaDag V → Text → Bool
  unfolding adds_key
  has_authorising_delta g key_id = any (adds_key key_id) (values g.by_hash)

  unfoldable pub has_revoking_delta : DeltaDag V → Text → Bool
  unfolding revokes_key
  has_revoking_delta g key_id = any (revokes_key key_id) (values g.by_hash)

  unfoldable pub has_deactivate_delta : DeltaDag V → Bool
  unfolding deactivates
  has_deactivate_delta g = any deactivates (values g.by_hash)

  -- The elements of a list that the store does not hold.
  unfoldable pub unheld : DeltaDag V → List DeltaHash → List DeltaHash
  unheld g [] = []
  unheld g (h ∷ hs) = let rest = unheld g hs in if contains g h then rest else h ∷ rest

  -- `DeltaDag::incomplete_ancestors`.
  unfoldable pub incomplete_ancestors : DeltaDag V → List DeltaHash
  unfolding unheld
  incomplete_ancestors g = sort (unheld g g.referenced)

  -- `DeltaDag::missing_parents`.
  unfoldable pub missing_parents : DeltaDag V → SignedDelta V → List DeltaHash
  unfolding unheld
  missing_parents g d = sort_dedup (unheld g d.parents)

  -- The loop of `insert` over the parents: each is referenced and leaves the frontier.
  unfoldable pub reference : List DeltaHash → DeltaDag V → DeltaDag V
  reference [] g = g
  reference (p ∷ ps) g =
      reference ps
        (record g { referenced = Set.insert p g.referenced; frontier = Set.remove p g.frontier })

  -- `DeltaDag::insert`, and the hash that it returns.
  unfoldable pub insert : (Payload V → DeltaHash) → SignedDelta V → DeltaDag V → DeltaDag V
  unfolding contains reference content_hash
  insert digest d g =
      let h = content_hash digest d in
      if contains g h
      then g
      else (let g' = reference d.parents g in
          record g' {
            by_hash = Map.insert h d g'.by_hash;
            frontier =
                if Set.contains g'.referenced h then g'.frontier else Set.insert h g'.frontier;
          })

  -- The deltas' edges that a search from a given `visited` set can still follow.
  unfoldable pub edges : List DeltaHash → Map DeltaHash (SignedDelta V) → ℕ
  edges visited [] = 0
  edges visited ((h, d) ∷ m) =
      let rest = edges visited m in if Set.contains visited h then rest else length d.parents + rest

  -- More rounds than a search from `stack` can take: each pops one hash, and each edge pushes one
  -- hash at most.
  unfoldable pub rounds : DeltaDag V → List DeltaHash → ℕ
  unfolding edges
  rounds g stack = suc (length stack + edges [] g.by_hash)

  -- The parents of a delta that is held go on the stack.
  unfoldable pub descend : DeltaDag V → List DeltaHash → DeltaHash → List DeltaHash → List DeltaHash
  unfolding push_unvisited
  descend g visited h stack = elim (get g h) [
    | none ↦ stack
    | some d ↦ push_unvisited visited d.parents stack
  ]

  -- `while let Some(h) = stack.pop()` with a visited set: the shape of `closure_find`,
  -- `closure_collect`, `scan_closure` and, with `skip` for its `stop` set, `extract_closure`.
  -- The top of the stack is the head of the list.
  unfoldable pub search_loop :
      {S R : Type 0}
      → (DeltaHash → Bool)
      → (DeltaHash → Option (SignedDelta V) → S → Flow S R)
      → DeltaDag V
      → ℕ
      → List DeltaHash
      → List DeltaHash
      → S
      → Flow S R
  unfolding descend
  search_loop skip body g zero stack visited s = next s
  search_loop skip body g (suc fuel) [] visited s = next s
  search_loop skip body g (suc fuel) (h ∷ stack) visited s =
      elim (skip h || Set.contains visited h) [
        | true ↦ search_loop skip body g fuel stack visited s
        | false ↦ do
          s' ← body h (get g h) s
          search_loop skip body g fuel (descend g (Set.insert h visited) h stack)
              (Set.insert h visited) s'
      ]

  -- `DeltaDag::closure_find`: the state is the list of missing hashes, the last one first.
  unfoldable pub find_body :
      (SignedDelta V → Bool)
      → DeltaHash
      → Option (SignedDelta V)
      → List DeltaHash
      → Flow (List DeltaHash) ClosureQuery
  find_body pred h none missing = next (h ∷ missing)
  find_body pred h (some d) missing = if pred d then stop found else next missing

  unfoldable pub closure_find : DeltaDag V → List DeltaHash → (SignedDelta V → Bool) → ClosureQuery
  unfolding search_loop find_body find_end rounds
  closure_find g parents pred =
      let stack = reverse parents in
      find_end (search_loop (λ _. false) (find_body pred) g (rounds g stack) stack [] [])

  -- `DeltaDag::closure_complete`.
  unfoldable pub closure_complete : DeltaDag V → List DeltaHash → Bool
  unfolding closure_find
  closure_complete g parents = elim (closure_find g parents (λ _. false)) [
    | not_found ↦ true
    | _ ↦ false
  ]

  -- `DeltaDag::closure_collect`: the state is the list of results, the last one first.
  unfoldable pub collect_body :
      {T : Type 0}
      → (SignedDelta V → Option T)
      → DeltaHash
      → Option (SignedDelta V)
      → List T
      → Flow (List T) (List T)
  collect_body f h none out = next out
  collect_body f h (some d) out = elim (f d) [ none ↦ next out | some t ↦ next (t ∷ out) ]

  unfoldable pub closure_collect :
      {T : Type 0} → DeltaDag V → List DeltaHash → (SignedDelta V → Option T) → List T
  unfolding search_loop collect_body collect_end rounds
  closure_collect g parents f =
      let stack = reverse parents in
      collect_end (search_loop (λ _. false) (collect_body f) g (rounds g stack) stack [] [])
