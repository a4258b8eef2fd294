-- ===== src/Recon.antt =====
-- src/core/recon.rs: frontier exchange and the transfer of closure bundles.
pub mod Merge
pub mod Extract
pub mod Exchange
pub mod Peer
pub mod Converge
use did_crdt.Base.{
  ℕ, ◌-◌, Bool, true, false, not, ◌||◌, ◌++◌, List, [], ◌∷◌, reverse, Option, none, some, all, map,
  if◌then◌else◌,
}
use did_crdt.Ord.{nat_ord}
use did_crdt.Ord.Text.{Text, list_ord}
use did_crdt.Std.Set
use did_crdt.Std.Sort.{sort_dedup}
use did_crdt.Error.{Error, delta_rejected, Result, ok, err}
use did_crdt.Delta.{DeltaHash, SignedDelta, Payload, content_hash}
use did_crdt.Dag.{
  DeltaDag, Flow, next, stop, get, contains, len, insert, unheld, incomplete_ancestors, search_loop,
  rounds,
}

-- `struct ClosureBundle`.
pub record ClosureBundle (V : Type 0) : Type 0 where
  pub target : DeltaHash
  pub deltas : List (SignedDelta V)

module _ {V : Type 0} where
  -- `DeltaDag::missing_from_frontier`.
  unfoldable pub missing_from_frontier : DeltaDag V → List DeltaHash → List DeltaHash
  unfolding unheld incomplete_ancestors
  missing_from_frontier g remote_frontier =
      sort_dedup (unheld g remote_frontier ++ incomplete_ancestors g)

  -- The body of the loop of `extract_closure`; the list of deltas has the last one first.
  unfoldable pub extract_body :
      DeltaHash → Option (SignedDelta V) → List (SignedDelta V) → Flow (List (SignedDelta V)) Error
  extract_body h none deltas = stop delta_rejected
  extract_body h (some d) deltas = next (d ∷ deltas)

  unfoldable pub extract_end :
      DeltaHash → Flow (List (SignedDelta V)) Error → Result (ClosureBundle V)
  extract_end target (stop e) = err e
  extract_end target (next deltas) = ok (record { target = target; deltas = reverse deltas })

  -- `DeltaDag::extract_closure`.
  unfoldable pub extract_closure :
      DeltaDag V → DeltaHash → List DeltaHash → Result (ClosureBundle V)
  unfolding search_loop extract_body extract_end rounds
  extract_closure g target halt =
      let stack = target ∷ [] in
      extract_end target
        (search_loop (Set.contains halt) extract_body g (rounds g stack) stack [] [])

module _ {V : Type 0} (digest : Payload V → DeltaHash) where
  -- `for d in deltas { if seen.insert(d.content_hash()?) { out.push(d) } }`; `out` has the last one
  -- first.
  unfoldable pub push_new :
      List (SignedDelta V)
      → List DeltaHash
      → List (SignedDelta V)
      → List DeltaHash × List (SignedDelta V)
  unfolding content_hash
  push_new [] seen out = (seen, out)
  push_new (d ∷ ds) seen out =
      let h = content_hash digest d in
      push_new ds (Set.insert h seen) (if Set.contains seen h then out else d ∷ out)

  -- The loop of `deltas_for_peer` over the heads.
  unfoldable pub push_heads :
      DeltaDag V
      → List DeltaHash
      → List DeltaHash
      → List DeltaHash
      → List (SignedDelta V)
      → Result (List (SignedDelta V))
  unfolding extract_closure push_new
  push_heads g peer_frontier [] seen out = ok (reverse out)
  push_heads g peer_frontier (head ∷ heads) seen out = elim (Set.contains peer_frontier head) [
    | true ↦ push_heads g peer_frontier heads seen out
    | false ↦ elim (extract_closure g head peer_frontier) [
      | err e ↦ err e
      | ok bundle ↦
          let (seen', out') = push_new bundle.deltas seen out in
          push_heads g peer_frontier heads seen' out'
    ]
  ]

  -- `DeltaDag::deltas_for_peer`.
  unfoldable pub deltas_for_peer : DeltaDag V → List DeltaHash → Result (List (SignedDelta V))
  unfolding push_heads
  deltas_for_peer g peer_frontier = push_heads g peer_frontier g.frontier [] []

  -- The hashes of a list of deltas, put into a set.
  unfoldable pub hashes_of : List (SignedDelta V) → List DeltaHash
  unfolding content_hash
  hashes_of [] = []
  hashes_of (d ∷ ds) = Set.insert (content_hash digest d) (hashes_of ds)

  -- No parent dangles: each is held or in the bundle.
  unfoldable pub grounded : DeltaDag V → List DeltaHash → List (SignedDelta V) → Bool
  unfolding contains
  grounded g bundle_hashes deltas =
      all (λ d. all (λ p. contains g p || Set.contains bundle_hashes p) d.parents) deltas

  -- Inserts the deltas one after the other.
  unfoldable pub insert_all : List (SignedDelta V) → DeltaDag V → DeltaDag V
  unfolding insert
  insert_all [] g = g
  insert_all (d ∷ ds) g = insert_all ds (insert digest d g)

  -- `DeltaDag::merge_bundle`: the store after it and the number of deltas that are new, or an error,
  -- with which the store stays as it was.
  unfoldable pub merge_bundle : ClosureBundle V → DeltaDag V → DeltaDag V × Result ℕ
  unfolding hashes_of grounded insert_all len
  merge_bundle bundle g =
      let bundle_hashes = hashes_of bundle.deltas in
      if not (Set.contains bundle_hashes bundle.target)
      then (g, err delta_rejected)
      else if not (grounded g bundle_hashes bundle.deltas)
      then (g, err delta_rejected)
      else (let g' = insert_all bundle.deltas g in (g', ok (len g' - len g)))
