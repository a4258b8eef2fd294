-- ===== src/Dag/Closure.antt =====
-- src/core/dag.rs: `closure_find` and `closure_collect` against the causal closure.
use did_crdt.Base.{
  ◌≡◌, refl, sym, subst, ◌≢◌, ◌∙◌, Bool, true, false, not, ◌||◌, ◌&&◌, List, [], ◌∷◌, reverse, none,
  some, arith, inl, inr, ◌⊎◌, ◌↔◌, Bool-cases, Option-cases,
}
use did_crdt.Ord.{nat_ord}
use did_crdt.Ord.Text.{list_ord, text_ord}
use did_crdt.Std.Set
use did_crdt.Std.Set.{IsAscending}
use did_crdt.Std.Set.Laws.{contains-cons, contains_head, contains-reverse, contains_tail}
use did_crdt.Delta.{SignedDelta, DeltaHash}
use did_crdt.Dag.{
  DeltaDag, ClosureQuery, found, not_found, incomplete, next, stop, get, contains, rounds,
  find_body,
}
use did_crdt.Dag.Reach.{Below, root, Below-mono}
use did_crdt.Dag.Trace.{contains-trace}
use did_crdt.Dag.Walk.{trace, run}

-- The search starts from the parents in reverse, which have the same closure.
abbrev pub unskipped : DeltaHash → Bool
unskipped _ = false

module _ {V : Type 0} (g : DeltaDag V) where
  pub Below-reverse :
      (parents : List DeltaHash) {h : DeltaHash}
      → Below unskipped g (reverse parents) h ↔ Below unskipped g parents h
  Below-reverse parents = (
    Below-mono unskipped g (reverse parents) parents
        (λ x m k. root (sym (contains-reverse parents x) ∙ m) k),
    Below-mono unskipped g parents (reverse parents)
        (λ x m k. root (contains-reverse parents x ∙ m) k),
  )

  -- What the search visits.
  abbrev pub visited_below : List DeltaHash → List DeltaHash
  visited_below parents = trace unskipped g (rounds g (reverse parents)) (reverse parents) []

  pub contains-visited_below :
      (parents : List DeltaHash) (h : DeltaHash)
      → (Set.contains (visited_below parents) h ≡ true) ↔ Below unskipped g parents h
  contains-visited_below parents h =
      let t = contains-trace unskipped g (reverse parents) h in
      (λ m. (Below-reverse parents).0 (t.0 m), λ b. t.1 ((Below-reverse parents).1 b))

  -- A held delta among `hs` for which `pred` holds.
  abbrev pub Hit : (SignedDelta V → Bool) → List DeltaHash → Type 0
  Hit pred hs =
      (h : DeltaHash) × (d : SignedDelta V) × (Set.contains hs h ≡ true)
      × (get g h ≡ some d)
      × (pred d ≡ true)

  -- The hashes among `hs` that are not held, on top of those of `acc`.
  unfoldable pub absent : List DeltaHash → List DeltaHash → List DeltaHash
  absent [] acc = acc
  absent (h ∷ hs) acc = elim (get g h) [ none ↦ absent hs (h ∷ acc) | some d ↦ absent hs acc ]

  pub contains-absent :
      (hs acc : List DeltaHash) (x : DeltaHash)
      → Set.contains (absent hs acc) x
        ≡ (Set.contains hs x && not (contains g x) || Set.contains acc x)
  unfolding absent Set.contains contains
  contains-absent [] acc x = refl
  contains-absent (h ∷ hs) acc x =
      ground
        (arith, contains-absent hs acc x, contains-absent hs (h ∷ acc) x, text_ord.eq_of_cmp x h)

  Hit-cons :
      (pred : SignedDelta V → Bool) (h : DeltaHash) (hs : List DeltaHash)
      → Hit pred (h ∷ hs)
      → Hit pred hs ⊎ ((d : SignedDelta V) × (get g h ≡ some d) × (pred d ≡ true))
  Hit-cons pred h hs (k, d, m, e, p) = elim (contains-cons k h hs m) [
    | inl same ↦ inr (d, subst (λ z. get g z ≡ some d) same e, p)
    | inr later ↦ inl (k, d, later, e, p)
  ]

  Hit-tail :
      (pred : SignedDelta V → Bool) (h : DeltaHash) (hs : List DeltaHash)
      → Hit pred hs
      → Hit pred (h ∷ hs)
  Hit-tail pred h hs (k, d, m, e, p) = (k, d, contains_tail k h hs m, e, p)

  -- The search along a list of hashes stops at a hit, or ends with the hashes that are not held.
  abbrev pub Searched : (SignedDelta V → Bool) → List DeltaHash → List DeltaHash → Type 0
  Searched pred hs missing =
      Hit pred hs × (run (find_body pred) g hs missing ≡ stop found)
      ⊎ (¬ Hit pred hs) × (run (find_body pred) g hs missing ≡ next (absent hs missing))

  pub run-find_body :
      (pred : SignedDelta V → Bool) (hs missing : List DeltaHash) → Searched pred hs missing
  unfolding run find_body absent Set.contains
  run-find_body pred [] missing = inr (λ (h, d, m, e, p). cc, refl)
  run-find_body pred (h ∷ hs) missing = elim (Option-cases (get g h)) [
    | inl e ↦ elim (run-find_body pred hs (h ∷ missing)) [
      | inl (hit, r) ↦ inl (Hit-tail pred h hs hit, rw (e, run, find_body) r)
      | inr (miss, r) ↦ inr (
        λ hit. elim (Hit-cons pred h hs hit) [ inl later ↦ miss later | inr (d, f, p) ↦ cc ],
        rw (e, run, find_body, absent) r,
      )
    ]
    | inr (d, e) ↦ elim (Bool-cases (pred d)) [
      | inl p ↦ inl ((h, d, contains_head h hs, e, p), rw (e, run, find_body) (rw p))
      | inr q ↦ elim (run-find_body pred hs missing) [
        | inl (hit, r) ↦ inl (Hit-tail pred h hs hit, rw (e, run, find_body) (rw q r))
        | inr (miss, r) ↦ inr (
          λ hit. elim (Hit-cons pred h hs hit) [
            | inl later ↦ miss later
            | inr (x, f, p) ↦ ground (arith, e, f, p, q)
          ],
          rw (e, run, find_body, absent) (rw q r),
        )
      ]
    ]
  ]

  -- What the answer of `closure_find` says of the closure of `parents`.
  abbrev pub Answers : (SignedDelta V → Bool) → List DeltaHash → ClosureQuery → Type 0
  Answers pred parents found =
      (h : DeltaHash) × (d : SignedDelta V) × Below unskipped g parents h
      × (get g h ≡ some d)
      × (pred d ≡ true)
  Answers pred parents not_found =
      (h : DeltaHash)
      → Below unskipped g parents h
      → (d : SignedDelta V) × (get g h ≡ some d) × (pred d ≡ false)
  Answers pred parents (incomplete ms) =
      IsAscending ms
      × (ms ≢ [])
      × ((h : DeltaHash)
          → (Set.contains ms h ≡ true) ↔ (Below unskipped g parents h × (get g h ≡ none)))
      × ((h : DeltaHash) (d : SignedDelta V)
          → Below unskipped g parents h
          → get g h ≡ some d
          → pred d ≡ false)
