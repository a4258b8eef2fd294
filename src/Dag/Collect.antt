-- ===== src/Dag/Collect.antt =====
-- src/core/dag.rs: what `closure_collect` yields.
use did_crdt.Base.{
  ◌⊎◌, sym, ap, Option, ◌≡◌, refl, ◌∙◌, true, List, [], ◌∷◌, reverse, none, some, inl, inr, ◌↔◌,
  Option-cases,
}
use did_crdt.Ord.{Ord, nat_ord}
use did_crdt.Ord.Text.{list_ord}
use did_crdt.Std.Set
use did_crdt.Std.Set.{IsAscending}
use did_crdt.Std.Set.Laws.{contains-cons, contains_head, contains_tail, contains-reverse}
use did_crdt.Delta.{SignedDelta, DeltaHash}
use did_crdt.Dag.{DeltaDag, next, get, rounds, collect_body, collect_end, closure_collect}
use did_crdt.Dag.Closure.{unskipped, visited_below, contains-visited_below}
use did_crdt.Dag.Reach.{Below}
use did_crdt.Dag.Walk.{run, search_loop-trace}

module _ {V : Type 0} {T : Type 0} ⦃o : Ord T⦄ (g : DeltaDag V) (f : SignedDelta V → Option T) where
  -- The results of `f` at the held hashes of a list, on top of `out`.
  collected : List DeltaHash → List T → List T
  collected [] out = out
  collected (h ∷ hs) out = elim (get g h) [
    | none ↦ collected hs out
    | some d ↦ elim (f d) [ none ↦ collected hs out | some t ↦ collected hs (t ∷ out) ]
  ]

  run-collect_body :
      (hs : List DeltaHash) (out : List T) → run (collect_body f) g hs out ≡ next (collected hs out)
  unfolding run collect_body collected
  run-collect_body [] out = refl
  run-collect_body (h ∷ hs) out = elim (Option-cases (get g h)) [
    | inl e ↦ rw (e, run, collect_body, collected) (run-collect_body hs out)
    | inr (d, e) ↦ elim (Option-cases (f d)) [
      | inl n ↦ rw (e, n, run, collect_body, collected) (run-collect_body hs out)
      | inr (t, n) ↦ rw (e, n, run, collect_body, collected) (run-collect_body hs (t ∷ out))
    ]
  ]

  -- A held delta among `hs` at which `f` gives `t`.
  abbrev Gives : List DeltaHash → T → Type 0
  Gives hs t =
      (h : DeltaHash) × (d : SignedDelta V) × (Set.contains hs h ≡ true)
      × (get g h ≡ some d)
      × (f d ≡ some t)

  collected_sound :
      (hs : List DeltaHash) (out : List T) (t : T)
      → Set.contains (collected hs out) t ≡ true
      → Gives hs t ⊎ (Set.contains out t ≡ true)
  unfolding collected
  collected_sound [] out t m = inr m
  collected_sound (h ∷ hs) out t m = elim (Option-cases (get g h)) [
    | inl e ↦ later (collected_sound hs out t (rw (e, collected) at m))
    | inr (d, e) ↦ elim (Option-cases (f d)) [
      | inl n ↦ later (collected_sound hs out t (rw (e, n, collected) at m))
      | inr (u, n) ↦ elim (collected_sound hs (u ∷ out) t (rw (e, n, collected) at m)) [
        | inl (k, x, c, i, j) ↦ inl (k, x, contains_tail k h hs c, i, j)
        | inr c ↦ elim (contains-cons t u out c) [
          | inl same ↦ inl (h, d, contains_head h hs, e, n ∙ ap some (sym same))
          | inr old ↦ inr old
        ]
      ]
    ]
  ]
    where
      later :
          Gives hs t ⊎ (Set.contains out t ≡ true) → Gives (h ∷ hs) t ⊎ (Set.contains out t ≡ true)
      later (inl (k, x, c, i, j)) = inl (k, x, contains_tail k h hs c, i, j)
      later (inr c) = inr c

  collected-keeps :
      (hs : List DeltaHash) (out : List T) (t : T)
      → Set.contains out t ≡ true
      → Set.contains (collected hs out) t ≡ true
  unfolding collected
  collected-keeps [] out t m = m
  collected-keeps (h ∷ hs) out t m = elim (Option-cases (get g h)) [
    | inl e ↦ rw (e, collected) (collected-keeps hs out t m)
    | inr (d, e) ↦ elim (Option-cases (f d)) [
      | inl n ↦ rw (e, n, collected) (collected-keeps hs out t m)
      | inr (u, n) ↦ rw (e, n, collected) (collected-keeps hs (u ∷ out) t (contains_tail t u out m))
    ]
  ]

  nothing : (t : T) → ¬ (Set.contains [] t ≡ true)
  unfolding Set.contains
  nothing t m = cc

  contains-closure_collect :
      (parents : List DeltaHash) (t : T)
      → Set.contains (closure_collect g parents f) t
        ≡ Set.contains (collected (visited_below g parents) []) t
  unfolding closure_collect collect_end
  contains-closure_collect parents t =
      let stack = reverse parents in
      ap (λ r. Set.contains (collect_end r) t)
        (search_loop-trace unskipped (collect_body f) g (rounds g stack) stack [] []
          ∙ run-collect_body (visited_below g parents) [])
      ∙ contains-reverse (collected (visited_below g parents) []) t

  collected_complete :
      (hs : List DeltaHash) (out : List T) (t : T)
      → Gives hs t
      → Set.contains (collected hs out) t ≡ true
  unfolding collected Set.contains
  collected_complete [] out t (k, x, c, i, j) = cc
  collected_complete (h ∷ hs) out t (k, x, c, i, j) = elim (contains-cons k h hs c) [
    | inl same ↦
        let here : get g h ≡ some x = ap (get g) (sym same) ∙ i in
        rw (here, j, collected) (collected-keeps hs (t ∷ out) t (contains_head t out))
    | inr later ↦ elim (Option-cases (get g h)) [
      | inl e ↦ rw (e, collected) (collected_complete hs out t (k, x, later, i, j))
      | inr (d, e) ↦ elim (Option-cases (f d)) [
        | inl n ↦ rw (e, n, collected) (collected_complete hs out t (k, x, later, i, j))
        | inr (u, n) ↦ rw (e, n, collected) (collected_complete hs (u ∷ out) t (k, x, later, i, j))
      ]
    ]
  ]

  -- `closure_collect` yields a value exactly if `f` yields it at some held delta of the closure of
  -- `parents`.
  pub closure_collect_lem :
      (parents : List DeltaHash) (t : T)
      → (Set.contains (closure_collect g parents f) t ≡ true) ↔ (
          (h : DeltaHash) × (d : SignedDelta V) × Below unskipped g parents h
          × (get g h ≡ some d)
          × (f d ≡ some t))
  closure_collect_lem parents t =
      let seen = visited_below g parents in
      let b = λ (h : DeltaHash). contains-visited_below g parents h in
      let c = contains-closure_collect parents t in
      (
        λ m. elim (collected_sound seen [] t (sym c ∙ m)) [
          | inl (h, d, k, e, n) ↦ (h, d, (b h).0 k, e, n)
          | inr k ↦ absurd (nothing t k)
        ],
        λ (h, d, w, e, n). c ∙ collected_complete seen [] t (h, d, (b h).1 w, e, n),
      )
