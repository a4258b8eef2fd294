-- ===== src/Dag/Find.antt =====
-- src/core/dag.rs: what `closure_find` and `closure_complete` answer.
use did_crdt.Base.{
  ◌≡◌, ◌≢◌, refl, sym, ap, ◌∙◌, Bool, true, false, List, [], ◌∷◌, reverse, none, some, arith, inl,
  inr, ◌↔◌, Bool-cases, Option-cases,
}
use did_crdt.Ord.{nat_ord}
use did_crdt.Ord.Text.{list_ord}
use did_crdt.Std.Map.{is_some}
use did_crdt.Std.Set
use did_crdt.Std.Set.{IsAscending}
use did_crdt.Std.Set.Laws.{contains_head, contains-reverse}
use did_crdt.Std.Sort.{sort_dedup, contains-sort_dedup, sort_dedup-IsAscending}
use did_crdt.Delta.{SignedDelta, DeltaHash}
use did_crdt.Dag.{
  DeltaDag, ClosureQuery, found, not_found, incomplete, next, get, contains, rounds, find_body,
  find_end, closure_find, closure_complete,
}
use did_crdt.Dag.Closure.{
  unskipped, visited_below, contains-visited_below, Hit, absent, contains-absent, run-find_body,
  Answers,
}
use did_crdt.Dag.Reach.{Below}
use did_crdt.Dag.Walk.{run, search_loop-trace}

module _ {V : Type 0} (g : DeltaDag V) where
  -- The search as a run along what it visits.
  closure_find-run :
      (parents : List DeltaHash) (pred : SignedDelta V → Bool)
      → closure_find g parents pred ≡ find_end (run (find_body pred) g (visited_below g parents) [])
  unfolding closure_find
  closure_find-run parents pred = ap find_end (
      search_loop-trace unskipped (find_body pred) g (rounds g (reverse parents)) (reverse parents)
        [] [])

  -- What is visited and not held.
  absent-Below :
      (parents : List DeltaHash) (h : DeltaHash)
      → (Set.contains (absent g (visited_below g parents) []) h ≡ true)
        ↔ (Below unskipped g parents h × (get g h ≡ none))
  unfolding Set.contains contains
  absent-Below parents h =
      let c = contains-absent g (visited_below g parents) [] h in
      let b = contains-visited_below g parents h in
      (λ m. ground (arith, m, c, b.0), λ (w, e). ground (arith, b.1 w, e, c))

  -- Where no delta that is visited satisfies the predicate, none below does.
  miss-Below :
      (parents : List DeltaHash) (pred : SignedDelta V → Bool)
      → ¬ Hit g pred (visited_below g parents)
      → (h : DeltaHash) (d : SignedDelta V) → Below unskipped g parents h
      → get g h ≡ some d
      → pred d ≡ false
  miss-Below parents pred miss h d b e = elim (Bool-cases (pred d)) [
    | inl p ↦ absurd (miss (h, d, (contains-visited_below g parents h).1 b, e, p))
    | inr q ↦ q
  ]

  not_empty : (h : DeltaHash) (hs : List DeltaHash) → Set.contains hs h ≡ true → hs ≢ []
  unfolding Set.contains
  not_empty h [] m e = cc
  not_empty h (x ∷ xs) m e = cc

  Answers-miss :
      (parents : List DeltaHash) (pred : SignedDelta V → Bool) (ms : List DeltaHash)
      → absent g (visited_below g parents) [] ≡ ms
      → ¬ Hit g pred (visited_below g parents)
      → Answers g pred parents (find_end (next ms))
  unfolding find_end Set.contains
  Answers-miss parents pred [] e miss = λ h b. elim (Option-cases (get g h)) [
    | inl gone ↦ absurd (cc (e, (absent-Below parents h).1 (b, gone)))
    | inr (d, held) ↦ (d, held, miss-Below parents pred miss h d b held)
  ]
  Answers-miss parents pred (m ∷ ms) e miss =
      let out = reverse (m ∷ ms) in
      let listed : (h : DeltaHash) → Set.contains (sort_dedup out) h ≡ Set.contains (m ∷ ms) h =
        λ h. contains-sort_dedup h out ∙ contains-reverse (m ∷ ms) h in
      (
        sort_dedup-IsAscending out,
        not_empty m (sort_dedup out) (listed m ∙ contains_head m ms),
        λ h.
            let a = absent-Below parents h in
            (
              λ c. a.0 (ap (λ hs. Set.contains hs h) e ∙ sym (listed h) ∙ c),
              λ b. listed h ∙ ap (λ hs. Set.contains hs h) (sym e) ∙ a.1 b,
            ),
        miss-Below parents pred miss,
      )

  -- Each answer of `closure_find` says exactly what it should of the closure of `parents`: `found`,
  -- that some held delta there satisfies the predicate; `not_found`, that everything there is held
  -- and nothing satisfies it; `incomplete`, that nothing held there satisfies it and that the
  -- listed hashes, ascending and at least one, are those there that are not held.
  pub closure_find_lem :
      (parents : List DeltaHash) (pred : SignedDelta V → Bool)
      → Answers g pred parents (closure_find g parents pred)
  unfolding find_end
  closure_find_lem parents pred =
      rw (closure_find-run parents pred) (elim (run-find_body g pred (visited_below g parents) []) [
        | inl (hit, r) ↦
            rw r
              (let (h, d, m, e, p) = hit in (h, d, (contains-visited_below g parents h).0 m, e, p))
        | inr (miss, r) ↦ rw r (Answers-miss parents pred _ refl miss)
      ])

  -- `closure_complete` is true exactly if every hash in the closure of `parents` is held.
  pub closure_complete_lem :
      (parents : List DeltaHash)
      → (closure_complete g parents ≡ true)
        ↔ ((h : DeltaHash) → Below unskipped g parents h → contains g h ≡ true)
  unfolding closure_complete contains
  closure_complete_lem parents =
      go (closure_find g parents (λ _. false)) (closure_find_lem parents (λ _. false))
    where
      go :
          (q : ClosureQuery)
          → Answers g (λ _. false) parents q
          → ((elim q as (λ _. Bool) [ not_found ↦ true | _ ↦ false ]) ≡ true)
            ↔ ((h : DeltaHash) → Below unskipped g parents h → is_some (get g h) ≡ true)
      go found (h, d, b, e, p) = (λ c. cc, λ c. cc)
      go not_found all = (λ c h b. let (d, e, p) = all h b in rw e, λ c. refl)
      go (incomplete []) (s, ne, listed, none_hit) = (λ c. cc, λ c. absurd (ne refl))
      go (incomplete (m ∷ ms)) (s, ne, listed, none_hit) =
          (λ c. cc, λ c. let (b, e) = (listed m).0 (contains_head m ms) in cc (e, c m b))
