-- ===== src/Dag/Trace.antt =====
-- src/core/dag.rs: the trace of a search against the hashes below its roots.
use did_crdt.Base.{
  ℕ, zero, suc, ◌<◌, ◌≡◌, Bool, true, false, ◌||◌, List, [], ◌∷◌, some, arith, inl, inr, ◌↔◌,
  Bool-cases,
}
use did_crdt.Ord.{nat_ord}
use did_crdt.Ord.Text.{list_ord, text_ord}
use did_crdt.Std.Set
use did_crdt.Std.Set.Laws.{contains-insert, contains-cons, contains_head, contains_tail}
use did_crdt.Delta.{SignedDelta, DeltaHash}
use did_crdt.Dag.{DeltaDag, get, descend, rounds}
use did_crdt.Dag.Reach.{
  Below, root, up, Below-mono, work, work-descend, contains-descend, descend-parents, descend-stack,
}
use did_crdt.Dag.Walk.{trace}

module _ {V : Type 0} (skip : DeltaHash → Bool) (g : DeltaDag V) where
  wider :
      (h : DeltaHash) (stack : List DeltaHash) {x : DeltaHash}
      → Below skip g stack x
      → Below skip g (h ∷ stack) x
  wider h stack = Below-mono skip g stack (h ∷ stack) (λ x m k. root (contains_tail x h stack m) k)

  -- What lies below the stack after a visit lies below the stack before it.
  before_visit :
      (h : DeltaHash) (stack visited : List DeltaHash) {x : DeltaHash}
      → skip h ≡ false
      → Below skip g (descend g visited h stack) x
      → Below skip g (h ∷ stack) x
  before_visit h stack visited kept =
      Below-mono skip g (descend g visited h stack) (h ∷ stack) (λ x m k.
        elim (contains-descend skip g h stack visited x m) [
          | inl old ↦ root (contains_tail x h stack old) k
          | inr (d, e, parent) ↦ up (root (contains_head h stack) kept) e parent k
        ])

  -- What the search visits lies below its stack.
  pub trace-Below :
      (fuel : ℕ) (stack visited : List DeltaHash) (x : DeltaHash)
      → Set.contains (trace skip g fuel stack visited) x ≡ true
      → Below skip g stack x
  unfolding trace Set.contains
  trace-Below zero stack visited x m = absurd (cc)
  trace-Below (suc fuel) [] visited x m = absurd (cc)
  trace-Below (suc fuel) (h ∷ stack) visited x m =
      elim (Bool-cases (skip h || Set.contains visited h)) [
        | inl old ↦ wider h stack (trace-Below fuel stack visited x (rw (old, trace) at m))
        | inr new ↦
            let visited' = Set.insert h visited in
            let kept : skip h ≡ false = ground (arith, new) in
            elim (contains-cons x h (trace skip g fuel (descend g visited' h stack) visited')
              (rw (new, trace) at m)) [
                | inl e ↦ rw e (root (contains_head h stack) kept)
                | inr later ↦
                    before_visit h stack visited' kept
                      (trace-Below fuel (descend g visited' h stack) visited' x later)
              ]
      ]

  -- It visits nothing that was visited already.
  pub trace_fresh :
      (fuel : ℕ) (stack visited : List DeltaHash) (x : DeltaHash)
      → Set.contains (trace skip g fuel stack visited) x ≡ true
      → Set.contains visited x ≡ false
  unfolding trace Set.contains
  trace_fresh zero stack visited x m = absurd (cc)
  trace_fresh (suc fuel) [] visited x m = absurd (cc)
  trace_fresh (suc fuel) (h ∷ stack) visited x m =
      elim (Bool-cases (skip h || Set.contains visited h)) [
        | inl old ↦ trace_fresh fuel stack visited x (rw (old, trace) at m)
        | inr new ↦
            let visited' = Set.insert h visited in
            elim (contains-cons x h (trace skip g fuel (descend g visited' h stack) visited')
              (rw (new, trace) at m)) [
                | inl e ↦ rw e (ground (arith, new))
                | inr later ↦ ground (
                  arith,
                  trace_fresh fuel (descend g visited' h stack) visited' x later,
                  contains-insert h x visited,
                )
              ]
      ]

  -- A hash was visited before, or is visited now.
  abbrev Done : List DeltaHash → List DeltaHash → DeltaHash → Type 0
  Done visited seen x = (Set.contains visited x || Set.contains seen x) ≡ true

  -- After a search its stack is done, and with each hash its parents.
  abbrev IsClosed : List DeltaHash → List DeltaHash → List DeltaHash → Type 0
  IsClosed stack visited seen =
      ((x : DeltaHash) → Set.contains stack x ≡ true → skip x ≡ false → Done visited seen x)
      × ((h : DeltaHash) (d : SignedDelta V) (p : DeltaHash)
          → Set.contains seen h ≡ true
          → get g h ≡ some d
          → Set.contains d.parents p ≡ true
          → skip p ≡ false
          → Done visited seen p)

  -- A visit of `h` after which the search is closed makes it closed from before the visit.
  IsClosed-visit :
      (h : DeltaHash) (stack visited seen : List DeltaHash)
      → IsClosed (descend g (Set.insert h visited) h stack) (Set.insert h visited) seen
      → IsClosed (h ∷ stack) visited (h ∷ seen)
  unfolding Set.contains
  IsClosed-visit h stack visited seen c =
      let visited' = Set.insert h visited in
      (
        λ x m k. ground (
          arith,
          m,
          descend-stack skip g h stack visited' x,
          c.0 x,
          k,
          contains-insert h x visited,
        ),
        λ y d p m e parent k. ground (
          arith,
          m,
          c.0 p,
          c.1 y d p,
          e,
          parent,
          k,
          descend-parents skip g h stack visited' d p,
          text_ord.eq_of_cmp y h,
          contains-insert h p visited,
        ),
      )

  IsClosed-trace :
      (fuel : ℕ) (stack visited : List DeltaHash)
      → work g stack visited < fuel
      → IsClosed stack visited (trace skip g fuel stack visited)
  unfolding trace
  IsClosed-trace zero stack visited h = absurd (omega arith)
  IsClosed-trace (suc fuel) [] visited h =
      unfold Set.contains in (λ x m k. absurd (cc), λ y d p m e parent k. absurd (cc))
  IsClosed-trace (suc fuel) (h ∷ stack) visited enough =
      elim (Bool-cases (skip h || Set.contains visited h)) [
        | inl old ↦
            let rest = IsClosed-trace fuel stack visited (omega arith) in
            rw (old, trace)
              ((
                λ x m k. elim (contains-cons x h stack m) [
                  | inl e ↦ ground (arith, e, old, k)
                  | inr later ↦ rest.0 x later k
                ],
                rest.1,
              ))
        | inr new ↦
            let visited' = Set.insert h visited in
            let fresh : Set.contains visited h ≡ false = ground (arith, new) in
            let rest =
              IsClosed-trace fuel (descend g visited' h stack) visited'
                (omega (arith, work-descend g h stack visited fresh)) in
            rw (new, trace)
              (IsClosed-visit h stack visited
                (trace skip g fuel (descend g visited' h stack) visited') rest)
      ]

  -- What is closed from an empty visited set holds everything below its stack.
  IsClosed-Below :
      (roots seen : List DeltaHash) {x : DeltaHash}
      → IsClosed roots [] seen
      → Below skip g roots x
      → Set.contains seen x ≡ true
  unfolding Set.contains
  IsClosed-Below roots seen c (root {h = y} m k) = c.0 y m k
  IsClosed-Below roots seen c (up {h} {p} {d} b e m k) =
      c.1 h d p (IsClosed-Below roots seen c b) e m k

  -- With enough rounds, a search from an empty visited set visits exactly what lies below its roots.
  pub contains-trace :
      (roots : List DeltaHash) (x : DeltaHash)
      → (Set.contains (trace skip g (rounds g roots) roots []) x ≡ true) ↔ Below skip g roots x
  unfolding rounds
  contains-trace roots x = (
    trace-Below (rounds g roots) roots [] x,
    IsClosed-Below roots (trace skip g (rounds g roots) roots [])
        (IsClosed-trace (rounds g roots) roots [] (omega arith)),
  )
