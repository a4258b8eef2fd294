-- ===== src/Dag/Walk.antt =====
-- src/core/dag.rs: the search loop as a fold of its body over a trace, the hashes that it visits,
-- in order.
use did_crdt.Base.{
  ℕ, zero, suc, ◌≡◌, refl, ap, fun_ext, Bool, true, false, ◌||◌, List, [], ◌∷◌, Option, inl, inr,
  Bool-cases,
}
use did_crdt.Ord.{nat_ord}
use did_crdt.Ord.Text.{list_ord}
use did_crdt.Std.Set
use did_crdt.Delta.{SignedDelta, DeltaHash}
use did_crdt.Dag.{◌>>=◌, DeltaDag, Flow, next, get, descend, search_loop}

module _ {V : Type 0} where
  -- The hashes at which the body runs, if it never returns.
  unfoldable pub trace :
      (DeltaHash → Bool) → DeltaDag V → ℕ → List DeltaHash → List DeltaHash → List DeltaHash
  trace skip g zero stack visited = []
  trace skip g (suc fuel) [] visited = []
  trace skip g (suc fuel) (h ∷ stack) visited = elim (skip h || Set.contains visited h) [
    | true ↦ trace skip g fuel stack visited
    | false ↦
        h ∷ trace skip g fuel (descend g (Set.insert h visited) h stack) (Set.insert h visited)
  ]

  unfoldable pub run :
      {S R : Type 0}
      → (DeltaHash → Option (SignedDelta V) → S → Flow S R)
      → DeltaDag V
      → List DeltaHash
      → S
      → Flow S R
  run body g [] s = next s
  run body g (h ∷ hs) s = do s' ← body h (get g h) s; run body g hs s'

  -- The loop runs its body along the trace, until it returns.
  pub search_loop-trace :
      {S R : Type 0} (skip : DeltaHash → Bool)
      (body : DeltaHash → Option (SignedDelta V) → S → Flow S R) (g : DeltaDag V) (fuel : ℕ)
      (stack visited : List DeltaHash) (s : S)
      → search_loop skip body g fuel stack visited s
        ≡ run body g (trace skip g fuel stack visited) s
  unfolding search_loop trace run
  search_loop-trace skip body g zero stack visited s = refl
  search_loop-trace skip body g (suc fuel) [] visited s = refl
  search_loop-trace skip body g (suc fuel) (h ∷ stack) visited s =
      let rest =
        search_loop-trace skip body g fuel (descend g (Set.insert h visited) h stack)
          (Set.insert h visited) in
      elim (Bool-cases (skip h || Set.contains visited h)) [
        | inl old ↦
            rw (old, search_loop, trace) (search_loop-trace skip body g fuel stack visited s)
        | inr new ↦
            rw (new, search_loop, trace, run) (ap (◌>>=◌ (body h (get g h) s)) (fun_ext rest))
      ]
