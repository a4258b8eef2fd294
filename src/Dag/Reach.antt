-- ===== src/Dag/Reach.antt =====
-- src/core/dag.rs: what a search can reach, the hashes below its roots along the parents of what is
-- held, and the work that it has left.
use did_crdt.Base.{
  ℕ, ◌+◌, ◌≤◌, ◌≡◌, refl, sym, ◌∙◌, Bool, true, false, not, ◌||◌, ◌&&◌, List, [], ◌∷◌, some, length,
  if◌then◌else◌, arith, inl, inr, ◌⊎◌, Bool-cases, Option-cases,
}
use did_crdt.Ord.{nat_ord}
use did_crdt.Ord.Text.{list_ord, text_ord}
use did_crdt.Std.Map
use did_crdt.Std.Map.{Map}
use did_crdt.Std.Set
use did_crdt.Std.Set.Laws.{contains-insert}
use did_crdt.Delta.{SignedDelta, DeltaHash}
use did_crdt.Dag.{DeltaDag, get, push_unvisited, descend, edges}

-- The causal closure of `roots`: they and their ancestors, with what is not held at its edge, and
-- without what `skip` holds back.
pub data Below {V : Type 0} (skip : DeltaHash → Bool) (g : DeltaDag V) (roots : List DeltaHash)
    : DeltaHash → Type 0 where
  root : {h : DeltaHash} → Set.contains roots h ≡ true → skip h ≡ false → Below skip g roots h
  up :
      {h p : DeltaHash} {d : SignedDelta V}
      → Below skip g roots h
      → get g h ≡ some d
      → Set.contains d.parents p ≡ true
      → skip p ≡ false
      → Below skip g roots p

module _ {V : Type 0} (skip : DeltaHash → Bool) (g : DeltaDag V) where
  pub Below-mono :
      (rs ss : List DeltaHash) {h : DeltaHash}
      → ((x : DeltaHash) → Set.contains rs x ≡ true → skip x ≡ false → Below skip g ss x)
      → Below skip g rs h
      → Below skip g ss h
  Below-mono rs ss f (root {h} m k) = f h m k
  Below-mono rs ss f (up b e m k) = up (Below-mono rs ss f b) e m k

  pub Below-not_skipped : {rs : List DeltaHash} {h : DeltaHash} → Below skip g rs h → skip h ≡ false
  Below-not_skipped (root m k) = k
  Below-not_skipped (up b e m k) = k

contains-push_unvisited :
    (visited ps stack : List DeltaHash) (x : DeltaHash)
    → Set.contains (push_unvisited visited ps stack) x
      ≡ (Set.contains ps x && not (Set.contains visited x) || Set.contains stack x)
unfolding push_unvisited Set.contains
contains-push_unvisited visited [] stack x = refl
contains-push_unvisited visited (p ∷ ps) stack x = ground (
  arith,
  contains-push_unvisited visited ps (if Set.contains visited p then stack else p ∷ stack) x,
  text_ord.eq_of_cmp x p,
)

length-push_unvisited :
    (visited ps stack : List DeltaHash)
    → length (push_unvisited visited ps stack) ≤ length ps + length stack
unfolding push_unvisited
length-push_unvisited visited [] stack = omega arith
length-push_unvisited visited (p ∷ ps) stack =
    ground (
      arith,
      length-push_unvisited visited ps (if Set.contains visited p then stack else p ∷ stack),
    )

module _ {V : Type 0} where
  edges-le :
      (h : DeltaHash) (visited : List DeltaHash) (m : Map DeltaHash (SignedDelta V))
      → edges (Set.insert h visited) m ≤ edges visited m
  unfolding edges
  edges-le h visited [] = omega arith
  edges-le h visited ((k, d) ∷ m) =
      ground (arith, edges-le h visited m, contains-insert h k visited)

  -- A visit of a held hash uses up the edges to its parents.
  edges-visit :
      (h : DeltaHash) (d : SignedDelta V) (visited : List DeltaHash)
      (m : Map DeltaHash (SignedDelta V))
      → Map.get m h ≡ some d
      → Set.contains visited h ≡ false
      → edges (Set.insert h visited) m + length d.parents ≤ edges visited m
  unfolding edges Map.get
  edges-visit h d visited [] e new = cc
  edges-visit h d visited ((k, x) ∷ m) e new = ground (
    arith,
    e,
    new,
    edges-visit h d visited m,
    edges-le h visited m,
    contains-insert h k visited,
    text_ord.eq_of_cmp h k,
    text_ord.eq_of_cmp k h,
    text_ord.cmp_refl h,
  )

  -- The measure of the loop: what is on the stack, and what can still be put there.
  abbrev pub work : DeltaDag V → List DeltaHash → List DeltaHash → ℕ
  work g stack visited = length stack + edges visited g.by_hash

  pub work-descend :
      (g : DeltaDag V) (h : DeltaHash) (stack visited : List DeltaHash)
      → Set.contains visited h ≡ false
      → work g (descend g (Set.insert h visited) h stack) (Set.insert h visited)
        ≤ length stack + edges visited g.by_hash
  unfolding descend get
  work-descend g h stack visited new = elim (Option-cases (Map.get g.by_hash h)) [
    | inl e ↦ rw (e, descend, get) (omega (arith, edges-le h visited g.by_hash))
    | inr (d, e) ↦
        rw (e, descend, get)
          (omega (
            arith,
            edges-visit h d visited g.by_hash e new,
            length-push_unvisited (Set.insert h visited) d.parents stack,
          ))
  ]

module _ {V : Type 0} (skip : DeltaHash → Bool) (g : DeltaDag V) where
  pub contains-descend :
      (h : DeltaHash) (stack visited : List DeltaHash) (x : DeltaHash)
      → Set.contains (descend g visited h stack) x ≡ true
      → (Set.contains stack x ≡ true)
        ⊎ ((d : SignedDelta V) × (get g h ≡ some d) × (Set.contains d.parents x ≡ true))
  unfolding descend
  contains-descend h stack visited x m = elim (Option-cases (get g h)) [
    | inl e ↦ inl (rw (e, descend) at m)
    | inr (d, e) ↦
        go d e (Bool-cases (Set.contains stack x))
          (sym (contains-push_unvisited visited d.parents stack x) ∙ (rw (e, descend) at m))
  ]
    where
      go :
          (d : SignedDelta V)
          → get g h ≡ some d
          → (Set.contains stack x ≡ true) ⊎ (Set.contains stack x ≡ false)
          → (Set.contains d.parents x && not (Set.contains visited x) || Set.contains stack x)
            ≡ true
          → (Set.contains stack x ≡ true)
            ⊎ ((d : SignedDelta V) × (get g h ≡ some d) × (Set.contains d.parents x ≡ true))
      go d e (inl old) n = inl old
      go d e (inr new) n = inr (d, e, ground (arith, n, new))

  -- The parents of a hash that is held are visited, or on the stack after it is.
  pub descend-parents :
      (h : DeltaHash) (stack visited : List DeltaHash) (d : SignedDelta V) (p : DeltaHash)
      → get g h ≡ some d
      → Set.contains d.parents p ≡ true
      → (Set.contains visited p || Set.contains (descend g visited h stack) p) ≡ true
  unfolding descend
  descend-parents h stack visited d p e m =
      rw (e, descend) (ground (arith, m, contains-push_unvisited visited d.parents stack p))

  pub descend-stack :
      (h : DeltaHash) (stack visited : List DeltaHash) (x : DeltaHash)
      → Set.contains stack x ≡ true
      → Set.contains (descend g visited h stack) x ≡ true
  unfolding descend
  descend-stack h stack visited x m = elim (Option-cases (get g h)) [
    | inl e ↦ rw (e, descend) m
    | inr (d, e) ↦
        rw (e, descend) (ground (arith, m, contains-push_unvisited visited d.parents stack x))
  ]
