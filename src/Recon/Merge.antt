-- ===== src/Recon/Merge.antt =====
-- src/core/recon.rs: what `merge_bundle` accepts, and what it leaves.
use did_crdt.Base.{
  ◌-◌, subst, ◌≡◌, sym, ◌∙◌, Bool, true, false, ◌||◌, ◌&&◌, List, [], ◌∷◌, some, all, arith, ◌⊎◌,
  inl, inr, Bool-cases,
}
use did_crdt.Ord.{nat_ord, eq?}
use did_crdt.Ord.Text.{list_ord, text_ord}
use did_crdt.Std.Set
use did_crdt.Std.Set.Laws.{contains-insert}
use did_crdt.Error.{delta_rejected, ok, err}
use did_crdt.Delta.{DeltaHash, SignedDelta, Payload, content_hash}
use did_crdt.Dag.{len, DeltaDag, get, contains, insert}
use did_crdt.Dag.Insert.{get-insert_delta, contains-insert_delta, IsValid, insert-IsValid}
use did_crdt.Recon.{ClosureBundle, hashes_of, grounded, insert_all, merge_bundle}

module _ {V : Type 0} where
  -- Every parent of a held delta satisfies `P`.
  abbrev pub ParentsIn : (DeltaHash → Bool) → DeltaDag V → Type 0
  ParentsIn P g =
      (h : DeltaHash) (d : SignedDelta V) (p : DeltaHash)
      → get g h ≡ some d
      → Set.contains d.parents p ≡ true
      → P p ≡ true

  -- Every parent of a held delta is held.
  abbrev pub IsClosed : DeltaDag V → Type 0
  IsClosed g = ParentsIn (contains g) g

all-contains :
    (P : DeltaHash → Bool) (ps : List DeltaHash) (p : DeltaHash)
    → all P ps ≡ true
    → Set.contains ps p ≡ true
    → P p ≡ true
unfolding Set.contains
all-contains P [] p a m = cc
all-contains P (q ∷ ps) p a m = ground (arith, a, m, text_ord.eq_of_cmp p q, all-contains P ps p)

module _ {V : Type 0} (digest : Payload V → DeltaHash) where
  contains-hashes_of :
      (d : SignedDelta V) (ds : List (SignedDelta V)) (h : DeltaHash)
      → Set.contains (hashes_of digest (d ∷ ds)) h
        ≡ (eq? h (content_hash digest d) || Set.contains (hashes_of digest ds) h)
  unfolding hashes_of
  contains-hashes_of d ds h = contains-insert (content_hash digest d) h (hashes_of digest ds)

  contains-insert_all :
      (ds : List (SignedDelta V)) (g : DeltaDag V) (h : DeltaHash)
      → contains (insert_all digest ds g) h ≡ (contains g h || Set.contains (hashes_of digest ds) h)
  unfolding insert_all hashes_of Set.contains
  contains-insert_all [] g h = ground arith
  contains-insert_all (d ∷ ds) g h = ground (
    arith,
    contains-insert_all ds (insert digest d g) h,
    contains-insert_delta digest d g h,
    contains-insert (content_hash digest d) h (hashes_of digest ds),
  )

  insert_all-ParentsIn :
      (P : DeltaHash → Bool) (ds : List (SignedDelta V)) (g : DeltaDag V)
      → all (λ d. all P d.parents) ds ≡ true
      → ParentsIn P g
      → ParentsIn P (insert_all digest ds g)
  unfolding insert_all
  insert_all-ParentsIn P [] g a c = c
  insert_all-ParentsIn P (d ∷ ds) g a c =
      insert_all-ParentsIn P ds (insert digest d g) (ground (arith, a)) (λ h e p f m.
        ground (arith, f, m, a, get-insert_delta digest d g h, c h e p, all-contains P d.parents p))

  insert_all-IsValid :
      (ds : List (SignedDelta V)) (g : DeltaDag V) → IsValid g → IsValid (insert_all digest ds g)
  unfolding insert_all
  insert_all-IsValid [] g v = v
  insert_all-IsValid (d ∷ ds) g v =
      insert_all-IsValid ds (insert digest d g) (insert-IsValid digest d g v)

  -- The store after a bundle that is accepted.
  merge_bundle-accepts :
      (b : ClosureBundle V) (g : DeltaDag V)
      → Set.contains (hashes_of digest b.deltas) b.target ≡ true
      → grounded digest g (hashes_of digest b.deltas) b.deltas ≡ true
      → (merge_bundle digest b g).0 ≡ insert_all digest b.deltas g
  unfolding merge_bundle
  merge_bundle-accepts b g e f = rw (e, f)

  insert_all-IsClosed :
      (ds : List (SignedDelta V)) (g : DeltaDag V)
      → grounded digest g (hashes_of digest ds) ds ≡ true
      → IsClosed g
      → IsClosed (insert_all digest ds g)
  unfolding grounded
  insert_all-IsClosed ds g f c h d p e m =
      contains-insert_all ds g p
      ∙ insert_all-ParentsIn (λ q. contains g q || Set.contains (hashes_of digest ds) q) ds g f
          (λ i x q a b. rw (c i x q a b)) h d p e m

  holds_target :
      (b : ClosureBundle V) (g : DeltaDag V)
      → Set.contains (hashes_of digest b.deltas) b.target ≡ true
      → grounded digest g (hashes_of digest b.deltas) b.deltas ≡ true
      → contains (merge_bundle digest b g).0 b.target ≡ true
  holds_target b g e f =
      rw (merge_bundle-accepts b g e f) (ground (arith, e, contains-insert_all b.deltas g b.target))

  -- Into a valid store that holds the parents of what it holds, a bundle that lacks its target or
  -- has a dangling parent is not merged: the call is an error and the store stays as it was. Any
  -- other bundle is merged: the call returns the growth in size, the target is then held, the store
  -- holds exactly what it held before and what the bundle carries, it is valid, and it holds the
  -- parents of what it holds.
  pub merge_bundle_lem :
      (b : ClosureBundle V) (g : DeltaDag V)
      → IsValid g
      → IsClosed g
      → (((merge_bundle digest b g).0 ≡ g)
          × ((merge_bundle digest b g).1 ≡ err delta_rejected)
          × (Set.contains (hashes_of digest b.deltas) b.target
                && grounded digest g (hashes_of digest b.deltas) b.deltas
              ≡ false))
        ⊎ (((merge_bundle digest b g).1 ≡ ok (len (merge_bundle digest b g).0 - len g))
            × (contains (merge_bundle digest b g).0 b.target ≡ true)
            × ((h : DeltaHash)
                → contains (merge_bundle digest b g).0 h
                  ≡ (contains g h || Set.contains (hashes_of digest b.deltas) h))
            × IsValid (merge_bundle digest b g).0
            × IsClosed (merge_bundle digest b g).0)
  unfolding merge_bundle grounded hashes_of
  merge_bundle_lem b g v c = elim (Bool-cases (Set.contains (hashes_of digest b.deltas) b.target)) [
    | inr e ↦ inl (rw (e), rw (e), rw (e))
    | inl e ↦ elim (Bool-cases (grounded digest g (hashes_of digest b.deltas) b.deltas)) [
      | inr f ↦ inl (rw (e, f), rw (e, f), rw (e, f))
      | inl f ↦ inr (
        rw (e, f),
        holds_target b g e f,
        λ h. rw (merge_bundle-accepts b g e f, contains-insert_all b.deltas g h),
        subst IsValid (sym (merge_bundle-accepts b g e f)) (insert_all-IsValid b.deltas g v),
        subst IsClosed (sym (merge_bundle-accepts b g e f)) (insert_all-IsClosed b.deltas g f c),
      )
    ]
  ]
