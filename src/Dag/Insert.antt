-- ===== src/Dag/Insert.antt =====
-- src/core/dag.rs, `DeltaDag::insert`: the store after insertions.
use did_crdt.Base.{
  ◌≡◌, ◌≢◌, refl, true, not, ◌||◌, ◌&&◌, List, [], ◌∷◌, some, if◌then◌else◌, arith, inl, inr,
  Bool-cases,
}
use did_crdt.Ord.{nat_ord, eq?}
use did_crdt.Ord.Text.{list_ord, text_ord}
use did_crdt.Std.Map
use did_crdt.Std.Map.{IsOrdered, is_some}
use did_crdt.Std.Map.Laws.{get-insert, insert-IsOrdered, IsOrdered-ext}
use did_crdt.Std.Set
use did_crdt.Std.Set.{IsAscending}
use did_crdt.Std.Set.Laws.{
  contains-insert, contains-remove, insert-IsAscending, remove-IsAscending, IsAscending-ext,
}
use did_crdt.Delta.{SignedDelta, DeltaHash, Payload, content_hash}
use did_crdt.Dag.{DeltaDag, new, get, contains, reference, insert}

module _ {V : Type 0} where
  -- The containers are ordered, the frontier is what is held and not referenced, and the parents of
  -- what is held are referenced.
  pub record IsValid (g : DeltaDag V) : Type 0 where
    pub held_ordered : IsOrdered g.by_hash
    pub referenced_ordered : IsAscending g.referenced
    pub frontier_ordered : IsAscending g.frontier
    pub frontier_leaves :
        (h : DeltaHash)
        → Set.contains g.frontier h ≡ (contains g h && not (Set.contains g.referenced h))
    pub parents_referenced :
        (h : DeltaHash) (d : SignedDelta V) (p : DeltaHash)
        → get g h ≡ some d
        → Set.contains d.parents p ≡ true
        → Set.contains g.referenced p ≡ true

  pub new-IsValid : IsValid new
  unfolding new contains get Map.get Set.contains
  new-IsValid = record {
    held_ordered = tt;
    referenced_ordered = tt;
    frontier_ordered = tt;
    frontier_leaves = λ h. refl;
    parents_referenced = λ h d p e m. cc;
  }

  by_hash-reference : (ps : List DeltaHash) (g : DeltaDag V) → (reference ps g).by_hash ≡ g.by_hash
  unfolding reference
  by_hash-reference [] g = refl
  by_hash-reference (p ∷ ps) g =
      by_hash-reference ps
        (record g { referenced = Set.insert p g.referenced; frontier = Set.remove p g.frontier })

  referenced-reference :
      (ps : List DeltaHash) (g : DeltaDag V) (h : DeltaHash)
      → Set.contains (reference ps g).referenced h
        ≡ (Set.contains ps h || Set.contains g.referenced h)
  unfolding reference Set.contains
  referenced-reference [] g h = refl
  referenced-reference (p ∷ ps) g h = ground (
    arith,
    referenced-reference ps
        (record g { referenced = Set.insert p g.referenced; frontier = Set.remove p g.frontier }) h,
    contains-insert p h g.referenced,
  )

  frontier-reference :
      (ps : List DeltaHash) (g : DeltaDag V) (h : DeltaHash)
      → Set.contains (reference ps g).frontier h
        ≡ (not (Set.contains ps h) && Set.contains g.frontier h)
  unfolding reference Set.contains
  frontier-reference [] g h = refl
  frontier-reference (p ∷ ps) g h = ground (
    arith,
    frontier-reference ps
        (record g { referenced = Set.insert p g.referenced; frontier = Set.remove p g.frontier }) h,
    contains-remove p h g.frontier,
  )

  reference-IsAscending :
      (ps : List DeltaHash) (g : DeltaDag V)
      → IsAscending g.referenced
      → IsAscending g.frontier
      → IsAscending (reference ps g).referenced × IsAscending (reference ps g).frontier
  unfolding reference
  reference-IsAscending [] g s t = (s, t)
  reference-IsAscending (p ∷ ps) g s t =
      reference-IsAscending ps
        (record g { referenced = Set.insert p g.referenced; frontier = Set.remove p g.frontier })
        (insert-IsAscending p g.referenced s) (remove-IsAscending p g.frontier t)

module _ {V : Type 0} (digest : Payload V → DeltaHash) where
  -- A delta is held under its hash; where the hash was held already, nothing changes.
  pub get-insert_delta :
      (d : SignedDelta V) (g : DeltaDag V) (h : DeltaHash)
      → get (insert digest d g) h ≡ (
          if eq? h (content_hash digest d) && not (contains g (content_hash digest d))
          then some d
          else get g h)
  unfolding insert get contains
  get-insert_delta d g h = ground (
    arith,
    get-insert (content_hash digest d) d h (reference d.parents g).by_hash,
    by_hash-reference d.parents g,
  )

  pub referenced-insert :
      (d : SignedDelta V) (g : DeltaDag V) (h : DeltaHash)
      → Set.contains (insert digest d g).referenced h ≡ (
          if contains g (content_hash digest d)
          then Set.contains g.referenced h
          else Set.contains d.parents h || Set.contains g.referenced h)
  unfolding insert
  referenced-insert d g h = ground (arith, referenced-reference d.parents g h)

  pub contains-insert_delta :
      (d : SignedDelta V) (g : DeltaDag V) (h : DeltaHash)
      → contains (insert digest d g) h ≡ (eq? h (content_hash digest d) || contains g h)
  unfolding contains
  contains-insert_delta d g h =
      ground (arith, get-insert_delta d g h, text_ord.eq_of_cmp h (content_hash digest d))

  -- The frontier after an insertion, by the test that `insert` makes.
  frontier-insert :
      (d : SignedDelta V) (g : DeltaDag V) (h : DeltaHash)
      → IsValid g
      → Set.contains (insert digest d g).frontier h
        ≡ (contains (insert digest d g) h && not (Set.contains (insert digest d g).referenced h))
  unfolding insert
  frontier-insert d g h v =
      let k = content_hash digest d in
      ground (
        arith,
        contains-insert_delta d g h,
        referenced-insert d g h,
        frontier-reference d.parents g h,
        referenced-reference d.parents g k,
        referenced-reference d.parents g h,
        contains-insert k h (reference d.parents g).frontier,
        v.frontier_leaves h,
        text_ord.eq_of_cmp h k,
      )

  insert_keeps_order :
      (d : SignedDelta V) (g : DeltaDag V)
      → IsValid g
      → IsOrdered (insert digest d g).by_hash
        × IsAscending (insert digest d g).referenced
        × IsAscending (insert digest d g).frontier
  unfolding insert
  insert_keeps_order d g v =
      let k = content_hash digest d in
      let ordered = reference-IsAscending d.parents g v.referenced_ordered v.frontier_ordered in
      let held : IsOrdered (Map.insert k d (reference d.parents g).by_hash) =
        insert-IsOrdered k d (reference d.parents g).by_hash
          (rw (by_hash-reference d.parents g) v.held_ordered) in
      let leaves = insert-IsAscending k (reference d.parents g).frontier ordered.1 in
      elim (Bool-cases (contains g k)) [
        | inl old ↦ rw (old, insert) (v.held_ordered, v.referenced_ordered, v.frontier_ordered)
        | inr new ↦ elim (Bool-cases (Set.contains (reference d.parents g).referenced k)) [
          | inl referenced ↦ rw (new, referenced, insert) (held, ordered.0, ordered.1)
          | inr leaf ↦ rw (new, leaf, insert) (held, ordered.0, leaves)
        ]
      ]

  -- Insertion keeps a valid store valid: its map and sets stay ordered, the frontier holds exactly
  -- the held hashes that no held delta references, and the parents of held deltas are referenced.
  pub insert-IsValid :
      (d : SignedDelta V) (g : DeltaDag V) → IsValid g → IsValid (insert digest d g)
  insert-IsValid d g v =
      let (held, referenced, frontier) = insert_keeps_order d g v in
      record {
        held_ordered = held;
        referenced_ordered = referenced;
        frontier_ordered = frontier;
        frontier_leaves = λ h. frontier-insert d g h v;
        parents_referenced = λ h e p f m. ground (
          arith,
          f,
          m,
          get-insert_delta d g h,
          referenced-insert d g p,
          v.parents_referenced h e p,
        );
      }

  -- Inserting a delta a second time changes nothing.
  pub insert_idem :
      (d : SignedDelta V) (g : DeltaDag V) → insert digest d (insert digest d g) ≡ insert digest d g
  insert_idem d g =
      let k = content_hash digest d in
      let held : contains (insert digest d g) k ≡ true =
        ground (arith, contains-insert_delta d g k, text_ord.cmp_refl k) in
      again (insert digest d g) held
    where
      again :
          (g' : DeltaDag V) → contains g' (content_hash digest d) ≡ true → insert digest d g' ≡ g'
      again g' e = unfold insert in rw (e, insert)

  -- Two stores with the same deltas and the same references are equal: the frontier is derived.
  pub IsValid-ext :
      (f g : DeltaDag V)
      → IsValid f
      → IsValid g
      → ((h : DeltaHash) → get f h ≡ get g h)
      → ((h : DeltaHash) → Set.contains f.referenced h ≡ Set.contains g.referenced h)
      → f ≡ g
  unfolding get contains
  IsValid-ext f g v w held referenced = ground (
    arith,
    IsOrdered-ext f.by_hash g.by_hash v.held_ordered w.held_ordered held,
    IsAscending-ext f.referenced g.referenced v.referenced_ordered w.referenced_ordered referenced,
    IsAscending-ext f.frontier g.frontier v.frontier_ordered w.frontier_ordered
        (λ h. ground (arith, v.frontier_leaves h, w.frontier_leaves h, held h, referenced h)),
  )

  -- Two deltas with different hashes can be inserted into a valid store in either order: a child
  -- may come before its parents, and the store, its frontier included, comes out the same.
  pub insert_comm :
      (c d : SignedDelta V) (g : DeltaDag V)
      → IsValid g
      → content_hash digest c ≢ content_hash digest d
      → insert digest c (insert digest d g) ≡ insert digest d (insert digest c g)
  insert_comm c d g v ne =
      let k = content_hash digest c in
      let j = content_hash digest d in
      IsValid-ext (insert digest c (insert digest d g)) (insert digest d (insert digest c g))
        (insert-IsValid c (insert digest d g) (insert-IsValid d g v))
        (insert-IsValid d (insert digest c g) (insert-IsValid c g v))
        (λ h. ground (
          arith,
          get-insert_delta c (insert digest d g) h,
          get-insert_delta d g h,
          get-insert_delta d (insert digest c g) h,
          get-insert_delta c g h,
          contains-insert_delta d g k,
          contains-insert_delta c g j,
          text_ord.eq_of_cmp h k,
          text_ord.eq_of_cmp h j,
          text_ord.eq_of_cmp k j,
          text_ord.eq_of_cmp j k,
        ))
        (λ h. ground (
          arith,
          referenced-insert c (insert digest d g) h,
          referenced-insert d g h,
          referenced-insert d (insert digest c g) h,
          referenced-insert c g h,
          contains-insert_delta d g k,
          contains-insert_delta c g j,
          text_ord.eq_of_cmp k j,
          text_ord.eq_of_cmp j k,
        ))
