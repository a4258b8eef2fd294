-- ===== src/Document/Verified/Replay.antt =====
-- src/core/document.rs, `merge_verified_bundle`: the index of a bundle and the replay of its order.
use did_crdt.Base.{
  ◌∙◌, ap, ◌≡◌, sym, subst, refl, true, false, ◌||◌, ◌⊎◌, inl, inr, Option, some, List, [], ◌∷◌,
  arith, Bool-cases, Option-cases,
}
use did_crdt.Ord.{nat_ord}
use did_crdt.Ord.Text.{list_ord, text_ord}
use did_crdt.Std.Map
use did_crdt.Std.Map.{Map, contains_key, IsOrdered}
use did_crdt.Std.Map.Laws.{get-insert, insert-IsOrdered}
use did_crdt.Std.Set
use did_crdt.Std.Set.Laws.{contains-insert}
use did_crdt.Error.{Error, Result, ok, err, Result-cases}
use did_crdt.Delta.{DeltaHash, SignedDelta, content_hash}
use did_crdt.Dag
use did_crdt.Recon.{hashes_of}
use did_crdt.Validate.Signature.{Crypto, verify_signature}
use did_crdt.Document.{Crates, Document, merge}
use did_crdt.Document.Verified.{index_bundle, replay_bundle}
use did_crdt.Document.Verified.Signed.{Authentic, more, dag-merge}

module _ {V : Type 0} (k : Crypto V) (c : Crates V) where
  -- Each delta stands under its own hash.
  abbrev pub IsIndex : Map DeltaHash (SignedDelta V) → Type 0
  IsIndex m =
      (h : DeltaHash) (d : SignedDelta V) → Map.get m h ≡ some d → content_hash c.digest d ≡ h

  pub index_bundle-IsOrdered :
      (ds : List (SignedDelta V)) (m : Map DeltaHash (SignedDelta V))
      → IsOrdered m
      → IsOrdered (index_bundle k c ds m)
  unfolding index_bundle
  index_bundle-IsOrdered [] m s = s
  index_bundle-IsOrdered (d ∷ ds) m s =
      index_bundle-IsOrdered ds (Map.insert (content_hash c.digest d) d m)
        (insert-IsOrdered (content_hash c.digest d) d m s)

  pub index_bundle-IsIndex :
      (ds : List (SignedDelta V)) (m : Map DeltaHash (SignedDelta V))
      → IsIndex m
      → IsIndex (index_bundle k c ds m)
  unfolding index_bundle
  index_bundle-IsIndex [] m i = i
  index_bundle-IsIndex (d ∷ ds) m i =
      index_bundle-IsIndex ds (Map.insert (content_hash c.digest d) d m) (λ h e g. ground (
        arith,
        g,
        i h e,
        get-insert (content_hash c.digest d) d h m,
        text_ord.eq_of_cmp h (content_hash c.digest d),
      ))

  pub contains_key-index_bundle :
      (ds : List (SignedDelta V)) (m : Map DeltaHash (SignedDelta V)) (h : DeltaHash)
      → contains_key (index_bundle k c ds m) h
        ≡ (contains_key m h || Set.contains (hashes_of c.digest ds) h)
  unfolding index_bundle hashes_of Set.contains
  contains_key-index_bundle [] m h = ground arith
  contains_key-index_bundle (d ∷ ds) m h = ground (
    arith,
    contains_key-index_bundle ds (Map.insert (content_hash c.digest d) d m) h,
    get-insert (content_hash c.digest d) d h m,
    contains-insert (content_hash c.digest d) h (hashes_of c.digest ds),
  )

  module _ (by_hash : Map DeltaHash (SignedDelta V)) (i : IsIndex by_hash) (doc : Document c) where
    -- What the replay of an order comes to.
    abbrev pub Replayed : List DeltaHash → Document c → Option (Result (Document c)) → Type 0
    Replayed hs working r =
        ((e : Error) × (r ≡ some (err e)))
        ⊎ ((doc' : Document c) × (r ≡ some (ok doc'))
            × Authentic k c doc doc'
            × ((h : DeltaHash)
                → Dag.contains doc'.dag h ≡ (Dag.contains working.dag h || Set.contains hs h)))

    module _ (h : DeltaHash) (hs : List DeltaHash) (working : Document c) where
      replay-held :
          Dag.contains working.dag h ≡ true
          → replay_bundle k c by_hash (h ∷ hs) working ≡ replay_bundle k c by_hash hs working
      unfolding replay_bundle
      replay-held e = rw (e)

      module _ (d : SignedDelta V) (new : Dag.contains working.dag h ≡ false)
          (g : Map.get by_hash h ≡ some d) where
        replay-forged :
            (e : Error)
            → verify_signature k c d working ≡ err e
            → replay_bundle k c by_hash (h ∷ hs) working ≡ some (err e)
        unfolding replay_bundle
        replay-forged e v = rw (new, g, v)

        replay-refused :
            (e : Error)
            → verify_signature k c d working ≡ ok tt
            → (merge c d working).1 ≡ err e
            → replay_bundle k c by_hash (h ∷ hs) working ≡ some (err e)
        unfolding replay_bundle
        replay-refused e v m = rw (new, g, v, m)

        replay-merged :
            verify_signature k c d working ≡ ok tt
            → (merge c d working).1 ≡ ok tt
            → replay_bundle k c by_hash (h ∷ hs) working
              ≡ replay_bundle k c by_hash hs (merge c d working).0
        unfolding replay_bundle
        replay-merged v m = rw (new, g, v, m)

    Replayed-held :
        (h : DeltaHash) (hs : List DeltaHash) (working : Document c)
        (r : Option (Result (Document c)))
        → Dag.contains working.dag h ≡ true
        → Replayed hs working r
        → Replayed (h ∷ hs) working r
    unfolding Set.contains
    Replayed-held h hs working r e (inl refused) = inl refused
    Replayed-held h hs working r e (inr (doc', q, a, f)) =
        inr (doc', q, a, λ x. ground (arith, e, f x, text_ord.eq_of_cmp x h))

    Replayed-merged :
        (h : DeltaHash) (hs : List DeltaHash) (d : SignedDelta V) (working : Document c)
        (r : Option (Result (Document c)))
        → Dag.contains working.dag (content_hash c.digest d) ≡ false
        → content_hash c.digest d ≡ h
        → (merge c d working).1 ≡ ok tt
        → Replayed hs (merge c d working).0 r
        → Replayed (h ∷ hs) working r
    unfolding Set.contains Dag.contains
    Replayed-merged h hs d working r n q m (inl refused) = inl refused
    Replayed-merged h hs d working r n q m (inr (doc', s, a, f)) =
        inr (doc', s, a, λ x. ground (arith, n, q, f x, dag-merge k c d working n m x))

    pub replay_bundle-Replayed :
        (hs : List DeltaHash) (working : Document c)
        → ((h : DeltaHash) → Set.contains hs h ≡ true → contains_key by_hash h ≡ true)
        → Authentic k c doc working
        → Replayed hs working (replay_bundle k c by_hash hs working)
    unfolding replay_bundle Set.contains
    replay_bundle-Replayed [] working known a = inr (working, refl, a, λ h. ground arith)
    replay_bundle-Replayed (h ∷ hs) working known a =
        let later : ((x : DeltaHash) → Set.contains hs x ≡ true → contains_key by_hash x ≡ true) =
          λ x m. known x (ground (arith, m)) in
        elim (Bool-cases (Dag.contains working.dag h)) [
          | inl held ↦
              Replayed-held h hs working (replay_bundle k c by_hash (h ∷ hs) working) held (
                subst (Replayed hs working) (sym (replay-held h hs working held))
                  (replay_bundle-Replayed hs working later a))
          | inr new ↦ elim (Option-cases (Map.get by_hash h)) [
            | inl g ↦ absurd (ground (arith, g, known h, text_ord.cmp_refl h))
            | inr (d, g) ↦ elim (Result-cases (verify_signature k c d working)) [
              | inl (e, v) ↦ inl (e, replay-forged h hs working d new g e v)
              | inr (x, v) ↦ elim (Result-cases (merge c d working).1) [
                | inl (e, m) ↦ inl (e, replay-refused h hs working d new g e v m)
                | inr (y, m) ↦
                    let unheld : Dag.contains working.dag (content_hash c.digest d) ≡ false =
                      ap (Dag.contains working.dag) (i h d g) ∙ new in
                    Replayed-merged h hs d working (replay_bundle k c by_hash (h ∷ hs) working)
                      unheld (i h d g) m
                      (subst (Replayed hs (merge c d working).0)
                        (sym (replay-merged h hs working d new g v m))
                        (replay_bundle-Replayed hs (merge c d working).0 later
                          (more working d a unheld v m)))
              ]
            ]
          ]
        ]
