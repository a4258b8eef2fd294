-- ===== src/Document/Verified/Bundle.antt =====
-- src/core/document.rs, `merge_verified_bundle`: what it takes up and what it leaves.
use did_crdt.Base.{
  ltb, not, ◌≤◌, length-append, ℕ, ◌≢◌, ◌-◌, ◌∙◌, ◌≡◌, sym, subst, true, false, ◌||◌, ◌⊎◌, inl, inr,
  some, List, [], ◌∷◌, arith, Bool-cases,
}
use did_crdt.Ord.{nat_ord}
use did_crdt.Ord.Text.{list_ord}
use did_crdt.Std.Count.{contains-count}
use did_crdt.Std.Map
use did_crdt.Std.Map.{Map, contains_key, IsOrdered}
use did_crdt.Std.Set
use did_crdt.Error.{delta_rejected, Error, ok, err}
use did_crdt.Delta.{DeltaHash, SignedDelta, content_hash}
use did_crdt.Crdt.Sets.{method_entries}
use did_crdt.Dag
use did_crdt.Recon.{hashes_of}
use did_crdt.Validate.Signature.{Crypto}
use did_crdt.Document.{commit, apply_op, delta_count, Crates, Document, merge}
use did_crdt.Document.Order.Laws.{topo_order_bundle_lem}
use did_crdt.Document.Verified.{
  dangles, arrange_bundle, ClosureBundle, merge_verified_bundle, index_bundle, replay_bundle,
}
use did_crdt.Document.Verified.Replay.{
  index_bundle-IsOrdered, index_bundle-IsIndex, contains_key-index_bundle, replay_bundle-Replayed,
}
use did_crdt.Document.Verified.Signed.{IsSigned, Authentic-IsSigned, same, Authentic, more}

module _ {V : Type 0} (k : Crypto V) (c : Crates V) where
  arrange_bundle-cases :
      (b : ClosureBundle V) (by_hash : Map DeltaHash (SignedDelta V)) (doc : Document c)
      → IsOrdered by_hash
      → ((e : Error) × (arrange_bundle k c b by_hash doc ≡ some (err e)))
        ⊎ ((order : List DeltaHash) × (arrange_bundle k c b by_hash doc ≡ some (ok order))
            × ((h : DeltaHash) → Set.contains order h ≡ contains_key by_hash h))
  unfolding arrange_bundle
  arrange_bundle-cases b by_hash doc s = elim (Bool-cases (not (contains_key by_hash b.target))) [
    | inl t ↦ inl (delta_rejected, rw (t, arrange_bundle))
    | inr t ↦ elim (Bool-cases (dangles k c b.deltas by_hash doc)) [
      | inl p ↦ inl (delta_rejected, rw (t, p, arrange_bundle))
      | inr p ↦ elim (topo_order_bundle_lem by_hash s) [
        | inr (q, i) ↦ inl (delta_rejected, rw (t, p, q, arrange_bundle))
        | inl (order, q, i, n) ↦
            inr (
              order,
              rw (t, p, q, arrange_bundle),
              λ h. ground (arith, n h, contains-count h order),
            )
      ]
    ]
  ]

  -- A merge appends to the log or leaves it.
  delta_count-merge :
      (d : SignedDelta V) (doc : Document c) → delta_count c doc ≤ delta_count c (merge c d doc).0
  unfolding delta_count merge commit apply_op
  delta_count-merge d doc = ground (arith, length-append doc.delta_log (d ∷ []))

  delta_count-Authentic :
      (doc doc' : Document c) → Authentic k c doc doc' → delta_count c doc ≤ delta_count c doc'
  delta_count-Authentic doc _ same = omega arith
  delta_count-Authentic doc _ (more doc' d a e v m) =
      omega (arith, delta_count-Authentic doc doc' a, delta_count-merge d doc')

  module _ (b : ClosureBundle V) (doc : Document c) (order : List DeltaHash)
      (r : arrange_bundle k c b (index_bundle k c b.deltas []) doc ≡ some (ok order)) where
    merge_verified_bundle-refused :
        (e : Error)
        → replay_bundle k c (index_bundle k c b.deltas []) order doc ≡ some (err e)
        → merge_verified_bundle k c b doc ≡ some (doc, err e)
    unfolding merge_verified_bundle
    merge_verified_bundle-refused e q = rw (merge_verified_bundle, r, q)

    merge_verified_bundle-taken :
        (doc' : Document c)
        → replay_bundle k c (index_bundle k c b.deltas []) order doc ≡ some (ok doc')
        → ltb (delta_count c doc') (delta_count c doc) ≡ false
        → merge_verified_bundle k c b doc ≡ some (doc', ok (delta_count c doc' - delta_count c doc))
    unfolding merge_verified_bundle
    merge_verified_bundle-taken doc' q n = rw (merge_verified_bundle, r, q, n)

  -- `merge_verified_bundle` does not panic, as no look-up of a hash fails and neither an in-degree
  -- nor the count of new deltas falls below 0, and it takes up a bundle as a whole or not at all:
  -- it returns an error and leaves the document as it was, or it returns by how many deltas the log
  -- has grown, the document comes of the old one by merges of deltas that it did not hold and whose
  -- signatures it verified, and its store holds exactly what it held before and what the bundle
  -- carries.
  pub merge_verified_bundle_lem :
      (b : ClosureBundle V) (doc : Document c)
      → ((e : Error) × (merge_verified_bundle k c b doc ≡ some (doc, err e)))
        ⊎ ((doc' : Document c) × (merge_verified_bundle k c b doc
              ≡ some (doc', ok (delta_count c doc' - delta_count c doc)))
            × Authentic k c doc doc'
            × ((h : DeltaHash)
                → Dag.contains doc'.dag h
                  ≡ (Dag.contains doc.dag h || Set.contains (hashes_of c.digest b.deltas) h)))
  unfolding merge_verified_bundle Map.get
  merge_verified_bundle_lem b doc =
      let by_hash = index_bundle k c b.deltas [] in
      let ordered : IsOrdered by_hash = index_bundle-IsOrdered k c b.deltas [] tt in
      let keys_of : ((h : DeltaHash)
          → contains_key by_hash h ≡ Set.contains (hashes_of c.digest b.deltas) h) =
        contains_key-index_bundle k c b.deltas [] in
      elim (arrange_bundle-cases b by_hash doc ordered) [
        | inl (e, r) ↦ inl (e, rw (merge_verified_bundle, r))
        | inr (order, r, all_of) ↦
            elim (replay_bundle-Replayed k c by_hash
              (index_bundle-IsIndex k c b.deltas [] (λ h d g. cc)) doc order doc
              (λ h m. sym (all_of h) ∙ m) same) [
                | inl (e, q) ↦ inl (e, merge_verified_bundle-refused b doc order r e q)
                | inr (doc', q, a, f) ↦ inr (
                  doc',
                  merge_verified_bundle-taken b doc order r doc' q
                      (ground (arith, delta_count-Authentic doc doc' a)),
                  a,
                  λ h. rw (f h, all_of h, keys_of h),
                )
              ]
      ]

  -- Each delta that a document with a verification method holds after an accepted bundle and did
  -- not hold before is held under its own hash, and one of the verification methods that the
  -- document then has signs it: the method bears the identifier that the delta names, the signature
  -- verifies under its key, and the clock of the delta bears the node of that key.
  pub merge_verified_bundle-IsSigned :
      (b : ClosureBundle V) (doc doc' : Document c) (n : ℕ) (h : DeltaHash)
      → merge_verified_bundle k c b doc ≡ some (doc', ok n)
      → method_entries c.methods doc.verification_methods ≢ []
      → Dag.contains doc.dag h ≡ false
      → Dag.contains doc'.dag h ≡ true
      → (d : SignedDelta V) × (Dag.get doc'.dag h ≡ some d)
        × (content_hash c.digest d ≡ h)
        × IsSigned k c doc' d
  merge_verified_bundle-IsSigned b doc doc' n h r ne old new =
      elim (merge_verified_bundle_lem b doc) [
        | inl (e, q) ↦ absurd (cc (q, r))
        | inr (doc'', q, a, f) ↦
            let same_doc : doc'' ≡ doc' = cc (q, r) in
            Authentic-IsSigned k c doc doc' h (subst (Authentic k c doc) same_doc a) ne old new
      ]
