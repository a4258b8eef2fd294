-- ===== src/Document/Admit.antt =====
-- src/core/document.rs: what the guards of `merge` let through.
use did_crdt.Base.{
  subst, ap, Bool, inr, refl, inl, ◌≡◌, ◌≢◌, true, false, List, [], ◌∷◌, arith, ◌⊎◌,
}
use did_crdt.Ord.{nat_ord, ◌≺◌}
use did_crdt.Ord.Text.{Text, list_ord, text_ord}
use did_crdt.Std.Set.{IsAscending}
use did_crdt.Std.Set.Laws.{Above-trans}
use did_crdt.Error.{delta_rejected, delta_pending, Result, err, Error, ok}
use did_crdt.Delta.{
  DeltaOp, set_also_known_as, set_document_data, SignedDelta, DeltaHash, content_hash,
}
use did_crdt.Dag
use did_crdt.Dag.{DeltaDag, has_authorising_delta}
use did_crdt.Dag.Insert.{contains-insert_delta}
use did_crdt.Admission.{unknown, valid, invalid, signer_not_authorised}
use did_crdt.Causal.{verify_causal}
use did_crdt.Causal.Decision.{Claims, verify_causal-Claims}
use did_crdt.Validate.{recognise_uri, recognise_uris, recognise_also_known_as}
use did_crdt.Document.{
  recognise_op, merge, Document, Crates, admit, commit, is_canonical_parents, causal_gate, apply_op,
}

is_canonical_parents-IsAscending :
    (ps : List DeltaHash) → is_canonical_parents ps ≡ true → IsAscending ps
unfolding is_canonical_parents
is_canonical_parents-IsAscending [] h = tt
is_canonical_parents-IsAscending (p ∷ []) h = (tt, tt)
is_canonical_parents-IsAscending (p ∷ q ∷ ps) h =
    let rest = is_canonical_parents-IsAscending (q ∷ ps) (ground (arith, h)) in
    let below : p ≺ q = ground (arith, h) in ((below, Above-trans p q ps below rest.0), rest)

module _ {V : Type 0} (d : SignedDelta V) (g : DeltaDag V) where
  causal_gate-passes :
      causal_gate d g ≡ ok tt
      → (verify_causal d g ≡ valid)
        ⊎ ((verify_causal d g ≡ invalid signer_not_authorised)
            × (d.parents ≢ [])
            × (has_authorising_delta g d.proof.verification_method ≡ false))
  unfolding causal_gate
  causal_gate-passes h = ground (arith, h)

-- The recogniser refuses with one error only.
recognise_uri-err : (uri : Text) (e : Error) → recognise_uri uri ≡ err e → e ≡ delta_rejected
unfolding recognise_uri
recognise_uri-err uri e h = ground (arith, h)

recognise_uris-err :
    (uris : List Text) (e : Error) → recognise_uris uris ≡ err e → e ≡ delta_rejected
unfolding recognise_uris
recognise_uris-err [] e h = cc
recognise_uris-err (uri ∷ uris) e h =
    ground (arith, h, recognise_uri-err uri e, recognise_uris-err uris e)

recognise_op-err :
    {V : Type 0} (op : DeltaOp V) (e : Error) → recognise_op op ≡ err e → e ≡ delta_rejected
unfolding recognise_op recognise_also_known_as
recognise_op-err (set_also_known_as uris) e h = ground (arith, h, recognise_uris-err uris e)
recognise_op-err (set_document_data key x) e h = ground (arith, h)
recognise_op-err _ e h = cc

-- A decision that waits is one about a delta with parents.
unknown-parents :
    {V : Type 0} (d : SignedDelta V) (g : DeltaDag V) (ms : List DeltaHash)
    → verify_causal d g ≡ unknown ms
    → d.parents ≢ []
unfolding verify_causal
unknown-parents d g ms h e = ground (arith, h, e)

module _ {V : Type 0} (c : Crates V) where
  pub did-commit : (d : SignedDelta V) (doc : Document c) → (commit c d doc).did ≡ doc.did
  unfolding commit apply_op
  did-commit d doc = ground arith

  admit-passes :
      (d : SignedDelta V) (doc : Document c)
      → admit c d doc ≡ ok true
      → (d.did ≡ doc.did)
        × (Dag.contains doc.dag (content_hash c.digest d) ≡ false)
        × (is_canonical_parents d.parents ≡ true)
        × (causal_gate d doc.dag ≡ ok tt)
  unfolding admit
  admit-passes d doc h = ground (arith, h, text_ord.eq_of_cmp d.did doc.did)

  admit-held :
      (d : SignedDelta V) (doc : Document c)
      → admit c d doc ≡ ok false
      → Dag.contains doc.dag (content_hash c.digest d) ≡ true
  unfolding admit
  admit-held d doc h = ground (arith, h)

  pub dag-commit :
      (d : SignedDelta V) (doc : Document c) → (commit c d doc).dag ≡ Dag.insert c.digest d doc.dag
  unfolding commit apply_op
  dag-commit d doc = ground arith

  held-commit :
      (d : SignedDelta V) (doc : Document c)
      → Dag.contains (commit c d doc).dag (content_hash c.digest d) ≡ true
  held-commit d doc = ground (
    arith,
    dag-commit d doc,
    contains-insert_delta c.digest d doc.dag (content_hash c.digest d),
    text_ord.cmp_refl (content_hash c.digest d),
  )

  admit_held :
      (d : SignedDelta V) (doc doc' : Document c)
      → admit c d doc ≡ ok true
      → doc'.did ≡ doc.did
      → Dag.contains doc'.dag (content_hash c.digest d) ≡ true
      → admit c d doc' ≡ ok false
  unfolding admit
  admit_held d doc doc' h same held = ground (arith, h, same, held)

  pub merge-cases :
      (d : SignedDelta V) (doc : Document c)
      → ((e : Error) × (admit c d doc ≡ err e) × (merge c d doc ≡ (doc, err e)))
        ⊎ ((admit c d doc ≡ ok false) × (merge c d doc ≡ (doc, ok tt)))
        ⊎ ((admit c d doc ≡ ok true) × (merge c d doc ≡ (commit c d doc, ok tt)))
  unfolding merge
  merge-cases d doc = go (admit c d doc) refl
    where
      go :
          (r : Result Bool)
          → admit c d doc ≡ r
          → ((e : Error) × (admit c d doc ≡ err e) × (merge c d doc ≡ (doc, err e)))
            ⊎ ((admit c d doc ≡ ok false) × (merge c d doc ≡ (doc, ok tt)))
            ⊎ ((admit c d doc ≡ ok true) × (merge c d doc ≡ (commit c d doc, ok tt)))
      go (err e) h = inl (e, h, rw (h, merge))
      go (ok false) h = inr (inl (h, rw (h, merge)))
      go (ok true) h = inr (inr (h, rw (h, merge)))

  admit-pending :
      (d : SignedDelta V) (doc : Document c) (ms : List DeltaHash)
      → admit c d doc ≡ err (delta_pending ms)
      → (Dag.contains doc.dag (content_hash c.digest d) ≡ false)
        × (verify_causal d doc.dag ≡ unknown ms)
  unfolding admit causal_gate
  admit-pending d doc ms h = ground (arith, h, recognise_op-err d.op (delta_pending ms))

  -- If `merge` reports that a delta waits for hashes, the document is unchanged and does not hold
  -- the delta, and the hashes, at least one and strictly ascending, are exactly those below the
  -- parents of the delta that are not held, while nothing that is held there revokes its signer or
  -- deactivates.
  pub merge_pending :
      (d : SignedDelta V) (doc : Document c) (ms : List DeltaHash)
      → (merge c d doc).1 ≡ err (delta_pending ms)
      → ((merge c d doc).0 ≡ doc)
        × (Dag.contains doc.dag (content_hash c.digest d) ≡ false)
        × Claims doc.dag d.parents d.proof.verification_method (unknown ms)
  merge_pending d doc ms h = elim (merge-cases d doc) [
    | inl (e, a, m) ↦
        let (new, u) = admit-pending d doc ms (ground (arith, h, a, m)) in
        (
          ap (λ r. r.0) m,
          new,
          subst (Claims doc.dag d.parents d.proof.verification_method) u
              (verify_causal-Claims d doc.dag (unknown-parents d doc.dag ms u)),
        )
    | inr (inl (a, m)) ↦ absurd (cc (h, m))
    | inr (inr (a, m)) ↦ absurd (cc (h, m))
  ]

  -- If `merge` accepts a delta that the document does not hold yet, the document becomes that of
  -- `commit`, the delta is for this document, its parents are strictly ascending, and causal
  -- admission finds it valid, or finds its signer not authorised where it has parents and no held
  -- delta adds the signer.
  pub merge_admits :
      (d : SignedDelta V) (doc : Document c)
      → (merge c d doc).1 ≡ ok tt
      → Dag.contains doc.dag (content_hash c.digest d) ≡ false
      → ((merge c d doc).0 ≡ commit c d doc)
        × (d.did ≡ doc.did)
        × IsAscending d.parents
        × ((verify_causal d doc.dag ≡ valid)
            ⊎ ((verify_causal d doc.dag ≡ invalid signer_not_authorised)
                × (d.parents ≢ [])
                × (has_authorising_delta doc.dag d.proof.verification_method ≡ false)))
  merge_admits d doc h new = elim (merge-cases d doc) [
    | inl (e, a, m) ↦ absurd (cc (h, m))
    | inr (inl (a, m)) ↦ absurd (cc (new, admit-held d doc a))
    | inr (inr (a, m)) ↦
        let (same, absent, canonical, gate) = admit-passes d doc a in
        (
          ap (λ r. r.0) m,
          same,
          is_canonical_parents-IsAscending d.parents canonical,
          causal_gate-passes d doc.dag gate,
        )
  ]

  -- If `merge` accepts a delta that the document does not hold yet, that has parents, and whose
  -- signer some held delta adds, then the whole closure of its parents is held, adds the signer,
  -- and neither revokes it nor deactivates.
  pub merge_authorised :
      (d : SignedDelta V) (doc : Document c)
      → (merge c d doc).1 ≡ ok tt
      → Dag.contains doc.dag (content_hash c.digest d) ≡ false
      → d.parents ≢ []
      → has_authorising_delta doc.dag d.proof.verification_method ≡ true
      → Claims doc.dag d.parents d.proof.verification_method valid
  merge_authorised d doc h new ne known = elim (merge_admits d doc h new).3 [
    | inl v ↦
        subst (Claims doc.dag d.parents d.proof.verification_method) v
          (verify_causal-Claims d doc.dag ne)
    | inr (i, k, f) ↦ absurd (cc (known, f))
  ]

  admit_again :
      (d : SignedDelta V) (doc : Document c)
      → admit c d doc ≡ ok true
      → admit c d (commit c d doc) ≡ ok false
  admit_again d doc h = admit_held d doc (commit c d doc) h (did-commit d doc) (held-commit d doc)

  -- After a delta was accepted, a deactivation too, its second delivery is accepted as well and
  -- changes nothing of the document.
  pub merge_again :
      (d : SignedDelta V) (doc : Document c)
      → (merge c d doc).1 ≡ ok tt
      → merge c d (merge c d doc).0 ≡ ((merge c d doc).0, ok tt)
  merge_again d doc h = elim (merge-cases d doc) [
    | inl (e, a, m) ↦ absurd (cc (h, m))
    | inr (inl (a, m)) ↦ ground (arith, m)
    | inr (inr (a, m)) ↦ ground (arith, m, admit_again d doc a, merge-cases d (commit c d doc))
  ]
