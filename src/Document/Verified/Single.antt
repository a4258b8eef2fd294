-- ===== src/Document/Verified/Single.antt =====
-- src/core/document.rs, `merge_verified_delta`: what it takes up.
use did_crdt.Base.{
  subst, sym, ◌≡◌, ◌≢◌, true, false, ◌⊎◌, inl, inr, [], none, arith, Bool-cases, Option-cases,
}
use did_crdt.Ord.{nat_ord}
use did_crdt.Ord.Text.{list_ord, text_ord}
use did_crdt.Error.{Error, delta_pending, ok, err, Result-cases}
use did_crdt.Delta.{SignedDelta, content_hash}
use did_crdt.Crdt.Sets.{method_entries}
use did_crdt.Dag
use did_crdt.Validate.Signature.{Crypto, verify_signature}
use did_crdt.Document.{Crates, Document, merge}
use did_crdt.Document.Admit.{merge-cases}
use did_crdt.Document.Verified.{merge_verified_delta, pending_on}
use did_crdt.Document.Verified.Signed.{
  dag-merge, Authentic, same, more, IsSigned, verify_signature-IsSigned,
}

module _ {V : Type 0} (k : Crypto V) (c : Crates V) (d : SignedDelta V) (doc : Document c) where
  refused : (e : Error) → (merge c d doc).1 ≡ err e → merge c d doc ≡ (doc, err e)
  refused e m = ground (arith, m, merge-cases c d doc)

  -- An error, with the document as it was; or the delta is held already; or its signature holds
  -- and `merge` takes it up.
  pub merge_verified_delta-cases :
      ((e : Error) × (merge_verified_delta k c d doc ≡ (doc, err e)))
      ⊎ ((Dag.contains doc.dag (content_hash c.digest d) ≡ true)
          × (merge_verified_delta k c d doc ≡ (doc, ok tt)))
      ⊎ ((Dag.contains doc.dag (content_hash c.digest d) ≡ false)
          × (pending_on k c d doc ≡ none)
          × (verify_signature k c d doc ≡ ok tt)
          × ((merge c d doc).1 ≡ ok tt)
          × (merge_verified_delta k c d doc ≡ merge c d doc))
  unfolding merge_verified_delta
  merge_verified_delta-cases = elim (Bool-cases (Dag.contains doc.dag (content_hash c.digest d))) [
    | inl held ↦ inr (inl (held, rw (held, merge_verified_delta)))
    | inr new ↦ elim (Option-cases (pending_on k c d doc)) [
      | inr (missing, p) ↦ inl (delta_pending missing, rw (new, p, merge_verified_delta))
      | inl p ↦ elim (Result-cases (verify_signature k c d doc)) [
        | inl (e, v) ↦ inl (e, rw (new, p, v, merge_verified_delta))
        | inr (x, v) ↦ elim (Result-cases (merge c d doc).1) [
          | inl (e, m) ↦ inl (e, rw (new, p, v, refused e m, merge_verified_delta))
          | inr (y, m) ↦ inr (inr (new, p, v, m, rw (new, p, v, merge_verified_delta)))
        ]
      ]
    ]
  ]

  pub merge_verified_delta-Authentic : Authentic k c doc (merge_verified_delta k c d doc).0
  merge_verified_delta-Authentic = elim merge_verified_delta-cases [
    | inl (e, q) ↦ subst (λ r. Authentic k c doc r.0) (sym q) same
    | inr (inl (held, q)) ↦ subst (λ r. Authentic k c doc r.0) (sym q) same
    | inr (inr (n, p, v, m, q)) ↦ subst (λ r. Authentic k c doc r.0) (sym q) (more doc d same n v m)
  ]

  -- If `merge_verified_delta` accepts a delta that a document with a verification method does not
  -- hold yet, then the delta is held afterwards, and one of the verification methods that the
  -- document had signs it: the method bears the identifier that the delta names, the signature
  -- verifies under its key, and the clock of the delta bears the node of that key.
  pub merge_verified_delta-IsSigned :
      (merge_verified_delta k c d doc).1 ≡ ok tt
      → Dag.contains doc.dag (content_hash c.digest d) ≡ false
      → method_entries c.methods doc.verification_methods ≢ []
      → (Dag.contains (merge_verified_delta k c d doc).0.dag (content_hash c.digest d) ≡ true)
        × IsSigned k c doc d
  unfolding Dag.contains
  merge_verified_delta-IsSigned r new ne = elim merge_verified_delta-cases [
    | inl (e, q) ↦ absurd (cc (q, r))
    | inr (inl (held, q)) ↦ absurd (cc (held, new))
    | inr (inr (n, p, v, m, q)) ↦ (
      ground (
        arith,
        q,
        dag-merge k c d doc n m (content_hash c.digest d),
        text_ord.cmp_refl (content_hash c.digest d),
      ),
      verify_signature-IsSigned k c d doc v ne,
    )
  ]
