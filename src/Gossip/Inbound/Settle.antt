-- ===== src/Gossip/Inbound/Settle.antt =====
-- src/sync/gossip.rs, `merge_inbound`: what comes of one delta.
use did_crdt.Base.{refl, subst, sym, true, false, ◌≡◌, ◌⊎◌, inl, inr, List, arith}
use did_crdt.Error.{
  invalid_did, invalid_signature, unauthorised, serialisation, delta_rejected, delta_too_large,
  Error, delta_pending, err,
}
use did_crdt.Delta.{DeltaHash, SignedDelta, content_hash}
use did_crdt.Dag
use did_crdt.Validate.Signature.{Crypto}
use did_crdt.Document.{Crates, Document}
use did_crdt.Document.Verified.{merge_verified_delta}
use did_crdt.Document.Verified.History.{Authentic-trans, Authentic-holds, holds_merged}
use did_crdt.Document.Verified.Signed.{Authentic, same}
use did_crdt.Document.Verified.Single.{merge_verified_delta-cases}
use did_crdt.Gossip.Inbound.{is_pending}

pending-cases :
    (e : Error)
    → ((missing : List DeltaHash) × (e ≡ delta_pending missing)) ⊎ (is_pending (err e) ≡ false)
pending-cases (delta_pending missing) = inl (missing, refl)
pending-cases invalid_did = inr refl
pending-cases invalid_signature = inr refl
pending-cases unauthorised = inr refl
pending-cases serialisation = inr refl
pending-cases delta_rejected = inr refl
pending-cases (delta_too_large n m) = inr refl

module _ {V : Type 0} (k : Crypto V) (c : Crates V) where
  -- What comes of the delta `d` on the way from `doc` to `doc'`: it is held, or it was refused by
  -- a document on that way, for another reason than that it lacks parents.
  abbrev pub Settled : Document c → Document c → SignedDelta V → Type 0
  Settled doc doc' d =
      (Dag.contains doc'.dag (content_hash c.digest d) ≡ true)
      ⊎ ((w : Document c) × (e : Error) × Authentic k c doc w
          × Authentic k c w doc'
          × (merge_verified_delta k c d w ≡ (w, err e))
          × (is_pending (err e) ≡ false))

  -- The delta lacks parents in the document `doc`.
  abbrev pub Waits : Document c → SignedDelta V → Type 0
  Waits doc d =
      (missing : List DeltaHash) × (merge_verified_delta k c d doc
        ≡ (doc, err (delta_pending missing)))

  pub settle :
      (d : SignedDelta V) (doc : Document c)
      → (Waits doc d
          × ((merge_verified_delta k c d doc).0 ≡ doc)
          × (is_pending (merge_verified_delta k c d doc).1 ≡ true))
        ⊎ (Settled doc (merge_verified_delta k c d doc).0 d
            × (is_pending (merge_verified_delta k c d doc).1 ≡ false))
  settle d doc = elim (merge_verified_delta-cases k c d doc) [
    | inl (e, q) ↦ elim (pending-cases e) [
      | inl (missing, p) ↦
          inl ((missing, ground (arith, q, p)), ground (arith, q), ground (arith, q, p))
      | inr n ↦ inr (
        inr (doc, e, same, subst (λ r. Authentic k c doc r.0) (sym q) same, q, n),
        ground (arith, q, n),
      )
    ]
    | inr (inl (held, q)) ↦ inr (inl (ground (arith, q, held)), ground (arith, q))
    | inr (inr (n, p, v, m, q)) ↦
        inr (inl (ground (arith, q, holds_merged k c d doc n m)), ground (arith, q, m))
  ]

  pub Settled-later :
      (x y z : Document c) (d : SignedDelta V) → Authentic k c y z → Settled x y d → Settled x z d
  Settled-later x y z d a (inl h) = inl (Authentic-holds k c y z (content_hash c.digest d) a h)
  Settled-later x y z d a (inr (w, e, b, g, q, n)) =
      inr (w, e, b, Authentic-trans k c w y z g a, q, n)

  pub Settled-before :
      (x y z : Document c) (d : SignedDelta V) → Authentic k c x y → Settled y z d → Settled x z d
  Settled-before x y z d a (inl h) = inl h
  Settled-before x y z d a (inr (w, e, b, g, q, n)) =
      inr (w, e, Authentic-trans k c x y w a b, g, q, n)
