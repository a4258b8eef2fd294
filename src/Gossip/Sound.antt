-- ===== src/Gossip/Sound.antt =====
-- src/sync/gossip.rs: what every message leaves true of the documents of a node.
use did_crdt.Base.{◌≡◌, ◌≢◌, sym, ◌∙◌, subst, inl, inr, some, arith, Bool-cases, []}
use did_crdt.Ord.{nat_ord, eq?}
use did_crdt.Ord.Text.{list_ord, text_ord}
use did_crdt.Std.Map
use did_crdt.Delta.{Did}
use did_crdt.Crdt.Sets.{method_entries}
use did_crdt.Validate.Signature.{Crypto}
use did_crdt.Document.{Crates, Document}
use did_crdt.Document.Genesis.{Genesis}
use did_crdt.Document.Genesis.Valid.{did-new, methods-new, IsValid-new}
use did_crdt.Document.Valid.{IsValid}
use did_crdt.Document.Verified.History.{Authentic-IsValid, did-Authentic}
use did_crdt.Document.Verified.Signed.{Authentic, methods_nonempty}
use did_crdt.Gossip.{SyncMessage, announce, request, deltas, BootstrapPolicy, Docs}
use did_crdt.Gossip.Inbound.{merge_inbound}
use did_crdt.Gossip.Inbound.Bootstrap.{Elsewhere, merge_inbound_lem}

module _ {V : Type 0} (k : Crypto V) (c : Crates V) where
  -- A document that is valid, stands under its own DID and has a verification method, so that no
  -- delta without a signature is taken up.
  pub record IsSound (did : Did) (doc : Document c) : Type 0 where
    pub own : doc.did ≡ did
    pub valid : IsValid c doc
    pub guarded : method_entries c.methods doc.verification_methods ≢ []

  abbrev pub AllSound : Docs c → Type 0
  AllSound docs = (did : Did) (doc : Document c) → Map.get docs did ≡ some doc → IsSound did doc

  Authentic-IsSound :
      (did : Did) (x y : Document c) → Authentic k c x y → IsSound did x → IsSound did y
  Authentic-IsSound did x y a p = record {
    own = did-Authentic k c x y a ∙ p.own;
    valid = Authentic-IsValid k c x y a p.valid;
    guarded = methods_nonempty k c x y a p.guarded;
  }

  AllSound-put :
      (did : Did) (docs docs' : Docs c) (doc : Document c)
      → AllSound docs
      → Elsewhere k c did docs docs'
      → Map.get docs' did ≡ some doc
      → IsSound did doc
      → AllSound docs'
  AllSound-put did docs docs' doc a e g p x other h = elim (Bool-cases (eq? x did)) [
    | inl q ↦
        let same_did : x ≡ did = ground (arith, q, text_ord.eq_of_cmp x did) in
        let same_doc : doc ≡ other = cc (g, h, same_did) in
        subst (λ z. IsSound z other) (sym same_did) (subst (IsSound did) same_doc p)
    | inr n ↦ a x other (sym (e x n) ∙ h)
  ]

  module _ (s : Genesis V) where
    -- If every document of a node is valid, stands under its own DID and has a verification method,
    -- then so it is after any message, bootstraps included.
    pub merge_inbound-AllSound :
        (docs : Docs c) (msg : SyncMessage V) (policy : BootstrapPolicy)
        → AllSound docs
        → AllSound (merge_inbound k c s docs msg policy).0
    unfolding merge_inbound
    merge_inbound-AllSound docs (announce did hash clock) policy a = a
    merge_inbound-AllSound docs (request did frontier) policy a = a
    merge_inbound-AllSound docs (deltas did ds) policy a =
        elim (merge_inbound_lem k c s docs did ds policy) [
          | inl (doc, docs', g, q, ((doc', g', (t, u)), e)) ↦
              subst (λ r. AllSound r.0) (sym q)
                (AllSound-put did docs docs' doc' a e g'
                  (Authentic-IsSound did doc doc' t (a did doc g)))
          | inr (inl (g, w, q)) ↦ subst (λ r. AllSound r.0) (sym q) a
          | inr (inr (inl (g, w, q))) ↦ subst (λ r. AllSound r.0) (sym q) a
          | inr (inr (inr (docs', g, w, q, (pk, genesis, d, f, h, ((doc', g', (t, u)), e))))) ↦
              subst (λ r. AllSound r.0) (sym q)
                (AllSound-put did docs docs' doc' a e g' (
                  Authentic-IsSound did _ doc' t (record {
                    own = did-new s c pk ∙ d;
                    valid = IsValid-new s c pk;
                    guarded = methods-new s c pk;
                  })))
        ]
