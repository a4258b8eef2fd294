-- ===== src/Document/Genesis/Key.antt =====
-- src/core/document.rs, `genesis_public_key_multibase`: the key that it finds.
use did_crdt.Base.{
  ◌≢◌, ◌≡◌, sym, ◌∙◌, true, List, [], ◌∷◌, some, none, arith, Option-cases, inl, inr,
}
use did_crdt.Ord.Text.{Text, list_ord, text_ord}
use did_crdt.Std.Set
use did_crdt.Std.Set.Laws.{contains-insert}
use did_crdt.Delta.{Did}
use did_crdt.Crdt.Sets.{VerificationMethodEntry, method_entries, method_ord, insert_method}
use did_crdt.Validate.Signature.{Crypto}
use did_crdt.Document.{Crates, Document, apply_op}
use did_crdt.Document.Genesis
use did_crdt.Document.Genesis.{
  Genesis, derive_did, blank, find_deriving, genesis_public_key_multibase,
}
use did_crdt.Document.Genesis.Valid.{did-new, made_entry}
use did_crdt.Document.Verified.History.{did-Authentic}
use did_crdt.Document.Verified.Signed.{Authentic, methods_kept}

module _ {V : Type 0} (s : Genesis V) (c : Crates V) where
  find_deriving_sound :
      (did : Did) (es : List VerificationMethodEntry) (pk : Text)
      → find_deriving s c did es ≡ some pk
      → derive_did s pk ≡ did
  unfolding find_deriving
  find_deriving_sound did [] pk h = cc
  find_deriving_sound did (e ∷ es) pk h = ground (
    arith,
    h,
    find_deriving_sound did es pk,
    text_ord.eq_of_cmp (derive_did s e.public_key_multibase) did,
  )

  find_deriving_finds :
      (did : Did) (es : List VerificationMethodEntry) (e : VerificationMethodEntry)
      → Set.contains es e ≡ true
      → derive_did s e.public_key_multibase ≡ did
      → find_deriving s c did es ≢ none
  unfolding find_deriving Set.contains
  find_deriving_finds did [] e m d h = cc
  find_deriving_finds did (f ∷ es) e m d h = ground (
    arith,
    m,
    d,
    h,
    find_deriving_finds did es e,
    method_ord.eq_of_cmp e f,
    text_ord.cmp_refl did,
  )

  module _ (k : Crypto V) (public_key_multibase : Text) where
    entry-new :
        Set.contains
          (method_entries c.methods (Genesis.new s c public_key_multibase).0.verification_methods)
          (made_entry s c public_key_multibase)
        ≡ true
    unfolding Genesis.new apply_op blank method_entries insert_method
    entry-new = ground (
      arith,
      c.methods.read_insert (made_entry s c public_key_multibase) c.methods.new,
      contains-insert (made_entry s c public_key_multibase) (made_entry s c public_key_multibase)
          (c.methods.read c.methods.new),
      method_ord.cmp_refl (made_entry s c public_key_multibase),
    )

    -- A document that comes by verified merges of the one that `Document::new` makes of a key gives
    -- a key from which its DID derives.
    pub genesis_public_key_multibase_lem :
        (doc : Document c)
        → Authentic k c (Genesis.new s c public_key_multibase).0 doc
        → (pk : Text) × (genesis_public_key_multibase s c doc ≡ some pk)
          × (derive_did s pk ≡ doc.did)
    unfolding genesis_public_key_multibase
    genesis_public_key_multibase_lem doc a =
        let made = (Genesis.new s c public_key_multibase).0 in
        let entries = method_entries c.methods doc.verification_methods in
        let entry = made_entry s c public_key_multibase in
        let own : derive_did s public_key_multibase ≡ doc.did =
          sym (did-new s c public_key_multibase) ∙ sym (did-Authentic k c made doc a) in
        elim (Option-cases (find_deriving s c doc.did entries)) [
          | inl q ↦ absurd (
              find_deriving_finds doc.did entries entry
                (methods_kept k c made doc entry a entry-new) own q)
          | inr (pk, q) ↦ (pk, q, find_deriving_sound doc.did entries pk q)
        ]
