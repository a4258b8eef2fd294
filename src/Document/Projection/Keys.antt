-- ===== src/Document/Projection/Keys.antt =====
-- src/core/document.rs, `Document::resolve`: the keys and the properties that a resolved document
-- shows.
use did_crdt.Base.{
  sym, ◌≡◌, refl, Bool, true, false, not, ◌||◌, ◌&&◌, List, [], ◌∷◌, ◌++◌, none, some, any, arith,
  Bool-cases, inl, inr,
}
use did_crdt.Ord.{nat_ord, eq?}
use did_crdt.Ord.Text.{Text, list_ord, text_ord}
use did_crdt.Std.Map
use did_crdt.Std.Map.{Map, contains_key}
use did_crdt.Std.Map.Laws.{get-insert}
use did_crdt.Std.Set
use did_crdt.Std.Set.Laws.{contains-append}
use did_crdt.Delta.{
  Did, VerificationRelationship, authentication, assertion_method, key_agreement,
  capability_invocation, capability_delegation, relationship_ord,
}
use did_crdt.Crdt.Sets.{VerificationMethodEntry, method_entries, is_revoked, is_set}
use did_crdt.Resolve.{is_reserved_document_property}
use did_crdt.Resolve.Shape.{DidDocument, VerificationMethod, empty}
use did_crdt.Document.{Crates, Document}
use did_crdt.Document.Genesis.{Genesis}
use did_crdt.Document.Projection.{
  with_twin, Rendering, refer, refer_all, project_methods, project_data, verification_method_type,
  data_entries, push_twins, keyed, twin_methods, project, resolve,
}

-- The entry gives `id` the relationship, and is not revoked.
abbrev pub offers : (Text → Bool) → VerificationRelationship → Text → VerificationMethodEntry → Bool
offers revoked rel id e = not (revoked e.id) && (Set.contains e.relationships rel && eq? id e.id)

module _ {V : Type 0} where
  -- The array for a relationship.
  unfoldable pub array_of : VerificationRelationship → DidDocument V → List Text
  array_of authentication doc = doc.authentication
  array_of assertion_method doc = doc.assertion_method
  array_of key_agreement doc = doc.key_agreement
  array_of capability_invocation doc = doc.capability_invocation
  array_of capability_delegation doc = doc.capability_delegation

  array_of-refer :
      (rel other : VerificationRelationship) (key_ref id : Text) (doc : DidDocument V)
      → Set.contains (array_of rel (refer key_ref other doc)) id
        ≡ (Set.contains (array_of rel doc) id || (eq? rel other && eq? id key_ref))
  unfolding array_of refer relationship_ord Set.contains
  array_of-refer rel other key_ref id doc = ground (
    arith,
    contains-append doc.authentication (key_ref ∷ []) id,
    contains-append doc.assertion_method (key_ref ∷ []) id,
    contains-append doc.key_agreement (key_ref ∷ []) id,
    contains-append doc.capability_invocation (key_ref ∷ []) id,
    contains-append doc.capability_delegation (key_ref ∷ []) id,
  )

  array_of-refer_all :
      (rel : VerificationRelationship) (key_ref id : Text) (rels : List VerificationRelationship)
      (doc : DidDocument V)
      → Set.contains (array_of rel (refer_all key_ref rels doc)) id
        ≡ (Set.contains (array_of rel doc) id || (Set.contains rels rel && eq? id key_ref))
  unfolding refer_all Set.contains
  array_of-refer_all rel key_ref id [] doc = ground arith
  array_of-refer_all rel key_ref id (other ∷ rels) doc = ground (
    arith,
    array_of-refer_all rel key_ref id rels (refer key_ref other doc),
    array_of-refer rel other key_ref id doc,
  )

  array_of-grown :
      (rel : VerificationRelationship) (ms : List (VerificationMethod V)) (doc : DidDocument V)
      → array_of rel (record doc { verification_method = ms }) ≡ array_of rel doc
  unfolding array_of
  array_of-grown authentication ms doc = refl
  array_of-grown assertion_method ms doc = refl
  array_of-grown key_agreement ms doc = refl
  array_of-grown capability_invocation ms doc = refl
  array_of-grown capability_delegation ms doc = refl

  array_of-project_methods :
      (revoked : Text → Bool) (did : Did) (rel : VerificationRelationship) (id : Text)
      (es : List VerificationMethodEntry) (doc : DidDocument V)
      → Set.contains (array_of rel (project_methods revoked did es doc)) id
        ≡ (Set.contains (array_of rel doc) id || any (offers revoked rel id) es)
  unfolding project_methods
  array_of-project_methods revoked did rel id [] doc = ground arith
  array_of-project_methods revoked did rel id (e ∷ es) doc = elim (Bool-cases (revoked e.id)) [
    | inl r ↦ ground (arith, r, array_of-project_methods revoked did rel id es doc)
    | inr n ↦
        let grown = record doc {
          verification_method =
              doc.verification_method
              ++ record {
                id = e.id;
                type = verification_method_type e.suite_type;
                controller = did;
                public_key_multibase = some e.public_key_multibase;
                public_key_jwk = none;
              }
                ∷ [];
        } in
        ground (
          arith,
          n,
          array_of-project_methods revoked did rel id es (refer_all e.id e.relationships grown),
          array_of-refer_all rel e.id id e.relationships grown,
          array_of-grown rel grown.verification_method doc,
        )
  ]

  project_data-unreserved :
      (d : List (Text × V)) (extra : Map Text V) (key : Text)
      → (contains_key extra key ≡ true → is_reserved_document_property key ≡ false)
      → contains_key (project_data d extra) key ≡ true
      → is_reserved_document_property key ≡ false
  unfolding project_data
  project_data-unreserved [] extra key f h = f h
  project_data-unreserved ((name, value) ∷ d) extra key f h =
      elim (Bool-cases (is_reserved_document_property name)) [
        | inl r ↦ project_data-unreserved d extra key f (rw (r, project_data) at h)
        | inr n ↦
            project_data-unreserved d (Map.insert name value extra) key
              (λ m.
                ground
                  (arith, m, n, f, get-insert name value key extra, text_ord.eq_of_cmp key name))
              (rw (n, project_data) at h)
      ]

  contains-push_twins :
      (rel : VerificationRelationship) (id : Text) (ts : List (VerificationMethod V))
      (doc : DidDocument V)
      → Set.contains (array_of rel (push_twins ts doc)) id ≡ (
          Set.contains (array_of rel doc) id
          || (eq? rel assertion_method && any (λ t. eq? id t.id) ts))
  unfolding array_of push_twins relationship_ord Set.contains
  contains-push_twins rel id [] doc = ground arith
  contains-push_twins authentication id (t ∷ ts) doc =
      contains-push_twins authentication id ts (with_twin t doc)
  contains-push_twins assertion_method id (t ∷ ts) doc = ground (
    arith,
    contains-push_twins assertion_method id ts (with_twin t doc),
    contains-append doc.assertion_method (t.id ∷ []) id,
  )
  contains-push_twins key_agreement id (t ∷ ts) doc =
      contains-push_twins key_agreement id ts (with_twin t doc)
  contains-push_twins capability_invocation id (t ∷ ts) doc =
      contains-push_twins capability_invocation id ts (with_twin t doc)
  contains-push_twins capability_delegation id (t ∷ ts) doc =
      contains-push_twins capability_delegation id ts (with_twin t doc)

contains-empty :
    (V : Type 0) (rel : VerificationRelationship) (did : Did) (id : Text)
    → Set.contains (array_of rel (empty {V = V} did)) id ≡ false
unfolding array_of empty Set.contains
contains-empty V authentication did id = refl
contains-empty V assertion_method did id = refl
contains-empty V key_agreement did id = refl
contains-empty V capability_invocation did id = refl
contains-empty V capability_delegation did id = refl

module _ {V : Type 0} where
  module _ (r : Rendering V) (c : Crates V) where
    -- The array of a relationship, but for the twins.
    array_of-project :
        (rel : VerificationRelationship) (doc : Document c)
        → array_of rel (project r c doc)
          ≡ array_of rel (push_twins (twin_methods r doc.did (keyed r c doc)) (keyed r c doc))
    unfolding project array_of
    array_of-project authentication doc = refl
    array_of-project assertion_method doc = refl
    array_of-project key_agreement doc = refl
    array_of-project capability_invocation doc = refl
    array_of-project capability_delegation doc = refl

    contains-keyed :
        (rel : VerificationRelationship) (doc : Document c) (id : Text)
        → Set.contains (array_of rel (keyed r c doc)) id
          ≡ any
              (offers (is_revoked c.ids doc.revoked_verification_methods) rel id)
              (method_entries c.methods doc.verification_methods)
    unfolding keyed
    contains-keyed rel doc id = rw (
      array_of-project_methods (is_revoked c.ids doc.revoked_verification_methods) doc.did rel id
          (method_entries c.methods doc.verification_methods) (empty doc.did),
      contains-empty V rel doc.did id,
    )

    contains-project :
        (rel : VerificationRelationship) (doc : Document c) (id : Text)
        → Set.contains (array_of rel (project r c doc)) id ≡ (
            any
              (offers (is_revoked c.ids doc.revoked_verification_methods) rel id)
              (method_entries c.methods doc.verification_methods)
            || (eq? rel assertion_method
                && any (λ t. eq? id t.id) (twin_methods r doc.did (keyed r c doc))))
    contains-project rel doc id = rw (
      array_of-project rel doc,
      contains-push_twins rel id (twin_methods r doc.did (keyed r c doc)) (keyed r c doc),
      contains-keyed rel doc id,
    )

    extra-project :
        (doc : Document c) (key : Text)
        → (contains_key (project r c doc).extra key && is_reserved_document_property key) ≡ false
    unfolding project Map.get
    extra-project doc key = elim (Bool-cases (contains_key (project r c doc).extra key)) [
      | inl h ↦ rw (h, project_data-unreserved (data_entries doc.document_data) [] key (λ m. cc) h)
      | inr n ↦ rw (n)
    ]

    resolve-some :
        (s : Genesis V) (doc : Document c) (d : DidDocument V)
        → (resolve r c s doc).did_document ≡ some d
        → (is_set doc.deactivated ≡ false) × (project r c doc ≡ d)
    unfolding resolve
    resolve-some s doc d h = elim (Bool-cases (is_set doc.deactivated)) [
      | inl b ↦ cc
      | inr n ↦ (n, cc)
    ]

    pub resolve-shows :
        (s : Genesis V) (doc : Document c) (d : DidDocument V) (rel : VerificationRelationship)
        (id key : Text)
        → (resolve r c s doc).did_document ≡ some d
        → (is_set doc.deactivated ≡ false)
          × (Set.contains (array_of rel d) id ≡ (
              any
                (offers (is_revoked c.ids doc.revoked_verification_methods) rel id)
                (method_entries c.methods doc.verification_methods)
              || (eq? rel assertion_method
                  && any (λ t. eq? id t.id) (twin_methods r doc.did (keyed r c doc)))))
          × ((contains_key d.extra key && is_reserved_document_property key) ≡ false)
    resolve-shows s doc d rel id key h =
        let (n, e) = resolve-some s doc d h in
        (n, rw (sym e, contains-project rel doc id), rw (sym e, extra-project doc key))
