-- ===== src/Document/Verified/Signed.antt =====
-- src/core/document.rs: the deltas that the verified merges take up, and their signatures.
use did_crdt.Base.{
  refl, if◌then◌else◌, List-cases, Option-cases, Bool-cases, ℕ, ◌≡◌, ◌≢◌, true, false, inl, inr,
  some, List, [], ◌∷◌, arith,
}
use did_crdt.Ord.{nat_ord, eq?}
use did_crdt.Ord.Text.{Text, list_ord, text_ord}
use did_crdt.Std.Set
use did_crdt.Std.Set.Laws.{contains-insert}
use did_crdt.Error.{Result-cases, ok}
use did_crdt.Delta.{
  rotate_key, set_document_data, set_also_known_as, remove_service_endpoint, add_service_endpoint,
  add_verification_method, DeltaOp, deactivate, revoke_credential, revoke_verification_method,
  signing_input, DeltaHash, SignedDelta, content_hash,
}
use did_crdt.Crdt.Sets.{insert_method, VerificationMethodEntry, method_ord, method_entries}
use did_crdt.Dag
use did_crdt.Dag.Insert.{get-insert_delta}
use did_crdt.Validate.Signature.{
  Crypto, verify_signature, decode_multibase_u, node_id_from_pubkey, verify_suite, find_id,
}
use did_crdt.Document.{HlcTimestamp, is_nil, Crates, Document, commit, merge, apply_op}
use did_crdt.Document.Admit.{merge-cases, dag-commit, merge_admits}

find_id-finds :
    (id : Text) (es : List VerificationMethodEntry) (e : VerificationMethodEntry)
    → find_id id es ≡ some e
    → (e.id ≡ id) × (Set.contains es e ≡ true)
unfolding find_id Set.contains
find_id-finds id [] e h = cc
find_id-finds id (f ∷ es) e h =
    ground (arith, h, find_id-finds id es e, text_ord.eq_of_cmp f.id id, method_ord.cmp_refl e)

is_nil-empty : {A : Type 0} (xs : List A) → is_nil xs ≡ true → xs ≡ []
is_nil-empty [] h = refl
is_nil-empty (x ∷ xs) h = cc

methods-apply_op :
    {V : Type 0} (c : Crates V) (op : DeltaOp V) (t : HlcTimestamp) (ps : List DeltaHash)
    (doc : Document c) (e : VerificationMethodEntry)
    → Set.contains (method_entries c.methods doc.verification_methods) e ≡ true
    → Set.contains (method_entries c.methods (apply_op c op t ps doc).verification_methods) e ≡ true
unfolding apply_op method_entries insert_method
methods-apply_op c (add_verification_method i p s r) t ps doc e h =
    let f : VerificationMethodEntry = record {
      id = i;
      public_key_multibase = p;
      suite_type = s;
      relationships = r;
    } in
    rw
      (
        c.methods.read_insert f doc.verification_methods,
        contains-insert f e (c.methods.read doc.verification_methods),
      )
      (ground (arith, h))
methods-apply_op c (add_service_endpoint i s x) t ps doc e h = h
methods-apply_op c (remove_service_endpoint i) t ps doc e h = h
methods-apply_op c (set_also_known_as us) t ps doc e h = h
methods-apply_op c (set_document_data k x) t ps doc e h = h
methods-apply_op c (rotate_key n r) t ps doc e h = h
methods-apply_op c (revoke_credential i) t ps doc e h = h
methods-apply_op c (revoke_verification_method i) t ps doc e h = h
methods-apply_op c deactivate t ps doc e h = h

module _ {V : Type 0} (k : Crypto V) (c : Crates V) where
  -- The signature of `d` holds under the key of the entry `e`, whose identifier `d` names, and the
  -- clock of `d` bears the node that belongs to that key.
  pub record SignedBy (e : VerificationMethodEntry) (d : SignedDelta V) : Type 0 where
    pub sig_bytes : List ℕ
    pub key_bytes : List ℕ
    pub names : e.id ≡ d.proof.verification_method
    pub sig_decoded : decode_multibase_u k d.proof.proof_value ≡ ok sig_bytes
    pub key_decoded : decode_multibase_u k e.public_key_multibase ≡ ok key_bytes
    pub node : d.timestamp.node_id ≡ node_id_from_pubkey k key_bytes
    pub verified :
        verify_suite k d.proof.suite key_bytes (k.signed_bytes (signing_input d)) sig_bytes ≡ ok tt

  -- One of the document's verification methods signs `d`.
  abbrev pub IsSigned : Document c → SignedDelta V → Type 0
  IsSigned doc d =
      (e : VerificationMethodEntry) × (Set.contains
          (method_entries c.methods doc.verification_methods) e
        ≡ true)
      × SignedBy e d

  pub verify_signature-IsSigned :
      (d : SignedDelta V) (doc : Document c)
      → verify_signature k c d doc ≡ ok tt
      → method_entries c.methods doc.verification_methods ≢ []
      → IsSigned doc d
  unfolding verify_signature
  verify_signature-IsSigned d doc h n =
      let entries = method_entries c.methods doc.verification_methods in
      elim (Result-cases (decode_multibase_u k d.proof.proof_value)) [
        | inl (f, q) ↦ absurd (ground (arith, h, n, q, is_nil-empty entries))
        | inr (sig, q) ↦ elim (Option-cases (find_id d.proof.verification_method entries)) [
          | inl r ↦ absurd (ground (arith, h, n, q, r, is_nil-empty entries))
          | inr (e, r) ↦ elim (Result-cases (decode_multibase_u k e.public_key_multibase)) [
            | inl (f, s) ↦ absurd (ground (arith, h, n, q, r, s, is_nil-empty entries))
            | inr (key, s) ↦
                let (name, held) = find_id-finds d.proof.verification_method entries e r in
                (
                  e,
                  held,
                  record {
                    sig_bytes = sig;
                    key_bytes = key;
                    names = name;
                    sig_decoded = q;
                    key_decoded = s;
                    node = ground (arith, h, n, q, r, s, is_nil-empty entries);
                    verified = ground (arith, h, n, q, r, s, is_nil-empty entries);
                  },
                )
          ]
        ]
      ]

  -- The documents that come of `doc` by merges of deltas that it does not hold and whose signatures
  -- it verifies.
  pub data Authentic (doc : Document c) : Document c → Type 0 where
    same : Authentic doc doc
    more :
        (doc' : Document c) (d : SignedDelta V)
        → Authentic doc doc'
        → Dag.contains doc'.dag (content_hash c.digest d) ≡ false
        → verify_signature k c d doc' ≡ ok tt
        → (merge c d doc').1 ≡ ok tt
        → Authentic doc (merge c d doc').0

methods-commit :
    {V : Type 0} (c : Crates V) (d : SignedDelta V) (doc : Document c) (e : VerificationMethodEntry)
    → Set.contains (method_entries c.methods doc.verification_methods) e ≡ true
    → Set.contains (method_entries c.methods (commit c d doc).verification_methods) e ≡ true
unfolding commit
methods-commit c d doc e h = methods-apply_op c d.op d.timestamp d.parents doc e h

module _ {V : Type 0} (k : Crypto V) (c : Crates V) where
  -- What a step of `Authentic` does to the methods and to the store.
  methods-merge :
      (d : SignedDelta V) (doc : Document c) (e : VerificationMethodEntry)
      → Set.contains (method_entries c.methods doc.verification_methods) e ≡ true
      → Set.contains (method_entries c.methods (merge c d doc).0.verification_methods) e ≡ true
  methods-merge d doc e h = elim (merge-cases c d doc) [
    | inl (f, a, m) ↦ ground (arith, h, m)
    | inr (inl (a, m)) ↦ ground (arith, h, m)
    | inr (inr (a, m)) ↦ ground (arith, m, methods-commit c d doc e h)
  ]

  pub dag-merge :
      (d : SignedDelta V) (doc : Document c)
      → Dag.contains doc.dag (content_hash c.digest d) ≡ false
      → (merge c d doc).1 ≡ ok tt
      → (h : DeltaHash)
      → Dag.get (merge c d doc).0.dag h
        ≡ (if eq? h (content_hash c.digest d) then some d else Dag.get doc.dag h)
  dag-merge d doc n m h =
      rw
        ((merge_admits c d doc m n).0, dag-commit c d doc, get-insert_delta c.digest d doc.dag h, n)
        (ground arith)

  pub methods_kept :
      (doc doc' : Document c) (e : VerificationMethodEntry)
      → Authentic k c doc doc'
      → Set.contains (method_entries c.methods doc.verification_methods) e ≡ true
      → Set.contains (method_entries c.methods doc'.verification_methods) e ≡ true
  methods_kept doc _ e same h = h
  methods_kept doc _ e (more doc' d a n v m) h =
      methods-merge d doc' e (methods_kept doc doc' e a h)

  pub methods_nonempty :
      (doc doc' : Document c)
      → Authentic k c doc doc'
      → method_entries c.methods doc.verification_methods ≢ []
      → method_entries c.methods doc'.verification_methods ≢ []
  unfolding Set.contains
  methods_nonempty doc doc' a n z =
      elim (List-cases (method_entries c.methods doc.verification_methods)) [
        | inl q ↦ n q
        | inr (e, rest, q) ↦ ground (arith, z, q, method_ord.cmp_refl e, methods_kept doc doc' e a)
      ]

  -- Authentic signed
  pub Authentic-IsSigned :
      (doc doc' : Document c) (h : DeltaHash)
      → Authentic k c doc doc'
      → method_entries c.methods doc.verification_methods ≢ []
      → Dag.contains doc.dag h ≡ false
      → Dag.contains doc'.dag h ≡ true
      → (d : SignedDelta V) × (Dag.get doc'.dag h ≡ some d)
        × (content_hash c.digest d ≡ h)
        × IsSigned k c doc' d
  unfolding Dag.contains
  Authentic-IsSigned doc _ h same n old new = absurd (cc (old, new))
  Authentic-IsSigned doc _ h (more doc' d a e v m) n old new =
      elim (Bool-cases (eq? h (content_hash c.digest d))) [
        | inl q ↦
            let (x, held, s) =
              verify_signature-IsSigned k c d doc' v (methods_nonempty doc doc' a n) in
            (
              d,
              ground (arith, q, dag-merge d doc' e m h),
              ground (arith, q, text_ord.eq_of_cmp h (content_hash c.digest d)),
              (x, methods-merge d doc' x held, s),
            )
        | inr q ↦
            let (d', g, i, (x, held, s)) =
              Authentic-IsSigned doc doc' h a n old
                (ground (arith, q, new, dag-merge d doc' e m h)) in
            (
              d',
              ground (arith, q, g, dag-merge d doc' e m h),
              i,
              (x, methods-merge d doc' x held, s),
            )
      ]
