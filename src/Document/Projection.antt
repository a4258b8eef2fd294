-- ===== src/Document/Projection.antt =====
-- src/core/document.rs, `Document::resolve`, the document that is shown and what goes with it.
pub mod Keys
use mathlib.Core.Option
use did_crdt.Base.{
  ℕ, ◌+◌, Bool, true, false, not, List, [], ◌∷◌, ◌++◌, Option, none, some, length, ◌==◌,
  if◌then◌else◌,
}
use did_crdt.Ord.{eq?, nat_ord}
use did_crdt.Ord.Text.{Text, list_ord}
use did_crdt.Std.Map
use did_crdt.Std.Map.{Map}
use did_crdt.Std.Set
use did_crdt.Std.Sort.{sort_by_key}
use did_crdt.Delta.{
  Did, SuiteType, ed25519_signature2020, ecdsa_secp256k1_signature2019, VerificationRelationship,
  authentication, assertion_method, key_agreement, capability_invocation, capability_delegation,
}
use did_crdt.Crdt.Crates.{LwwReg}
use did_crdt.Crdt.Registers.{DocumentData, alias_entries, current, key_seq}
use did_crdt.Crdt.Services
use did_crdt.Crdt.Services.{ServiceEntry}
use did_crdt.Crdt.Sets.{
  VerificationMethodEntry, method_entries, is_revoked, revoked_entries, is_set,
}
use did_crdt.Resolve.{is_reserved_document_property}
use did_crdt.Resolve.Shape.{
  VerificationMethod, ServiceEndpoint, DidDocument, DidDocumentMetadata, ResolutionResult,
  base_context, json_web_key_type, jwk_fragment_prefix, empty,
}
use did_crdt.Document.{Crates, Document}
use did_crdt.Document.Genesis.{Genesis, genesis_public_key_multibase}

-- What the version of a document is a hash of.
pub record Content (V : Type 0) : Type 0 where
  pub did : Did
  pub vm_entries : List VerificationMethodEntry
  pub svc_entries : List ServiceEntry
  pub data_entries : List (Text × V)
  pub aliases : List Text
  pub revocations : List Text
  pub revoked_methods : List Text
  pub current_key : Option Text
  pub current_seq : ℕ
  pub deactivated : Bool

-- Base64, decimal numbers, the JSON object of a key, and the hash of the content.
pub record Rendering (V : Type 0) : Type 0 where
  pub decode_vec : Text → Option (List ℕ)
  pub encode_string : List ℕ → Text
  pub decimal : ℕ → Text
  pub okp_key : Text → V
  pub version : Content V → Text

-- `SuiteType::verification_method_type`.
abbrev pub verification_method_type : SuiteType → Text
verification_method_type ed25519_signature2020 =
    69 ∷ 100 ∷ 50 ∷ 53 ∷ 53 ∷ 49 ∷ 57 ∷ 86 ∷ 101 ∷ 114 ∷ 105 ∷ 102 ∷ 105 ∷ 99 ∷ 97 ∷ 116 ∷ 105 ∷ 111
    ∷ 110 ∷ 75 ∷ 101 ∷ 121 ∷ 50 ∷ 48 ∷ 50 ∷ 48 ∷ []
verification_method_type ecdsa_secp256k1_signature2019 =
    69 ∷ 99 ∷ 100 ∷ 115 ∷ 97 ∷ 83 ∷ 101 ∷ 99 ∷ 112 ∷ 50 ∷ 53 ∷ 54 ∷ 107 ∷ 49 ∷ 86 ∷ 101 ∷ 114 ∷ 105
    ∷ 102 ∷ 105 ∷ 99 ∷ 97 ∷ 116 ∷ 105 ∷ 111 ∷ 110 ∷ 75 ∷ 101 ∷ 121 ∷ 50 ∷ 48 ∷ 49 ∷ 57 ∷ []

abbrev pub json_content_type : Text
json_content_type =
    97 ∷ 112 ∷ 112 ∷ 108 ∷ 105 ∷ 99 ∷ 97 ∷ 116 ∷ 105 ∷ 111 ∷ 110 ∷ 47 ∷ 100 ∷ 105 ∷ 100 ∷ 43 ∷ 108
    ∷ 100 ∷ 43 ∷ 106 ∷ 115 ∷ 111 ∷ 110 ∷ []

-- `DocumentData::iter`.
unfoldable pub data_entries : {V : Type 0} → DocumentData V → List (Text × V)
data_entries [] = []
data_entries ((key, reg) ∷ d) = (key, reg.val) ∷ data_entries d

-- The loop over the services.
unfoldable pub project_services : List ServiceEntry → List ServiceEndpoint
project_services [] = []
project_services (e ∷ es) =
    record { id = e.id; type = e.service_type; endpoint = e.endpoint } ∷ project_services es

module _ {V : Type 0} where
  -- The array for a relationship gets the reference.
  unfoldable pub refer : Text → VerificationRelationship → DidDocument V → DidDocument V
  refer key_ref authentication doc = record doc {
    authentication = doc.authentication ++ key_ref ∷ [];
  }
  refer key_ref assertion_method doc = record doc {
    assertion_method = doc.assertion_method ++ key_ref ∷ [];
  }
  refer key_ref key_agreement doc = record doc { key_agreement = doc.key_agreement ++ key_ref ∷ [] }
  refer key_ref capability_invocation doc = record doc {
    capability_invocation = doc.capability_invocation ++ key_ref ∷ [];
  }
  refer key_ref capability_delegation doc = record doc {
    capability_delegation = doc.capability_delegation ++ key_ref ∷ [];
  }

  -- The loop over the relationships of an entry.
  unfoldable pub refer_all : Text → List VerificationRelationship → DidDocument V → DidDocument V
  unfolding refer
  refer_all key_ref [] doc = doc
  refer_all key_ref (rel ∷ rels) doc = refer_all key_ref rels (refer key_ref rel doc)

  -- The loop over the verification methods, without those that are revoked.
  unfoldable pub project_methods :
      (Text → Bool) → Did → List VerificationMethodEntry → DidDocument V → DidDocument V
  unfolding refer_all
  project_methods revoked did [] doc = doc
  project_methods revoked did (e ∷ es) doc =
      let rest = project_methods revoked did es in
      if revoked e.id
      then rest doc
      else rest (
          refer_all e.id e.relationships (record doc {
            verification_method =
                doc.verification_method
                ++ record {
                  id = e.id;
                  type = verification_method_type e.suite_type;
                  controller = did;
                  public_key_multibase = some e.public_key_multibase;
                  public_key_jwk = none;
                }
                  ∷ [];
          }))

  -- The methods that assert.
  unfoldable pub asserting : List Text → List (VerificationMethod V) → List (VerificationMethod V)
  asserting refs [] = []
  asserting refs (m ∷ ms) =
      let rest = asserting refs ms in if Set.contains refs m.id then m ∷ rest else rest

  -- A twin asserts.
  abbrev pub with_twin : VerificationMethod V → DidDocument V → DidDocument V
  with_twin twin doc = record doc {
    assertion_method = doc.assertion_method ++ twin.id ∷ [];
    verification_method = doc.verification_method ++ twin ∷ [];
  }

  -- The loop over the twins.
  unfoldable pub push_twins : List (VerificationMethod V) → DidDocument V → DidDocument V
  push_twins [] doc = doc
  push_twins (twin ∷ ts) doc = push_twins ts (with_twin twin doc)

  -- The loop over the document data, without the reserved names.
  unfoldable pub project_data : List (Text × V) → Map Text V → Map Text V
  project_data [] extra = extra
  project_data ((key, value) ∷ d) extra =
      project_data d
        (if is_reserved_document_property key then extra else Map.insert key value extra)

  module _ (r : Rendering V) where
    -- `Document::jwk_from_multibase`; `u` is 117.
    unfoldable pub jwk_from_multibase : Text → Option V
    jwk_from_multibase [] = none
    jwk_from_multibase (u ∷ b64) =
        if u == 117
        then elim (r.decode_vec b64) [
          | none ↦ none
          | some raw ↦
              if not (length raw == 32) then none else some (r.okp_key (r.encode_string raw))
        ]
        else none

    -- The twins of the methods, numbered from `index`.
    unfoldable pub twins : Did → ℕ → List (VerificationMethod V) → List (VerificationMethod V)
    unfolding jwk_from_multibase
    twins did index [] = []
    twins did index (m ∷ ms) =
        let rest = twins did (index + 1) ms in
        elim m.public_key_multibase [
          | none ↦ rest
          | some multibase ↦ elim (jwk_from_multibase multibase) [
            | none ↦ rest
            | some jwk ↦
                record {
                  id = did ++ jwk_fragment_prefix ++ r.decimal index;
                  type = json_web_key_type;
                  controller = did;
                  public_key_multibase = none;
                  public_key_jwk = some jwk;
                }
                ∷ rest
          ]
        ]

    -- The twins of the asserting methods, which are sorted by their id.
    unfoldable pub twin_methods : Did → DidDocument V → List (VerificationMethod V)
    unfolding asserting twins
    twin_methods did doc =
        twins did 0
          (sort_by_key (λ m. m.id) (asserting doc.assertion_method doc.verification_method))

    module _ (c : Crates V) where
      -- The document with the keys of the entries.
      unfoldable pub keyed : Document c → DidDocument V
      unfolding empty project_methods
      keyed doc =
          project_methods (is_revoked c.ids doc.revoked_verification_methods) doc.did
            (method_entries c.methods doc.verification_methods) (empty doc.did)

      -- The document, if it is not deactivated.
      unfoldable pub project : Document c → DidDocument V
      unfolding keyed twin_methods push_twins project_services project_data data_entries
      project doc =
          let methods = keyed doc in
          let twinned = push_twins (twin_methods doc.did methods) methods in
          record twinned {
            service = project_services (Services.entries doc.service_endpoints);
            also_known_as = alias_entries doc.also_known_as;
            extra = project_data (data_entries doc.document_data) [];
          }

      -- What the version identifier covers.
      unfoldable pub content : Document c → Content V
      content doc = record {
        did = doc.did;
        vm_entries = method_entries c.methods doc.verification_methods;
        svc_entries = Services.entries doc.service_endpoints;
        data_entries = data_entries doc.document_data;
        aliases = alias_entries doc.also_known_as;
        revocations = revoked_entries c.ids doc.revocations;
        revoked_methods = revoked_entries c.ids doc.revoked_verification_methods;
        current_key = current doc.active_key;
        current_seq = key_seq doc.active_key;
        deactivated = is_set doc.deactivated;
      }

      -- `Document::resolve`.
      unfoldable pub resolve : Genesis V → Document c → ResolutionResult V
      unfolding project content
      resolve s doc = record {
        content_type = json_content_type;
        did_document = if is_set doc.deactivated then none else some (project doc);
        did_document_metadata = record {
          deactivated = is_set doc.deactivated;
          version_id = r.version (content doc);
          created = Option.map s.iso8601 doc.created_ms;
          updated = Option.map s.iso8601 doc.updated_ms;
          genesis_public_key_multibase = genesis_public_key_multibase s c doc;
        };
      }
