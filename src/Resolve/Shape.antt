-- ===== src/Resolve/Shape.antt =====
-- src/core/resolve.rs: the types of a resolved document. The entries of the arrays of key references
-- and the endpoint of a service are JSON strings, for which their texts stand.
use did_crdt.Base.{Bool, List, [], ◌∷◌, Option}
use did_crdt.Ord.Text.{Text}
use did_crdt.Std.Map.{Map}
use did_crdt.Delta.{Did}

-- `struct VerificationMethod`.
pub record VerificationMethod (V : Type 0) : Type 0 where
  pub id : Text
  pub type : Text
  pub controller : Text
  pub public_key_multibase : Option Text
  pub public_key_jwk : Option V

-- `struct ServiceEndpoint`.
pub record ServiceEndpoint : Type 0 where
  pub id : Text
  pub type : Text
  pub endpoint : Text

-- `struct DidDocument`.
pub record DidDocument (V : Type 0) : Type 0 where
  pub context : List Text
  pub id : Text
  pub also_known_as : List Text
  pub verification_method : List (VerificationMethod V)
  pub authentication : List Text
  pub assertion_method : List Text
  pub key_agreement : List Text
  pub capability_invocation : List Text
  pub capability_delegation : List Text
  pub service : List ServiceEndpoint
  pub extra : Map Text V

-- `struct DidDocumentMetadata`, without `signed_closure`, which is none.
pub record DidDocumentMetadata : Type 0 where
  pub deactivated : Bool
  pub version_id : Text
  pub created : Option Text
  pub updated : Option Text
  pub genesis_public_key_multibase : Option Text

-- `struct ResolutionResult`; the first metadata are the content type.
pub record ResolutionResult (V : Type 0) : Type 0 where
  pub content_type : Text
  pub did_document : Option (DidDocument V)
  pub did_document_metadata : DidDocumentMetadata

-- `DidDocument::base_context`.
abbrev pub base_context : List Text
base_context =
    (104 ∷ 116 ∷ 116 ∷ 112 ∷ 115 ∷ 58 ∷ 47 ∷ 47 ∷ 119 ∷ 119 ∷ 119 ∷ 46 ∷ 119 ∷ 51 ∷ 46 ∷ 111 ∷ 114
      ∷ 103 ∷ 47 ∷ 110 ∷ 115 ∷ 47 ∷ 100 ∷ 105 ∷ 100 ∷ 47 ∷ 118 ∷ 49 ∷ [])
    ∷ (104 ∷ 116 ∷ 116 ∷ 112 ∷ 115 ∷ 58 ∷ 47 ∷ 47 ∷ 119 ∷ 51 ∷ 105 ∷ 100 ∷ 46 ∷ 111 ∷ 114 ∷ 103 ∷ 47
        ∷ 115 ∷ 101 ∷ 99 ∷ 117 ∷ 114 ∷ 105 ∷ 116 ∷ 121 ∷ 47 ∷ 115 ∷ 117 ∷ 105 ∷ 116 ∷ 101 ∷ 115 ∷ 47
        ∷ 101 ∷ 100 ∷ 50 ∷ 53 ∷ 53 ∷ 49 ∷ 57 ∷ 45 ∷ 50 ∷ 48 ∷ 50 ∷ 48 ∷ 47 ∷ 118 ∷ 49 ∷ [])
    ∷ []

-- `JSON_WEB_KEY_TYPE`, `JWK_FRAGMENT_PREFIX`.
abbrev pub json_web_key_type : Text
json_web_key_type = 74 ∷ 115 ∷ 111 ∷ 110 ∷ 87 ∷ 101 ∷ 98 ∷ 75 ∷ 101 ∷ 121 ∷ []

abbrev pub jwk_fragment_prefix : Text
jwk_fragment_prefix = 35 ∷ 106 ∷ 119 ∷ 107 ∷ 45 ∷ []

module _ {V : Type 0} where
  -- `DidDocument::empty`.
  unfoldable pub empty : Did → DidDocument V
  empty did = record {
    context = base_context;
    id = did;
    also_known_as = [];
    verification_method = [];
    authentication = [];
    assertion_method = [];
    key_agreement = [];
    capability_invocation = [];
    capability_delegation = [];
    service = [];
    extra = [];
  }
