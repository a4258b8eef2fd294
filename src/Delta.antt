-- ===== src/Delta.antt =====
-- src/core/delta.rs: the signed deltas. `serde_json::Value` is the parameter `V`, and the identity
-- of a delta is a parameter too, a function `digest` of what the signature covers: BLAKE3 of its
-- canonical JSON.
use did_crdt.Base.{ℕ, ◌≡◌, List, [], ◌∷◌, arith}
use did_crdt.Ord.{Ord, view_ord, nat_ord, pair_ord}
use did_crdt.Ord.Text.{Text, list_ord}
use did_crdt.Std.Sort.{sort_dedup}
use did_crdt.Hlc.{HlcTimestamp}

-- `enum SuiteType`.
pub data SuiteType : Type 0 where
  ed25519_signature2020 : SuiteType
  ecdsa_secp256k1_signature2019 : SuiteType

-- The position of a variant, by which the derived order compares.
abbrev pub suite_rank : SuiteType → ℕ
suite_rank ed25519_signature2020 = 0
suite_rank ecdsa_secp256k1_signature2019 = 1

pub suite_rank_injective : (s t : SuiteType) → suite_rank s ≡ suite_rank t → s ≡ t
suite_rank_injective s t h = ground arith

instance unfoldable pub suite_ord : Ord SuiteType
unfolding view_ord nat_ord
suite_ord = view_ord suite_rank suite_rank_injective

-- `enum VerificationRelationship`.
pub data VerificationRelationship : Type 0 where
  authentication : VerificationRelationship
  assertion_method : VerificationRelationship
  key_agreement : VerificationRelationship
  capability_invocation : VerificationRelationship
  capability_delegation : VerificationRelationship

abbrev pub relationship_rank : VerificationRelationship → ℕ
relationship_rank authentication = 0
relationship_rank assertion_method = 1
relationship_rank key_agreement = 2
relationship_rank capability_invocation = 3
relationship_rank capability_delegation = 4

pub relationship_rank_injective :
    (s t : VerificationRelationship) → relationship_rank s ≡ relationship_rank t → s ≡ t
relationship_rank_injective s t h = ground arith

instance unfoldable pub relationship_ord : Ord VerificationRelationship
unfolding view_ord nat_ord
relationship_ord = view_ord relationship_rank relationship_rank_injective

-- `default_relationships`.
abbrev pub default_relationships : List VerificationRelationship
default_relationships = authentication ∷ []

-- `struct DeltaHash`.
abbrev pub DeltaHash : Type 0
DeltaHash = Text

-- The string of a `struct Did`.
abbrev pub Did : Type 0
Did = Text

-- `enum DeltaOp`.
pub data DeltaOp (V : Type 0) : Type 0 where
  add_verification_method : Text → Text → SuiteType → List VerificationRelationship → DeltaOp V
  add_service_endpoint : Text → Text → Text → DeltaOp V
  remove_service_endpoint : Text → DeltaOp V
  set_also_known_as : List Text → DeltaOp V
  set_document_data : Text → V → DeltaOp V
  rotate_key : ℕ → Text → DeltaOp V
  revoke_credential : Text → DeltaOp V
  revoke_verification_method : Text → DeltaOp V
  deactivate : DeltaOp V

-- `struct DeltaProof`.
pub record DeltaProof : Type 0 where
  pub suite : SuiteType
  pub verification_method : Text
  pub created : Text
  pub proof_value : Text

-- `struct SignedDelta`.
pub record SignedDelta (V : Type 0) : Type 0 where
  pub did : Did
  pub timestamp : HlcTimestamp
  pub op : DeltaOp V
  pub parents : List DeltaHash
  pub proof : DeltaProof

-- What `compute_signing_input` covers: everything but the proof.
pub record Payload (V : Type 0) : Type 0 where
  pub did : Did
  pub op : DeltaOp V
  pub parents : List DeltaHash
  pub timestamp : HlcTimestamp

module _ {V : Type 0} where
  -- `SignedDelta::signing_input`, before it is printed as canonical JSON.
  unfoldable pub signing_input : SignedDelta V → Payload V
  signing_input d = record { did = d.did; op = d.op; parents = d.parents; timestamp = d.timestamp }

  -- `SignedDelta::content_hash`, which does not fail.
  unfoldable pub content_hash : (Payload V → DeltaHash) → SignedDelta V → DeltaHash
  unfolding signing_input
  content_hash digest d = digest (signing_input d)

-- `canonicalise_parents`.
unfoldable pub canonicalise_parents : List DeltaHash → List DeltaHash
canonicalise_parents parents = sort_dedup parents

module _ {V : Type 0} {Key : Type 0} (sign : Key → Payload V → SuiteType × Text)
    (iso8601 : ℕ → Text) where
  -- `SignedDelta::new_with_parents`; `sign` is the signature of either suite in its encoding, and
  -- `iso8601` is `ms_to_iso8601`.
  unfoldable pub new_with_parents :
      Did → DeltaOp V → HlcTimestamp → List DeltaHash → Text → Key → SignedDelta V
  unfolding canonicalise_parents
  new_with_parents did op timestamp parents verification_method key =
      let parents' = canonicalise_parents parents in
      let input : Payload V = record {
        did = did;
        op = op;
        parents = parents';
        timestamp = timestamp;
      } in
      let (suite, proof_value) = sign key input in
      record {
        did = did;
        timestamp = timestamp;
        op = op;
        parents = parents';
        proof = record {
          suite = suite;
          verification_method = verification_method;
          created = iso8601 timestamp.wall_ms;
          proof_value = proof_value;
        };
      }

-- `SignedDelta::unsigned`.
unfoldable pub unsigned :
    {V : Type 0} → (ℕ → Text) → Did → DeltaOp V → HlcTimestamp → Text → SignedDelta V
unsigned iso8601 did op timestamp verification_method = record {
  did = did;
  timestamp = timestamp;
  op = op;
  parents = [];
  proof = record {
    suite = ed25519_signature2020;
    verification_method = verification_method;
    created = iso8601 timestamp.wall_ms;
    proof_value = [];
  };
}
