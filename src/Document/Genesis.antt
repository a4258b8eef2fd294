-- ===== src/Document/Genesis.antt =====
-- src/core/document.rs: the creation of a document. What BLAKE3 makes of the serialised seed, and the
-- rendering of a date, are the parameter `Genesis`.
pub mod Valid
pub mod Key
use did_crdt.Base.{List, Option, none, if◌then◌else◌, false, ℕ, [], ◌∷◌, ◌++◌, some}
use did_crdt.Ord.{nat_ord, eq?}
use did_crdt.Ord.Text.{list_ord, Text}
use did_crdt.Hlc.{HlcTimestamp, epoch}
use did_crdt.Delta.{
  Did, DeltaOp, add_verification_method, SignedDelta, ed25519_signature2020, default_relationships,
  unsigned,
}
use did_crdt.Crdt.Registers.{new_key, new_aliases}
use did_crdt.Crdt.Services
use did_crdt.Crdt.Sets.{VerificationMethodEntry, method_entries}
use did_crdt.Dag
use did_crdt.Document.{Crates, Document, apply_op}
use did_crdt.Did.{Hashes, from_creation_hash}

pub record Genesis (V : Type 0) : Type 1 where
  pub hashes : Hashes
  pub seed_hash : HlcTimestamp → DeltaOp V → Text → hashes.Hash
  pub iso8601 : ℕ → Text

-- `#key-0`.
abbrev pub key_0 : Text
key_0 = 35 ∷ 107 ∷ 101 ∷ 121 ∷ 45 ∷ 48 ∷ []

module _ {V : Type 0} (s : Genesis V) where
  abbrev pub genesis_op : Text → Text → DeltaOp V
  genesis_op id public_key_multibase =
      add_verification_method id public_key_multibase ed25519_signature2020 default_relationships

  -- `derive_did`.
  unfoldable pub derive_did : Text → Did
  unfolding from_creation_hash
  derive_did public_key_multibase =
      from_creation_hash s.hashes
        (s.seed_hash epoch (genesis_op key_0 public_key_multibase) public_key_multibase)

  module _ (c : Crates V) where
    -- The document of `Document::new` before its creation op.
    unfoldable pub blank : Did → Document c
    blank did = record {
      did = did;
      verification_methods = c.methods.new;
      service_endpoints = Services.new;
      document_data = [];
      also_known_as = new_aliases;
      active_key = new_key;
      revocations = c.ids.new;
      revoked_verification_methods = c.ids.new;
      deactivated = record { flag = false };
      created_ms = some epoch.wall_ms;
      updated_ms = some epoch.wall_ms;
      delta_log = [];
      dag = Dag.new;
    }

    -- `Document::new`.
    unfoldable pub new : Text → Document c × SignedDelta V
    unfolding derive_did blank
    new public_key_multibase =
        let did = derive_did public_key_multibase in
        let op = genesis_op (did ++ key_0) public_key_multibase in
        let doc = apply_op c op epoch [] (blank did) in
        let creation_delta = unsigned s.iso8601 did op epoch public_key_multibase in
        (
          record doc {
            delta_log = doc.delta_log ++ creation_delta ∷ [];
            dag = Dag.insert c.digest creation_delta doc.dag;
          },
          creation_delta,
        )

    -- The first entry whose key derives the DID.
    unfoldable pub find_deriving : Did → List VerificationMethodEntry → Option Text
    unfolding derive_did
    find_deriving did [] = none
    find_deriving did (e ∷ es) =
        let rest = find_deriving did es in
        if eq? (derive_did e.public_key_multibase) did then some e.public_key_multibase else rest

    -- `Document::genesis_public_key_multibase`.
    unfoldable pub genesis_public_key_multibase : Document c → Option Text
    unfolding find_deriving method_entries
    genesis_public_key_multibase doc =
        find_deriving doc.did (method_entries c.methods doc.verification_methods)
