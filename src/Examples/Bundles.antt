-- ===== src/Examples/Bundles.antt =====
-- A document made from a key, and an update of it with a signature.
use did_crdt.Base.{
  ℕ, ◌-◌, ◌≡◌, refl, true, false, ◌||◌, List, [], ◌∷◌, ◌++◌, some, if◌then◌else◌, ◌⊎◌,
}
use did_crdt.Ord.{nat_ord, eq?}
use did_crdt.Ord.Text.{cmp_list, Text, list_ord}
use did_crdt.Std.Count.{count}
use did_crdt.Std.Map
use did_crdt.Std.Map.{Map, contains_key, IsOrdered}
use did_crdt.Std.Set
use did_crdt.Std.Sort.{sort, sort_dedup}
use did_crdt.Error.{Error, delta_rejected, ok, err}
use did_crdt.Delta.{
  unsigned, signing_input, DeltaHash, SignedDelta, content_hash, ecdsa_secp256k1_signature2019,
  revoke_credential,
}
use did_crdt.Crdt.Sets.{is_set, is_revoked, insert_method, method_ord, method_entries}
use did_crdt.Dag
use did_crdt.Dag.{has_authorising_delta}
use did_crdt.Causal.{verify_causal}
use did_crdt.Recon.{ClosureBundle, hashes_of}
use did_crdt.Validate.Signature.{verify_signature, Suite, Crypto}
use did_crdt.Document.{apply_op, Document, merge, delta_count}
use did_crdt.Document.Genesis
use did_crdt.Document.Genesis.{genesis_public_key_multibase, Genesis, key_0, derive_did}
use did_crdt.Document.Genesis.Key.{genesis_public_key_multibase_lem}
use did_crdt.Document.Genesis.Valid.{methods-new}
use did_crdt.Document.Order.{topo_order_bundle}
use did_crdt.Document.Order.Drain.{InOrder}
use did_crdt.Document.Order.Laws.{topo_order_bundle_lem, IsCyclic}
use did_crdt.Document.Verified.{merge_verified_bundle, merge_verified_delta}
use did_crdt.Document.Verified.Bundle.{merge_verified_bundle_lem, merge_verified_bundle-IsSigned}
use did_crdt.Document.Verified.Signed.{Authentic, IsSigned}
use did_crdt.Document.Verified.Single.{
  merge_verified_delta-Authentic, merge_verified_delta-IsSigned,
}
use did_crdt.Examples.Documents.{crates}
use did_crdt.Examples.Parts.{sets, at, genesis, left, right}
use did_crdt.Did.{
  from_creation_hash, from_str-from_creation_hash, Hashes, from_str, method_specific_id,
}

-- Every hash is 64 times `a`.
abbrev pub hashes : Hashes
hashes = record {
  Hash = ℕ;
  to_hex = λ h.
      97 ∷ 97 ∷ 97 ∷ 97 ∷ 97 ∷ 97 ∷ 97 ∷ 97 ∷ 97 ∷ 97 ∷ 97 ∷ 97 ∷ 97 ∷ 97 ∷ 97 ∷ 97 ∷ 97 ∷ 97 ∷ 97
      ∷ 97 ∷ 97 ∷ 97 ∷ 97 ∷ 97 ∷ 97 ∷ 97 ∷ 97 ∷ 97 ∷ 97 ∷ 97 ∷ 97 ∷ 97 ∷ 97 ∷ 97 ∷ 97 ∷ 97 ∷ 97 ∷ 97
      ∷ 97 ∷ 97 ∷ 97 ∷ 97 ∷ 97 ∷ 97 ∷ 97 ∷ 97 ∷ 97 ∷ 97 ∷ 97 ∷ 97 ∷ 97 ∷ 97 ∷ 97 ∷ 97 ∷ 97 ∷ 97 ∷ 97
      ∷ 97 ∷ 97 ∷ 97 ∷ 97 ∷ 97 ∷ 97 ∷ 97 ∷ [];
  length_hex = λ h. refl;
  digits_hex = λ h. refl;
}

abbrev pub seeds : Genesis ℕ
seeds = record { hashes = hashes; seed_hash = λ t op pk. 0; iso8601 = λ ms. [] }

-- A signature holds if it is the message.
abbrev suite : Suite
suite = record {
  Key = List ℕ;
  Signature = List ℕ;
  key_from = some;
  signature_from = some;
  verify = λ vk input sig. eq? input sig;
}

abbrev pub crypto : Crypto ℕ
crypto = record {
  decode_vec = some;
  blake3 = λ bytes. bytes;
  signed_bytes = λ p. p.timestamp.wall_ms ∷ [];
  ed25519 = suite;
  secp256k1 = suite;
}

-- The public key is the byte 7.
abbrev pub public_key : Text
public_key = 117 ∷ 7 ∷ []

abbrev pub made : Document crates
made = (Genesis.new seeds crates public_key).0

abbrev pub creation : SignedDelta ℕ
creation = (Genesis.new seeds crates public_key).1

abbrev pub update : SignedDelta ℕ
update = record {
  did = derive_did seeds public_key;
  timestamp = at 5 7;
  op = revoke_credential (1 ∷ []);
  parents = (0 ∷ []) ∷ [];
  proof = record {
    suite = ecdsa_secp256k1_signature2019;
    verification_method = derive_did seeds public_key ++ key_0;
    created = [];
    proof_value = 117 ∷ 5 ∷ [];
  };
}

abbrev parcel : ClosureBundle ℕ
parcel = record { target = 5 ∷ []; deltas = update ∷ creation ∷ [] }

from_str-from_creation_hash_example :
    (from_str (from_creation_hash hashes 3) ≡ ok (from_creation_hash hashes 3))
    × (method_specific_id (from_creation_hash hashes 3) ≡ some (hashes.to_hex 3))
from_str-from_creation_hash_example = from_str-from_creation_hash hashes 3

-- Two deltas whose parent is the first one.
abbrev family : Map DeltaHash (SignedDelta ℕ)
family = ((1 ∷ []), genesis) ∷ ((2 ∷ []), left) ∷ ((3 ∷ []), right) ∷ []

family-IsOrdered : IsOrdered family
unfolding list_ord cmp_list nat_ord
family-IsOrdered = ((refl, (refl, tt)), ((refl, tt), (tt, tt)))

topo_order_bundle_lem_example :
    ((order : List DeltaHash) × (topo_order_bundle family ≡ some (ok order))
      × InOrder family [] order
      × ((x : DeltaHash) → count x order ≡ (if contains_key family x then 1 else 0)))
    ⊎ ((topo_order_bundle family ≡ some (err delta_rejected)) × IsCyclic family family-IsOrdered)
topo_order_bundle_lem_example = topo_order_bundle_lem family family-IsOrdered

merge_verified_bundle_lem_example :
    ((e : Error) × (merge_verified_bundle crypto crates parcel made ≡ some (made, err e)))
    ⊎ ((doc' : Document crates) × (merge_verified_bundle crypto crates parcel made
          ≡ some (doc', ok (delta_count crates doc' - delta_count crates made)))
        × Authentic crypto crates made doc'
        × ((h : DeltaHash)
            → Dag.contains doc'.dag h ≡ (
                Dag.contains made.dag h || Set.contains (hashes_of crates.digest parcel.deltas) h)))
merge_verified_bundle_lem_example = merge_verified_bundle_lem crypto crates parcel made

merged_parcel :
    merge_verified_bundle crypto crates parcel made ≡ some ((merge crates update made).0, ok 1)
unfolding list_ord cmp_list nat_ord Dag.contains Dag.get Map.get Map.insert Set.contains Set.insert
    Dag.new Dag.insert Genesis.new derive_did from_creation_hash unsigned apply_op content_hash
    signing_input method_entries sets insert_method method_ord merge verify_causal is_set
    has_authorising_delta is_revoked sort_dedup merge_verified_bundle delta_count topo_order_bundle
    sort verify_signature hashes_of
merged_parcel = refl

update_new : Dag.contains made.dag (5 ∷ []) ≡ false
unfolding list_ord cmp_list nat_ord Dag.contains Dag.get Map.get Map.insert Set.contains Set.insert
    Dag.new Dag.insert Genesis.new derive_did from_creation_hash unsigned apply_op content_hash
    signing_input method_entries sets insert_method method_ord
update_new = refl

update_held : Dag.contains (merge crates update made).0.dag (5 ∷ []) ≡ true
unfolding list_ord cmp_list nat_ord Dag.contains Dag.get Map.get Map.insert Set.contains Set.insert
    Dag.new Dag.insert Genesis.new derive_did from_creation_hash unsigned apply_op content_hash
    signing_input method_entries sets insert_method method_ord merge verify_causal is_set
    has_authorising_delta is_revoked sort_dedup
update_held = refl

merge_verified_bundle-IsSigned_example :
    (d : SignedDelta ℕ) × (Dag.get (merge crates update made).0.dag (5 ∷ []) ≡ some d)
    × (content_hash crates.digest d ≡ 5 ∷ [])
    × IsSigned crypto crates (merge crates update made).0 d
merge_verified_bundle-IsSigned_example =
    merge_verified_bundle-IsSigned crypto crates parcel made (merge crates update made).0 1 (5 ∷ [])
      merged_parcel (methods-new seeds crates public_key) update_new update_held

update_merged : (merge_verified_delta crypto crates update made).1 ≡ ok tt
unfolding list_ord cmp_list nat_ord Dag.contains Dag.get Map.get Map.insert Set.contains Set.insert
    Dag.new Dag.insert Genesis.new derive_did from_creation_hash unsigned apply_op content_hash
    signing_input method_entries sets insert_method method_ord merge verify_causal is_set
    has_authorising_delta is_revoked sort_dedup merge_verified_delta verify_signature
update_merged = refl

update_hash_new : Dag.contains made.dag (content_hash crates.digest update) ≡ false
unfolding list_ord cmp_list nat_ord Dag.contains Dag.get Map.get Map.insert Set.contains Set.insert
    Dag.new Dag.insert Genesis.new derive_did from_creation_hash unsigned apply_op content_hash
    signing_input method_entries sets insert_method method_ord
update_hash_new = refl

merge_verified_delta-IsSigned_example :
    (Dag.contains
        (merge_verified_delta crypto crates update made).0.dag
        (content_hash crates.digest update)
      ≡ true)
    × IsSigned crypto crates made update
merge_verified_delta-IsSigned_example =
    merge_verified_delta-IsSigned crypto crates update made update_merged update_hash_new
      (methods-new seeds crates public_key)

genesis_public_key_multibase_lem_example :
    (pk : Text) × (genesis_public_key_multibase seeds crates
        (merge_verified_delta crypto crates update made).0
      ≡ some pk)
    × (derive_did seeds pk ≡ (merge_verified_delta crypto crates update made).0.did)
genesis_public_key_multibase_lem_example =
    genesis_public_key_multibase_lem seeds crates crypto public_key
      (merge_verified_delta crypto crates update made).0
      (merge_verified_delta-Authentic crypto crates update made)
