-- ===== src/Validate/Signature.antt =====
-- src/core/validate.rs: `verify_signature`, and `check_authorisation`. Base64, BLAKE3, the two
-- signature suites and the bytes that are signed are the parameter `Crypto`.
use did_crdt.Base.{
  take, ◌==◌, length, if◌then◌else◌, ◌*◌, ◌+◌, ℕ, Bool, true, false, not, List, [], ◌∷◌, Option,
  none, some,
}
use did_crdt.Ord.{nat_ord, eq?}
use did_crdt.Ord.Text.{list_ord, Text}
use did_crdt.Error.{
  unauthorised, delta_rejected, invalid_signature, Result, ok, err, ◌>>=◌, refuse_if,
}
use did_crdt.Delta.{
  SuiteType, ed25519_signature2020, ecdsa_secp256k1_signature2019, DeltaOp, add_verification_method,
  Payload, SignedDelta, signing_input,
}
use did_crdt.Crdt.Sets.{VerificationMethodEntry, method_entries, contains_id, is_revoked, is_set}
use did_crdt.Document.{Crates, Document}

-- What a signature suite offers: a key from its bytes, a signature from its bytes, and the test of a
-- message.
pub record Suite : Type 1 where
  pub Key : Type 0
  pub Signature : Type 0
  pub key_from : List ℕ → Option Key
  pub signature_from : List ℕ → Option Signature
  pub verify : Key → List ℕ → Signature → Bool

pub record Crypto (V : Type 0) : Type 1 where
  pub decode_vec : Text → Option (List ℕ)
  pub blake3 : List ℕ → List ℕ
  pub signed_bytes : Payload V → List ℕ
  pub ed25519 : Suite
  pub secp256k1 : Suite

-- `u64::from_le_bytes`.
unfoldable pub from_le_bytes : List ℕ → ℕ
from_le_bytes [] = 0
from_le_bytes (b ∷ bs) = b + 256 * from_le_bytes bs

-- `ok_or(Error::InvalidSignature)` and `map_err(|_| Error::InvalidSignature)`.
abbrev pub or_invalid : {T : Type 0} → Option T → Result T
or_invalid none = err invalid_signature
or_invalid (some x) = ok x

-- `Iterator::find` for the entry with this id.
unfoldable pub find_id : Text → List VerificationMethodEntry → Option VerificationMethodEntry
find_id id [] = none
find_id id (e ∷ es) = if eq? e.id id then some e else find_id id es

abbrev pub is_nil : {A : Type 0} → List A → Bool
is_nil [] = true
is_nil (x ∷ xs) = false

abbrev pub adds_method : {V : Type 0} → DeltaOp V → Bool
adds_method (add_verification_method _ _ _ _) = true
adds_method _ = false

-- What is left once the key and the signature are there.
abbrev pub verify_with : (s : Suite) → s.Key → List ℕ → s.Signature → Result (Unit {0})
verify_with s vk input sig = refuse_if (not (s.verify vk input sig)) invalid_signature (ok tt)

module _ {V : Type 0} (k : Crypto V) where
  -- `decode_multibase_u`; `u` is 117.
  unfoldable pub decode_multibase_u : Text → Result (List ℕ)
  decode_multibase_u [] = err invalid_signature
  decode_multibase_u (u ∷ b64) =
      if u == 117 then or_invalid (k.decode_vec b64) else err invalid_signature

  -- `node_id_from_pubkey`.
  unfoldable pub node_id_from_pubkey : List ℕ → ℕ
  unfolding from_le_bytes
  node_id_from_pubkey pubkey_bytes = from_le_bytes (take 8 (k.blake3 pubkey_bytes))

  -- The `match` on the suite: `try_into` refuses an Ed25519 key that is not 32 bytes, and a
  -- signature that is not 64.
  unfoldable pub verify_suite : SuiteType → List ℕ → List ℕ → List ℕ → Result (Unit {0})
  verify_suite ed25519_signature2020 key_bytes input sig_bytes =
      refuse_if (not (length key_bytes == 32)) invalid_signature (
        or_invalid (k.ed25519.key_from key_bytes) >>= λ vk.
        refuse_if (not (length sig_bytes == 64)) invalid_signature (
          or_invalid (k.ed25519.signature_from sig_bytes) >>= λ sig.
          verify_with k.ed25519 vk input sig))
  verify_suite ecdsa_secp256k1_signature2019 key_bytes input sig_bytes =
      or_invalid (k.secp256k1.key_from key_bytes) >>= λ vk.
      or_invalid (k.secp256k1.signature_from sig_bytes) >>= λ sig.
      verify_with k.secp256k1 vk input sig

  module _ (c : Crates V) where
    -- `verify_signature`.
    unfoldable pub verify_signature : SignedDelta V → Document c → Result (Unit {0})
    unfolding decode_multibase_u signing_input find_id node_id_from_pubkey verify_suite
    verify_signature delta doc =
        let entries = method_entries c.methods doc.verification_methods in
        if is_nil delta.proof.proof_value
        then (if is_nil entries then ok tt else err invalid_signature)
        else (decode_multibase_u delta.proof.proof_value >>= λ sig_bytes.
            elim (find_id delta.proof.verification_method entries) [
              | none ↦ err unauthorised
              | some e ↦ decode_multibase_u e.public_key_multibase >>= λ key_bytes.
                  refuse_if (not (delta.timestamp.node_id == node_id_from_pubkey key_bytes))
                    unauthorised
                    (verify_suite delta.proof.suite key_bytes (k.signed_bytes (signing_input delta))
                      sig_bytes)
            ])

-- `check_authorisation`.
unfoldable pub check_authorisation :
    {V : Type 0} (c : Crates V) → SignedDelta V → Document c → Result (Unit {0})
check_authorisation c delta doc =
    let signer = delta.proof.verification_method in
    refuse_if (not (eq? delta.did doc.did)) delta_rejected (
      refuse_if (is_set doc.deactivated) delta_rejected (
        if is_nil (method_entries c.methods doc.verification_methods)
        then refuse_if (not (adds_method delta.op)) unauthorised (ok tt)
        else refuse_if (not (contains_id c.methods doc.verification_methods signer)) unauthorised (
            refuse_if (is_revoked c.ids doc.revoked_verification_methods signer) unauthorised
              (ok tt))))
