-- ===== src/Document.antt =====
-- src/core/document.rs: the replicated document, a product of CRDTs with the log and the store of its
-- deltas. What it uses of other crates is the parameter `Crates`.
pub mod Admit
pub mod Valid
pub mod State
pub mod Order
pub mod Verified
pub mod Genesis
pub mod Export
pub mod Projection
use did_crdt.Base.{
  ◌||◌, ℕ, Bool, true, false, not, ◌&&◌, List, [], ◌∷◌, ◌++◌, Option, none, some, ltb, max, min,
  if◌then◌else◌, length,
}
use did_crdt.Ord.{eq?, lt?, nat_ord}
use did_crdt.Ord.Text.{Text, list_ord}
use did_crdt.Std.Set
use did_crdt.Hlc.{HlcTimestamp, timestamp_ord}
use did_crdt.Error.{
  delta_rejected, unauthorised, delta_pending, delta_too_large, Result, ok, err, ◌>>=◌, refuse_if,
}
use did_crdt.Delta.{
  revoke_verification_method, revoke_credential, rotate_key, remove_service_endpoint,
  set_document_data, add_verification_method, set_also_known_as, add_service_endpoint, Did,
  DeltaHash, DeltaOp, SignedDelta, Payload, content_hash, deactivate,
}
use did_crdt.Crdt.Crates.{GSet, Lww}
use did_crdt.Crdt.Registers.{
  merge_data, merge_aliases, merge_key, DocumentData, AlsoKnownAs, ActiveKey, ActiveKeyMarker,
  KeyHash, marker_ord, set_data, set_aliases, rotate,
}
use did_crdt.Crdt.Services
use did_crdt.Crdt.Services.{ServiceEndpoints}
use did_crdt.Crdt.Sets
use did_crdt.Crdt.Sets.{
  is_set, method_entries, is_revoked, merge_methods, merge_revocations, merge_latch,
  VerificationMethodEntry, method_ord, Deactivated, insert_method, revoke, latch,
}
use did_crdt.Dag
use did_crdt.Dag.{DeltaDag}
use did_crdt.Admission.{valid, invalid, unknown, signer_not_authorised}
use did_crdt.Causal.{verify_causal}
use did_crdt.Resolve.{is_reserved_document_property}
use did_crdt.Validate.{recognise_also_known_as}

-- The crates: sets, registers, the JSON value `null`, BLAKE3 of a text and of what a signature
-- covers, and the length of a delta as JSON.
pub record Crates (V : Type 0) : Type 1 where
  pub methods : GSet VerificationMethodEntry
  pub ids : GSet Text
  pub values : Lww V HlcTimestamp
  pub aliases : Lww (List Text) HlcTimestamp
  pub keys : Lww (Option Text) ActiveKeyMarker
  pub null : V
  pub hash : Text → KeyHash
  pub digest : Payload V → DeltaHash
  pub serialised_size : SignedDelta V → ℕ

-- `struct Document`.
pub record Document {V : Type 0} (c : Crates V) : Type 0 where
  pub did : Did
  pub verification_methods : c.methods.Carrier
  pub service_endpoints : ServiceEndpoints
  pub document_data : DocumentData V
  pub also_known_as : AlsoKnownAs
  pub active_key : ActiveKey
  pub revocations : c.ids.Carrier
  pub revoked_verification_methods : c.ids.Carrier
  pub deactivated : Deactivated
  pub created_ms : Option ℕ
  pub updated_ms : Option ℕ
  pub delta_log : List (SignedDelta V)
  pub dag : DeltaDag V

-- `MAX_DELTA_SIZE`.
abbrev pub max_delta_size : ℕ
max_delta_size = 65536

-- `is_canonical_parents`.
unfoldable pub is_canonical_parents : List DeltaHash → Bool
is_canonical_parents [] = true
is_canonical_parents (p ∷ []) = true
is_canonical_parents (p ∷ q ∷ ps) = lt? p q && is_canonical_parents (q ∷ ps)

abbrev is_nil : {A : Type 0} → List A → Bool
is_nil [] = true
is_nil (x ∷ xs) = false

-- The update of `updated_ms` in `apply_op`.
unfoldable pub touch : ℕ → Option ℕ → Option ℕ
touch wall none = some wall
touch wall (some prev) = if ltb prev wall then some wall else some prev

-- The merges of `created_ms` and of `updated_ms` in `merge_state`.
unfoldable pub earliest : Option ℕ → Option ℕ → Option ℕ
earliest (some a) (some b) = some (min a b)
earliest (some a) none = some a
earliest none other = other

unfoldable pub latest : Option ℕ → Option ℕ → Option ℕ
latest (some a) (some b) = some (max a b)
latest (some a) none = some a
latest none other = other

module _ {V : Type 0} where
  -- The timestamp of a delta that adds the service `id`.
  unfoldable pub added_at : Text → SignedDelta V → Option HlcTimestamp
  added_at id d = elim d.op [
    | add_service_endpoint added_id _ _ ↦ if eq? added_id id then some d.timestamp else none
    | _ ↦ none
  ]

  -- The gates of `merge` on the operation.
  unfoldable pub recognise_op : DeltaOp V → Result (Unit {0})
  recognise_op (set_also_known_as uris) = recognise_also_known_as uris
  recognise_op (set_document_data key _) =
      refuse_if (is_reserved_document_property key) delta_rejected (ok tt)
  recognise_op _ = ok tt

  -- The causal gate of `merge`.
  unfoldable pub causal_gate : SignedDelta V → DeltaDag V → Result (Unit {0})
  causal_gate d g = elim (verify_causal d g) [
    | unknown missing ↦ err (delta_pending missing)
    | valid ↦ ok tt
    | invalid signer_not_authorised ↦
        refuse_if (is_nil d.parents || Dag.has_authorising_delta g d.proof.verification_method)
          unauthorised (ok tt)
    | invalid _ ↦ err unauthorised
  ]

module _ {V : Type 0} (c : Crates V) where
  -- `Document::apply_op`.
  unfoldable pub apply_op : DeltaOp V → HlcTimestamp → List DeltaHash → Document c → Document c
  unfolding touch added_at
  apply_op op timestamp parents doc =
      let doc' : Document c = record doc { updated_ms = touch timestamp.wall_ms doc.updated_ms } in
      elim op [
        | add_verification_method id public_key_multibase suite_type relationships ↦ record doc' {
          verification_methods =
              insert_method c.methods id public_key_multibase suite_type relationships
                doc'.verification_methods;
        }
        | add_service_endpoint id service_type endpoint ↦ record doc' {
          service_endpoints =
              Services.apply_add
                (record { id = id; service_type = service_type; endpoint = endpoint }) timestamp
                doc'.service_endpoints;
        }
        | remove_service_endpoint id ↦ record doc' {
          service_endpoints =
              Services.apply_remove (Dag.closure_collect doc'.dag parents (added_at id)) timestamp
                doc'.service_endpoints;
        }
        | set_also_known_as uris ↦ record doc' {
          also_known_as = set_aliases c.aliases uris timestamp doc'.also_known_as;
        }
        | set_document_data key value ↦ record doc' {
          document_data = set_data c.null c.values key value timestamp doc'.document_data;
        }
        | rotate_key seq key_ref ↦ record doc' {
          active_key = rotate c.hash c.keys seq key_ref doc'.active_key;
        }
        | revoke_credential credential_id ↦ record doc' {
          revocations = revoke c.ids credential_id doc'.revocations;
        }
        | revoke_verification_method key_id ↦ record doc' {
          revoked_verification_methods = revoke c.ids key_id doc'.revoked_verification_methods;
        }
        | deactivate ↦ record doc' { deactivated = latch doc'.deactivated }
      ]

  -- The guards of `merge`, in their order: an error, `ok false` for a delta that is held, which ends
  -- the call, or `ok true`.
  unfoldable pub admit : SignedDelta V → Document c → Result Bool
  unfolding recognise_op is_canonical_parents causal_gate content_hash
  admit d doc =
      let signer = d.proof.verification_method in
      refuse_if (ltb max_delta_size (c.serialised_size d))
        (delta_too_large (c.serialised_size d) max_delta_size)
        (refuse_if (not (eq? d.did doc.did)) delta_rejected (
          recognise_op d.op >>= λ _.
          (if Dag.contains doc.dag (content_hash c.digest d)
            then ok false
            else (refuse_if (not (is_canonical_parents d.parents)) delta_rejected (
                causal_gate d doc.dag >>= λ _.
                refuse_if (is_set doc.deactivated && not (Dag.has_deactivate_delta doc.dag))
                  delta_rejected
                  (refuse_if
                    (not (Dag.has_authorising_delta doc.dag signer)
                      && not (is_nil (method_entries c.methods doc.verification_methods))
                      && not (Sets.contains_id c.methods doc.verification_methods signer))
                    unauthorised
                    (refuse_if
                      (is_revoked c.ids doc.revoked_verification_methods signer
                        && not (Dag.has_revoking_delta doc.dag signer))
                      unauthorised (ok true))))))))

  -- What `merge` does once the guards are passed.
  unfoldable pub commit : SignedDelta V → Document c → Document c
  unfolding apply_op
  commit d doc =
      let doc' = apply_op d.op d.timestamp d.parents doc in
      record doc' { dag = Dag.insert c.digest d doc'.dag; delta_log = doc'.delta_log ++ d ∷ [] }

  -- `Document::merge`.
  unfoldable pub merge : SignedDelta V → Document c → Document c × Result (Unit {0})
  unfolding admit commit
  merge d doc = elim (admit d doc) [
    | err e ↦ (doc, err e)
    | ok false ↦ (doc, ok tt)
    | ok true ↦ (commit d doc, ok tt)
  ]

  -- `Document::missing_parents`.
  unfoldable pub missing_parents : SignedDelta V → Document c → List DeltaHash
  missing_parents d doc = elim (verify_causal d doc.dag) [ unknown missing ↦ missing | _ ↦ [] ]

  -- `Document::delta_count`.
  unfoldable pub delta_count : Document c → ℕ
  delta_count doc = length doc.delta_log

  -- The loop of `rebuild_dag`.
  unfoldable pub replay : List (SignedDelta V) → DeltaDag V → DeltaDag V
  replay [] g = g
  replay (d ∷ ds) g = replay ds (Dag.insert c.digest d g)

  -- `Document::rebuild_dag`.
  unfoldable pub rebuild_dag : Document c → Document c
  unfolding replay
  rebuild_dag doc = record doc { dag = replay doc.delta_log Dag.new }

  -- The hashes of a log, put into a set.
  unfoldable pub logged : List (SignedDelta V) → List DeltaHash
  logged [] = []
  logged (d ∷ ds) = Set.insert (content_hash c.digest d) (logged ds)

  -- The loop of `merge_state` over the other side's log.
  unfoldable pub take_log :
      List (SignedDelta V)
      → List DeltaHash
      → List (SignedDelta V) × DeltaDag V
      → List (SignedDelta V) × DeltaDag V
  take_log [] seen acc = acc
  take_log (d ∷ ds) seen acc =
      let h = content_hash c.digest d in
      take_log ds (Set.insert h seen)
        (if Set.contains seen h then acc else (acc.0 ++ d ∷ [], Dag.insert c.digest d acc.1))

  -- `Document::merge_state`.
  unfoldable pub merge_state : Document c → Document c → Document c × Result (Unit {0})
  unfolding logged take_log earliest latest
  merge_state other doc =
      if not (eq? other.did doc.did)
      then (doc, err delta_rejected)
      else (let (log, dag) =
            take_log other.delta_log (logged doc.delta_log) (doc.delta_log, doc.dag) in
          (
            record {
              did = doc.did;
              verification_methods =
                  merge_methods c.methods doc.verification_methods other.verification_methods;
              service_endpoints = Services.merge doc.service_endpoints other.service_endpoints;
              document_data = merge_data c.null c.values doc.document_data other.document_data;
              also_known_as = merge_aliases c.aliases doc.also_known_as other.also_known_as;
              active_key = merge_key c.hash c.keys doc.active_key other.active_key;
              revocations = merge_revocations c.ids doc.revocations other.revocations;
              revoked_verification_methods =
                  merge_revocations c.ids doc.revoked_verification_methods
                    other.revoked_verification_methods;
              deactivated = merge_latch doc.deactivated other.deactivated;
              created_ms = earliest doc.created_ms other.created_ms;
              updated_ms = latest doc.updated_ms other.updated_ms;
              delta_log = log;
              dag = dag;
            },
            ok tt,
          ))
