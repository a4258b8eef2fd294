-- ===== src/Causal.antt =====
-- src/core/causal.rs: whether a delta is authorised by its causal past.
pub mod Scan
pub mod Decision
pub mod Stable
use did_crdt.Base.{
  Bool, true, false, not, List, [], ◌∷◌, reverse, Option, none, some, if◌then◌else◌,
}
use did_crdt.Ord.{eq?, nat_ord}
use did_crdt.Ord.Text.{Text, list_ord}
use did_crdt.Std.Sort.{sort_dedup}
use did_crdt.Delta.{
  DeltaHash, SignedDelta, add_verification_method, revoke_verification_method, deactivate,
}
use did_crdt.Dag.{DeltaDag, Flow, next, stop, is_empty, search_loop, rounds}
use did_crdt.Admission.{
  AdmissionResult, unknown, valid, invalid, RejectReason, signer_not_authorised,
  genesis_op_not_allowed, revoked, deactivated,
}

-- `struct ClosureFacts`.
pub record ClosureFacts : Type 0 where
  pub signer_added : Bool
  pub is_revoked : Bool
  pub is_deactivated : Bool
  pub missing : List DeltaHash

abbrev pub no_facts : ClosureFacts
no_facts = record { signer_added = false; is_revoked = false; is_deactivated = false; missing = [] }

-- After the loop of `scan_closure`: the missing hashes are sorted and deduplicated.
unfoldable pub scan_end : Flow ClosureFacts ClosureFacts → ClosureFacts
scan_end (stop facts) = record facts { missing = sort_dedup (reverse facts.missing) }
scan_end (next facts) = record facts { missing = sort_dedup (reverse facts.missing) }

-- The decision of `verify_causal` from the facts.
unfoldable pub decide_facts : ClosureFacts → AdmissionResult
decide_facts facts =
    if facts.is_revoked
    then invalid revoked
    else if facts.is_deactivated
    then invalid deactivated
    else elim facts.missing [
      | m ∷ ms ↦ unknown (m ∷ ms)
      | [] ↦ if not facts.signer_added then invalid signer_not_authorised else valid
    ]

module _ {V : Type 0} where
  -- The `match &d.op` of `scan_closure`.
  unfoldable pub note_op : Text → SignedDelta V → ClosureFacts → ClosureFacts
  note_op signer d facts = elim d.op [
    | add_verification_method id _ _ _ ↦
        if eq? id signer then record facts { signer_added = true } else facts
    | revoke_verification_method key_id ↦
        if eq? key_id signer then record facts { is_revoked = true } else facts
    | deactivate ↦ record facts { is_deactivated = true }
    | _ ↦ facts
  ]

  -- The body of its loop; the list of missing hashes has the last one first.
  unfoldable pub scan_body :
      Text → DeltaHash → Option (SignedDelta V) → ClosureFacts → Flow ClosureFacts ClosureFacts
  unfolding note_op
  scan_body signer h none facts = next (record facts { missing = h ∷ facts.missing })
  scan_body signer h (some d) facts = next (note_op signer d facts)

  -- `scan_closure`.
  unfoldable pub scan_closure : DeltaDag V → List DeltaHash → Text → ClosureFacts
  unfolding search_loop scan_body scan_end rounds
  scan_closure g parents signer =
      let stack = reverse parents in
      scan_end (search_loop (λ _. false) (scan_body signer) g (rounds g stack) stack [] no_facts)

  -- The `match &delta.op` of `verify_causal` on a delta with no parents.
  unfoldable pub genesis_result : SignedDelta V → AdmissionResult
  genesis_result d = elim d.op [
    | add_verification_method id _ _ _ ↦
        if eq? id d.proof.verification_method then valid else invalid signer_not_authorised
    | _ ↦ invalid genesis_op_not_allowed
  ]

  -- `verify_causal`.
  unfoldable pub verify_causal : SignedDelta V → DeltaDag V → AdmissionResult
  unfolding scan_closure genesis_result decide_facts is_empty
  verify_causal d g = elim d.parents [
    | [] ↦ if not (is_empty g) then invalid signer_not_authorised else genesis_result d
    | p ∷ ps ↦ decide_facts (scan_closure g (p ∷ ps) d.proof.verification_method)
  ]
