-- ===== src/Admission.antt =====
-- src/core/admission.rs: the three-valued result of an admission, and its meet.
pub mod Meet
use Prim.Native.Nat.Ordering.{lt, eq, gt}
use did_crdt.Base.{
  ℕ, ◌≡◌, Bool, true, false, List, [], ◌++◌, Option, none, some, Ordering, if◌then◌else◌, arith,
}
use did_crdt.Ord.{Ord, lt?, view_ord, nat_ord}
use did_crdt.Ord.Text.{list_ord}
use did_crdt.Std.Sort.{sort_dedup}
use did_crdt.Delta.{DeltaHash}

-- `enum RejectReason`.
pub data RejectReason : Type 0 where
  did_mismatch : RejectReason
  deactivated : RejectReason
  genesis_op_not_allowed : RejectReason
  signer_not_authorised : RejectReason
  stale_rotation : RejectReason
  revoked : RejectReason
  bad_signature : RejectReason
  too_large : RejectReason

-- The position of a variant, by which the derived order compares.
abbrev pub reason_rank : RejectReason → ℕ
reason_rank did_mismatch = 0
reason_rank deactivated = 1
reason_rank genesis_op_not_allowed = 2
reason_rank signer_not_authorised = 3
reason_rank stale_rotation = 4
reason_rank revoked = 5
reason_rank bad_signature = 6
reason_rank too_large = 7

pub reason_rank_injective : (r s : RejectReason) → reason_rank r ≡ reason_rank s → r ≡ s
reason_rank_injective r s h = ground arith

instance unfoldable pub reason_ord : Ord RejectReason
unfolding view_ord nat_ord
reason_ord = view_ord reason_rank reason_rank_injective

-- `a.min(b)`: the second only if it is smaller.
abbrev pub min_reason : RejectReason → RejectReason → RejectReason
min_reason a b = if lt? b a then b else a

-- `enum AdmissionResult`.
pub data AdmissionResult : Type 0 where
  unknown : List DeltaHash → AdmissionResult
  valid : AdmissionResult
  invalid : RejectReason → AdmissionResult

-- `merge_missing`.
unfoldable pub merge_missing : List DeltaHash → List DeltaHash → List DeltaHash
merge_missing a b = sort_dedup (a ++ b)

-- `AdmissionResult::meet`.
unfoldable pub meet : AdmissionResult → AdmissionResult → AdmissionResult
unfolding merge_missing
meet (invalid a) (invalid b) = invalid (min_reason a b)
meet (invalid r) (unknown b) = invalid r
meet (invalid r) valid = invalid r
meet (unknown a) (invalid r) = invalid r
meet valid (invalid r) = invalid r
meet (unknown a) (unknown b) = unknown (merge_missing a b)
meet (unknown a) valid = unknown a
meet valid (unknown a) = unknown a
meet valid valid = valid

-- `AdmissionResult::is_resolved`, `is_stable`, `missing`.
unfoldable pub is_resolved : AdmissionResult → Bool
is_resolved (unknown ms) = false
is_resolved valid = true
is_resolved (invalid r) = true

unfoldable pub is_stable : AdmissionResult → Bool
unfolding is_resolved
is_stable r = is_resolved r

unfoldable pub missing : AdmissionResult → List DeltaHash
missing (unknown ms) = ms
missing valid = []
missing (invalid r) = []

-- `partial_cmp`: the flat order, which does not look at the payloads.
unfoldable pub partial_cmp : AdmissionResult → AdmissionResult → Option Ordering
partial_cmp (unknown a) (unknown b) = some eq
partial_cmp valid valid = some eq
partial_cmp (invalid a) (invalid b) = some eq
partial_cmp (unknown a) valid = some lt
partial_cmp (unknown a) (invalid b) = some lt
partial_cmp valid (unknown b) = some gt
partial_cmp (invalid a) (unknown b) = some gt
partial_cmp valid (invalid b) = none
partial_cmp (invalid a) valid = none
