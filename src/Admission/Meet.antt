-- ===== src/Admission/Meet.antt =====
-- src/core/admission.rs: the laws of `meet`.
use did_crdt.Base.{◌≡◌, refl, ap, ◌∙◌, ◌||◌, List, ◌++◌, arith}
use did_crdt.Ord.{nat_ord}
use did_crdt.Ord.Text.{list_ord}
use did_crdt.Std.Set
use did_crdt.Std.Set.{IsAscending}
use did_crdt.Std.Set.Laws.{contains-append}
use did_crdt.Std.Sort.{sort_dedup_ext, sort_dedup_fixed, contains-sort_dedup}
use did_crdt.Delta.{DeltaHash}
use did_crdt.Admission.{
  RejectReason, reason_ord, min_reason, AdmissionResult, unknown, valid, invalid, meet,
  merge_missing,
}

-- The missing hashes are in canonical form.
abbrev pub IsCanonical : AdmissionResult → Type 0
IsCanonical (unknown ms) = IsAscending ms
IsCanonical valid = Unit
IsCanonical (invalid r) = Unit

contains-merge_missing :
    (a b : List DeltaHash) (h : DeltaHash)
    → Set.contains (merge_missing a b) h ≡ (Set.contains a h || Set.contains b h)
unfolding merge_missing
contains-merge_missing a b h = contains-sort_dedup h (a ++ b) ∙ contains-append a b h

merge_missing_comm : (a b : List DeltaHash) → merge_missing a b ≡ merge_missing b a
unfolding merge_missing
merge_missing_comm a b =
    sort_dedup_ext (a ++ b) (b ++ a)
      (λ h. ground (arith, contains-append a b h, contains-append b a h))

merge_missing_assoc :
    (a b c : List DeltaHash)
    → merge_missing (merge_missing a b) c ≡ merge_missing a (merge_missing b c)
merge_missing_assoc a b c =
    unfold merge_missing in
    sort_dedup_ext (merge_missing a b ++ c) (a ++ merge_missing b c) (λ h. ground (
      arith,
      contains-append (merge_missing a b) c h,
      contains-append a (merge_missing b c) h,
      contains-merge_missing a b h,
      contains-merge_missing b c h,
    ))

merge_missing_idem : (a : List DeltaHash) → IsAscending a → merge_missing a a ≡ a
unfolding merge_missing
merge_missing_idem a s =
    sort_dedup_ext (a ++ a) a (λ h. ground (arith, contains-append a a h)) ∙ sort_dedup_fixed a s

min_reason_comm : (r s : RejectReason) → min_reason r s ≡ min_reason s r
unfolding reason_ord
min_reason_comm r s = ground (arith, reason_ord.eq_of_cmp r s)

min_reason_assoc :
    (r s t : RejectReason) → min_reason (min_reason r s) t ≡ min_reason r (min_reason s t)
min_reason_assoc r s t = ground (
  arith,
  reason_ord.eq_of_cmp r s,
  reason_ord.eq_of_cmp s t,
  reason_ord.eq_of_cmp r t,
  reason_ord.lt_of_gt r s,
  reason_ord.lt_of_gt s t,
  reason_ord.lt_of_gt r t,
  reason_ord.gt_of_lt r s,
  reason_ord.gt_of_lt s t,
  reason_ord.gt_of_lt r t,
  reason_ord.gt_of_lt s r,
  reason_ord.gt_of_lt t s,
  reason_ord.gt_of_lt t r,
  reason_ord.lt_of_gt s r,
  reason_ord.lt_of_gt t s,
  reason_ord.lt_of_gt t r,
  reason_ord.lt_trans r s t,
  reason_ord.lt_trans t s r,
  reason_ord.eq_of_cmp s r,
  reason_ord.eq_of_cmp t s,
  reason_ord.eq_of_cmp t r,
)

-- Two admission results combine to the same result in either order.
pub meet_comm : (x y : AdmissionResult) → meet x y ≡ meet y x
unfolding meet
meet_comm (invalid a) (invalid b) = ap invalid (min_reason_comm a b)
meet_comm (invalid a) (unknown b) = refl
meet_comm (invalid a) valid = refl
meet_comm (unknown a) (invalid b) = refl
meet_comm (unknown a) (unknown b) = ap unknown (merge_missing_comm a b)
meet_comm (unknown a) valid = refl
meet_comm valid (invalid b) = refl
meet_comm valid (unknown b) = refl
meet_comm valid valid = refl

-- Three admission results combine to the same result in either grouping.
pub meet_assoc : (x y z : AdmissionResult) → meet (meet x y) z ≡ meet x (meet y z)
unfolding meet
meet_assoc (invalid a) (invalid b) (invalid c) = ap invalid (min_reason_assoc a b c)
meet_assoc (unknown a) (unknown b) (unknown c) = ap unknown (merge_missing_assoc a b c)
meet_assoc (invalid a) (invalid b) (unknown c) = refl
meet_assoc (invalid a) (invalid b) valid = refl
meet_assoc (invalid a) (unknown b) (invalid c) = refl
meet_assoc (invalid a) (unknown b) (unknown c) = refl
meet_assoc (invalid a) (unknown b) valid = refl
meet_assoc (invalid a) valid (invalid c) = refl
meet_assoc (invalid a) valid (unknown c) = refl
meet_assoc (invalid a) valid valid = refl
meet_assoc (unknown a) (invalid b) (invalid c) = refl
meet_assoc (unknown a) (invalid b) (unknown c) = refl
meet_assoc (unknown a) (invalid b) valid = refl
meet_assoc (unknown a) (unknown b) (invalid c) = refl
meet_assoc (unknown a) (unknown b) valid = refl
meet_assoc (unknown a) valid (invalid c) = refl
meet_assoc (unknown a) valid (unknown c) = refl
meet_assoc (unknown a) valid valid = refl
meet_assoc valid (invalid b) (invalid c) = refl
meet_assoc valid (invalid b) (unknown c) = refl
meet_assoc valid (invalid b) valid = refl
meet_assoc valid (unknown b) (invalid c) = refl
meet_assoc valid (unknown b) (unknown c) = refl
meet_assoc valid (unknown b) valid = refl
meet_assoc valid valid (invalid c) = refl
meet_assoc valid valid (unknown c) = refl
meet_assoc valid valid valid = refl

-- An admission result combined with itself is unchanged, if its missing hashes are strictly
-- ascending.
pub meet_idem : (x : AdmissionResult) → IsCanonical x → meet x x ≡ x
unfolding meet
meet_idem (invalid a) s = ap invalid (ground (arith, reason_ord.cmp_refl a))
meet_idem (unknown a) s = ap unknown (merge_missing_idem a s)
meet_idem valid s = refl
