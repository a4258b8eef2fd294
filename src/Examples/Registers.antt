-- ===== src/Examples/Registers.antt =====
-- Registers with concrete writes, and admission results.
use did_crdt.Base.{◌≢◌, ap, if◌then◌else◌, refl, ℕ, [], ◌∷◌, ◌≡◌, arith, Option}
use did_crdt.Ord.{nat_ord, eq?}
use did_crdt.Ord.Text.{list_ord, cmp_list, Text}
use did_crdt.Std.Map.{IsOrdered}
use did_crdt.Hlc.{timestamp_ord, HlcTimestamp}
use did_crdt.Crdt.Crates.{Lww}
use did_crdt.Crdt.Registers.{
  marker_ord, DocumentData, set_data, merge_data, slot, ActiveKeyMarker, KeyHash, rotate, new_key,
}
use did_crdt.Crdt.Registers.Data.{slot-set_data, merge_data_comm, set_data-IsOrdered}
use did_crdt.Crdt.Registers.Fields.{rotate_comm}
use did_crdt.Crdt.Registers.Order.{Consistent}
use did_crdt.Examples.Parts.{at, key, register}

-- A hash of 32 bytes that tells the text of a 3 from others.
abbrev hash_of_three : KeyHash
hash_of_three = record {
  bytes =
      1 ∷ 0 ∷ 0 ∷ 0 ∷ 0 ∷ 0 ∷ 0 ∷ 0 ∷ 0 ∷ 0 ∷ 0 ∷ 0 ∷ 0 ∷ 0 ∷ 0 ∷ 0 ∷ 0 ∷ 0 ∷ 0 ∷ 0 ∷ 0 ∷ 0 ∷ 0 ∷ 0
      ∷ 0 ∷ 0 ∷ 0 ∷ 0 ∷ 0 ∷ 0 ∷ 0 ∷ 0 ∷ [];
  is_hash = refl;
}

abbrev hash_of_others : KeyHash
hash_of_others = record {
  bytes =
      2 ∷ 0 ∷ 0 ∷ 0 ∷ 0 ∷ 0 ∷ 0 ∷ 0 ∷ 0 ∷ 0 ∷ 0 ∷ 0 ∷ 0 ∷ 0 ∷ 0 ∷ 0 ∷ 0 ∷ 0 ∷ 0 ∷ 0 ∷ 0 ∷ 0 ∷ 0 ∷ 0
      ∷ 0 ∷ 0 ∷ 0 ∷ 0 ∷ 0 ∷ 0 ∷ 0 ∷ 0 ∷ [];
  is_hash = refl;
}

abbrev tagged : Text → KeyHash
tagged t = if eq? t (3 ∷ []) then hash_of_three else hash_of_others

abbrev three : Text
three = 3 ∷ []

abbrev four : Text
four = 4 ∷ []

bytes_apart : hash_of_three ≢ hash_of_others
bytes_apart h = cc (ap (λ k. k.bytes) h)

tagged_apart : tagged three ≡ tagged four → three ≡ four
unfolding list_ord cmp_list nat_ord
tagged_apart h = absurd (bytes_apart h)

abbrev keys : Lww (Option Text) ActiveKeyMarker
keys = register

rotate_comm_example :
    rotate tagged keys 2 three (rotate tagged keys 2 four new_key)
    ≡ rotate tagged keys 2 four (rotate tagged keys 2 three new_key)
rotate_comm_example = rotate_comm tagged keys 2 2 three four new_key tagged_apart

abbrev values : Lww ℕ HlcTimestamp
values = register

abbrev one : DocumentData ℕ
one = set_data 0 values key 5 (at 1 7) []

abbrev two : DocumentData ℕ
two = set_data 0 values (108 ∷ []) 6 (at 2 7) (set_data 0 values key 7 (at 3 8) [])

one-IsOrdered : IsOrdered one
one-IsOrdered = set_data-IsOrdered 0 values key 5 (at 1 7) [] tt

two-IsOrdered : IsOrdered two
two-IsOrdered =
    set_data-IsOrdered 0 values (108 ∷ []) 6 (at 2 7) (set_data 0 values key 7 (at 3 8) [])
      (set_data-IsOrdered 0 values key 7 (at 3 8) [] tt)

-- A later write makes no conflict.
Consistent-later :
    (k : Text)
    → Consistent values
        (slot 0 values k (set_data 0 values key 8 (at 4 7) two))
        (slot 0 values k two)
Consistent-later k h = ground (
  arith,
  h,
  slot-set_data 0 values key 8 (at 4 7) two k,
  timestamp_ord.cmp_refl (slot 0 values k two).marker,
)

merge_data_comm_example :
    merge_data 0 values (set_data 0 values key 8 (at 4 7) two) two
    ≡ merge_data 0 values two (set_data 0 values key 8 (at 4 7) two)
merge_data_comm_example =
    merge_data_comm 0 values (set_data 0 values key 8 (at 4 7) two) two
      (set_data-IsOrdered 0 values key 8 (at 4 7) two two-IsOrdered) two-IsOrdered Consistent-later
