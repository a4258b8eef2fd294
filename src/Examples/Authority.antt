-- ===== src/Examples/Authority.antt =====
-- Deltas that are admitted and refused by what lies below them.
use did_crdt.Base.{sym, ℕ, [], ◌∷◌, ◌≡◌, refl, arith}
use did_crdt.Ord.{nat_ord}
use did_crdt.Ord.Text.{text_ord, cmp_list, list_ord}
use did_crdt.Std.Map
use did_crdt.Std.Set
use did_crdt.Std.Sort.{sort_dedup}
use did_crdt.Delta.{content_hash, signing_input, set_document_data, SignedDelta}
use did_crdt.Dag.{contains, new, DeltaDag, insert, get, closure_complete}
use did_crdt.Dag.Find.{closure_complete_lem}
use did_crdt.Dag.Insert.{get-insert_delta}
use did_crdt.Admission.{valid, invalid, unknown, revoked, RejectReason}
use did_crdt.Causal.{verify_causal}
use did_crdt.Causal.Decision.{Claims, IsComplete, verify_causal-Claims}
use did_crdt.Causal.Stable.{
  Grows, Concur, verify_causal-keeps_valid, verify_causal-keeps_invalid, verify_causal_agree,
}
use did_crdt.Examples.Parts.{
  delta, digest, key, genesis, left, right, orphan, base, with_left, with_right,
}

-- A delta above the revocation.
abbrev late : SignedDelta ℕ
late = delta 5 (set_document_data key 6) ((3 ∷ []) ∷ [])

verify_causal-Claims_example : Claims with_left orphan.parents key (verify_causal orphan with_left)
verify_causal-Claims_example = verify_causal-Claims orphan with_left (λ h. cc)

verify_causal_test :
    (verify_causal orphan with_left ≡ unknown ((9 ∷ []) ∷ []))
    × (verify_causal left base ≡ valid)
    × (verify_causal late with_right ≡ invalid revoked)
    × (verify_causal genesis new ≡ valid)
unfolding verify_causal new Set.contains get Map.get insert Map.insert list_ord cmp_list nat_ord
    Set.insert sort_dedup
verify_causal_test = (refl, refl, refl, refl)

insert-Grows : (d : SignedDelta ℕ) (g : DeltaDag ℕ) → Grows g (insert digest d g)
unfolding contains
insert-Grows d g h e p =
    ground (arith, p, get-insert_delta digest d g h, text_ord.eq_of_cmp h (content_hash digest d))

verify_causal-keeps_valid_example : verify_causal left with_right ≡ valid
unfolding verify_causal Set.contains get Map.get insert new Map.insert list_ord cmp_list nat_ord
    sort_dedup
verify_causal-keeps_valid_example =
    verify_causal-keeps_valid base with_right (insert-Grows right base) left (λ h. cc) refl

verify_causal-keeps_invalid_example :
    (s : RejectReason) × (verify_causal late (insert digest left with_right) ≡ invalid s)
unfolding verify_causal Set.contains get Map.get insert new Map.insert list_ord cmp_list nat_ord
    Set.insert
verify_causal-keeps_invalid_example =
    verify_causal-keeps_invalid with_right (insert digest left with_right)
      (insert-Grows left with_right) late (λ h. cc) revoked refl

sides-Concur : Concur with_left with_right
unfolding contains content_hash signing_input
sides-Concur h d e p q = ground (
  arith,
  p,
  q,
  get-insert_delta digest left base h,
  get-insert_delta digest right base h,
  text_ord.eq_of_cmp h (2 ∷ []),
  text_ord.eq_of_cmp h (3 ∷ []),
)

IsComplete-left : IsComplete with_left left.parents key
unfolding closure_complete Set.contains get Map.get insert new Map.insert list_ord cmp_list nat_ord
IsComplete-left = (closure_complete_lem with_left left.parents).0 refl

IsComplete-right : IsComplete with_right left.parents key
unfolding closure_complete Set.contains get Map.get insert new Map.insert list_ord cmp_list nat_ord
IsComplete-right = (closure_complete_lem with_right left.parents).0 refl

verify_causal_agree_example : verify_causal left with_right ≡ valid
unfolding verify_causal Set.contains get Map.get insert new Map.insert list_ord cmp_list nat_ord
    sort_dedup
verify_causal_agree_example =
    verify_causal_agree with_left with_right sides-Concur
      (λ h d e p q. sym (sides-Concur h e d q p)) left (λ h. cc) IsComplete-left IsComplete-right
      refl
