-- ===== src/Crdt/Registers/Order.antt =====
-- src/core/crdt.rs: what a last-writer-wins register holds after a write or a merge.
use Prim.Native.Nat.Ordering.{lt, eq, gt}
use did_crdt.Base.{◌∙◌, ap, ◌≡◌, refl, sym, ◌≢◌, arith, Ordering, if◌then◌else◌}
use did_crdt.Ord.{Ord, lt?}
use did_crdt.Crdt.Crates.{LwwReg, Lww}

module _ {V M : Type 0} ⦃o : Ord M⦄ (lww : Lww V M) where
  -- The write with the greater marker, the earlier one on a tie.
  abbrev pub newer : LwwReg V M → LwwReg V M → LwwReg V M
  newer r s = if lt? r.marker s.marker then s else r

  pub update-newer : (r s : LwwReg V M) → lww.update r s.val s.marker ≡ newer r s
  update-newer r s = go (o.cmp r.marker s.marker) refl
    where
      stale :
          (x : Ordering) → x ≢ lt → o.cmp r.marker s.marker ≡ x → lww.update r s.val s.marker ≡ r
      stale x ne e = lww.update_stale r s.val s.marker (λ h. ne (cc (e, h)))

      go : (x : Ordering) → o.cmp r.marker s.marker ≡ x → lww.update r s.val s.marker ≡ newer r s
      go lt e = ground (arith, e, lww.update_newer r s.val s.marker e)
      go eq e = ground (arith, e, stale eq (λ h. cc) e)
      go gt e = ground (arith, e, stale gt (λ h. cc) e)

  -- Registers that hold the same value where they carry the same marker.
  abbrev pub Consistent : LwwReg V M → LwwReg V M → Type 0
  Consistent r s = r.marker ≡ s.marker → r.val ≡ s.val

  pub merge-newer : (r s : LwwReg V M) → Consistent r s → lww.merge r s ≡ newer r s
  merge-newer r s same = go (o.cmp r.marker s.marker) refl
    where
      go : (x : Ordering) → o.cmp r.marker s.marker ≡ x → lww.merge r s ≡ newer r s
      go lt e = ground (arith, e, lww.merge_newer r s e)
      go gt e = ground (arith, e, lww.merge_older r s (o.lt_of_gt r.marker s.marker e))
      go eq e =
          let m = o.eq_of_cmp r.marker s.marker e in
          let equal : r ≡ s = ground (arith, m, same m) in
          ground (arith, e, equal, lww.merge_same r)

  pub newer_comm : (r s : LwwReg V M) → Consistent r s → newer r s ≡ newer s r
  newer_comm r s same = ground (
    arith,
    same,
    o.eq_of_cmp r.marker s.marker,
    o.lt_of_gt r.marker s.marker,
    o.gt_of_lt r.marker s.marker,
    o.cmp_refl r.marker,
  )

  pub newer_assoc : (r s t : LwwReg V M) → newer (newer r s) t ≡ newer r (newer s t)
  newer_assoc r s t = ground (
    arith,
    o.eq_of_cmp r.marker s.marker,
    o.eq_of_cmp s.marker t.marker,
    o.eq_of_cmp r.marker t.marker,
    o.lt_of_gt r.marker s.marker,
    o.lt_of_gt s.marker t.marker,
    o.lt_of_gt r.marker t.marker,
    o.gt_of_lt r.marker s.marker,
    o.gt_of_lt s.marker t.marker,
    o.gt_of_lt r.marker t.marker,
    o.lt_trans r.marker s.marker t.marker,
    o.lt_trans t.marker s.marker r.marker,
  )

  pub newer_idem : (r : LwwReg V M) → newer r r ≡ r
  newer_idem r = ground (arith, o.cmp_refl r.marker)

  -- Two writes commute unless they tie with different values.
  pub newer_swap : (r s t : LwwReg V M) → Consistent s t → newer (newer r s) t ≡ newer (newer r t) s
  newer_swap r s t same =
      newer_assoc r s t ∙ ap (newer r) (newer_comm s t same) ∙ sym (newer_assoc r t s)
