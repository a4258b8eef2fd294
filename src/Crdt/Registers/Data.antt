-- ===== src/Crdt/Registers/Data.antt =====
-- src/core/crdt.rs, `DocumentData`: its writes and merges, key by key.
use did_crdt.Base.{◌≡◌, ◌≢◌, sym, ap, ◌∙◌, [], ◌∷◌, some, arith, false, ◌||◌, if◌then◌else◌}
use did_crdt.Ord.{nat_ord, eq?, lt?}
use did_crdt.Ord.Text.{text_ord, Text, list_ord}
use did_crdt.Std.Map
use did_crdt.Std.Map.{contains_key, Map, IsOrdered}
use did_crdt.Std.Map.Laws.{IsOrdered-ext, insert-IsOrdered, get-insert, get_below}
use did_crdt.Std.Set
use did_crdt.Std.Set.{IsAscending}
use did_crdt.Hlc.{HlcTimestamp, timestamp_ord, epoch}
use did_crdt.Crdt.Crates.{LwwReg, Lww}
use did_crdt.Crdt.Registers.{marker_ord, DocumentData, slot, set_data, merge_data}
use did_crdt.Crdt.Registers.Order.{
  newer_idem, newer_assoc, newer_comm, newer, update-newer, Consistent, newer_swap,
}

module _ {V : Type 0} (null : V) (lww : Lww V HlcTimestamp) where
  abbrev entry : V → HlcTimestamp → LwwReg V HlcTimestamp
  entry value t = record { val = value; marker = t }

  pub get-set_data :
      (key : Text) (value : V) (t : HlcTimestamp) (d : DocumentData V) (k : Text)
      → Map.get (set_data null lww key value t d) k ≡ (
          if eq? k key then some (newer lww (slot null lww key d) (entry value t)) else Map.get d k)
  unfolding set_data
  get-set_data key value t d k = ground (
    arith,
    get-insert key (lww.update (slot null lww key d) value t) k d,
    update-newer lww (slot null lww key d) (entry value t),
  )

  not-lt-epoch : (t : HlcTimestamp) → lt? t epoch ≡ false
  unfolding timestamp_ord
  not-lt-epoch t = ground arith

  slot-insert :
      (key k : Text) (r : LwwReg V HlcTimestamp) (d : DocumentData V)
      → slot null lww k (Map.insert key r d) ≡ (if eq? k key then r else slot null lww k d)
  unfolding slot
  slot-insert key k r d = ground (arith, get-insert key r k d)

  -- A key that a map does not hold reads as the register that no write is older than.
  slot-cons :
      (key k : Text) (r : LwwReg V HlcTimestamp) (d : DocumentData V)
      → slot null lww k ((key, r) ∷ d) ≡ (if eq? k key then r else slot null lww k d)
  unfolding slot Map.get
  slot-cons key k r d = ground arith

  slot_below :
      (key : Text) (d : DocumentData V)
      → Set.Above key (Map.keys d)
      → slot null lww key d ≡ record { val = null; marker = epoch }
  unfolding slot
  slot_below key d a = ground (arith, get_below key d a)

  newer-empty :
      (r : LwwReg V HlcTimestamp) → newer lww r (record { val = null; marker = epoch }) ≡ r
  newer-empty r = ground (arith, not-lt-epoch r.marker)

  -- Under each key the merge with an ordered map holds the newer of the two registers, and the
  -- first one on a tie.
  pub slot-merge_data :
      (other d : DocumentData V) (k : Text)
      → IsOrdered other
      → slot null lww k (merge_data null lww d other)
        ≡ newer lww (slot null lww k d) (slot null lww k other)
  unfolding merge_data
  slot-merge_data [] d k s = sym (unfold slot Map.get in newer-empty (slot null lww k d))
  slot-merge_data ((key, r) ∷ other) d k s = ground (
    arith,
    slot-merge_data other (Map.insert key (lww.update (slot null lww key d) r.val r.marker) d) k
        s.1,
    slot-insert key k (lww.update (slot null lww key d) r.val r.marker) d,
    update-newer lww (slot null lww key d) r,
    slot-cons key k r other,
    slot_below key other s.0,
    newer-empty (newer lww (slot null lww key d) r),
    text_ord.eq_of_cmp k key,
  )

  contains_key-insert :
      (key k : Text) (r : LwwReg V HlcTimestamp) (d : DocumentData V)
      → contains_key (Map.insert key r d) k ≡ (eq? k key || contains_key d k)
  contains_key-insert key k r d = ground (arith, get-insert key r k d)

  contains_key-merge_data :
      (other d : DocumentData V) (k : Text)
      → contains_key (merge_data null lww d other) k ≡ (contains_key d k || contains_key other k)
  unfolding merge_data Map.get
  contains_key-merge_data [] d k = ground arith
  contains_key-merge_data ((key, r) ∷ other) d k = ground (
    arith,
    contains_key-merge_data other
        (Map.insert key (lww.update (slot null lww key d) r.val r.marker) d) k,
    contains_key-insert key k (lww.update (slot null lww key d) r.val r.marker) d,
  )

  -- Two ordered maps with the same keys and the same registers are equal.
  slots_ext :
      (a b : DocumentData V)
      → IsOrdered a
      → IsOrdered b
      → ((k : Text) → contains_key a k ≡ contains_key b k)
      → ((k : Text) → slot null lww k a ≡ slot null lww k b)
      → a ≡ b
  unfolding slot
  slots_ext a b s t f g = IsOrdered-ext a b s t (λ k. ground (arith, f k, g k))

  pub merge_data-IsOrdered :
      (other d : DocumentData V) → IsOrdered d → IsOrdered (merge_data null lww d other)
  unfolding merge_data
  merge_data-IsOrdered [] d s = s
  merge_data-IsOrdered ((key, r) ∷ other) d s =
      let r' = lww.update (slot null lww key d) r.val r.marker in
      merge_data-IsOrdered other (Map.insert key r' d) (insert-IsOrdered key r' d s)

  -- Two ordered maps of document data merge to the same map in either order, if under each key they
  -- hold the same value wherever they hold the same timestamp, where a key that one of them lacks
  -- counts as null at the epoch.
  pub merge_data_comm :
      (a b : DocumentData V)
      → IsOrdered a
      → IsOrdered b
      → ((k : Text) → Consistent lww (slot null lww k a) (slot null lww k b))
      → merge_data null lww a b ≡ merge_data null lww b a
  merge_data_comm a b s t same =
      slots_ext (merge_data null lww a b) (merge_data null lww b a) (merge_data-IsOrdered b a s)
        (merge_data-IsOrdered a b t)
        (λ k. ground (arith, contains_key-merge_data b a k, contains_key-merge_data a b k))
        (λ k.
          slot-merge_data b a k t
          ∙ newer_comm lww (slot null lww k a) (slot null lww k b) (same k)
          ∙ sym (slot-merge_data a b k s))

  -- Three ordered maps of document data merge to the same map in either grouping.
  pub merge_data_assoc :
      (a b c : DocumentData V)
      → IsOrdered a
      → IsOrdered b
      → IsOrdered c
      → merge_data null lww (merge_data null lww a b) c
        ≡ merge_data null lww a (merge_data null lww b c)
  merge_data_assoc a b c s t u =
      let ab = merge_data null lww a b in
      let bc = merge_data null lww b c in
      slots_ext (merge_data null lww ab c) (merge_data null lww a bc)
        (merge_data-IsOrdered c ab (merge_data-IsOrdered b a s)) (merge_data-IsOrdered bc a s)
        (λ k. ground (
          arith,
          contains_key-merge_data c ab k,
          contains_key-merge_data b a k,
          contains_key-merge_data bc a k,
          contains_key-merge_data c b k,
        ))
        (λ k.
          slot-merge_data c ab k u
          ∙ ap (λ r. newer lww r (slot null lww k c)) (slot-merge_data b a k t)
          ∙ newer_assoc lww (slot null lww k a) (slot null lww k b) (slot null lww k c)
          ∙ ap (newer lww (slot null lww k a)) (sym (slot-merge_data c b k u))
          ∙ sym (slot-merge_data bc a k (merge_data-IsOrdered c b t)))

  -- An ordered map of document data merged with itself is unchanged.
  pub merge_data_idem : (a : DocumentData V) → IsOrdered a → merge_data null lww a a ≡ a
  merge_data_idem a s =
      slots_ext (merge_data null lww a a) a (merge_data-IsOrdered a a s) s
        (λ k. ground (arith, contains_key-merge_data a a k))
        (λ k. slot-merge_data a a k s ∙ newer_idem lww (slot null lww k a))

  pub set_data-IsOrdered :
      (key : Text) (value : V) (t : HlcTimestamp) (d : DocumentData V)
      → IsOrdered d
      → IsOrdered (set_data null lww key value t d)
  unfolding set_data
  set_data-IsOrdered key value t d s =
      insert-IsOrdered key (lww.update (slot null lww key d) value t) d s

  pub slot-set_data :
      (key : Text) (value : V) (t : HlcTimestamp) (d : DocumentData V) (k : Text)
      → slot null lww k (set_data null lww key value t d)
        ≡ (if eq? k key then newer lww (slot null lww k d) (entry value t) else slot null lww k d)
  unfolding set_data
  slot-set_data key value t d k = ground (
    arith,
    slot-insert key k (lww.update (slot null lww key d) value t) d,
    update-newer lww (slot null lww key d) (entry value t),
    text_ord.eq_of_cmp k key,
  )

  contains_key-set_data :
      (key : Text) (value : V) (t : HlcTimestamp) (d : DocumentData V) (k : Text)
      → contains_key (set_data null lww key value t d) k ≡ (eq? k key || contains_key d k)
  unfolding set_data
  contains_key-set_data key value t d k =
      contains_key-insert key k (lww.update (slot null lww key d) value t) d

  -- Two writes to an ordered map of document data commute if their timestamps differ, be it under
  -- one key or two.
  pub set_data_comm :
      (j k : Text) (v w : V) (s t : HlcTimestamp) (d : DocumentData V)
      → IsOrdered d
      → s ≢ t
      → set_data null lww j v s (set_data null lww k w t d)
        ≡ set_data null lww k w t (set_data null lww j v s d)
  set_data_comm j k v w s t d o ne =
      let first = set_data null lww k w t d in
      let second = set_data null lww j v s d in
      slots_ext (set_data null lww j v s first) (set_data null lww k w t second)
        (set_data-IsOrdered j v s first (set_data-IsOrdered k w t d o))
        (set_data-IsOrdered k w t second (set_data-IsOrdered j v s d o))
        (λ x. ground (
          arith,
          contains_key-set_data j v s first x,
          contains_key-set_data k w t d x,
          contains_key-set_data k w t second x,
          contains_key-set_data j v s d x,
        ))
        (λ x. ground (
          arith,
          slot-set_data j v s first x,
          slot-set_data k w t d x,
          slot-set_data k w t second x,
          slot-set_data j v s d x,
          newer_swap lww (slot null lww x d) (entry w t) (entry v s) (λ h. absurd (ne (sym h))),
        ))
