-- ===== src/Crdt/Services/Context.antt =====
-- src/core/crdt.rs, `ServiceEndpoints`: the causal context after each operation.
use did_crdt.Base.{
  ℕ, Bool, false, ◌||◌, ◌&&◌, ◌≡◌, refl, [], ◌∷◌, Option, none, some, if◌then◌else◌, arith,
}
use did_crdt.Ord.{lt?, le?, eq?, nat_ord}
use did_crdt.Std.Map
use did_crdt.Std.Map.{Map, IsOrdered}
use did_crdt.Std.Map.Laws.{get-insert, insert-IsOrdered, get_below}
use did_crdt.Hlc.{timestamp_ord}
use did_crdt.Crdt.Services.{Dot, raise, seen, merge_context}

-- The later of two slots.
abbrev pub later : Option Dot → Option Dot → Option Dot
later none b = b
later (some a) none = some a
later (some a) (some b) = some (if lt? a b then b else a)

pub later_comm : (a b : Option Dot) → later a b ≡ later b a
later_comm none none = refl
later_comm none (some b) = refl
later_comm (some a) none = refl
later_comm (some a) (some b) = ground (
  arith,
  timestamp_ord.eq_of_cmp a b,
  timestamp_ord.lt_of_gt a b,
  timestamp_ord.gt_of_lt a b,
  timestamp_ord.cmp_refl a,
)

pub later_assoc : (a b c : Option Dot) → later (later a b) c ≡ later a (later b c)
later_assoc none b c = refl
later_assoc (some a) none c = refl
later_assoc (some a) (some b) none = refl
later_assoc (some a) (some b) (some c) = ground (
  arith,
  timestamp_ord.eq_of_cmp a b,
  timestamp_ord.eq_of_cmp b c,
  timestamp_ord.eq_of_cmp a c,
  timestamp_ord.lt_of_gt a b,
  timestamp_ord.lt_of_gt b c,
  timestamp_ord.gt_of_lt a b,
  timestamp_ord.lt_of_gt a c,
  timestamp_ord.gt_of_lt a c,
  timestamp_ord.gt_of_lt b c,
  timestamp_ord.lt_trans a b c,
  timestamp_ord.lt_trans c b a,
)

pub later_idem : (a : Option Dot) → later a a ≡ a
later_idem none = refl
later_idem (some a) = ground (arith, timestamp_ord.cmp_refl a)

-- Raising a slot takes the later dot there, and leaves the other slots.
pub get-raise :
    (n : ℕ) (d : Dot) (c : Map ℕ Dot) (k : ℕ)
    → Map.get (raise n d c) k ≡ (if eq? k n then later (Map.get c n) (some d) else Map.get c k)
unfolding raise
get-raise n d c k = ground (arith, get-insert n d k c, nat_ord.eq_of_cmp k n)

pub raise-IsOrdered : (n : ℕ) (d : Dot) (c : Map ℕ Dot) → IsOrdered c → IsOrdered (raise n d c)
unfolding raise
raise-IsOrdered n d c s = ground (arith, insert-IsOrdered n d c s)

pub merge_context-IsOrdered : (b a : Map ℕ Dot) → IsOrdered a → IsOrdered (merge_context a b)
unfolding merge_context
merge_context-IsOrdered [] a s = s
merge_context-IsOrdered ((n, d) ∷ b) a s =
    merge_context-IsOrdered b (raise n d a) (raise-IsOrdered n d a s)

-- Contexts merge slot by slot.
pub get-merge_context :
    (b a : Map ℕ Dot) (k : ℕ)
    → IsOrdered b
    → Map.get (merge_context a b) k ≡ later (Map.get a k) (Map.get b k)
unfolding merge_context Map.get
get-merge_context [] a k s = ground arith
get-merge_context ((n, d) ∷ b) a k s = ground (
  arith,
  get-merge_context b (raise n d a) k s.1,
  get-raise n d a k,
  get_below n b s.0,
  nat_ord.eq_of_cmp k n,
)

-- A dot is below the later of two slots if it is below one of them.
abbrev reached : Option Dot → Dot → Bool
reached none x = false
reached (some hi) x = le? x hi

reached-later : (a b : Option Dot) (x : Dot) → reached (later a b) x ≡ (reached a x || reached b x)
reached-later none b x = refl
reached-later (some a) none x = ground arith
reached-later (some a) (some b) x = ground (
  arith,
  timestamp_ord.eq_of_cmp x a,
  timestamp_ord.eq_of_cmp x b,
  timestamp_ord.eq_of_cmp a b,
  timestamp_ord.lt_trans x a b,
  timestamp_ord.lt_trans x b a,
  timestamp_ord.lt_of_gt a b,
  timestamp_ord.gt_of_lt a b,
  timestamp_ord.lt_of_gt x a,
  timestamp_ord.lt_of_gt x b,
  timestamp_ord.gt_of_lt x b,
  timestamp_ord.gt_of_lt x a,
)

-- Raising a slot adds to what has been seen the dots of that node up to the new one.
pub seen-raise :
    (n : ℕ) (d : Dot) (c : Map ℕ Dot) (x : Dot)
    → seen (raise n d c) x ≡ (seen c x || (eq? x.node_id n && le? x d))
unfolding seen
seen-raise n d c x = ground (
  arith,
  get-raise n d c x.node_id,
  reached-later (Map.get c n) (some d) x,
  nat_ord.eq_of_cmp x.node_id n,
)

-- The merged context has seen exactly what one of the two has.
pub seen-merge_context :
    (a b : Map ℕ Dot) (x : Dot) → IsOrdered b → seen (merge_context a b) x ≡ (seen a x || seen b x)
unfolding seen
seen-merge_context a b x s = ground (
  arith,
  get-merge_context b a x.node_id s,
  reached-later (Map.get a x.node_id) (Map.get b x.node_id) x,
)
