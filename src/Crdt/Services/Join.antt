-- ===== src/Crdt/Services/Join.antt =====
-- src/core/crdt.rs, `ServiceEndpoints::merge` as an operation on valid states.
use did_crdt.Base.{ℕ, not, ◌≡◌, sym, ◌∙◌, arith}
use did_crdt.Ord.{nat_ord}
use did_crdt.Std.Map
use did_crdt.Std.Map.{IsOrdered}
use did_crdt.Std.Map.Laws.{IsOrdered-ext}
use did_crdt.Hlc.{timestamp_ord}
use did_crdt.Crdt.Services.{Dot, ServiceEndpoints, IsValid, Agree, seen, merge}
use did_crdt.Crdt.Services.Context.{get-merge_context, later, later_comm, later_assoc, later_idem}
use did_crdt.Crdt.Services.Live.{get-merge, pick_comm, seen-merge, merge-IsValid}

-- Two valid states with the same live adds and the same context are equal.
pub IsValid-ext :
    (a b : ServiceEndpoints)
    → IsValid a
    → IsValid b
    → ((d : Dot) → Map.get a.live d ≡ Map.get b.live d)
    → ((n : ℕ) → Map.get a.context n ≡ Map.get b.context n)
    → a ≡ b
IsValid-ext a b v w f g = ground (
  arith,
  IsOrdered-ext a.live b.live v.live_ordered w.live_ordered f,
  IsOrdered-ext a.context b.context v.context_ordered w.context_ordered g,
)

get_context-merge :
    (a b : ServiceEndpoints) (n : ℕ)
    → IsValid b
    → Map.get (merge a b).context n ≡ later (Map.get a.context n) (Map.get b.context n)
unfolding merge
get_context-merge a b n w = get-merge_context b.context a.context n w.context_ordered

-- Two service states merge to the same state in either order, if both are valid and a dot that both
-- hold live has the same entry in both.
pub merge_comm :
    (a b : ServiceEndpoints) → IsValid a → IsValid b → Agree a b → merge a b ≡ merge b a
merge_comm a b v w same =
    IsValid-ext (merge a b) (merge b a) (merge-IsValid a b v w) (merge-IsValid b a w v)
      (λ d.
        get-merge a b d v w
        ∙ pick_comm (Map.get a.live d) (Map.get b.live d) (not (seen a.context d))
            (not (seen b.context d)) (same d)
        ∙ sym (get-merge b a d w v))
      (λ n. ground (
        arith,
        get_context-merge a b n w,
        get_context-merge b a n v,
        later_comm (Map.get a.context n) (Map.get b.context n),
      ))

-- A valid service state merged with itself is unchanged.
pub merge_idem : (a : ServiceEndpoints) → IsValid a → merge a a ≡ a
merge_idem a v =
    IsValid-ext (merge a a) a (merge-IsValid a a v v) v (λ d. ground (arith, get-merge a a d v v))
      (λ n. ground (arith, get_context-merge a a n v, later_idem (Map.get a.context n)))

-- Three valid service states merge to the same state in either grouping.
pub merge_assoc :
    (a b c : ServiceEndpoints)
    → IsValid a
    → IsValid b
    → IsValid c
    → merge (merge a b) c ≡ merge a (merge b c)
merge_assoc a b c u v w =
    let ab = merge-IsValid a b u v in
    let bc = merge-IsValid b c v w in
    IsValid-ext (merge (merge a b) c) (merge a (merge b c)) (merge-IsValid (merge a b) c ab w)
      (merge-IsValid a (merge b c) u bc)
      (λ d. ground (
        arith,
        get-merge (merge a b) c d ab w,
        get-merge a (merge b c) d u bc,
        get-merge a b d u v,
        get-merge b c d v w,
        seen-merge a b d v,
        seen-merge b c d w,
        u.live_seen d,
        v.live_seen d,
        w.live_seen d,
      ))
      (λ n. ground (
        arith,
        get_context-merge (merge a b) c n w,
        get_context-merge a (merge b c) n bc,
        get_context-merge a b n v,
        get_context-merge b c n w,
        later_assoc (Map.get a.context n) (Map.get b.context n) (Map.get c.context n),
      ))
