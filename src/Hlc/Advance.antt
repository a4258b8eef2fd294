-- ===== src/Hlc/Advance.antt =====
-- src/core/hlc.rs: what the calls of a clock return.
use did_crdt.Base.{ℕ, ◌+◌, ◌≡◌, ◌<◌, ◌≤◌, List, [], ◌∷◌, arith, length, refl}
use did_crdt.Ord.{◌≺◌}
use did_crdt.Std.Set.{IsAscending}
use did_crdt.Std.Set.Laws.{Above-trans}
use did_crdt.Hlc.{
  HlcTimestamp, Hlc, u32_mod, send, recv, Event, sent, received, issued, timestamp_ord,
}
use did_crdt.Hlc.Order.{lt_of_fields}

-- If the counter is not at its greatest value, `send` returns a timestamp later than the last one
-- and not before the wall clock, with the node of the clock, and keeps it as its last.
pub send_advances :
    (c : Hlc) (now : ℕ)
    → c.last.logical + 1 < u32_mod
    → (c.last ≺ (send c now).1)
      × ((send c now).1.node_id ≡ c.last.node_id)
      × ((send c now).0.last ≡ (send c now).1)
      × (now ≤ (send c now).1.wall_ms)
unfolding send
send_advances c now h =
    (lt_of_fields c.last (send c now).1 (ground arith), refl, refl, ground arith)

-- If neither counter is at its greatest value, `recv` returns a timestamp later than the last one
-- and than the received one, with the node of the clock, and keeps it as its last.
pub recv_advances :
    (c : Hlc) (remote : HlcTimestamp) (now : ℕ)
    → c.last.logical + 1 < u32_mod
    → remote.logical + 1 < u32_mod
    → (c.last ≺ (recv c remote now).1)
      × (remote ≺ (recv c remote now).1)
      × ((recv c remote now).1.node_id ≡ c.last.node_id)
      × ((recv c remote now).0.last ≡ (recv c remote now).1)
unfolding recv
recv_advances c remote now h k = (
  lt_of_fields c.last (recv c remote now).1 (ground arith),
  lt_of_fields remote (recv c remote now).1 (ground arith),
  refl,
  refl,
)

-- With the counter at its greatest value and a wall clock that has not passed the last timestamp,
-- `send` returns an earlier timestamp than the last one.
pub send_wraps :
    (c : Hlc) (now : ℕ)
    → c.last.logical + 1 ≡ u32_mod
    → now ≤ c.last.wall_ms
    → (send c now).1 ≺ c.last
unfolding send
send_wraps c now h k = lt_of_fields (send c now).1 c.last (ground arith)

-- The counter of every received timestamp is below `bound`.
abbrev pub BoundedEvents : ℕ → List Event → Type 0
BoundedEvents bound [] = Unit
BoundedEvents bound (sent now ∷ es) = BoundedEvents bound es
BoundedEvents bound (received remote now ∷ es) = (remote.logical < bound) × BoundedEvents bound es

BoundedEvents-grow : (a b : ℕ) (es : List Event) → a ≤ b → BoundedEvents a es → BoundedEvents b es
BoundedEvents-grow a b [] h e = tt
BoundedEvents-grow a b (sent now ∷ es) h e = BoundedEvents-grow a b es h e
BoundedEvents-grow a b (received remote now ∷ es) h e =
    (omega arith, BoundedEvents-grow a b es h e.1)

-- A call raises the counter by one at most.
send-logical :
    (c : Hlc) (now bound : ℕ)
    → c.last.logical < bound
    → bound + 1 ≤ u32_mod
    → (send c now).0.last.logical < bound + 1
unfolding send
send-logical c now bound h k = ground arith

recv-logical :
    (c : Hlc) (remote : HlcTimestamp) (now bound : ℕ)
    → c.last.logical < bound
    → remote.logical < bound
    → bound + 1 ≤ u32_mod
    → (recv c remote now).0.last.logical < bound + 1
unfolding recv
recv-logical c remote now bound h j k = ground arith

-- The timestamps that a clock returns over any sequence of sends and receipts ascend strictly from
-- its last one, if its counter and those of the received timestamps are below `bound` and the
-- number of events is at most 2^32 - `bound`.
pub issued-IsAscending :
    (es : List Event) (c : Hlc) (bound : ℕ)
    → c.last.logical < bound
    → BoundedEvents bound es
    → bound + length es ≤ u32_mod
    → IsAscending (c.last ∷ issued c es)
unfolding issued
issued-IsAscending [] c bound h e k = (tt, tt)
issued-IsAscending (sent now ∷ es) c bound h e k =
    let c' = (send c now).0 in
    let up = (send_advances c now (omega arith)).0 in
    let rest =
      issued-IsAscending es c' (bound + 1) (send-logical c now bound h (omega arith))
        (BoundedEvents-grow bound (bound + 1) es (omega arith) e) (omega arith) in
    ((up, Above-trans c.last c'.last (issued c' es) up rest.0), rest)
issued-IsAscending (received remote now ∷ es) c bound h e k =
    let c' = (recv c remote now).0 in
    let up = (recv_advances c remote now (omega arith) (omega arith)).0 in
    let rest =
      issued-IsAscending es c' (bound + 1) (recv-logical c remote now bound h e.0 (omega arith))
        (BoundedEvents-grow bound (bound + 1) es (omega arith) e.1) (omega arith) in
    ((up, Above-trans c.last c'.last (issued c' es) up rest.0), rest)
