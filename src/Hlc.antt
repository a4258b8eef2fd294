-- ===== src/Hlc.antt =====
-- src/core/hlc.rs: the hybrid logical clock. Numbers are `u64` for `wall_ms` and `node_id` and
-- `u32` for `logical`, whose `+ 1` wraps as in a release build (`inc32`). The wall clock
-- (`ClockSource`) is an argument: the reading that a call sees.
pub mod Order
pub mod Advance
use did_crdt.Base.{ℕ, ◌+◌, ◌%◌, ◌^◌, ◌≡◌, ap, max, ◌==◌, if◌then◌else◌, ◌&&◌, arith, List, [], ◌∷◌}
use did_crdt.Ord.{Ord, view_ord, nat_ord, pair_ord}

abbrev pub u32_mod : ℕ
u32_mod = 4294967296

-- `struct HlcTimestamp`.
pub record HlcTimestamp : Type 0 where
  pub wall_ms : ℕ
  pub logical : ℕ
  pub node_id : ℕ

-- `HlcTimestamp::default()`.
abbrev pub epoch : HlcTimestamp
epoch = record { wall_ms = 0; logical = 0; node_id = 0 }

abbrev pub timestamp_fields : HlcTimestamp → ℕ × (ℕ × ℕ)
timestamp_fields t = (t.wall_ms, (t.logical, t.node_id))

pub timestamp_fields_injective :
    (s t : HlcTimestamp) → timestamp_fields s ≡ timestamp_fields t → s ≡ t
timestamp_fields_injective s t h = ground arith

-- The derived order: wall time, then counter, then node.
instance unfoldable pub timestamp_ord : Ord HlcTimestamp
unfolding view_ord pair_ord nat_ord
timestamp_ord = view_ord timestamp_fields timestamp_fields_injective

-- `struct Hlc`.
pub record Hlc : Type 0 where
  pub last : HlcTimestamp

-- `x + 1` on `u32`.
abbrev pub inc32 : ℕ → ℕ
inc32 x = (x + 1) % u32_mod

-- `Hlc::new`.
pub new : ℕ → ℕ → Hlc
new now_ms node_id = record { last = record { wall_ms = now_ms; logical = 0; node_id = node_id } }

-- `Hlc::advance_send`: the clock after the call. The result of the call is its `last`.
unfoldable pub advance_send : Hlc → ℕ → Hlc
advance_send c now_ms =
    let wall = max now_ms c.last.wall_ms in
    let logical = if wall == c.last.wall_ms then inc32 c.last.logical else 0 in
    record { last = record { wall_ms = wall; logical = logical; node_id = c.last.node_id } }

-- `Hlc::advance_recv`.
unfoldable pub advance_recv : Hlc → HlcTimestamp → ℕ → Hlc
advance_recv c remote now_ms =
    let wall = max (max now_ms c.last.wall_ms) remote.wall_ms in
    let logical =
      if wall == c.last.wall_ms && wall == remote.wall_ms
      then inc32 (max c.last.logical remote.logical)
      else if wall == c.last.wall_ms
      then inc32 c.last.logical
      else if wall == remote.wall_ms
      then inc32 remote.logical
      else 0 in
    record { last = record { wall_ms = wall; logical = logical; node_id = c.last.node_id } }

-- `Hlc::send`: the wall clock is read, and the new `last` is both kept and returned.
pub send : Hlc → ℕ → Hlc × HlcTimestamp
unfolding advance_send
send c now_ms = let c' = advance_send c now_ms in (c', c'.last)

-- `Hlc::recv`.
pub recv : Hlc → HlcTimestamp → ℕ → Hlc × HlcTimestamp
unfolding advance_recv
recv c remote now_ms = let c' = advance_recv c remote now_ms in (c', c'.last)

-- What a replica does with its clock: an event of its own, or the receipt of a timestamp.
pub data Event : Type 0 where
  sent : ℕ → Event
  received : HlcTimestamp → ℕ → Event

-- The timestamps that a clock returns over a sequence of events.
pub issued : Hlc → List Event → List HlcTimestamp
unfolding send recv
issued c [] = []
issued c (sent now ∷ es) = let (c', t) = send c now in t ∷ issued c' es
issued c (received remote now ∷ es) = let (c', t) = recv c remote now in t ∷ issued c' es
