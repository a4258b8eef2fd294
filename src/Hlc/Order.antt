-- ===== src/Hlc/Order.antt =====
-- The order on timestamps in terms of its three fields.
use did_crdt.Base.{◌≡◌, ◌<◌, ◌⊎◌, arith}
use did_crdt.Ord.{◌≺◌}
use did_crdt.Hlc.{HlcTimestamp, timestamp_ord}

-- A timestamp is later by its wall time, or at the same wall time by its counter.
pub lt_of_fields :
    (s t : HlcTimestamp)
    → (s.wall_ms < t.wall_ms) ⊎ ((s.wall_ms ≡ t.wall_ms) × (s.logical < t.logical))
    → s ≺ t
unfolding timestamp_ord
lt_of_fields s t h = ground arith
