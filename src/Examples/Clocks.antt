-- ===== src/Examples/Clocks.antt =====
-- Clocks.
use did_crdt.Base.{List, [], ◌∷◌, ◌≡◌, refl, arith}
use did_crdt.Ord.{◌≺◌}
use did_crdt.Std.Set.{IsAscending}
use did_crdt.Hlc.{timestamp_ord, Hlc, sent, received, send, recv, issued, Event}
use did_crdt.Hlc.Advance.{recv_advances, send_wraps, issued-IsAscending}
use did_crdt.Examples.Parts.{at}

abbrev clock : Hlc
clock = record { last = at 10 7 }

abbrev full : Hlc
full = record { last = record { wall_ms = 10; logical = 4294967295; node_id = 7 } }

abbrev run : List Event
run = sent 9 ∷ received (at 12 3) 11 ∷ sent 12 ∷ []

recv_advances_example :
    (clock.last ≺ (recv clock (at 12 3) 11).1)
    × (at 12 3 ≺ (recv clock (at 12 3) 11).1)
    × ((recv clock (at 12 3) 11).1.node_id ≡ 7)
    × ((recv clock (at 12 3) 11).0.last ≡ (recv clock (at 12 3) 11).1)
recv_advances_example = recv_advances clock (at 12 3) 11 (omega arith) (omega arith)

send_wraps_example : (send full 10).1 ≺ full.last
send_wraps_example = send_wraps full 10 refl (omega arith)

issued-IsAscending_example : IsAscending (clock.last ∷ issued clock run)
issued-IsAscending_example =
    issued-IsAscending run clock 1 (omega arith) (omega arith, tt) (omega arith)
