-- ===== src/Apps/Tests.antt =====
-- The example NFs on a few packets.
use nfvnice_source.Apps.{
  no_display, to_other_port, back_to_port, to_nf, bridge, monitor, forward, test_then_count,
  count_then_test,
}
use nfvnice_source.Apps.Displays.{Shows, packet_handler_lem}
use nfvnice_source.Mgr.{Packet}
use nfvnice_source.Mgr.Sample.{packet}
use nfvnice_source.Nflib.Round.{answers}
use nfvnice_source.Prelude.{◌+◌, ◌≡◌, refl, List, [], ◌∷◌, map, arith, replicate}

abbrev three : List Packet
three = packet 5 1 ∷ packet 6 2 ∷ packet 7 3 ∷ []

-- With a print delay of 1 the bridge shows one number for three packets, and the monitor three.
one_of_three :
    ((answers (bridge 1) no_display three).state.calls ≡ 1)
    × ((answers (bridge 1) no_display three).state.pkt_process ≡ 1)
    × ((answers (forward 4 1) no_display three).state.pkt_process ≡ 3)
unfolding answers bridge forward test_then_count count_then_test
one_of_three = (refl, refl, refl)

packet_handler_lem_example :
    Shows (1 + 1) 1 three (map to_other_port three) (answers (bridge 1) no_display three)
    × Shows 1 1 three
        (map (back_to_port (replicate 6 0) (replicate 6 9)) three)
        (answers (monitor (replicate 6 0) (replicate 6 9) 1) no_display three)
    × Shows 1 1 three (map (to_nf 4) three) (answers (forward 4 1) no_display three)
packet_handler_lem_example =
    packet_handler_lem 1 4 (replicate 6 0) (replicate 6 9) three (omega arith) (omega arith)
