-- ===== src/Apps.antt =====
-- Three NFs that come with the library: examples/bridge/bridge.c, examples/basic_monitor/monitor.c and
-- examples/simple_forward/forward.c. What they print is left out, but for the number of packets that
-- they count.
pub mod Displays
mod Tests
use nfvnice_source.Action
use nfvnice_source.Headers.{onvm_pkt_mac_addr_swap}
use nfvnice_source.Mgr.{Packet}
use nfvnice_source.Prelude.{ℕ, ◌+◌, ◌%◌, ◌^◌, List, ◌==◌, if◌then◌else◌}

-- The static variables `counter` of `packet_handler` and `pkt_process` of `do_stats_display`, an `int` as
-- the number below 2 ^ 32 of the same bits. The calls of `do_stats_display` are counted too.
pub record Display : Type 0 where
  pub counter : ℕ
  pub pkt_process : ℕ
  pub calls : ℕ

abbrev pub no_display : Display
no_display = record { counter = 0; pkt_process = 0; calls = 0 }

-- `do_stats_display`, for a `print_delay`.
abbrev pub do_stats_display : ℕ → Display → Display
do_stats_display print_delay s = record s {
  pkt_process = (s.pkt_process + print_delay) % 2 ^ 32;
  calls = s.calls + 1;
}

-- `if (counter++ == print_delay)` and `if (++counter == print_delay)`, with what is done then.
unfoldable pub test_then_count : ℕ → Display → Display
test_then_count print_delay s =
    let s1 = record s { counter = (s.counter + 1) % 2 ^ 32 } in
    if s.counter == print_delay
    then record (do_stats_display print_delay s1) { counter = 0 }
    else s1

unfoldable pub count_then_test : ℕ → Display → Display
count_then_test print_delay s =
    let s1 = record s { counter = (s.counter + 1) % 2 ^ 32 } in
    if s1.counter == print_delay
    then record (do_stats_display print_delay s1) { counter = 0 }
    else s1

-- What the handlers write to the packet.
abbrev pub to_other_port : Packet → Packet
to_other_port p = record p {
  meta = record p.meta { destination = if p.port == 0 then 1 else 0; action = Action.out };
}

abbrev pub back_to_port : List ℕ → List ℕ → Packet → Packet
back_to_port addr port_addr p = record p {
  meta = record p.meta { destination = p.port % 256; action = Action.out };
  bytes = onvm_pkt_mac_addr_swap addr port_addr p.bytes;
}

abbrev pub to_nf : ℕ → Packet → Packet
to_nf destination p = record p {
  meta = record p.meta { destination = destination % 256; action = Action.tonf };
}

-- `packet_handler` of the bridge, of the monitor and of the forwarder, as the loop of the library calls it.
unfoldable pub bridge : ℕ → Display → Packet → ℕ × Packet × Display
unfolding test_then_count
bridge print_delay s p = (0, to_other_port p, test_then_count print_delay s)

-- `addr` is what the local variable of `onvm_pkt_mac_addr_swap` holds, and `port_addr` the address that
-- port 0 has.
unfoldable pub monitor : List ℕ → List ℕ → ℕ → Display → Packet → ℕ × Packet × Display
unfolding count_then_test
monitor addr port_addr print_delay s p =
    (0, back_to_port addr port_addr p, count_then_test print_delay s)

unfoldable pub forward : ℕ → ℕ → Display → Packet → ℕ × Packet × Display
unfolding count_then_test
forward destination print_delay s p = (0, to_nf destination p, count_then_test print_delay s)
