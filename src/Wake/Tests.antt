-- ===== src/Wake/Tests.antt =====
-- A round on the sample manager, with a packet for NF 1, which is blocked.
use nfvnice_source.Mgr.{World}
use nfvnice_source.Mgr.Sample.{world, client, places, packet}
use nfvnice_source.Prelude.{◌≡◌, ◌&&◌, [], ◌∷◌, arith, leb, ltb, if◌then◌else◌, ◌==◌}
use nfvnice_source.Wake.{WakeupInfo, handle_wakeup}
use nfvnice_source.Wake.Round.{woken, has_packets, handle_wakeup-clients}

abbrev waiting : World
waiting = record world {
  places = record places { rx_q = λ i. if i == 1 then packet 5 1 ∷ [] else [] };
  clients = λ i. record (client i) { shm_server = 1 };
}

abbrev all_clients : WakeupInfo
all_clients = record { first_client = 0; last_client = 32; num_wakeups = 0 }

handle_wakeup-clients_example : (handle_wakeup all_clients waiting).1.clients 1 ≡ (
    if leb 0 1 && ltb 1 32 && has_packets waiting 1
    then woken (waiting.clients 1)
    else waiting.clients 1)
handle_wakeup-clients_example = handle_wakeup-clients all_clients waiting 1 (omega arith)
