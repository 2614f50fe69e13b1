-- ===== src/Pkt/Tests.antt =====
-- The packet paths on the sample manager.
use nfvnice_source.Mgr.{World, Packet}
use nfvnice_source.Mgr.Sample.{world, dpdk, dpdk-Documented, packet, row_in_range}
use nfvnice_source.Pkt.{onvm_pkt_process_rx_batch}
use nfvnice_source.Pkt.Batch.{onvm_pkt_process_rx_batch-conserves}
use nfvnice_source.Pkt.Count.{amount, total}
use nfvnice_source.Pkt.Tx.{onvm_pkt_process_tx_batch}
use nfvnice_source.Pkt.Tx.Total.{Chained, onvm_pkt_process_tx_batch-conserves}
use nfvnice_source.Prelude.{◌+◌, ◌≡◌, sym, List, [], ◌∷◌, some, none-some}

abbrev batch : List Packet
batch = packet 7 2 ∷ packet 8 2 ∷ packet 9 2 ∷ []

onvm_pkt_process_rx_batch-conserves_example :
    total 8 (onvm_pkt_process_rx_batch dpdk batch world).places
    ≡ total 8 world.places + amount 8 batch
onvm_pkt_process_rx_batch-conserves_example =
    onvm_pkt_process_rx_batch-conserves dpdk dpdk-Documented 8 batch world row_in_range

-- A drop, a packet for the next step of its chain, one for the port and one with no valid action.
abbrev mixed : List Packet
mixed = packet 3 0 ∷ packet 4 1 ∷ packet 5 3 ∷ packet 6 9 ∷ []

chained : Chained world
unfolding Chained
chained e h = none-some (sym h)

onvm_pkt_process_tx_batch-conserves_example :
    (w' : World) × (onvm_pkt_process_tx_batch dpdk 1 mixed world ≡ some w')
    × (total 4 w'.places ≡ total 4 world.places + amount 4 mixed)
onvm_pkt_process_tx_batch-conserves_example =
    onvm_pkt_process_tx_batch-conserves dpdk dpdk-Documented 4 1 mixed world row_in_range chained
