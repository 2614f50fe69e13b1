-- ===== src/Mgr.antt =====
-- The shared state of the manager: the globals of onvm/onvm_mgr/onvm_nf.c and onvm/onvm_mgr/onvm_init.c,
-- `struct client` and its lists (onvm/onvm_mgr/onvm_init.h), `struct thread_info`
-- (onvm/onvm_mgr/onvm_mgr.h), `struct onvm_nf_info` and `struct onvm_pkt_meta`
-- (onvm/shared/common.h), `struct onvm_flow_entry` (onvm/shared/onvm_flow_dir.h), and what the manager
-- uses of DPDK. An array that is indexed by an identifier is a function; a pointer is the number of
-- what it points to, and `none` is NULL. 64-bit statistics wrap; `bump64` adds to them.
pub mod Sample
use nfvnice_source.Chain.{Chain}
use nfvnice_source.Headers.{Key}
use nfvnice_source.Prelude.{
  ℕ, ◌+◌, ◌%◌, ◌^◌, ◌≤◌, ◌≡◌, List, ◌++◌, Option, none, some, Bool, false, update, length, ◌==◌,
}

-- `MAX_CLIENTS`, `MAX_CLIENTS_PER_SERVICE`, `PACKET_READ_SIZE`, the marks of an NF's receive ring
-- (80 and 60 percent of 4096), and the number of flow entries.
abbrev pub max_clients : ℕ
max_clients = 32

abbrev pub max_clients_per_service : ℕ
max_clients_per_service = 8

abbrev pub packet_read_size : ℕ
packet_read_size = 32

abbrev pub low_water_mark : ℕ
low_water_mark = 2457

-- The states `NF_*` of a network function.
module _ where
  abbrev pub nf_waiting_for_id : ℕ
  nf_waiting_for_id = 0

  abbrev pub nf_starting : ℕ
  nf_starting = 1

  abbrev pub nf_running : ℕ
  nf_running = 2

  abbrev pub nf_stopped : ℕ
  nf_stopped = 4

  abbrev pub nf_id_conflict : ℕ
  nf_id_conflict = 5

  abbrev pub nf_no_ids : ℕ
  nf_no_ids = 6

  -- `(uint16_t)NF_NO_ID`.
  abbrev pub nf_no_id : ℕ
  nf_no_id = 65535

abbrev pub bump64 : ℕ → ℕ → ℕ
bump64 x n = (x + n) % 2 ^ 64

-- `struct onvm_pkt_meta`: four bytes.
pub record Meta : Type 0 where
  pub action : ℕ
  pub destination : ℕ
  pub src : ℕ
  pub chain_index : ℕ

-- `struct rte_mbuf`: its address, the port it came from, the RSS hash of the NIC, its bytes, and the
-- meta data in `udata64`.
pub record Packet : Type 0 where
  pub buf : ℕ
  pub port : ℕ
  pub rss : ℕ
  pub bytes : List ℕ
  pub meta : Meta

-- `struct onvm_nf_info`, without the statistics of the NF.
pub record NfInfo : Type 0 where
  pub instance_id : ℕ
  pub service_id : ℕ
  pub status : ℕ
  pub pid : ℕ

-- `struct onvm_flow_entry`.
pub record FlowEntry : Type 0 where
  pub key : Option ℕ
  pub sc : Option ℕ
  pub ref_cnt : ℕ
  pub idle_timeout : ℕ
  pub hard_timeout : ℕ
  pub packet_count : ℕ
  pub byte_count : ℕ
  pub entry_index : ℕ

-- An entry after `memset(flow_entry, 0, ...)`.
abbrev pub no_entry : FlowEntry
no_entry = record {
  key = none;
  sc = none;
  ref_cnt = 0;
  idle_timeout = 0;
  hard_timeout = 0;
  packet_count = 0;
  byte_count = 0;
  entry_index = 0;
}

-- `bottleneck_ft_data_t` and `bottlenect_ft_info_t`.
pub record Backlog : Type 0 where
  pub chain_index : ℕ
  pub flow : Option ℕ

pub record BacklogRing : Type 0 where
  pub bft_count : ℕ
  pub r_h : ℕ
  pub w_h : ℕ
  pub max_len : ℕ
  pub bft : List Backlog

-- The `stats` of a client.
pub record Stats : Type 0 where
  pub rx : ℕ
  pub rx_drop : ℕ
  pub act_out : ℕ
  pub act_tonf : ℕ
  pub act_drop : ℕ
  pub act_next : ℕ
  pub bkpr_drop : ℕ
  pub wakeup_count : ℕ

-- `struct client`, without `rx_q`, which is in `Places`. `shm_server` is the flag that says whether
-- the NF is blocked, and `posts` counts the calls of `sem_post` on its semaphore.
pub record Client : Type 0 where
  pub info : Option ℕ
  pub instance_id : ℕ
  pub stats : Stats
  pub is_bottleneck : ℕ
  pub bft_list : BacklogRing
  pub shm_server : ℕ
  pub posts : ℕ

-- Where the packets are: the receive rings of the NFs, the buffers of the thread, and, as a record of
-- what happened, the packets that a port has taken, that were freed, and that the code has let go of
-- without either.
pub record Places : Type 0 where
  pub rx_q : ℕ → List Packet
  pub nf_rx_buf : ℕ → List Packet
  pub num_ports : ℕ
  pub port_tx_buf : ℕ → List Packet
  pub sent : ℕ → List Packet
  pub freed : List Packet
  pub lost : List Packet

pub record World : Type 0 where
  pub places : Places
  pub clients : ℕ → Client
  pub infos : ℕ → NfInfo
  pub services : ℕ → List ℕ
  pub nf_per_service_count : ℕ → ℕ
  pub next_instance_id : ℕ
  pub num_clients : ℕ
  pub num_services : ℕ
  pub info_pool : List ℕ
  pub info_queue : List ℕ
  pub chains : ℕ → Chain
  pub default_chain : ℕ
  pub entries : ℕ → FlowEntry
  pub port_tx : ℕ → ℕ
  pub port_tx_drop : ℕ → ℕ
  pub global_bkpr_mode : Bool
  pub downstream_nf_overflow : Bool
  pub highest_downstream_nf_service_id : ℕ
  pub throttle_count : ℕ

-- What `rte_ring_enqueue_bulk` returns: 0, -EDQUOT or -ENOBUFS.
pub data Enqueued : Type 0 where
  stored quota no_bufs : Enqueued

-- The calls of DPDK. A ring is given and left as its contents. `eth_tx_burst` is told the port, what
-- that port has taken so far and the burst, and says how many packets it takes. `hash_lookup` is
-- `rte_hash_lookup_with_hash`, as the flow table does not change while packets are processed.
pub record Dpdk : Type 0 where
  pub ring_enqueue_bulk : List Packet → List Packet → Enqueued × List Packet
  pub eth_tx_burst : ℕ → List Packet → List Packet → ℕ
  pub hash_lookup : Key → ℕ → Option ℕ

abbrev pub ring_after : Enqueued → List Packet → List Packet → List Packet
ring_after Enqueued.no_bufs q pkts = q
ring_after _ q pkts = q ++ pkts

-- The documentation of DPDK: -ENOBUFS leaves the ring alone, and otherwise all packets are stored; a
-- port takes at most the packets of the burst.
pub record Documented (d : Dpdk) : Type 0 where
  pub bulk :
      (q pkts : List Packet)
      → (d.ring_enqueue_bulk q pkts).1 ≡ ring_after (d.ring_enqueue_bulk q pkts).0 q pkts
  pub burst : (port : ℕ) (taken pkts : List Packet) → d.eth_tx_burst port taken pkts ≤ length pkts

-- Changes of one client.
abbrev pub on_client : ℕ → (Client → Client) → World → World
on_client i f w = record w { clients = update w.clients i (f (w.clients i)) }

abbrev pub on_stats : ℕ → (Stats → Stats) → World → World
on_stats i f = on_client i (λ c. record c { stats = f c.stats })

-- `onvm_nf_is_valid(&clients[i])`.
unfoldable pub onvm_nf_is_valid : World → ℕ → Bool
onvm_nf_is_valid w i = elim (w.clients i).info [
  | none ↦ false
  | some info ↦ (w.infos info).status == nf_running
]
