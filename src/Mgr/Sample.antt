-- ===== src/Mgr/Sample.antt =====
-- A small manager for the tests: one NF, number 1 of service 1, is running, and number 2 is not.
use nfvnice_source.Chain.{Chain, no_entry}
use nfvnice_source.Mgr
use nfvnice_source.Mgr.{
  Packet, NfInfo, BacklogRing, Stats, Client, Places, World, Dpdk, Enqueued, Documented, ring_after,
  max_clients,
}
use nfvnice_source.Prelude.{
  ℕ, zero, suc, ◌<◌, ◌≡◌, refl, min, List, [], ◌∷◌, ◌++◌, none, some, Bool, true, false, arith,
  replicate, length, get_or, leb, ◌==◌, if◌then◌else◌,
}

-- Two steps: to service 1, then out on port 0.
abbrev pub chain : Chain
chain = record {
  sc =
      no_entry
      ∷ record { destination = 1; action = 2 }
      ∷ record { destination = 0; action = 3 }
      ∷ replicate 10 no_entry;
  chain_length = 2;
  ref_cnt = 0;
  overflowing = 0;
  nf_instances_mapped = 0;
  nf_instance_id = replicate 13 0;
}

abbrev pub zero_stats : Stats
zero_stats = record {
  rx = 0;
  rx_drop = 0;
  act_out = 0;
  act_tonf = 0;
  act_drop = 0;
  act_next = 0;
  bkpr_drop = 0;
  wakeup_count = 0;
}

-- A list of three slots, of which one stays free.
abbrev pub no_backlogs : BacklogRing
no_backlogs = record {
  bft_count = 0;
  r_h = 0;
  w_h = 0;
  max_len = 3;
  bft = replicate 3 (record { chain_index = 0; flow = none });
}

abbrev pub client : ℕ → Client
client i = record {
  info = if i == 1 then some 0 else none;
  instance_id = i;
  stats = zero_stats;
  is_bottleneck = 0;
  bft_list = no_backlogs;
  shm_server = 0;
  posts = 0;
}

abbrev pub info : ℕ → NfInfo
info n = record {
  instance_id = if n == 0 then 1 else 65535;
  service_id = 1;
  status = if n == 0 then 2 else 0;
  pid = n;
}

abbrev pub row : ℕ → List ℕ
row service = if service == 1 then 1 ∷ replicate 7 0 else replicate 8 0

abbrev pub places : Places
places = record {
  rx_q = λ i. [];
  nf_rx_buf = λ i. [];
  num_ports = 1;
  port_tx_buf = λ i. [];
  sent = λ i. [];
  freed = [];
  lost = [];
}

abbrev pub world : World
world = record {
  places = places;
  clients = client;
  infos = info;
  services = row;
  nf_per_service_count = λ s. if s == 1 then 1 else 0;
  next_instance_id = 1;
  num_clients = 1;
  num_services = 32;
  info_pool = [];
  info_queue = [];
  chains = λ c. chain;
  default_chain = 0;
  entries = λ e. record Mgr.no_entry { sc = some 1 };
  port_tx = λ p. 0;
  port_tx_drop = λ p. 0;
  global_bkpr_mode = false;
  downstream_nf_overflow = false;
  highest_downstream_nf_service_id = 0;
  throttle_count = 0;
}

-- A ring that is full from two packets on, ports that take two packets of a burst, and a flow table
-- where every flow has entry 0.
abbrev pub bulk : List Packet → List Packet → Enqueued × List Packet
bulk q pkts = if leb 2 (length q) then (Enqueued.no_bufs, q) else (Enqueued.stored, q ++ pkts)

abbrev pub dpdk : Dpdk
dpdk = record {
  ring_enqueue_bulk = bulk;
  eth_tx_burst = λ port taken pkts. min 2 (length pkts);
  hash_lookup = λ key rss. some 0;
}

bulk_documented : (q pkts : List Packet) → (bulk q pkts).1 ≡ ring_after (bulk q pkts).0 q pkts
bulk_documented q pkts = by_length (leb 2 (length q))
  where
    by_length :
        (full : Bool)
        → (if◌then◌else◌ {A = Enqueued × List Packet} full
            (Enqueued.no_bufs, q)
            (Enqueued.stored, q ++ pkts)).1
          ≡ ring_after
              (if◌then◌else◌ {A = Enqueued × List Packet} full
                (Enqueued.no_bufs, q)
                (Enqueued.stored, q ++ pkts)).0
              q
              pkts
    by_length true = refl
    by_length false = refl

pub dpdk-Documented : Documented dpdk
dpdk-Documented = record { bulk = bulk_documented; burst = λ port taken pkts. omega arith }

-- A packet that came from NF 1 with an action and a destination.
abbrev pub packet : ℕ → ℕ → Packet
packet buf action = record {
  buf = buf;
  port = 0;
  rss = buf;
  bytes = [];
  meta = record { action = action; destination = 1; src = 0; chain_index = 1 };
}

zeros : (n k : ℕ) → get_or (replicate {A = ℕ} n 0) k 0 ≡ (let z : ℕ = 0 in z)
zeros zero k = refl
zeros (suc n) zero = refl
zeros (suc n) (suc k) = zeros n k

pub row_in_range : (service k : ℕ) → get_or (row service) k 0 < max_clients
row_in_range service k = by_service (service == 1) k
  where
    by_service :
        (there : Bool) (k : ℕ)
        → get_or (if there then 1 ∷ replicate 7 0 else replicate 8 0) k 0 < 32
    by_service true zero = omega arith
    by_service true (suc j) = omega (arith, zeros 7 j)
    by_service false j = omega (arith, zeros 8 j)
