-- ===== src/Threads/System.antt =====
-- The threads of the manager side by side, onvm/onvm_mgr/main.c: each has its own buffers (`struct
-- thread_info`), they share the rest of the state, and between them the NFs take packets off their
-- receive rings and put packets on their transmit rings. One call of a handler is one step.
use nfvnice_source.Mgr.{Packet, World, Dpdk, max_clients}
use nfvnice_source.Nf.{Calls, onvm_nf_check_status}
use nfvnice_source.Pkt.Count.{amount}
use nfvnice_source.Prelude.{ℕ, ◌+◌, ◌<◌, ◌≡◌, List, ◌++◌, some, true, update}
use nfvnice_source.Threads.{TxRings, receive, serve, flush}
use nfvnice_source.Threads.Share.{tx_serves}
use nfvnice_source.Wake.{WakeupInfo, handle_wakeup}

-- The buffers of `struct thread_info`.
pub record Bufs : Type 0 where
  pub nf_rx_buf : ℕ → List Packet
  pub port_tx_buf : ℕ → List Packet

-- The buffers in `world` are those of the thread that ran last. `held` are the packets in the hands of
-- the NFs, and `received` is what the ports have given so far.
pub record System : Type 0 where
  pub world : World
  pub threads : ℕ → Bufs
  pub tx_q : ℕ → List Packet
  pub held : List Packet
  pub received : List Packet

-- How the manager was started: `num_clients` at the start, and the numbers of threads. Transmit thread
-- `t` is thread `t`, and the receive threads come behind them.
pub record Config : Type 0 where
  pub static_clients : ℕ
  pub tx_lcores : ℕ
  pub rx_lcores : ℕ

-- The state that thread `t` works on, and the state when it is done.
abbrev pub load : ℕ → System → World
load t s = record s.world {
  places = record s.world.places {
    nf_rx_buf = (s.threads t).nf_rx_buf;
    port_tx_buf = (s.threads t).port_tx_buf;
  };
}

abbrev pub bufs_of : World → Bufs
bufs_of w = record { nf_rx_buf = w.places.nf_rx_buf; port_tx_buf = w.places.port_tx_buf }

abbrev pub store : ℕ → World → System → System
store t w s = record s { world = w; threads = update s.threads t (bufs_of w) }

-- What NF `i` leaves behind: its rings, the packets that NFs hold, and those that were freed.
abbrev pub nf_leaves : ℕ → List Packet → List Packet → List Packet → List Packet → System → System
nf_leaves i rx tx held freed s = record s {
  world = record s.world {
    places = record s.world.places { rx_q = update s.world.places.rx_q i rx; freed = freed };
  };
  tx_q = update s.tx_q i tx;
  held = held;
}

-- Receiving a burst from a port, serving a client, the end of a round of a transmit thread, the
-- requests of NFs, a round of a wakeup thread, and whatever an NF does with packets: as long as it
-- neither loses nor doubles one, it may change them, keep them, pass them on and free them.
pub data Step (c : Config) (r : TxRings) (d : Dpdk) (s t : System) : Type 0 where
  receives :
      (k : ℕ) (pkts : List Packet)
      → k < c.rx_lcores
      → t ≡ record (store (c.tx_lcores + k) (receive d pkts (load (c.tx_lcores + k) s)) s) {
        received = s.received ++ pkts;
      }
      → Step c r d s t
  serves :
      (k i : ℕ) (tx_q : ℕ → List Packet) (w : World)
      → k < c.tx_lcores
      → tx_serves c.static_clients c.tx_lcores k i ≡ true
      → serve r d i (s.tx_q, load k s) ≡ some (tx_q, w)
      → t ≡ record (store k w s) { tx_q = tx_q }
      → Step c r d s t
  flushes : (k : ℕ) → k < c.tx_lcores → t ≡ store k (flush d (load k s)) s → Step c r d s t
  manages :
      (calls : Calls) (w : World)
      → onvm_nf_check_status calls s.world ≡ some w
      → t ≡ record s { world = w }
      → Step c r d s t
  wakes_up :
      (info : WakeupInfo) → t ≡ record s { world = (handle_wakeup info s.world).1 } → Step c r d s t
  nf_works :
      (i : ℕ) (rx tx held freed : List Packet)
      → i < max_clients
      → ((a : ℕ)
          → amount a rx + amount a tx + amount a held + amount a freed
            ≡ amount a (s.world.places.rx_q i)
              + amount a (s.tx_q i)
              + amount a s.held
              + amount a s.world.places.freed)
      → t ≡ nf_leaves i rx tx held freed s
      → Step c r d s t

pub data Reach (c : Config) (r : TxRings) (d : Dpdk) (s : System) : System → Type 0 where
  here : Reach c r d s s
  next : {t u : System} → Reach c r d s t → Step c r d t u → Reach c r d s u
