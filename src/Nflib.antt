-- ===== src/Nflib.antt =====
-- The library that an NF is linked with, onvm/onvm_nflib/onvm_nflib.c: the loop over its packets, waiting
-- on the semaphore, and its other calls. The configuration is that of common.h: DROP_APPROACH_3 with
-- DROP_APPROACH_3_WITH_SYNC, and the semaphore. The measured cost of a packet is left out.
pub mod Retry
pub mod Round
mod Tests
use nfvnice_source.Mgr.{Packet, Enqueued, ring_after, bump64, packet_read_size}
use nfvnice_source.Prelude.{
  ℕ, ◌+◌, ◌≤◌, ◌≡◌, ◌≢◌, List, [], ◌∷◌, ◌++◌, Option, none, some, Bool, true, false, ◌&&◌, ◌||◌,
  length, take, drop, leb, ◌==◌, if◌then◌else◌,
}

-- The calls of rte_ring: `rte_ring_enqueue_bulk`, `rte_ring_enqueue`, `rte_ring_free_count` and
-- `rte_ring_dequeue_burst`, which is given the number that is asked for. A ring is given and left as its
-- contents, the oldest first.
pub record Rings : Type 0 where
  pub enqueue_bulk : List Packet → List Packet → Enqueued × List Packet
  pub enqueue : List Packet → Packet → Enqueued × List Packet
  pub free_count : List Packet → ℕ
  pub dequeue_burst : List Packet → ℕ → List Packet × List Packet

-- What the documentation of DPDK says of a ring for which no water mark is set.
pub record Documented (r : Rings) : Type 0 where
  pub bulk :
      (q pkts : List Packet)
      → (r.enqueue_bulk q pkts).1 ≡ ring_after (r.enqueue_bulk q pkts).0 q pkts
  pub room :
      (q pkts : List Packet)
      → length pkts ≤ r.free_count q
      → (r.enqueue_bulk q pkts).0 ≢ Enqueued.no_bufs
  pub no_mark : (q pkts : List Packet) → (r.enqueue_bulk q pkts).0 ≢ Enqueued.quota
  pub burst : (q : List Packet) (n : ℕ) → (r.dequeue_burst q n).0 ++ (r.dequeue_burst q n).1 ≡ q

-- The process of an NF: its rings, its flags and its line of `tx_stats`. `has_ecb` says whether `nf_ecb`
-- is set. What happened is kept too: the packets that the manager took off the transmit ring, those
-- that were freed, those that the NF has kept, the calls of `nf_ecb`, and of `sem_post`.
pub record Lib : Type 0 where
  pub rx_ring : List Packet
  pub tx_ring : List Packet
  pub taken : List Packet
  pub freed : List Packet
  pub held : List Packet
  pub tx : ℕ
  pub tx_drop : ℕ
  pub tx_buffer : ℕ
  pub tx_returned : ℕ
  pub wkup_count : ℕ
  pub flag : ℕ
  pub need_ecb : Bool
  pub has_ecb : Bool
  pub ecb_calls : ℕ
  pub posts : ℕ
  pub keep_running : Bool

-- What the others do while the NF waits on its semaphore, until it is woken: the manager takes packets
-- off the transmit ring, puts packets on the receive ring and sets the flag, and a message may have
-- asked for the callback.
pub record Turn : Type 0 where
  pub takes : ℕ
  pub puts : List Packet
  pub flag : ℕ
  pub need_ecb : Bool

abbrev pub others : Turn → Lib → Lib
others t s = record s {
  rx_ring = s.rx_ring ++ t.puts;
  tx_ring = drop t.takes s.tx_ring;
  taken = s.taken ++ take t.takes s.tx_ring;
  flag = t.flag;
  need_ecb = s.need_ecb || t.need_ecb;
}

-- The end of `onvm_nf_yeild`.
pub trigger_ecb : Lib → Lib
trigger_ecb s =
    if s.need_ecb && s.has_ecb
    then record s { need_ecb = false; ecb_calls = s.ecb_calls + 1 }
    else s

-- `onvm_nf_yeild`.
pub onvm_nf_yeild : Turn → Lib → Lib
unfolding trigger_ecb
onvm_nf_yeild t s =
    trigger_ecb (others t (record s { wkup_count = bump64 s.wkup_count 1; flag = 1 }))

-- `onvm_nflib_drop_pkt`; it returns 0.
pub onvm_nflib_drop_pkt : Packet → Lib → Lib
onvm_nflib_drop_pkt pkt s = record s { freed = s.freed ++ pkt ∷ []; tx_drop = bump64 s.tx_drop 1 }

-- `notify_for_ecb`, with `onvm_nf_wake_notify`.
pub notify_for_ecb : Lib → Lib
notify_for_ecb s =
    if s.flag == 1
    then record s { need_ecb = true; posts = s.posts + 1 }
    else record s { need_ecb = true }

-- `MSG_STOP` and `MSG_NF_TRIGGER_ECB`.
abbrev pub msg_stop : ℕ
msg_stop = 1

abbrev pub msg_nf_trigger_ecb : ℕ
msg_nf_trigger_ecb = 5

-- `onvm_nflib_handle_msg` for a message of a type; it returns 0.
pub onvm_nflib_handle_msg : ℕ → Lib → Lib
unfolding notify_for_ecb
onvm_nflib_handle_msg msg_type s =
    if msg_type == msg_stop
    then record s { keep_running = false }
    else if msg_type == msg_nf_trigger_ecb
    then notify_for_ecb s
    else s

-- A round with the state of the NF.
abbrev pub finish : {H : Type 0} → H → Option (Lib × List Turn) → Option (H × Lib × List Turn)
finish h none = none
finish h (some (s, ts)) = some (h, s, ts)

module _ (r : Rings) where
  -- The loop of DROP_APPROACH_3, with what happens at each wait; `none` means that it waits still. The
  -- turns that are left come with the state.
  pub retry : List Turn → List Packet → Lib → Option (Lib × List Turn)
  retry [] pkts_tx s = none
  retry (t ∷ ts) pkts_tx s =
      let s' = onvm_nf_yeild t s in
      let later = retry ts pkts_tx s' in
      let (ret_status, q) = r.enqueue_bulk s'.tx_ring pkts_tx in
      if leb (length pkts_tx) (r.free_count s'.tx_ring)
      then elim ret_status [
        | Enqueued.stored ↦ some (record s' { tx_ring = q; tx = bump64 s'.tx (length pkts_tx) }, ts)
        | Enqueued.quota ↦ retry ts pkts_tx (record s' { tx_ring = q })
        | Enqueued.no_bufs ↦ retry ts pkts_tx (record s' { tx_ring = q })
      ]
      else later

  -- Passing the batch on.
  pub transmit : List Turn → List Packet → Lib → Option (Lib × List Turn)
  unfolding retry
  transmit ts pkts_tx s =
      let (ret, q) = r.enqueue_bulk s.tx_ring pkts_tx in
      let passed = record s { tx_ring = q; tx = bump64 s.tx (length pkts_tx) } in
      if length pkts_tx == 0 then some (s, ts) else elim ret [
        | Enqueued.stored ↦ some (passed, ts)
        | Enqueued.quota ↦ some (passed, ts)
        | Enqueued.no_bufs ↦ retry ts pkts_tx (record s { tx_ring = q })
      ]

  -- `onvm_nflib_return_pkt`; true stands for 0, false for -ENOBUFS.
  pub onvm_nflib_return_pkt : Packet → Lib → Bool × Lib
  onvm_nflib_return_pkt pkt s =
      let (ret, q) = r.enqueue s.tx_ring pkt in
      let returned = record s { tx_ring = q; tx_returned = bump64 s.tx_returned 1 } in
      elim ret [
        | Enqueued.no_bufs ↦ (
          false,
          record s { tx_ring = q; freed = s.freed ++ pkt ∷ []; tx_drop = bump64 s.tx_drop 1 },
        )
        | Enqueued.stored ↦ (true, returned)
        | Enqueued.quota ↦ (true, returned)
      ]

  -- The code of the NF: what it does to a packet, with its own state; the packet is passed on if the
  -- result is 0, and otherwise the NF keeps it.
  module _ {H : Type 0} (handler : H → Packet → ℕ × Packet × H) where
    pub record Batch : Type 0 where
      pub state : H
      pub pkts_tx : List Packet
      pub lib : Lib

    -- The loop over the packets of a batch.
    pub handle_each : List Packet → Batch → Batch
    handle_each [] b = b
    handle_each (p ∷ ps) b =
        let (ret_act, p', h) = handler b.state p in
        handle_each ps (
          if ret_act == 0
          then record b { state = h; pkts_tx = b.pkts_tx ++ p' ∷ [] }
          else record b {
            state = h;
            lib = record b.lib {
              tx_buffer = bump64 b.lib.tx_buffer 1;
              held = b.lib.held ++ p' ∷ [];
            };
          })

    -- A round after the call of `rte_ring_dequeue_burst`, which gave `pkts`.
    pub process_burst : List Packet → List Turn → H → Lib → Option (H × Lib × List Turn)
    unfolding transmit handle_each
    process_burst [] [] h s = none
    process_burst [] (t ∷ ts) h s = some (h, onvm_nf_yeild t s, ts)
    process_burst (p ∷ ps) ts h s =
        let b = handle_each (p ∷ ps) (record { state = h; pkts_tx = []; lib = s }) in
        finish b.state (transmit ts b.pkts_tx b.lib)

    -- One round of the loop of `onvm_nflib_run`, with the turns of the others.
    pub run_round : List Turn → H → Lib → Option (H × Lib × List Turn)
    unfolding process_burst
    run_round ts h s =
        let (pkts, rest) = r.dequeue_burst s.rx_ring packet_read_size in
        process_burst pkts ts h (record s { rx_ring = rest })
