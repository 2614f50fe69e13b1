-- ===== src/Watch/Nfs.antt =====
-- The watch list `bottleneck_nf_list` of onvm/shared/common.h with its operations in
-- onvm/onvm_mgr/onvm_nf.c, and `onvm_detect_and_set_back_pressure_v2` of onvm/onvm_mgr/onvm_pkt.c.
pub mod Round
pub mod Count
pub mod Reach
mod Tests
pub mod Status
use nfvnice_source.Mgr.{World, low_water_mark, max_clients, on_client}
use nfvnice_source.Watch.{
  Slot, onvm_mark_all_entries_for_bottleneck, onvm_clear_all_entries_for_bottleneck,
}
use nfvnice_source.Prelude.{
  ℕ, zero, suc, ◌+◌, ◌-◌, ◌%◌, ◌^◌, List, Option, none, some, not, length, update, bit_and, ltb,
  leb, ◌==◌, if◌then◌else◌,
}

-- `CLIENT_QUEUE_RING_WATER_MARK_SIZE`: 80 percent of 4096.
abbrev pub water_mark : ℕ
water_mark = 3276

-- `BOTTLENECK_NF_STATUS_*`.
abbrev pub reset : ℕ
reset = 0

abbrev pub wait_enqueued : ℕ
wait_enqueued = 1

abbrev pub drop_marked : ℕ
drop_marked = 2

-- `bottleneck_nf_entries_t` and `bottlenec_nf_info_t`.
pub record WatchEntry : Type 0 where
  pub s_time : ℕ
  pub enqueue_status : ℕ
  pub nf_id : ℕ
  pub enqueued_ctr : ℕ
  pub marked_ctr : ℕ

pub record WatchList : Type 0 where
  pub entires : ℕ
  pub nf : ℕ → WatchEntry

-- The state of the manager with the static variables `bottleneck_nf_list` and `sc_list`.
pub record Watcher : Type 0 where
  pub world : World
  pub sc_list : List Slot
  pub list : WatchList

abbrev pub status : Watcher → ℕ → ℕ
status s i = (s.list.nf i).enqueue_status

abbrev pub set_status : ℕ → ℕ → Watcher → Watcher
set_status i v s = record s {
  list = record s.list { nf = update s.list.nf i (record (s.list.nf i) { enqueue_status = v }) };
}

-- `enqueu_nf_to_bottleneck_watch_list`; `now` is what the clock shows. The return value comes first.
pub enqueu_nf_to_bottleneck_watch_list : ℕ → ℕ → Watcher → ℕ × Watcher
enqueu_nf_to_bottleneck_watch_list now i s = if not (status s i == 0) then (1, s) else (
  0,
  record s {
    list = record {
      entires = (s.list.entires + 1) % 2 ^ 16;
      nf = update s.list.nf i (record {
        s_time = now;
        enqueue_status = wait_enqueued;
        nf_id = i;
        enqueued_ctr = ((s.list.nf i).enqueued_ctr + 1) % 2 ^ 16;
        marked_ctr = (s.list.nf i).marked_ctr;
      });
    };
  },
)

-- `dequeue_nf_from_bottleneck_watch_list`.
pub dequeue_nf_from_bottleneck_watch_list : ℕ → ℕ → Watcher → ℕ × Watcher
dequeue_nf_from_bottleneck_watch_list now i s = if status s i == 0 then (1, s) else (
  0,
  record s {
    list = record {
      entires = (s.list.entires + 2 ^ 16 - 1) % 2 ^ 16;
      nf =
          update s.list.nf i
            (record (s.list.nf i) { s_time = now; enqueue_status = reset; nf_id = i });
    };
  },
)

abbrev pub set_bottleneck : ℕ → ℕ → Watcher → Watcher
set_bottleneck i v s = record s {
  world = on_client i (λ c. record c { is_bottleneck = v }) s.world;
}

-- `onvm_detect_and_set_back_pressure_v2(&clients[i])`; `none` is a read through `cl->info` at NULL.
pub onvm_detect_and_set_back_pressure_v2 : ℕ → ℕ → Watcher → Option Watcher
unfolding enqueu_nf_to_bottleneck_watch_list
onvm_detect_and_set_back_pressure_v2 now i s =
    if not ((s.world.clients i).is_bottleneck == 0) then some s else elim (s.world.clients i).info [
      | none ↦ none
      | some info ↦
          some
            (enqueu_nf_to_bottleneck_watch_list now (s.world.infos info).instance_id
              (set_bottleneck i 1 s)).1
    ]

-- The calls of `onvm_mark_all_entries_for_bottleneck` and its counterpart.
abbrev pub mark_all : ℕ → Watcher → Watcher
mark_all i s =
    let r = onvm_mark_all_entries_for_bottleneck i s.sc_list s.world in
    record s { sc_list = r.0; world = r.1 }

abbrev pub clear_all : ℕ → Watcher → Watcher
clear_all i s =
    let r = onvm_clear_all_entries_for_bottleneck i s.sc_list s.world in
    record s { sc_list = r.0; world = r.1 }

-- `rte_ring_count(clients[i].rx_q)`.
abbrev pub queued : Watcher → ℕ → ℕ
queued s i = length (s.world.places.rx_q i)

-- `marked_ctr += 1`.
abbrev pub count_marked : ℕ → Watcher → Watcher
count_marked i s = record s {
  list = record s.list {
    nf =
        update s.list.nf i
          (record (s.list.nf i) { marked_ctr = ((s.list.nf i).marked_ctr + 1) % 2 ^ 16 });
  };
}

-- Taking an NF off the list, and noting that it is no bottleneck.
pub leave : ℕ → ℕ → Watcher → Watcher
unfolding dequeue_nf_from_bottleneck_watch_list
leave now i s =
    set_bottleneck i 0 (set_status i reset (dequeue_nf_from_bottleneck_watch_list now i s).1)

-- The round of `check_and_enqueue_or_dequeue_nfs_from_bottleneck_watch_list` for NF `i`. The waiting
-- time is 0, so that the tests of the time hold.
pub check_one : ℕ → ℕ → Watcher → Watcher
unfolding leave
check_one now i s =
    if reset == status s i
    then s
    else if not (bit_and drop_marked (status s i) == 0)
    then (if ltb (queued s i) low_water_mark then leave now i (clear_all i s) else s)
    else if not (bit_and wait_enqueued (status s i) == 0)
    then (if leb water_mark (queued s i)
        then count_marked i (mark_all i (set_status i drop_marked s))
        else if ltb (queued s i) low_water_mark
        then leave now i s
        else s)
    else s

pub check_from : ℕ → ℕ → ℕ → Watcher → Watcher
check_from now zero i s = s
check_from now (suc left) i s = check_from now left (i + 1) (check_one now i s)

-- `check_and_enqueue_or_dequeue_nfs_from_bottleneck_watch_list`; it returns 0.
pub check_and_enqueue_or_dequeue_nfs_from_bottleneck_watch_list : ℕ → Watcher → Watcher
unfolding check_from
check_and_enqueue_or_dequeue_nfs_from_bottleneck_watch_list now s = check_from now max_clients 0 s
