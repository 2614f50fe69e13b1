-- ===== src/Watch/Nfs/Tests.antt =====
-- The watch list on the sample manager.
use nfvnice_source.Mgr.Sample
use nfvnice_source.Watch.{no_slot}
use nfvnice_source.Watch.Nfs.{
  Watcher, status, queued, set_bottleneck, enqueu_nf_to_bottleneck_watch_list,
  onvm_detect_and_set_back_pressure_v2, check_and_enqueue_or_dequeue_nfs_from_bottleneck_watch_list,
}
use nfvnice_source.Watch.Nfs.Count.{Agrees, flag}
use nfvnice_source.Watch.Nfs.Reach.{Step, Reach, Reach-Agrees}
use nfvnice_source.Watch.Nfs.Status.{next_status, check-status}
use nfvnice_source.Prelude.Sum.{sum_below}
use nfvnice_source.Prelude.{◌≤◌, ◌≡◌, ℕ, refl, some, arith, replicate}

-- Nobody is watched.
abbrev start : Watcher
start = record {
  world = Sample.world;
  sc_list = replicate 3 no_slot;
  list = record {
    entires = 0;
    nf =
        λ i. record { s_time = 0; enqueue_status = 0; nf_id = i; enqueued_ctr = 0; marked_ctr = 0 };
  };
}

start-Agrees : Agrees start.list (flag start)
unfolding sum_below
start-Agrees = record { counted = refl; states = λ i. omega arith; flagged = λ i. refl }

-- NF 1 is found to be a bottleneck.
abbrev waiting : Watcher
waiting = (enqueu_nf_to_bottleneck_watch_list 3 1 (set_bottleneck 1 1 start)).1

detected : onvm_detect_and_set_back_pressure_v2 3 1 start ≡ some waiting
unfolding onvm_detect_and_set_back_pressure_v2
detected = refl

waiting_states : (k : ℕ) → status waiting k ≤ 2
unfolding enqueu_nf_to_bottleneck_watch_list
waiting_states k = ground arith

check-status_example :
    status (check_and_enqueue_or_dequeue_nfs_from_bottleneck_watch_list 7 waiting) 1
    ≡ next_status (status waiting 1) (queued waiting 1)
check-status_example = check-status 7 waiting 1 waiting_states (omega arith)

-- Its ring is empty, so that the check takes it off the list again.
Reach-Agrees_example :
    let t = check_and_enqueue_or_dequeue_nfs_from_bottleneck_watch_list 7 waiting in
    Agrees t.list (flag t)
Reach-Agrees_example = Reach-Agrees start _ start-Agrees (
    Reach.next (Reach.next Reach.here (Step.detect 3 1 0 (omega arith) refl refl detected))
      (Step.check 7 refl))
