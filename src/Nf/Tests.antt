-- ===== src/Nf/Tests.antt =====
-- The life of NFs on the sample manager.
use nfvnice_source.Mgr.{World, max_clients, nf_stopped, onvm_nf_is_valid}
use nfvnice_source.Mgr.Sample.{world, row_in_range}
use nfvnice_source.Nf.{
  Calls, first_free, onvm_nf_next_instance_id, onvm_nf_start, remove_from_row, handle_request,
  handle_requests, onvm_nf_stop, monitor_nf, onvm_nf_check_status,
}
use nfvnice_source.Nf.Range.{onvm_nf_check_status-InRange}
use nfvnice_source.Nf.Services.{Absent, NonZero, remove_from_row_lem}
use nfvnice_source.Nf.Start.{IdOf, Admitted, Refused, onvm_nf_start_lem}
use nfvnice_source.Nf.Died.{monitor_nf-handle_request}
use nfvnice_source.Pkt.Moves.{InRange}
use nfvnice_source.Prelude.{
  ℕ, zero, suc, ◌<◌, ◌≡◌, ◌⊎◌, refl, [], ◌∷◌, ◌++◌, Option, none, some, true, false, arith,
  replicate, pos,
}

-- Every process has died, and the queue gives what it has.
abbrev calls : Calls
calls = record {
  kill_fails = λ pid. true;
  pool_found = true;
  ring_dequeue_bulk = λ q n. some (q, []);
}

-- Request 3 has no identifier yet and wants to join service 1.
onvm_nf_start_lem_example :
    (id : ℕ) × (w' : World) × IdOf 3 world id
    × (((onvm_nf_start 3 world ≡ some (pos 0, w'))
          × (id < max_clients)
          × (onvm_nf_is_valid world id ≡ false)
          × Admitted 3 id world w')
        ⊎ ((onvm_nf_start 3 world ≡ some (pos 1, w')) × Refused 3 id world w'))
onvm_nf_start_lem_example = onvm_nf_start_lem 3 world refl refl

-- A row with the NFs 4, 6 and 7, of which 6 stops.
absent : Absent 6 (4 ∷ [])
unfolding Absent
absent zero h e = absurd (omega arith)
absent (suc k) h e = absurd (omega arith)

nonzero : NonZero (7 ∷ [])
unfolding NonZero
nonzero zero h e = absurd (omega arith)
nonzero (suc k) h e = absurd (omega arith)

remove_from_row_lem_example :
    remove_from_row 6 ((4 ∷ []) ++ (6 ∷ ((7 ∷ []) ++ replicate 5 0)))
    ≡ (4 ∷ []) ++ ((7 ∷ []) ++ (0 ∷ replicate 5 0))
remove_from_row_lem_example = remove_from_row_lem (4 ∷ []) (7 ∷ []) 6 5 (omega arith) absent nonzero

-- A manager whose queue holds request 3.
abbrev waiting : World
waiting = record world { info_queue = 3 ∷ [] }

abbrev get_world : Option World → World
get_world none = world
get_world (some w) = w

answered :
    onvm_nf_check_status calls waiting ≡ some (get_world (onvm_nf_check_status calls waiting))
unfolding onvm_nf_check_status handle_requests handle_request onvm_nf_start onvm_nf_stop
    onvm_nf_next_instance_id first_free onvm_nf_is_valid
answered = refl

onvm_nf_check_status-InRange_example : InRange (get_world (onvm_nf_check_status calls waiting))
onvm_nf_check_status-InRange_example =
    onvm_nf_check_status-InRange calls waiting (get_world (onvm_nf_check_status calls waiting))
      answered row_in_range

monitor_nf-handle_request_example :
    let w1 = monitor_nf calls 1 world in
    ((w1.infos 0).status ≡ nf_stopped)
    × (w1.info_queue ≡ world.info_queue ++ 0 ∷ [])
    × (w1.info_pool ≡ 0 ∷ world.info_pool)
    × (w2 : World) × (handle_request calls 0 w1 ≡ some w2)
    × (w2.info_pool ≡ 0 ∷ 0 ∷ world.info_pool)
monitor_nf-handle_request_example =
    monitor_nf-handle_request calls 1 0 world refl refl refl refl refl
