-- ===== src/Nf.antt =====
-- The life of the network functions, onvm/onvm_mgr/onvm_nf.c: identifiers, the start and the stop of an
-- NF, the queue of requests and the watch over the processes of the NFs; and `onvm_stats_clear_client`
-- of onvm/onvm_mgr/onvm_stats.c. Built as the repository is, without `USE_CGROUPS_PER_NF_INSTANCE`.
-- Requests are the numbers of their `struct onvm_nf_info`; `none` is a write outside an array.
pub mod Identity
pub mod Services
pub mod Range
pub mod Start
pub mod Died
mod Tests
use nfvnice_source.Mgr.{
  World, Client, Stats, NfInfo, max_clients, max_clients_per_service, nf_waiting_for_id,
  nf_starting, nf_stopped, nf_id_conflict, nf_no_ids, nf_no_id, on_client, on_stats,
  onvm_nf_is_valid,
}
use nfvnice_source.Prelude.{
  ℕ, zero, suc, ◌+◌, ◌-◌, ◌%◌, ◌^◌, List, [], ◌∷◌, ◌++◌, Option, none, some, Bool, true, false,
  update, get_or, set, length, ℤ, pos, ltb, leb, ◌==◌, ◌&&◌, if◌then◌else◌,
}

-- The calls outside the manager: `kill(pid, 0)` fails, the mempool of the infos is found, and
-- `rte_ring_dequeue_bulk` with the number of objects asked for, which gives the objects and the rest.
pub record Calls : Type 0 where
  pub kill_fails : ℕ → Bool
  pub pool_found : Bool
  pub ring_dequeue_bulk : List ℕ → ℕ → Option (List ℕ × List ℕ)

-- The loop of `onvm_nf_next_instance_id`, with the number of identifiers left as its measure.
pub first_free : ℕ → World → ℕ → ℕ
first_free zero w i = i
first_free (suc n) w i =
    let rest = first_free n w (i + 1) in if onvm_nf_is_valid w i then rest else i

abbrev pub start_id : World → ℕ
start_id w = if leb max_clients w.next_instance_id then 1 else w.next_instance_id

unfoldable pub onvm_nf_next_instance_id : World → ℕ × World
onvm_nf_next_instance_id w =
    let id = first_free (max_clients - start_id w) w (start_id w) in
    (id, record w { next_instance_id = id + 1 })

abbrev pub set_status : ℕ → ℕ → World → World
set_status n status w = record w {
  infos = update w.infos n (record (w.infos n) { status = status });
}

-- `services[nf_info->service_id][service_count] = nf_id` and the count.
abbrev pub register : ℕ → ℕ → World → World
register service id w = record w {
  nf_per_service_count =
      update w.nf_per_service_count service ((w.nf_per_service_count service + 1) % 2 ^ 16);
  services =
      update w.services service (set (w.services service) (w.nf_per_service_count service) id);
}

-- The identifier of a request: the one on its command line or the next one.
abbrev pub choose_id : ℕ → World → ℕ × World
choose_id n w =
    if (w.infos n).instance_id == nf_no_id
    then onvm_nf_next_instance_id w
    else ((w.infos n).instance_id, w)

-- The manager keeps the request and registers the NF.
abbrev pub admit : ℕ → ℕ → World → World
admit n id w =
    let w1 = record w {
      infos = update w.infos n (record (w.infos n) { instance_id = id });
      clients = update w.clients id (record (w.clients id) { info = some n; instance_id = id });
    } in
    set_status n nf_starting (register (w.infos n).service_id id w1)

-- The row of the service has room for one more.
abbrev pub has_room : World → ℕ → Bool
has_room w service =
    ltb service w.num_services && ltb (w.nf_per_service_count service) max_clients_per_service

-- The ways it returns.
abbrev pub reject : ℕ → ℕ → World → Option (ℤ × World)
reject n status w = some (pos 1, set_status n status w)

abbrev pub accept : ℕ → ℕ → World → Option (ℤ × World)
accept n id w = some (pos 0, admit n id w)

-- `onvm_nf_start(&infos[n])`: what it returns and the new state.
unfoldable pub onvm_nf_start : ℕ → World → Option (ℤ × World)
onvm_nf_start n w =
    let (id, w1) = choose_id n w in
    if leb max_clients id
    then reject n nf_no_ids w1
    else if onvm_nf_is_valid w1 id
    then reject n nf_id_conflict w1
    else if has_room w1 (w1.infos n).service_id
    then accept n id w1
    else none

-- `onvm_stats_clear_client`: `bkpr_drop` and the count of wakeups stay.
abbrev pub onvm_stats_clear_client : ℕ → World → World
onvm_stats_clear_client i =
    on_stats i
      (λ s. record s { rx = 0; rx_drop = 0; act_drop = 0; act_tonf = 0; act_next = 0; act_out = 0 })

-- The search of `onvm_nf_stop` in the row of the service, from `i` on.
pub find_index : ℕ → List ℕ → ℕ → ℕ → ℕ
find_index zero row id i = i
find_index (suc n) row id i =
    let rest = find_index n row id (i + 1) in if get_or row i 0 == id then i else rest

-- The inner loop of `onvm_nf_stop`: the gap at `i` moves to the end.
pub close_gap : ℕ → List ℕ → ℕ → List ℕ
close_gap zero row i = row
close_gap (suc n) row i =
    let rest = close_gap n (set (set row i (get_or row (i + 1) 0)) (i + 1) 0) (i + 1) in
    if get_or row (i + 1) 0 == 0 then row else rest

-- What `onvm_nf_stop` makes of the row of the service.
pub remove_from_row : ℕ → List ℕ → List ℕ
remove_from_row id row =
    let i = find_index max_clients_per_service row id 0 in
    if ltb i max_clients_per_service
    then close_gap (max_clients_per_service - 1 - i) (set row i 0) i
    else row

abbrev pub unregister : ℕ → ℕ → World → World
unregister service id w = record w {
  nf_per_service_count =
      update w.nf_per_service_count service ((w.nf_per_service_count service + 65535) % 2 ^ 16);
  services = update w.services service (remove_from_row id (w.services service));
}

-- The info goes back to the mempool, if that is there.
abbrev pub release : Bool → ℕ → World → ℤ × World
release true n w = (pos 0, record w { info_pool = n ∷ w.info_pool })
release false n w = (pos 1, w)

-- `onvm_nf_stop(&infos[n])`, which does not test that the identifier and the service of the NF are inside
-- the arrays.
unfoldable pub stop_nf : Calls → ℕ → World → ℤ × World
stop_nf calls n w =
    let id = (w.infos n).instance_id in
    let w1 = onvm_stats_clear_client id (on_client id (λ c. record c { info = none }) w) in
    release calls.pool_found n (unregister (w.infos n).service_id id w1)

abbrev pub in_arrays : ℕ → World → Bool
in_arrays n w = ltb (w.infos n).instance_id max_clients && ltb (w.infos n).service_id w.num_services

unfoldable pub onvm_nf_stop : Calls → ℕ → World → Option (ℤ × World)
onvm_nf_stop calls n w = if in_arrays n w then some (stop_nf calls n w) else none

-- One request of `onvm_nf_check_status`.
abbrev pub is_zero : ℤ → Bool
is_zero (pos n) = n == 0
is_zero _ = false

abbrev pub count_clients : ℕ → ℤ × World → World
count_clients change (result, w) =
    if is_zero result then record w { num_clients = (w.num_clients + change) % 2 ^ 16 } else w

unfoldable pub handle_request : Calls → ℕ → World → Option World
handle_request calls n w =
    if (w.infos n).status == nf_waiting_for_id
    then elim (onvm_nf_start n w) [ none ↦ none | some r ↦ some (count_clients 1 r) ]
    else if (w.infos n).status == nf_stopped
    then elim (onvm_nf_stop calls n w) [ none ↦ none | some r ↦ some (count_clients 65535 r) ]
    else some w

unfoldable pub handle_requests : Calls → List ℕ → World → Option World
handle_requests calls [] w = some w
handle_requests calls (n ∷ ns) w = elim (handle_request calls n w) [
  | none ↦ none
  | some w' ↦ handle_requests calls ns w'
]

-- `monitor_nf_node_liveliness_via_pid_monitoring`, for one NF and for all.
abbrev pub give_up : ℕ → World → World
give_up n w =
    let w1 = set_status n nf_stopped w in
    record w1 { info_queue = w1.info_queue ++ n ∷ []; info_pool = n ∷ w1.info_pool }

unfoldable pub monitor_nf : Calls → ℕ → World → World
monitor_nf calls i w = elim (w.clients i).info [
  | none ↦ w
  | some n ↦ if onvm_nf_is_valid w i && calls.kill_fails (w.infos n).pid then give_up n w else w
]

unfoldable pub monitor_from : Calls → ℕ → ℕ → World → World
monitor_from calls zero i w = w
monitor_from calls (suc n) i w = monitor_from calls n (i + 1) (monitor_nf calls i w)

unfoldable pub monitor_nf_node_liveliness_via_pid_monitoring : Calls → World → World
monitor_nf_node_liveliness_via_pid_monitoring calls w = monitor_from calls max_clients 0 w

unfoldable pub onvm_nf_check_status : Calls → World → Option World
onvm_nf_check_status calls w = elim (calls.ring_dequeue_bulk w.info_queue (length w.info_queue)) [
  | none ↦ some w
  | some (new_nfs, rest) ↦ elim (handle_requests calls new_nfs (record w { info_queue = rest })) [
    | none ↦ none
    | some w' ↦ some (monitor_nf_node_liveliness_via_pid_monitoring calls w')
  ]
]
