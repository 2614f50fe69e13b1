-- ===== src/Nf/Range.antt =====
-- The tables of the services hold identifiers below 32, whatever requests come: what the packet paths
-- rely on.
use nfvnice_source.Mgr.{
  World, max_clients, max_clients_per_service, nf_no_id, nf_waiting_for_id, nf_stopped,
  onvm_nf_is_valid, nf_no_ids, nf_id_conflict, on_client,
}
use nfvnice_source.Nf.{
  Calls, choose_id, reject, accept, release, onvm_stats_clear_client, unregister, admit, has_room,
  onvm_nf_next_instance_id, onvm_nf_start, remove_from_row, close_gap, find_index, in_arrays,
  stop_nf, onvm_nf_stop, count_clients, is_zero, handle_request, handle_requests, monitor_nf,
  monitor_from, monitor_nf_node_liveliness_via_pid_monitoring, onvm_nf_check_status,
}
use nfvnice_source.Pkt.Moves.{InRange}
use nfvnice_source.Prelude.{
  ℕ, zero, suc, ◌+◌, ◌-◌, ◌%◌, ◌^◌, ◌<◌, ◌≡◌, inl, inr, refl, sym, ap, subst, ◌∙◌, List, [], ◌∷◌,
  Option, none, some, Bool, true, false, Bool-cases, arith, update, set, get_or, length, leb, ltb,
  ◌==◌, if◌then◌else◌, some_inj, none-some, ℤ,
}

-- Every element of a row is below the number of clients.
RowInRange : List ℕ → Type 0
RowInRange row = (k : ℕ) → get_or row k 0 < max_clients

set-RowInRange :
    (row : List ℕ) (i v : ℕ) → v < max_clients → RowInRange row → RowInRange (set row i v)
unfolding RowInRange
set-RowInRange [] i v l h k = h k
set-RowInRange (x ∷ xs) zero v l h zero = l
set-RowInRange (x ∷ xs) zero v l h (suc k) = h (suc k)
set-RowInRange (x ∷ xs) (suc i) v l h zero = h zero
set-RowInRange (x ∷ xs) (suc i) v l h (suc k) = set-RowInRange xs i v l (λ j. h (suc j)) k

close_gap-RowInRange :
    (n : ℕ) (row : List ℕ) (i : ℕ) → RowInRange row → RowInRange (close_gap n row i)
unfolding close_gap RowInRange
close_gap-RowInRange zero row i h = h
close_gap-RowInRange (suc n) row i h = elim (Bool-cases (get_or row (i + 1) 0 == 0)) [
  | inl ended ↦ rw (ended) h
  | inr more ↦ rw (more) (
      close_gap-RowInRange n (set (set row i (get_or row (i + 1) 0)) (i + 1) 0) (i + 1) (
        set-RowInRange (set row i (get_or row (i + 1) 0)) (i + 1) 0 (omega arith)
          (set-RowInRange row i (get_or row (i + 1) 0) (h (i + 1)) h)))
]

remove_from_row-RowInRange :
    (id : ℕ) (row : List ℕ) → RowInRange row → RowInRange (remove_from_row id row)
unfolding remove_from_row
remove_from_row-RowInRange id row h =
    let i = find_index max_clients_per_service row id 0 in
    elim (Bool-cases (ltb i max_clients_per_service)) [
      | inl found ↦ rw (found) (
          close_gap-RowInRange (max_clients_per_service - 1 - i) (set row i 0) i
            (set-RowInRange row i 0 (omega arith) h))
      | inr absent ↦ rw (absent) h
    ]

update-InRange :
    (w : World) (s : ℕ → List ℕ) (service : ℕ) (row : List ℕ)
    → s ≡ update w.services service row
    → RowInRange row
    → InRange w
    → (t k : ℕ) → get_or (s t) k 0 < max_clients
unfolding RowInRange
update-InRange w s service row e r h t k =
    subst (λ (x : ℕ → List ℕ). get_or (x t) k 0 < max_clients) (sym e)
      (elim (Bool-cases (t == service))
        as (λ z. get_or (update w.services service row t) k 0 < max_clients) [
          | inl same ↦ rw (same) (r k)
          | inr other ↦ rw (other) (h t k)
        ])

choose_id-services : (n : ℕ) (w : World) → (choose_id n w).1.services ≡ w.services
unfolding onvm_nf_next_instance_id
choose_id-services n w = by_test ((w.infos n).instance_id == nf_no_id)
  where
    by_test :
        (wants_one : Bool)
        → (if wants_one
            then onvm_nf_next_instance_id w
            else ((w.infos n).instance_id, w)).1.services
          ≡ w.services
    by_test true = refl
    by_test false = refl

-- Equal tables are in range together.
InRange-same : (w w' : World) → w'.services ≡ w.services → InRange w → InRange w'
InRange-same w w' e h service k =
    subst (λ (x : ℕ → List ℕ). get_or (x service) k 0 < max_clients) (sym e) (h service k)

admit-InRange : (n id : ℕ) (w : World) → id < max_clients → InRange w → InRange (admit n id w)
unfolding RowInRange
admit-InRange n id w l h =
    let service = (w.infos n).service_id in
    let row = set (w.services service) (w.nf_per_service_count service) id in
    update-InRange w (admit n id w).services service row refl
      (set-RowInRange (w.services service) (w.nf_per_service_count service) id l (h service)) h

onvm_nf_start-InRange :
    (n : ℕ) (w w' : World) (r : ℤ) → onvm_nf_start n w ≡ some (r, w') → InRange w → InRange w'
unfolding onvm_nf_start
onvm_nf_start-InRange n w w' r e h =
    by_tests (leb max_clients id) refl (onvm_nf_is_valid w1 id)
      (has_room w1 (w1.infos n).service_id) e
  where
    id : ℕ
    id = (choose_id n w).0

    w1 : World
    w1 = (choose_id n w).1

    h1 : InRange w1
    h1 = InRange-same w w1 (choose_id-services n w) h

    by_tests :
        (too_large : Bool)
        → leb max_clients id ≡ too_large
        → (taken room : Bool)
        → (if too_large
            then reject n nf_no_ids w1
            else if taken
            then reject n nf_id_conflict w1
            else if room
            then accept n id w1
            else none)
          ≡ some (r, w')
        → InRange w'
    by_tests true t taken room e = subst InRange (ap (λ x. x.1) (some_inj e)) h1
    by_tests false t true room e = subst InRange (ap (λ x. x.1) (some_inj e)) h1
    by_tests false t false true e =
        subst InRange (ap (λ x. x.1) (some_inj e)) (admit-InRange n id w1 (ground arith) h1)
    by_tests false t false false e = absurd (none-some e)

stop_nf-InRange : (calls : Calls) (n : ℕ) (w : World) → InRange w → InRange (stop_nf calls n w).1
unfolding stop_nf RowInRange
stop_nf-InRange calls n w h = by_pool calls.pool_found
  where
    service : ℕ
    service = (w.infos n).service_id

    row : List ℕ
    row = remove_from_row (w.infos n).instance_id (w.services service)

    w1 : World
    w1 =
        onvm_stats_clear_client (w.infos n).instance_id
          (on_client (w.infos n).instance_id (λ c. record c { info = none }) w)

    by_pool :
        (found : Bool) → InRange (release found n (unregister service (w.infos n).instance_id w1)).1
    by_pool true =
        update-InRange w (update w.services service row) service row refl
          (remove_from_row-RowInRange (w.infos n).instance_id (w.services service) (h service)) h
    by_pool false =
        update-InRange w (update w.services service row) service row refl
          (remove_from_row-RowInRange (w.infos n).instance_id (w.services service) (h service)) h

count_clients-InRange :
    (change : ℕ) (r : ℤ) (w : World) → InRange w → InRange (count_clients change (r, w))
count_clients-InRange change r w h = by_test (is_zero r)
  where
    by_test :
        (zero_result : Bool)
        → InRange (
            if zero_result then record w { num_clients = (w.num_clients + change) % 2 ^ 16 } else w)
    by_test true = h
    by_test false = h

handle_request-InRange :
    (calls : Calls) (n : ℕ) (w w' : World)
    → handle_request calls n w ≡ some w'
    → InRange w
    → InRange w'
unfolding handle_request onvm_nf_stop
handle_request-InRange calls n w w' e h =
    by_status ((w.infos n).status == nf_waiting_for_id) ((w.infos n).status == nf_stopped) e
  where
    started :
        (result : Option (ℤ × World))
        → onvm_nf_start n w ≡ result
        → (elim result [ none ↦ none | some r ↦ some (count_clients 1 r) ]) ≡ some w'
        → InRange w'
    started none e r = absurd (none-some r)
    started (some (r, w1)) e q =
        subst InRange (some_inj q)
          (count_clients-InRange 1 r w1 (onvm_nf_start-InRange n w w1 r e h))

    by_status :
        (waiting stopped : Bool)
        → (if waiting
            then elim (onvm_nf_start n w) [ none ↦ none | some r ↦ some (count_clients 1 r) ]
            else if stopped
            then elim (onvm_nf_stop calls n w) [
              | none ↦ none
              | some r ↦ some (count_clients 65535 r)
            ]
            else some w)
          ≡ some w'
        → InRange w'
    by_status true s e = started (onvm_nf_start n w) refl e
    by_status false true e = by_arrays (in_arrays n w) e
      where
        by_arrays :
            (inside : Bool)
            → (elim (if inside then some (stop_nf calls n w) else none) as (λ _. Option World) [
              | none ↦ none
              | some r ↦ some (count_clients 65535 r)
            ])
              ≡ some w'
            → InRange w'
        by_arrays true e =
            let (r, w1) = stop_nf calls n w in
            subst InRange (some_inj e)
              (count_clients-InRange 65535 r w1 (stop_nf-InRange calls n w h))
        by_arrays false e = absurd (none-some e)
    by_status false false e = subst InRange (some_inj e) h

handle_requests-InRange :
    (calls : Calls) (ns : List ℕ) (w w' : World)
    → handle_requests calls ns w ≡ some w'
    → InRange w
    → InRange w'
unfolding handle_requests
handle_requests-InRange calls [] w w' e h = subst InRange (some_inj e) h
handle_requests-InRange calls (n ∷ ns) w w' e h =
    by_result (handle_request calls n w) refl e (λ w1. handle_requests-InRange calls ns w1 w')
  where
    by_result :
        (result : Option World)
        → handle_request calls n w ≡ result
        → (elim result [ none ↦ none | some w1 ↦ handle_requests calls ns w1 ]) ≡ some w'
        → ((w1 : World) → handle_requests calls ns w1 ≡ some w' → InRange w1 → InRange w')
        → InRange w'
    by_result none e q rest = absurd (none-some q)
    by_result (some w1) e q rest = rest w1 q (handle_request-InRange calls n w w1 e h)

monitor_nf-services :
    (calls : Calls) (i : ℕ) (w : World) → (monitor_nf calls i w).services ≡ w.services
unfolding monitor_nf
monitor_nf-services calls i w = ground arith

monitor_from-services :
    (calls : Calls) (n i : ℕ) (w : World) → (monitor_from calls n i w).services ≡ w.services
unfolding monitor_from
monitor_from-services calls zero i w = refl
monitor_from-services calls (suc n) i w =
    monitor_from-services calls n (i + 1) (monitor_nf calls i w) ∙ monitor_nf-services calls i w

-- Whatever requests are in the queue, and whichever processes have died: where the tables of the
-- services hold identifiers below 32, and `onvm_nf_check_status` returns, they do so afterwards.
pub onvm_nf_check_status-InRange :
    (calls : Calls) (w w' : World) → onvm_nf_check_status calls w ≡ some w' → InRange w → InRange w'
unfolding onvm_nf_check_status monitor_nf_node_liveliness_via_pid_monitoring
onvm_nf_check_status-InRange calls w w' e h =
    by_queue (calls.ring_dequeue_bulk w.info_queue (length w.info_queue)) e
  where
    by_result :
        (rest new_nfs : List ℕ) (result : Option World)
        → handle_requests calls new_nfs (record w { info_queue = rest }) ≡ result
        → (elim result [ none ↦ none | some w1 ↦ some (monitor_from calls max_clients 0 w1) ])
          ≡ some w'
        → InRange w'
    by_result rest new_nfs none e q = absurd (none-some q)
    by_result rest new_nfs (some w1) e q = subst InRange (some_inj q) (
        InRange-same w1 (monitor_from calls max_clients 0 w1)
          (monitor_from-services calls max_clients 0 w1)
          (handle_requests-InRange calls new_nfs (record w { info_queue = rest }) w1 e h))

    by_queue :
        (taken : Option (List ℕ × List ℕ))
        → (elim taken [
          | none ↦ some w
          | some (new_nfs, rest) ↦
              elim (handle_requests calls new_nfs (record w { info_queue = rest })) [
                | none ↦ none
                | some w1 ↦ some (monitor_from calls max_clients 0 w1)
              ]
        ])
          ≡ some w'
        → InRange w'
    by_queue none e = subst InRange (some_inj e) h
    by_queue (some (new_nfs, rest)) e =
        by_result rest new_nfs (handle_requests calls new_nfs (record w { info_queue = rest })) refl
          e
