-- ===== src/Threads/Manage.antt =====
-- The requests of NFs and the watch over their processes leave the packets and the flow entries alone.
use nfvnice_source.Mgr.{World, Places, FlowEntry, nf_waiting_for_id, nf_stopped}
use nfvnice_source.Nf.{
  Calls, choose_id, onvm_nf_next_instance_id, onvm_nf_start, in_arrays, stop_nf, onvm_nf_stop,
  count_clients, handle_request, handle_requests, monitor_nf, monitor_from,
  monitor_nf_node_liveliness_via_pid_monitoring, onvm_nf_check_status,
}
use nfvnice_source.Prelude.{
  ℕ, zero, suc, ◌+◌, ◌≡◌, refl, ap, sym, ◌∙◌, List, [], ◌∷◌, Option, none, some, Bool, true, false,
  arith, some_inj, none-some, ℤ, ◌==◌, if◌then◌else◌,
}

abbrev pub view : World → Places × (ℕ → FlowEntry)
view w = (w.places, w.entries)

view-choose_id : (n : ℕ) (w : World) → view (choose_id n w).1 ≡ view w
unfolding onvm_nf_next_instance_id
view-choose_id n w = ground arith

view-start : (n : ℕ) (w w' : World) (r : ℤ) → onvm_nf_start n w ≡ some (r, w') → view w' ≡ view w
unfolding onvm_nf_start onvm_nf_next_instance_id
view-start n w w' r e = ground arith

view-stop : (calls : Calls) (n : ℕ) (w : World) → view (stop_nf calls n w).1 ≡ view w
unfolding stop_nf
view-stop calls n w = ground arith

view-count_clients : (change : ℕ) (r : ℤ) (w : World) → view (count_clients change (r, w)) ≡ view w
view-count_clients change r w = ground arith

view-monitor_nf : (calls : Calls) (i : ℕ) (w : World) → view (monitor_nf calls i w) ≡ view w
unfolding monitor_nf
view-monitor_nf calls i w = ground arith

view-monitor_from : (calls : Calls) (n i : ℕ) (w : World) → view (monitor_from calls n i w) ≡ view w
unfolding monitor_from
view-monitor_from calls zero i w = refl
view-monitor_from calls (suc n) i w =
    view-monitor_from calls n (i + 1) (monitor_nf calls i w) ∙ view-monitor_nf calls i w

view-request :
    (calls : Calls) (n : ℕ) (w w' : World) → handle_request calls n w ≡ some w' → view w' ≡ view w
unfolding handle_request onvm_nf_stop
view-request calls n w w' e =
    by_status ((w.infos n).status == nf_waiting_for_id) ((w.infos n).status == nf_stopped) e
  where
    started :
        (result : Option (ℤ × World))
        → onvm_nf_start n w ≡ result
        → (elim result [ none ↦ none | some r ↦ some (count_clients 1 r) ]) ≡ some w'
        → view w' ≡ view w
    started none e r = absurd (none-some r)
    started (some (r, w1)) e q =
        ap view (sym (some_inj q)) ∙ view-count_clients 1 r w1 ∙ view-start n w w1 r e

    by_status :
        (waiting stopped : Bool)
        → (if waiting
            then elim (onvm_nf_start n w) [ none ↦ none | some r ↦ some (count_clients 1 r) ]
            else if stopped
            then elim (onvm_nf_stop calls n w) [
              | none ↦ none
              | some r ↦ some (count_clients 65535 r)
            ]
            else some w)
          ≡ some w'
        → view w' ≡ view w
    by_status true s e = started (onvm_nf_start n w) refl e
    by_status false true e = by_arrays (in_arrays n w) e
      where
        by_arrays :
            (inside : Bool)
            → (elim (if inside then some (stop_nf calls n w) else none) as (λ _. Option World) [
              | none ↦ none
              | some r ↦ some (count_clients 65535 r)
            ])
              ≡ some w'
            → view w' ≡ view w
        by_arrays true e =
            let (r, w1) = stop_nf calls n w in
            ap view (sym (some_inj e)) ∙ view-count_clients 65535 r w1 ∙ view-stop calls n w
        by_arrays false e = absurd (none-some e)
    by_status false false e = ap view (sym (some_inj e))

view-requests :
    (calls : Calls) (ns : List ℕ) (w w' : World)
    → handle_requests calls ns w ≡ some w'
    → view w' ≡ view w
unfolding handle_requests
view-requests calls [] w w' e = ap view (sym (some_inj e))
view-requests calls (n ∷ ns) w w' e =
    by_result (handle_request calls n w) refl e (λ w1. view-requests calls ns w1 w')
  where
    by_result :
        (result : Option World)
        → handle_request calls n w ≡ result
        → (elim result [ none ↦ none | some w1 ↦ handle_requests calls ns w1 ]) ≡ some w'
        → ((w1 : World) → handle_requests calls ns w1 ≡ some w' → view w' ≡ view w1)
        → view w' ≡ view w
    by_result none e q rest = absurd (none-some q)
    by_result (some w1) e q rest = rest w1 q ∙ view-request calls n w w1 e

pub view-check_status :
    (calls : Calls) (w w' : World) → onvm_nf_check_status calls w ≡ some w' → view w' ≡ view w
unfolding onvm_nf_check_status monitor_nf_node_liveliness_via_pid_monitoring
view-check_status calls w w' e = grind (arith, view-requests, view-monitor_from)
