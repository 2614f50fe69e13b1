-- ===== src/Nf/Died.antt =====
-- What becomes of the info of an NF whose process has died, in onvm/onvm_mgr/onvm_nf.c.
use nfvnice_source.Nf.Start.{set_self}
use nfvnice_source.Mgr.{World, nf_running, nf_stopped, onvm_nf_is_valid}
use nfvnice_source.Nf.{
  Calls, give_up, count_clients, handle_request, in_arrays, stop_nf, onvm_nf_stop, monitor_nf,
}
use nfvnice_source.Prelude.{ℕ, ◌≡◌, refl, [], ◌∷◌, ◌++◌, some, true, arith}

given_up :
    (calls : Calls) (i n : ℕ) (w : World)
    → (w.clients i).info ≡ some n
    → (w.infos n).status ≡ nf_running
    → calls.kill_fails (w.infos n).pid ≡ true
    → monitor_nf calls i w ≡ give_up n w
unfolding monitor_nf onvm_nf_is_valid
given_up calls i n w client running dead =
    rw (client, monitor_nf, client, onvm_nf_is_valid, running, dead) refl

still_inside : (n : ℕ) (w : World) → in_arrays n w ≡ true → in_arrays n (give_up n w) ≡ true
still_inside n w inside = ground (arith, inside)

stopped :
    (calls : Calls) (n : ℕ) (w : World)
    → calls.pool_found ≡ true
    → (w.infos n).status ≡ nf_stopped
    → in_arrays n w ≡ true
    → (w' : World) × (handle_request calls n w ≡ some w') × (w'.info_pool ≡ n ∷ w.info_pool)
unfolding handle_request onvm_nf_stop stop_nf
stopped calls n w pool status inside = (
  count_clients 65535 (stop_nf calls n w),
  rw (status, handle_request, inside, onvm_nf_stop) refl,
  rw (pool) refl,
)

-- An NF runs as request `n`, with an identifier and a service inside the arrays, the mempool is found, and
-- the process of the NF has died: the watch marks it as stopped, puts its info at the
-- end of the queue and gives the same info to the mempool. When the request is then handled, it is
-- stopped, and the mempool has the info twice.
pub monitor_nf-handle_request :
    (calls : Calls) (i n : ℕ) (w : World)
    → (w.clients i).info ≡ some n
    → (w.infos n).status ≡ nf_running
    → calls.kill_fails (w.infos n).pid ≡ true
    → calls.pool_found ≡ true
    → in_arrays n w ≡ true
    → let w1 = monitor_nf calls i w in
      ((w1.infos n).status ≡ nf_stopped)
      × (w1.info_queue ≡ w.info_queue ++ n ∷ [])
      × (w1.info_pool ≡ n ∷ w.info_pool)
      × (w2 : World) × (handle_request calls n w1 ≡ some w2)
      × (w2.info_pool ≡ n ∷ n ∷ w.info_pool)
monitor_nf-handle_request calls i n w client running dead pool inside =
    rw (given_up calls i n w client running dead) (
      let (w2, handled, twice) =
        stopped calls n (give_up n w) pool (set_self n nf_stopped w) (still_inside n w inside) in
      (set_self n nf_stopped w, refl, refl, w2, handled, twice))
