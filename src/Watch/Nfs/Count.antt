-- ===== src/Watch/Nfs/Count.antt =====
-- The watch list agrees with its counter and with the flags of the clients, whatever happens to it.
use nfvnice_source.Mgr.{max_clients, low_water_mark}
use nfvnice_source.Watch.Keep.{mark_all_kept, clear_all_kept}
use nfvnice_source.Watch.Nfs.{
  WatchEntry, WatchList, Watcher, status, reset, drop_marked, water_mark, wait_enqueued, set_status,
  enqueu_nf_to_bottleneck_watch_list, dequeue_nf_from_bottleneck_watch_list, set_bottleneck,
  mark_all, clear_all, queued, count_marked, leave, check_one, check_from,
}
use nfvnice_source.Watch.Nfs.Round.{check_one-reset, check_one-marked, check_one-waiting}
use nfvnice_source.Prelude.Sum.{sum_below, sum_update}
use nfvnice_source.Prelude.{
  ℕ, zero, suc, ◌+◌, ◌≤◌, ◌<◌, ◌≡◌, refl, sym, ap, fun_ext, subst, ◌∙◌, Bool, true, false, arith,
  update, ltb, leb, ◌==◌, if◌then◌else◌,
}

-- 1 for an NF that is on the list.
abbrev pub watched : ℕ → ℕ
watched s = if s == 0 then 0 else 1

abbrev pub total : WatchList → ℕ
total l = sum_below max_clients (λ i. watched (l.nf i).enqueue_status)

abbrev pub flag : Watcher → ℕ → ℕ
flag s i = (s.world.clients i).is_bottleneck

-- The counter is the number of NFs on the list, every status is one of the three, and the flags of the
-- clients say who is on the list.
pub record Agrees (l : WatchList) (flags : ℕ → ℕ) : Type 0 where
  pub counted : l.entires ≡ total l
  pub states : (i : ℕ) → (l.nf i).enqueue_status ≤ 2
  pub flagged : (i : ℕ) → flags i ≡ watched (l.nf i).enqueue_status

sum_below-le : (n : ℕ) (f : ℕ → ℕ) → ((i : ℕ) → f i ≤ 1) → sum_below n f ≤ n
unfolding sum_below
sum_below-le zero f h = omega arith
sum_below-le (suc n) f h = omega (arith, sum_below-le n f h, h n)

-- One status changes, and the counter with it.
put-Agrees :
    (l l' : WatchList) (flags flags' : ℕ → ℕ) (i v : ℕ)
    → Agrees l flags
    → i < max_clients
    → v ≤ 2
    → l'.entires + watched (l.nf i).enqueue_status ≡ l.entires + watched v
    → ((j : ℕ) → (l'.nf j).enqueue_status ≡ update (λ k. (l.nf k).enqueue_status) i v j)
    → ((j : ℕ) → flags' j ≡ update flags i (watched v) j)
    → Agrees l' flags'
put-Agrees l l' flags flags' i v a hi small balance st f = record {
  counted = omega (
    arith,
    a.counted,
    sum_update watched (λ k. (l.nf k).enqueue_status) i v max_clients hi,
    summed,
  );
  states = λ j. ground (arith, st j, a.states j);
  flagged = λ j. ground (arith, st j, f j, a.flagged j);
}
  where
    summed :
        total l'
        ≡ sum_below max_clients (λ j. watched (update (λ k. (l.nf k).enqueue_status) i v j))
    summed = ap (sum_below max_clients) (fun_ext (λ j. ap watched (st j)))

-- Room for one more, and something to take away.
entires-le : (l : WatchList) (flags : ℕ → ℕ) → Agrees l flags → l.entires ≤ 32
entires-le l flags a = omega (
  arith,
  a.counted,
  sum_below-le max_clients (λ i. watched (l.nf i).enqueue_status) (λ i. ground arith),
)

entires-ge :
    (l : WatchList) (flags : ℕ → ℕ) (i : ℕ)
    → Agrees l flags
    → i < max_clients
    → watched (l.nf i).enqueue_status ≤ l.entires
entires-ge l flags i a hi = omega (
  arith,
  a.counted,
  sum_update (λ (x : WatchEntry). watched x.enqueue_status) l.nf i
      (record (l.nf i) { enqueue_status = 0 }) max_clients hi,
)

mark_all-flag : (i : ℕ) (s : Watcher) (j : ℕ) → flag (mark_all i s) j ≡ flag s j
mark_all-flag i s j =
    mark_all_kept (λ w. (w.clients j).is_bottleneck) (λ w ch. refl) i s.sc_list s.world

clear_all-flag : (i : ℕ) (s : Watcher) (j : ℕ) → flag (clear_all i s) j ≡ flag s j
clear_all-flag i s j =
    clear_all_kept (λ w. (w.clients j).is_bottleneck) (λ w ch. refl) i s.sc_list s.world

abbrev pub AgreesIn : Watcher → Type 0
AgreesIn s = Agrees s.list (flag s)

-- Taking NF `i`, which is on the list, off it.
leave-Agrees :
    (now i : ℕ) (s : Watcher)
    → AgreesIn s
    → i < max_clients
    → (status s i == 0) ≡ false
    → AgreesIn (leave now i s)
unfolding leave dequeue_nf_from_bottleneck_watch_list
leave-Agrees now i s a hi on =
    put-Agrees s.list (leave now i s).list (flag s) (flag (leave now i s)) i reset a hi
      (omega arith)
      (rw (on, dequeue_nf_from_bottleneck_watch_list)
        (ground (arith, entires-le s.list (flag s) a, entires-ge s.list (flag s) i a hi)))
      (λ j. rw (on, dequeue_nf_from_bottleneck_watch_list) (ground arith))
      (λ j. rw (on, dequeue_nf_from_bottleneck_watch_list) (ground arith))

-- From waiting to marked.
mark-Agrees :
    (i : ℕ) (s : Watcher)
    → AgreesIn s
    → i < max_clients
    → status s i ≡ wait_enqueued
    → AgreesIn (count_marked i (mark_all i (set_status i drop_marked s)))
mark-Agrees i s a hi waits =
    put-Agrees s.list (count_marked i (mark_all i s')).list (flag s)
      (flag (count_marked i (mark_all i s'))) i drop_marked a hi (omega arith) (ground (arith))
      (λ j. ground arith) (λ j. ground (arith, mark_all-flag i s' j, a.flagged i))
  where
    s' : Watcher
    s' = set_status i drop_marked s

-- Putting NF `i`, which is not on the list, on it, and noting that it is a bottleneck.
pub enqueue-Agrees :
    (now i : ℕ) (s : Watcher)
    → AgreesIn s
    → i < max_clients
    → status s i ≡ reset
    → AgreesIn (enqueu_nf_to_bottleneck_watch_list now i (set_bottleneck i 1 s)).1
unfolding enqueu_nf_to_bottleneck_watch_list
enqueue-Agrees now i s a hi off =
    let s' = (enqueu_nf_to_bottleneck_watch_list now i (set_bottleneck i 1 s)).1 in
    put-Agrees s.list s'.list (flag s) (flag s') i wait_enqueued a hi (omega arith)
      (ground (arith, off, entires-le s.list (flag s) a)) (λ j. ground (arith, off))
      (λ j. ground (arith, off))

-- Clearing is no matter of the list.
pub same-Agrees :
    (s s' : Watcher)
    → AgreesIn s
    → s'.list ≡ s.list
    → ((j : ℕ) → flag s' j ≡ flag s j)
    → AgreesIn s'
same-Agrees s s' a l f = record {
  counted = ap (λ x. x.entires) l ∙ a.counted ∙ ap total (sym l);
  states = λ j. subst (λ x. (x.nf j).enqueue_status ≤ 2) (sym l) (a.states j);
  flagged = λ j. f j ∙ a.flagged j ∙ ap (λ x. watched (x.nf j).enqueue_status) (sym l);
}

choose : (b : Bool) (t u : Watcher) → AgreesIn t → AgreesIn u → AgreesIn (if b then t else u)
choose true t u x y = x
choose false t u x y = y

check_one-Agrees :
    (now i : ℕ) (s : Watcher) → AgreesIn s → i < max_clients → AgreesIn (check_one now i s)
check_one-Agrees now i s a hi = by_status (status s i) refl (a.states i)
  where
    by_status : (v : ℕ) → status s i ≡ v → v ≤ 2 → AgreesIn (check_one now i s)
    by_status zero e le = subst AgreesIn (sym (check_one-reset now i s e)) a
    by_status (suc zero) e le = subst AgreesIn (sym (check_one-waiting now i s e)) (
        choose (leb water_mark (queued s i)) _ _ (mark-Agrees i s a hi e) (
          choose (ltb (queued s i) low_water_mark) _ _
            (leave-Agrees now i s a hi (ground (arith, e))) a))
    by_status (suc (suc zero)) e le = subst AgreesIn (sym (check_one-marked now i s e)) (
        choose (ltb (queued s i) low_water_mark) _ _
          (leave-Agrees now i (clear_all i s)
            (same-Agrees s (clear_all i s) a refl (clear_all-flag i s)) hi (ground (arith, e)))
          a)
    by_status (suc (suc (suc v))) e le = absurd (omega arith)

pub check_from-Agrees :
    (now left i : ℕ) (s : Watcher)
    → AgreesIn s
    → i + left ≤ max_clients
    → AgreesIn (check_from now left i s)
unfolding check_from
check_from-Agrees now zero i s a h = a
check_from-Agrees now (suc left) i s a h =
    check_from-Agrees now left (i + 1) (check_one now i s)
      (check_one-Agrees now i s a (omega arith)) (omega arith)
