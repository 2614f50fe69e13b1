-- ===== src/Watch/Nfs/Status.antt =====
-- The status of every NF after a check of the watch list.
use nfvnice_source.Mgr.{low_water_mark, max_clients}
use nfvnice_source.Watch.Keep.{mark_all_kept, clear_all_kept}
use nfvnice_source.Watch.Nfs.{
  Watcher, status, reset, wait_enqueued, drop_marked, water_mark, set_status,
  dequeue_nf_from_bottleneck_watch_list, mark_all, clear_all, queued, count_marked, leave,
  check_one, check_from, check_and_enqueue_or_dequeue_nfs_from_bottleneck_watch_list,
}
use nfvnice_source.Watch.Nfs.Round.{check_one-reset, check_one-marked, check_one-waiting}
use nfvnice_source.Prelude.{
  ℕ, zero, suc, ◌+◌, ◌≤◌, ◌<◌, ◌≡◌, inl, inr, refl, sym, ap, ap₂, subst, ◌∙◌, Bool, true, false,
  ◌&&◌, Bool-cases, arith, length, ltb, leb, ◌==◌, ==_iff, if◌then◌else◌,
}

-- The status that follows on `v` when `q` packets are queued: an NF that waits is marked from the upper
-- mark on, an NF on the list leaves it below the lower mark, and between the marks all stays.
abbrev pub next_status : ℕ → ℕ → ℕ
next_status v q =
    if ltb q low_water_mark
    then reset
    else if (v == wait_enqueued) && leb water_mark q
    then drop_marked
    else v

leave-status :
    (now j : ℕ) (s : Watcher) (i : ℕ)
    → status (leave now j s) i ≡ (if i == j then reset else status s i)
unfolding leave dequeue_nf_from_bottleneck_watch_list
leave-status now j s i = ground arith

leave-queued : (now j : ℕ) (s : Watcher) (i : ℕ) → queued (leave now j s) i ≡ queued s i
unfolding leave dequeue_nf_from_bottleneck_watch_list
leave-queued now j s i = elim (Bool-cases (status s j == 0)) [
  | inl off ↦ rw off refl
  | inr on ↦ rw on refl
]

mark_all-queued : (j : ℕ) (s : Watcher) (i : ℕ) → queued (mark_all j s) i ≡ queued s i
mark_all-queued j s i =
    mark_all_kept (λ w. length (w.places.rx_q i)) (λ w ch. refl) j s.sc_list s.world

clear_all-queued : (j : ℕ) (s : Watcher) (i : ℕ) → queued (clear_all j s) i ≡ queued s i
clear_all-queued j s i =
    clear_all_kept (λ w. length (w.places.rx_q i)) (λ w ch. refl) j s.sc_list s.world

stepped : ℕ → Watcher → ℕ → ℕ
stepped j s i = if i == j then next_status (status s j) (queued s j) else status s i

stepped_lem :
    (j : ℕ) (s : Watcher) (i : ℕ)
    → stepped j s i ≡ (if i == j then next_status (status s j) (queued s j) else status s i)
unfolding stepped
stepped_lem j s i = refl

-- An NF whose next status is its status.
stay :
    (j : ℕ) (s : Watcher) (i : ℕ)
    → next_status (status s j) (queued s j) ≡ status s j
    → status s i ≡ stepped j s i
unfolding stepped
stay j s i n = elim (Bool-cases (i == j)) [
  | inl h ↦ rw h (ap (status s) ((==_iff i j).0 h) ∙ sym n)
  | inr h ↦ rw h refl
]

-- One round: the NF takes its next status, the others keep theirs, and nothing is queued or taken.
check_one-status :
    (now j : ℕ) (s : Watcher) (i : ℕ)
    → status s j ≤ 2
    → (status (check_one now j s) i ≡ stepped j s i) × (queued (check_one now j s) i ≡ queued s i)
check_one-status now j s i le = by_status (status s j) refl le
  where
    waiting :
        status s j ≡ wait_enqueued
        → let t =
            if leb water_mark (queued s j)
            then count_marked j (mark_all j (set_status j drop_marked s))
            else if ltb (queued s j) low_water_mark
            then leave now j s
            else s in
          (status t i ≡ stepped j s i) × (queued t i ≡ queued s i)
    waiting e = elim (Bool-cases (leb water_mark (queued s j))) [
      | inl full ↦
          rw full
            (ground (arith, e, stepped_lem j s i), mark_all-queued j (set_status j drop_marked s) i)
      | inr room ↦ elim (Bool-cases (ltb (queued s j) low_water_mark)) [
        | inl low ↦
            rw (room, low)
              (
                leave-status now j s i ∙ ground (arith, e, stepped_lem j s i),
                leave-queued now j s i,
              )
        | inr high ↦ rw (room, high) (stay j s i (ground (arith, e)), refl)
      ]
    ]

    by_status :
        (v : ℕ)
        → status s j ≡ v
        → v ≤ 2
        → (status (check_one now j s) i ≡ stepped j s i)
          × (queued (check_one now j s) i ≡ queued s i)
    by_status zero e le = rw (check_one-reset now j s e) (stay j s i (ground (arith, e)), refl)
    by_status (suc zero) e le = rw (check_one-waiting now j s e) (waiting e)
    by_status (suc (suc zero)) e le =
        rw (check_one-marked now j s e) (elim (Bool-cases (ltb (queued s j) low_water_mark)) [
          | inl low ↦ rw low (
            leave-status now j (clear_all j s) i ∙ ground (arith, e, stepped_lem j s i),
            leave-queued now j (clear_all j s) i ∙ clear_all-queued j s i,
          )
          | inr high ↦ rw high (stay j s i (ground (arith, e)), refl)
        ])
    by_status (suc (suc (suc v))) e le = absurd (omega arith)

next_status-le : (v q : ℕ) → v ≤ 2 → next_status v q ≤ 2
next_status-le v q h = ground arith

check_from-status :
    (now left j : ℕ) (s : Watcher) (i : ℕ)
    → ((k : ℕ) → status s k ≤ 2)
    → status (check_from now left j s) i
      ≡ (if leb j i && ltb i (j + left) then next_status (status s i) (queued s i) else status s i)
unfolding check_from
check_from-status now zero j s i h = ground arith
check_from-status now (suc left) j s i h =
    let s' = check_one now j s in
    let one = check_one-status now j s i (h j) in
    check_from-status now left (j + 1) s' i small
    ∙ ap₂ (λ v q. if leb (j + 1) i && ltb i (j + 1 + left) then next_status v q else v)
        (one.0 ∙ stepped_lem j s i) one.1
    ∙ shift (i == j) refl
  where
    small : (k : ℕ) → status (check_one now j s) k ≤ 2
    small k =
        subst (λ v. v ≤ 2) (sym ((check_one-status now j s k (h j)).0 ∙ stepped_lem j s k))
          (ground (arith, h k, next_status-le (status s j) (queued s j) (h j)))

    shift :
        (b : Bool)
        → (i == j) ≡ b
        → (let v = if i == j then next_status (status s j) (queued s j) else status s i in
            if leb (j + 1) i && ltb i (j + 1 + left) then next_status v (queued s i) else v)
          ≡ (if leb j i && ltb i (j + suc left)
              then next_status (status s i) (queued s i)
              else status s i)
    shift true e =
        let e' = (==_iff i j).0 e in rw e (ground (arith, e', ap (status s) e', ap (queued s) e'))
    shift false e = rw e (ground arith)

-- Every status is one of the three. After a check each of the 32 NFs has the status that follows on
-- its own for the packets that are queued for it: an NF that waits is marked if they reach the upper
-- mark, an NF on the list leaves it if they are below the lower mark, and all else stays as it was.
pub check-status :
    (now : ℕ) (s : Watcher) (i : ℕ)
    → ((k : ℕ) → status s k ≤ 2)
    → i < max_clients
    → status (check_and_enqueue_or_dequeue_nfs_from_bottleneck_watch_list now s) i
      ≡ next_status (status s i) (queued s i)
unfolding check_and_enqueue_or_dequeue_nfs_from_bottleneck_watch_list
check-status now s i h hi = check_from-status now max_clients 0 s i h ∙ ground arith
