-- ===== src/Watch/Nfs/Round.antt =====
-- One round of the check of the watch list, by the status of the NF.
use nfvnice_source.Mgr.{low_water_mark}
use nfvnice_source.Watch.Nfs.{
  Watcher, status, reset, wait_enqueued, drop_marked, water_mark, set_status, mark_all, clear_all,
  queued, count_marked, leave, check_one,
}
use nfvnice_source.Prelude.{ℕ, ◌≡◌, refl, ltb, leb, if◌then◌else◌}

module _ (now i : ℕ) (s : Watcher) where
  pub check_one-reset : status s i ≡ reset → check_one now i s ≡ s
  unfolding check_one
  check_one-reset e = rw (check_one, e) refl

  pub check_one-marked :
      status s i ≡ drop_marked
      → check_one now i s
        ≡ (if ltb (queued s i) low_water_mark then leave now i (clear_all i s) else s)
  unfolding check_one
  check_one-marked e = rw (check_one, e) refl

  pub check_one-waiting :
      status s i ≡ wait_enqueued
      → check_one now i s ≡ (
          if leb water_mark (queued s i)
          then count_marked i (mark_all i (set_status i drop_marked s))
          else if ltb (queued s i) low_water_mark
          then leave now i s
          else s)
  unfolding check_one
  check_one-waiting e = rw (check_one, e) refl
