-- ===== src/Wake.antt =====
-- onvm/onvm_mgr/onvm_wakemgr.c: waking the NFs that have packets. Built with INTERRUPT_SEM and
-- semaphores, without USE_NF_WAKE_THRESHOLD; every NF has its receive ring.
pub mod Round
mod Tests
use nfvnice_source.Mgr.{World, Client, Stats, bump64, on_client, on_stats}
use nfvnice_source.Prelude.{
  ℕ, zero, suc, ◌+◌, ◌-◌, ◌%◌, ◌^◌, List, [], ◌∷◌, Bool, true, false, length, update, ◌==◌,
  if◌then◌else◌,
}

-- `struct wakeup_info`.
pub record WakeupInfo : Type 0 where
  pub first_client : ℕ
  pub last_client : ℕ
  pub num_wakeups : ℕ

-- `whether_wakeup_client`: 1 if there are packets.
pub whether_wakeup_client : ℕ → World → ℕ
whether_wakeup_client i w = if length (w.places.rx_q i) == 0 then 0 else 1

-- `notify_client`: `sem_post` on the semaphore of the NF.
abbrev pub notify_client : Client → Client
notify_client c = record c { posts = c.posts + 1 }

-- A blocked NF is unblocked and notified.
abbrev pub unblock : Client → Client
unblock c = if c.shm_server == 1 then notify_client (record c { shm_server = 0 }) else c

-- `wakeup_client_internal`.
unfoldable pub wakeup_client_internal : ℕ → World → ℕ × World
wakeup_client_internal i w =
    (whether_wakeup_client i w, if whether_wakeup_client i w == 1 then on_client i unblock w else w)

-- `wakeup_client`, with the record of the thread.
abbrev pub count_wakeup : ℕ → ℕ → WakeupInfo × World → WakeupInfo × World
count_wakeup i ret (info, w) =
    if ret == 1
    then (
      record info { num_wakeups = bump64 info.num_wakeups 1 },
      on_stats i (λ s. record s { wakeup_count = bump64 s.wakeup_count 1 }) w,
    )
    else (info, w)

unfoldable pub wakeup_client : ℕ → WakeupInfo × World → WakeupInfo × World
wakeup_client i (info, w) =
    let (ret, w') = wakeup_client_internal i w in count_wakeup i ret (info, w')

-- `handle_wakeup`, which is `handle_wakeup_old` here.
unfoldable pub wakeup_from : ℕ → ℕ → WakeupInfo × World → WakeupInfo × World
wakeup_from zero i s = s
wakeup_from (suc n) i s = wakeup_from n (i + 1) (wakeup_client i s)

unfoldable pub handle_wakeup : WakeupInfo → World → WakeupInfo × World
handle_wakeup info w =
    wakeup_from (info.last_client - info.first_client) info.first_client (info, w)
