-- ===== src/Wake/Round.antt =====
-- What a round of onvm/onvm_mgr/onvm_wakemgr.c does to every client.
use nfvnice_source.Mgr.{World, Places, Client, bump64, on_client}
use nfvnice_source.Wake.{
  WakeupInfo, whether_wakeup_client, unblock, wakeup_client_internal, count_wakeup, wakeup_client,
  wakeup_from, handle_wakeup,
}
use nfvnice_source.Prelude.{
  ℕ, zero, suc, ◌+◌, ◌-◌, ◌≤◌, ◌≡◌, inl, inr, refl, sym, ap, subst, ◌∙◌, Bool, true, false,
  Bool-cases, arith, length, ltb, leb, not, ◌&&◌, ◌==◌, ==_iff, if◌then◌else◌, update,
}

-- A client that is woken: a blocked one waits no longer and has one post more, every other one is as
-- before, and either way its count of wakeups rises.
abbrev pub woken : Client → Client
woken c = record c {
  shm_server = if c.shm_server == 1 then 0 else c.shm_server;
  posts = if c.shm_server == 1 then c.posts + 1 else c.posts;
  stats = record c.stats { wakeup_count = bump64 c.stats.wakeup_count 1 };
}

abbrev pub after_round : Bool → Client → Client
after_round has_packets c = if has_packets then woken c else c

abbrev pub has_packets : World → ℕ → Bool
has_packets w i = not (length (w.places.rx_q i) == 0)

-- One client, without packets and with.
wakeup_idle :
    (i : ℕ) (info : WakeupInfo) (w : World)
    → (length (w.places.rx_q i) == 0) ≡ true
    → wakeup_client i (info, w) ≡ (info, w)
unfolding wakeup_client wakeup_client_internal whether_wakeup_client
wakeup_idle i info w none_there = rw (none_there, wakeup_client) refl

wakeup_busy :
    (i : ℕ) (info : WakeupInfo) (w : World)
    → (length (w.places.rx_q i) == 0) ≡ false
    → wakeup_client i (info, w) ≡ count_wakeup i 1 (info, on_client i unblock w)
unfolding wakeup_client wakeup_client_internal whether_wakeup_client
wakeup_busy i info w some_there = rw (some_there, wakeup_client) refl

-- What one call leaves: the packets stay, and one client may be woken.
record Woken (i : ℕ) (w w' : World) : Type 0 where
  pub places : w'.places ≡ w.places
  pub client :
      (j : ℕ)
      → w'.clients j ≡ (if j == i then after_round (has_packets w i) (w.clients i) else w.clients j)

stats-unblock : (c : Client) → (unblock c).stats ≡ c.stats
stats-unblock c = ground arith

unblock-woken :
    (c : Client)
    → record (unblock c) { stats = record c.stats { wakeup_count = bump64 c.stats.wakeup_count 1 } }
      ≡ woken c
unblock-woken c = elim (Bool-cases (c.shm_server == 1)) [
  | inl blocked ↦ rw (blocked) refl
  | inr awake ↦ rw (awake) refl
]

busy-client :
    (cs : ℕ → Client) (i j : ℕ)
    → (let c1 = update cs i (unblock (cs i)) in
        let c = c1 i in
        update c1 i
          (record c { stats = record c.stats { wakeup_count = bump64 c.stats.wakeup_count 1 } })
          j)
      ≡ (if j == i then woken (cs i) else cs j)
busy-client cs i j = elim (Bool-cases (j == i)) [
  | inl same ↦ rw (here, same, stats-unblock (cs i)) (unblock-woken (cs i))
  | inr other ↦ rw (here, other) refl
]
  where
    here : (i == i) ≡ true
    here = ground arith

wakeup_client-Woken :
    (i : ℕ) (info : WakeupInfo) (w : World) → Woken i w (wakeup_client i (info, w)).1
wakeup_client-Woken i info w = elim (Bool-cases (length (w.places.rx_q i) == 0)) [
  | inl idle ↦ subst (λ s. Woken i w s.1) (sym (wakeup_idle i info w idle)) (unchanged idle)
  | inr busy ↦ subst (λ s. Woken i w s.1) (sym (wakeup_busy i info w busy)) (changed busy)
]
  where
    untouched :
        (length (w.places.rx_q i) == 0) ≡ true
        → (j : ℕ)
        → w.clients j
          ≡ (if j == i then after_round (has_packets w i) (w.clients i) else w.clients j)
    untouched idle j = elim (Bool-cases (j == i)) [
      | inl same ↦ rw (idle, same) (ap w.clients ((==_iff j i).0 same))
      | inr other ↦ rw (other) refl
    ]

    touched :
        (length (w.places.rx_q i) == 0) ≡ false
        → (j : ℕ)
        → (if j == i then woken (w.clients i) else w.clients j)
          ≡ (if j == i then after_round (has_packets w i) (w.clients i) else w.clients j)
    touched busy j = rw (busy) refl

    unchanged : (length (w.places.rx_q i) == 0) ≡ true → Woken i w w
    unchanged idle = record { places = refl; client = λ j. untouched idle j }

    changed :
        (length (w.places.rx_q i) == 0) ≡ false
        → Woken i w (count_wakeup i 1 (info, on_client i unblock w)).1
    changed busy = record {
      places = refl;
      client = λ j. busy-client w.clients i j ∙ touched busy j;
    }

-- The clients of a round from `i` on.
abbrev in_round : ℕ → ℕ → ℕ → Bool
in_round n i j = leb i j && ltb j (i + n)

wakeup_from-clients :
    (n i : ℕ) (info : WakeupInfo) (w : World) (j : ℕ)
    → (wakeup_from n i (info, w)).1.clients j
      ≡ after_round (in_round n i j && has_packets w j) (w.clients j)
unfolding wakeup_from
wakeup_from-clients zero i info w j = rw (nobody) refl
  where
    nobody : in_round 0 i j ≡ false
    nobody = ground arith
wakeup_from-clients (suc n) i info w j =
    wakeup_from-clients n (i + 1) info1 w1 j
    ∙ ap (λ b. after_round (in_round n (i + 1) j && b) (w1.clients j)) packets
    ∙ ap (after_round (in_round n (i + 1) j && has_packets w j)) (one.client j)
    ∙ by_place
  where
    info1 : WakeupInfo
    info1 = (wakeup_client i (info, w)).0

    w1 : World
    w1 = (wakeup_client i (info, w)).1

    one : Woken i w w1
    one = wakeup_client-Woken i info w

    packets : has_packets w1 j ≡ has_packets w j
    packets = ap (λ (s : Places). not (length (s.rx_q j) == 0)) one.places

    by_place :
        after_round
          (in_round n (i + 1) j && has_packets w j)
          (if j == i then after_round (has_packets w i) (w.clients i) else w.clients j)
        ≡ after_round (in_round (suc n) i j && has_packets w j) (w.clients j)
    by_place = elim (Bool-cases (j == i)) [
      | inl same ↦
          rw (same, past same, now same)
            (ap (λ k. after_round (has_packets w k) (w.clients k)) (sym ((==_iff j i).0 same)))
      | inr other ↦ rw (other, later other) refl
    ]
      where
        past : (j == i) ≡ true → in_round n (i + 1) j ≡ false
        past same = ground arith

        now : (j == i) ≡ true → in_round (suc n) i j ≡ true
        now same = ground arith

        later : (j == i) ≡ false → in_round n (i + 1) j ≡ in_round (suc n) i j
        later other = ground arith

-- Where `first_client` is not above `last_client`: after a round every client from `first_client` up to but not including `last_client` whose receive
-- ring holds packets has one wakeup more on its count, and if its flag `shm_server` was 1, that is 0 and
-- its semaphore has one post more; nothing else of a client changes, and all other clients are as they
-- were.
pub handle_wakeup-clients :
    (info : WakeupInfo) (w : World) (j : ℕ)
    → info.first_client ≤ info.last_client
    → (handle_wakeup info w).1.clients j ≡ (
        if leb info.first_client j && ltb j info.last_client && has_packets w j
        then woken (w.clients j)
        else w.clients j)
unfolding handle_wakeup
handle_wakeup-clients info w j h =
    wakeup_from-clients (info.last_client - info.first_client) info.first_client info w j
    ∙ ap (λ n. after_round (leb info.first_client j && ltb j n && has_packets w j) (w.clients j))
        last
  where
    last : info.first_client + (info.last_client - info.first_client) ≡ info.last_client
    last = omega arith
