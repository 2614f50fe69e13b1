-- ===== src/Watch/Nfs/Reach.antt =====
-- Sequences of steps that concern the watch list.
use nfvnice_source.Mgr.{max_clients}
use nfvnice_source.Watch.Nfs.{
  Watcher, enqueu_nf_to_bottleneck_watch_list, set_bottleneck, onvm_detect_and_set_back_pressure_v2,
  check_and_enqueue_or_dequeue_nfs_from_bottleneck_watch_list,
}
use nfvnice_source.Watch.Nfs.Count.{
  flag, Agrees, AgreesIn, enqueue-Agrees, same-Agrees, check_from-Agrees,
}
use nfvnice_source.Prelude.{
  ℕ, ◌<◌, ◌≡◌, inl, inr, refl, sym, ap, subst, ◌∙◌, Option, none, some, true, false, Bool-cases,
  some_inj, arith, ◌==◌,
}

-- What can happen: an NF with its own number is found to be a bottleneck, the list is checked, or other
-- code changes the state, but neither the list nor the flags.
pub data Step (s t : Watcher) : Type 0 where
  detect :
      (now i info : ℕ)
      → i < max_clients
      → (s.world.clients i).info ≡ some info
      → (s.world.infos info).instance_id ≡ i
      → onvm_detect_and_set_back_pressure_v2 now i s ≡ some t
      → Step s t
  check :
      (now : ℕ) → t ≡ check_and_enqueue_or_dequeue_nfs_from_bottleneck_watch_list now s → Step s t
  other : t.list ≡ s.list → ((j : ℕ) → flag t j ≡ flag s j) → Step s t

pub data Reach (s : Watcher) : Watcher → Type 0 where
  here : Reach s s
  next : {t u : Watcher} → Reach s t → Step t u → Reach s u

detect-Agrees :
    (now i info : ℕ) (s t : Watcher)
    → AgreesIn s
    → i < max_clients
    → (s.world.clients i).info ≡ some info
    → (s.world.infos info).instance_id ≡ i
    → onvm_detect_and_set_back_pressure_v2 now i s ≡ some t
    → AgreesIn t
unfolding onvm_detect_and_set_back_pressure_v2
detect-Agrees now i info s t a hi there numbered e = elim (Bool-cases (flag s i == 0)) [
  | inl fresh ↦
      subst AgreesIn (some_inj (sym (found fresh) ∙ e))
        (enqueue-Agrees now i s a hi (ground (arith, a.flagged i)))
  | inr known ↦ subst AgreesIn (some_inj (sym (kept known) ∙ e)) a
]
  where
    by_info :
        (o : Option ℕ)
        → o ≡ some info
        → (elim o as (λ _. Option Watcher) [
          | none ↦ none
          | some n ↦
              some
                (enqueu_nf_to_bottleneck_watch_list now
                  (s.world.infos n).instance_id
                  (set_bottleneck i 1 s)).1
        ])
          ≡ some (enqueu_nf_to_bottleneck_watch_list now i (set_bottleneck i 1 s)).1
    by_info none p = cc
    by_info (some n) p =
        ap (λ k. some (enqueu_nf_to_bottleneck_watch_list now k (set_bottleneck i 1 s)).1)
          (ap (λ m. (s.world.infos m).instance_id) (some_inj p) ∙ numbered)

    found :
        (flag s i == 0) ≡ true
        → onvm_detect_and_set_back_pressure_v2 now i s
          ≡ some (enqueu_nf_to_bottleneck_watch_list now i (set_bottleneck i 1 s)).1
    found fresh = rw (onvm_detect_and_set_back_pressure_v2, fresh) (by_info _ there)

    kept : (flag s i == 0) ≡ false → onvm_detect_and_set_back_pressure_v2 now i s ≡ some s
    kept known = rw (onvm_detect_and_set_back_pressure_v2, known) refl

Step-Agrees : (s t : Watcher) → AgreesIn s → Step s t → AgreesIn t
unfolding check_and_enqueue_or_dequeue_nfs_from_bottleneck_watch_list
Step-Agrees s t a (detect now i info hi there numbered e) =
    detect-Agrees now i info s t a hi there numbered e
Step-Agrees s t a (check now e) =
    subst AgreesIn (sym e) (check_from-Agrees now max_clients 0 s a (omega arith))
Step-Agrees s t a (other l f) = same-Agrees s t a l f

-- In every state that can be reached from one where the list and the flags agree, they agree: the
-- counter of the list is the number of NFs on it, every status is one of the three, and an NF is
-- flagged as a bottleneck exactly if it is on the list.
pub Reach-Agrees : (s t : Watcher) → Agrees s.list (flag s) → Reach s t → Agrees t.list (flag t)
Reach-Agrees s t a here = a
Reach-Agrees s t a (next {t = u} r st) = Step-Agrees u t (Reach-Agrees s u a r) st
