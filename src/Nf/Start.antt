-- ===== src/Nf/Start.antt =====
-- How `onvm_nf_start` of onvm/onvm_mgr/onvm_nf.c ends.
use mathlib.Core.Bool.{true≢false}
use nfvnice_source.Mgr.{
  World, max_clients, nf_starting, nf_no_id, nf_no_ids, nf_id_conflict, onvm_nf_is_valid,
}
use nfvnice_source.Nf.{
  start_id, admit, set_status, reject, accept, has_room, onvm_nf_start, onvm_nf_next_instance_id,
}
use nfvnice_source.Nf.Identity.{onvm_nf_next_instance_id_lem}
use nfvnice_source.Prelude.{
  ℕ, ◌+◌, ◌≡◌, ◌≢◌, ◌<◌, ◌≤◌, ◌⊎◌, inl, inr, refl, sym, List, Option, some, none, Bool, true, false,
  arith, ℤ, pos, leb, ◌==◌, ==_iff, Bool-cases, if◌then◌else◌, update, length, get_or, set,
  get_or-set_self, get_or-set_ne,
}

-- The identifier of request `n`: the one on its command line, or the first one, from where the last search
-- ended or from 1, under which no NF is running, or 32 if there is none up to the end.
pub IdOf : ℕ → World → ℕ → Type 0
IdOf n w id =
    ((w.infos n).instance_id ≢ nf_no_id → id ≡ (w.infos n).instance_id)
    × ((w.infos n).instance_id ≡ nf_no_id
        → (start_id w ≤ id)
          × ((k : ℕ) → start_id w ≤ k → k < id → onvm_nf_is_valid w k ≡ true)
          × (id < max_clients → onvm_nf_is_valid w id ≡ false))

-- Request `n` was admitted as `id`: the client refers to it, the service counts one more and has the
-- identifier at the end of its row, and the other clients and services stay.
pub Admitted : ℕ → ℕ → World → World → Type 0
Admitted n id w w' =
    let service = (w.infos n).service_id in
    let count = w.nf_per_service_count service in
    ((w'.clients id).info ≡ some n)
    × ((w'.clients id).instance_id ≡ id)
    × ((w'.infos n).instance_id ≡ id)
    × ((w'.infos n).status ≡ nf_starting)
    × (w'.nf_per_service_count service ≡ count + 1)
    × ((k : ℕ)
        → get_or (w'.services service) k 0
          ≡ (if k == count then id else get_or (w.services service) k 0))
    × ((j : ℕ) → j ≢ id → w'.clients j ≡ w.clients j)
    × ((j : ℕ)
        → j ≢ service
        → (w'.services j ≡ w.services j) × (w'.nf_per_service_count j ≡ w.nf_per_service_count j))

-- It was refused with a status that says why: no NF and no service changes.
pub Refused : ℕ → ℕ → World → World → Type 0
Refused n id w w' =
    (w'.clients ≡ w.clients)
    × (w'.services ≡ w.services)
    × (w'.nf_per_service_count ≡ w.nf_per_service_count)
    × (((max_clients ≤ id) × ((w'.infos n).status ≡ nf_no_ids))
        ⊎ ((onvm_nf_is_valid w id ≡ true) × ((w'.infos n).status ≡ nf_id_conflict)))

-- `onvm_nf_start` for an identifier that was chosen.
start_as : ℕ → ℕ → World → Option (ℤ × World)
start_as n id w =
    if leb max_clients id
    then reject n nf_no_ids w
    else if onvm_nf_is_valid w id
    then reject n nf_id_conflict w
    else if has_room w (w.infos n).service_id
    then accept n id w
    else none

Outcome : ℕ → ℕ → World → Option (ℤ × World) → Type 0
Outcome n id w answer =
    (w' : World) × (((answer ≡ some (pos 0, w'))
        × (id < max_clients)
        × (onvm_nf_is_valid w id ≡ false)
        × Admitted n id w w')
      ⊎ ((answer ≡ some (pos 1, w')) × Refused n id w w'))

pub set_self : (n status : ℕ) (w : World) → ((set_status n status w).infos n).status ≡ status
set_self n status w = ground arith

other_update : {A : Type 0} (f : ℕ → A) (i j : ℕ) (x : A) → j ≢ i → update f i x j ≡ f j
other_update f i j x h = ground arith

admit-Admitted :
    (n id : ℕ) (w : World)
    → has_room w (w.infos n).service_id ≡ true
    → length (w.services (w.infos n).service_id) ≡ 8
    → Admitted n id w (admit n id w)
unfolding Admitted
admit-Admitted n id w room full = (
  ground arith,
  ground arith,
  ground arith,
  ground arith,
  ground (arith, room),
  by_place,
  λ j other. other_update w.clients id j _ other,
  λ j other. (
    other_update w.services service j _ other,
    other_update w.nf_per_service_count service j _ other,
  ),
)
  where
    service : ℕ
    service = (w.infos n).service_id

    count : ℕ
    count = w.nf_per_service_count service

    row : List ℕ
    row = w.services service

    here : (service == service) ≡ true
    here = ground arith

    in_row : count < length row
    in_row = ground (arith, room, full)

    by_place :
        (k : ℕ)
        → get_or (update w.services service (set row count id) service) k 0
          ≡ (if k == count then id else get_or row k 0)
    by_place k = rw here (elim (Bool-cases (k == count)) [
      | inl same ↦ rw same (rw ((==_iff k count).0 same) (get_or-set_self row count id 0 in_row))
      | inr other ↦ rw other (get_or-set_ne row id 0 (differs other))
    ])
      where
        differs : (k == count) ≡ false → count ≢ k
        differs other e = ground (arith, e, other)

outcome :
    (n id : ℕ) (w : World)
    → has_room w (w.infos n).service_id ≡ true
    → length (w.services (w.infos n).service_id) ≡ 8
    → Outcome n id w (start_as n id w)
unfolding Outcome Refused start_as
outcome n id w room full =
    by_tests (leb max_clients id) (onvm_nf_is_valid w id) (has_room w (w.infos n).service_id) refl
      refl room
  where
    there : has_room w (w.infos n).service_id ≡ true
    there = room

    by_tests :
        (large taken room : Bool)
        → leb max_clients id ≡ large
        → onvm_nf_is_valid w id ≡ taken
        → room ≡ true
        → Outcome n id w (
            if large
            then reject n nf_no_ids w
            else if taken
            then reject n nf_id_conflict w
            else if room
            then accept n id w
            else none)
    by_tests true taken room l t r = (
      set_status n nf_no_ids w,
      inr (refl, (refl, refl, refl, inl (ground arith, set_self n nf_no_ids w))),
    )
    by_tests false true room l t r = (
      set_status n nf_id_conflict w,
      inr (refl, (refl, refl, refl, inr (t, set_self n nf_id_conflict w))),
    )
    by_tests false false true l t r =
        (admit n id w, inl (refl, ground arith, t, admit-Admitted n id w there full))
    by_tests false false false l t r = absurd (true≢false (sym r))

-- A request whose service has room, in a row of 8, is answered for the identifier on its command line or,
-- if it has none, for the first one, from where the last search ended or from 1, under which no NF is
-- running (32 if there is none up to the end): with 0, then it was admitted under it as `Admitted` says,
-- it is below 32 and no NF was running under it; or with 1, then it was
-- refused, with a status that says whether the identifier was 32 or more or an NF was running under it.
pub onvm_nf_start_lem :
    (n : ℕ) (w : World)
    → has_room w (w.infos n).service_id ≡ true
    → length (w.services (w.infos n).service_id) ≡ 8
    → (id : ℕ) × (w' : World) × IdOf n w id
      × (((onvm_nf_start n w ≡ some (pos 0, w'))
            × (id < max_clients)
            × (onvm_nf_is_valid w id ≡ false)
            × Admitted n id w w')
          ⊎ ((onvm_nf_start n w ≡ some (pos 1, w')) × Refused n id w w'))
unfolding onvm_nf_start IdOf Outcome start_as onvm_nf_next_instance_id onvm_nf_is_valid Admitted
    Refused
onvm_nf_start_lem n w room full = by_choice ((w.infos n).instance_id == nf_no_id) refl
  where
    own : ℕ
    own = (w.infos n).instance_id

    chosen : Bool → ℕ × World
    chosen b = if b then onvm_nf_next_instance_id w else (own, w)

    by_choice :
        (b : Bool)
        → (own == nf_no_id) ≡ b
        → (id : ℕ) × (w' : World) × IdOf n w id
          × (((start_as n (chosen b).0 (chosen b).1 ≡ some (pos 0, w'))
                × (id < max_clients)
                × (onvm_nf_is_valid w id ≡ false)
                × Admitted n id w w')
              ⊎ ((start_as n (chosen b).0 (chosen b).1 ≡ some (pos 1, w')) × Refused n id w w'))
    by_choice true e =
        let (id, w1) = onvm_nf_next_instance_id w in
        let (a, b, c, d, f) = onvm_nf_next_instance_id_lem w in
        let (w', result) = outcome n id w1 room full in
        (id, w', (λ other. absurd (other ((==_iff own nf_no_id).0 e)), λ same. (a, c, d)), result)
    by_choice false e =
        let (w', result) = outcome n own w room full in
        (own, w', (λ other. refl, λ same. absurd (ground (arith, e, same))), result)
