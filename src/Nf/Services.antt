-- ===== src/Nf/Services.antt =====
-- The rows of `services` in onvm/onvm_mgr/onvm_nf.c: what a start adds to one and a stop takes out.
use nfvnice_source.Mgr.{World, Packet, max_clients_per_service}
use nfvnice_source.Nf.{register, find_index, close_gap, remove_from_row}
use nfvnice_source.Pkt.{onvm_nf_service_to_nf_map}
use nfvnice_source.Prelude.{
  ℕ, zero, suc, ◌+◌, ◌-◌, ◌%◌, ◌≤◌, ◌<◌, ◌≡◌, ◌≢◌, inl, inr, refl, ap, ◌∙◌, List, [], ◌∷◌, ◌++◌,
  arith, replicate, length, get_or, set, set_behind, true, false, Bool-cases, ltb, ◌==◌,
}

-- No NF is registered as 0.
unfoldable pub NonZero : List ℕ → Type 0
NonZero xs = (k : ℕ) → k < length xs → get_or xs k 0 ≢ 0

-- What is in front of the gap stays.
close_gap-peel :
    (n x : ℕ) (row : List ℕ) (i : ℕ) → close_gap n (x ∷ row) (suc i) ≡ x ∷ close_gap n row i
unfolding close_gap
close_gap-peel zero x row i = refl
close_gap-peel (suc n) x row i = elim (Bool-cases (get_or row (i + 1) 0 == 0)) [
  | inl ended ↦ rw (next, ended) refl
  | inr more ↦
      rw (next, more)
        (close_gap-peel n x (set (set row i (get_or row (i + 1) 0)) (i + 1) 0) (i + 1))
]
  where
    next : suc i + 1 ≡ suc (i + 1)
    next = omega arith

close_gap-append :
    (n : ℕ) (xs row : List ℕ) → close_gap n (xs ++ row) (length xs) ≡ xs ++ close_gap n row 0
close_gap-append n [] row = refl
close_gap-append n (x ∷ xs) row =
    close_gap-peel n x (xs ++ row) (length xs) ∙ ap (λ l. x ∷ l) (close_gap-append n xs row)

close_gap_lem :
    (n : ℕ) (ys : List ℕ) (z : ℕ)
    → length ys ≤ n
    → NonZero ys
    → close_gap n (0 ∷ (ys ++ replicate z 0)) 0 ≡ ys ++ (0 ∷ replicate z 0)
unfolding close_gap NonZero
close_gap_lem zero [] z h nz = refl
close_gap_lem zero (y ∷ ys) z h nz = absurd (omega arith)
close_gap_lem (suc n) [] zero h nz = refl
close_gap_lem (suc n) [] (suc z) h nz = refl
close_gap_lem (suc n) (y ∷ ys) z h nz = rw (nonzero) (
    close_gap-peel n y (0 ∷ (ys ++ replicate z 0)) 0
    ∙ ap (λ l. y ∷ l) (close_gap_lem n ys z (omega arith) (λ k l. nz (suc k) (omega arith))))
  where
    nonzero : (y == 0) ≡ false
    nonzero = ground (arith, nz 0 (omega arith))

-- The NF is not among these.
unfoldable pub Absent : ℕ → List ℕ → Type 0
Absent id xs = (k : ℕ) → k < length xs → get_or xs k 0 ≢ id

find_index-peel :
    (n x : ℕ) (row : List ℕ) (id i : ℕ)
    → find_index n (x ∷ row) id (suc i) ≡ suc (find_index n row id i)
unfolding find_index
find_index-peel zero x row id i = refl
find_index-peel (suc n) x row id i = elim (Bool-cases (get_or row i 0 == id)) [
  | inl found ↦ rw (found) refl
  | inr other ↦ rw (next, other) (find_index-peel n x row id (i + 1))
]
  where
    next : suc i + 1 ≡ suc (i + 1)
    next = omega arith

find_index_lem :
    (n : ℕ) (xs ys : List ℕ) (id : ℕ)
    → length xs < n
    → Absent id xs
    → find_index n (xs ++ (id ∷ ys)) id 0 ≡ length xs
unfolding find_index Absent
find_index_lem zero xs ys id h ab = absurd (omega arith)
find_index_lem (suc n) [] ys id h ab = rw (same) refl
  where
    same : (id == id) ≡ true
    same = ground arith
find_index_lem (suc n) (x ∷ xs) ys id h ab = rw (other) (
    find_index-peel n x (xs ++ (id ∷ ys)) id 0
    ∙ ap suc (find_index_lem n xs ys id (omega arith) (λ k l. ab (suc k) (omega arith))))
  where
    other : (x == id) ≡ false
    other = ground (arith, ab 0 (omega arith))

-- A row of eight holds the NFs `xs`, `id` and `ys` of a service, none of `ys` is 0 and `id` is not in
-- `xs`, and then zeros: what a stop of `id` leaves is `xs`, `ys` and one more zero, in this order.
pub remove_from_row_lem :
    (xs ys : List ℕ) (id z : ℕ)
    → length xs + 1 + length ys ≤ max_clients_per_service
    → Absent id xs
    → NonZero ys
    → remove_from_row id (xs ++ (id ∷ (ys ++ replicate z 0))) ≡ xs ++ (ys ++ (0 ∷ replicate z 0))
unfolding remove_from_row
remove_from_row_lem xs ys id z h ab nz =
    rw (find_index_lem max_clients_per_service xs (ys ++ replicate z 0) id (omega arith) ab, inside)
      (ap (λ row. close_gap (max_clients_per_service - 1 - length xs) row (length xs))
          (set_behind xs (ys ++ replicate z 0) id 0)
        ∙ close_gap-append (max_clients_per_service - 1 - length xs) xs (0 ∷ (ys ++ replicate z 0))
        ∙ ap (λ l. xs ++ l)
            (close_gap_lem (max_clients_per_service - 1 - length xs) ys z (omega arith) nz))
  where
    inside : ltb (length xs) max_clients_per_service ≡ true
    inside = ground arith

-- An index up to the NF does not see what is behind it.
first_part :
    (xs ys : List ℕ) (id k : ℕ)
    → k < length xs + 1
    → get_or (xs ++ (id ∷ ys)) k 0 ≡ get_or (xs ++ (id ∷ [])) k 0
first_part [] ys id zero h = refl
first_part [] ys id (suc k) h = absurd (omega arith)
first_part (x ∷ xs) ys id zero h = refl
first_part (x ∷ xs) ys id (suc k) h = first_part xs ys id k (omega arith)

mod_lt : (a n : ℕ) → a % (n + 1) < n + 1
mod_lt a n = omega arith

-- A row with room holds the NFs `xs` of a service and then zeros, and another NF `id` is registered:
-- a packet goes to one of `xs` or to `id`, by its hash, and the NFs of `xs` keep their places.
register-service_to_nf_map :
    (w : World) (service id z : ℕ) (xs : List ℕ) (p : Packet)
    → w.services service ≡ xs ++ (0 ∷ replicate z 0)
    → w.nf_per_service_count service ≡ length xs
    → length xs < max_clients_per_service
    → onvm_nf_service_to_nf_map (register service id w) service p
      ≡ get_or (xs ++ (id ∷ [])) (p.rss % (length xs + 1)) 0
unfolding onvm_nf_service_to_nf_map
register-service_to_nf_map w service id z xs p row count h =
    rw (here, count, full, some_there, row, set_behind xs (replicate z 0) 0 id)
      (first_part xs (replicate z 0) id (p.rss % (length xs + 1)) (mod_lt (p.rss) (length xs)))
  where
    here : (service == service) ≡ true
    here = ground arith

    full : (length xs + 1) % 65536 ≡ length xs + 1
    full = omega arith

    some_there : (length xs + 1 == 0) ≡ false
    some_there = ground arith
