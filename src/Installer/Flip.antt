-- ===== src/Installer/Flip.antt =====
-- The loops over a row of services are lists of steps.
use nfvnice_source.Action
use nfvnice_source.Chain.{Chain, Entry, onvm_sc_append_entry}
use nfvnice_source.Chain.Steps.{build}
use nfvnice_source.Installer.Rows.{
  service, append_service, last_index_from, flip_from, row_from, last_valid_nf, is_end,
}
use nfvnice_source.Prelude.{
  ℕ, zero, suc, ◌+◌, ◌-◌, ◌^◌, ◌≤◌, ◌<◌, ◌≡◌, refl, ap, ◌∙◌, List, [], ◌∷◌, none, some, true, false,
  length, get_elem?, arith, Bool-cases, inl, inr, ◌⊎◌, ltb, ◌==◌, if◌then◌else◌, ℤ, pos, negsuc,
}

-- Row `i` holds the services `f 0`, …, `f (n - 1)`, and -1 behind them.
pub record Row (services : ℕ → ℤ) (i n : ℕ) (f : ℕ → ℕ) : Type 0 where
  pub filled : (j : ℕ) → j < n → service services i j ≡ pos (f j)
  pub ended : (j : ℕ) → n ≤ j → j < 12 → service services i j ≡ negsuc 0
  pub is_service : (j : ℕ) → 0 < f j
  pub fits : (j : ℕ) → f j < 2 ^ 16

abbrev pub to_service : ℕ → Entry
to_service n = record { destination = n; action = Action.tonf }

-- `f (n - 1)`, …, `f 0`, and then `g`; and `f 0`, … in order.
pub downs : (ℕ → ℕ) → ℕ → ℕ → List Entry
downs f g zero = to_service g ∷ []
downs f g (suc n) = to_service (f n) ∷ downs f g n

pub ups : (ℕ → ℕ) → ℕ → ℕ → List Entry
ups f zero k = []
ups f (suc n) k = to_service (f k) ∷ ups f n (k + 1)

append_lem :
    (c : Chain) (x : ℤ) (n : ℕ)
    → x ≡ pos n
    → 0 < n
    → n < 2 ^ 16
    → append_service x c ≡ (onvm_sc_append_entry c Action.tonf n).1
unfolding append_service
append_lem c (pos x) n e h fits = ground (arith, e)
append_lem c (negsuc x) n e h fits = cc

pub last_index_lem :
    (services : ℕ → ℤ) (i n : ℕ) (f : ℕ → ℕ) (left index : ℕ)
    → Row services i n f
    → index < n
    → n < 12
    → left + index ≡ 12
    → last_index_from services i left index ≡ n
unfolding last_index_from
last_index_lem services i n f zero index v h small e = absurd (omega arith)
last_index_lem services i n f (suc left) index v h small e =
    by_end (Bool-cases (index + 1 == n))
      (λ before. last_index_lem services i n f left (index + 1) v before small (omega arith))
  where
    by_end :
        ((index + 1 == n) ≡ true) ⊎ ((index + 1 == n) ≡ false)
        → (index + 1 < n → last_index_from services i left (index + 1) ≡ n)
        → (if is_end (service services i (index + 1))
            then index + 1
            else last_index_from services i left (index + 1))
          ≡ n
    by_end (inl at) later =
        rw (v.ended (index + 1) (ground (arith, at)) (omega arith)) (ground (arith, at))
    by_end (inr before) later =
        rw (v.filled (index + 1) (ground (arith, before))) (later (ground (arith, before)))

-- Appending the services one by one is `build`.
append_service-build :
    (c : Chain) (x : ℤ) (n : ℕ) (es : List Entry)
    → x ≡ pos n
    → 0 < n
    → n < 2 ^ 16
    → build (append_service x c) es ≡ build c (to_service n ∷ es)
unfolding build
append_service-build c x n es e h fits = ap (λ d. build d es) (append_lem c x n e h fits)

pub flip_from-build :
    (services : ℕ → ℤ) (i n : ℕ) (f : ℕ → ℕ) (k : ℕ) (c : Chain)
    → Row services i n f
    → k < n
    → flip_from services i n (suc k) c ≡ build c (downs f (f (n - 1)) k)
unfolding flip_from downs build
flip_from-build services i n f zero c v h =
    append_service-build c (service services i (n - 1)) (f (n - 1)) []
      (v.filled (n - 1) (omega arith)) (v.is_service (n - 1)) (v.fits (n - 1))
flip_from-build services i n f (suc k) c v h =
    flip_from-build services i n f k (append_service x c) v (omega arith)
    ∙ append_service-build c x (f k) (downs f (f (n - 1)) k) at_k (v.is_service k) (v.fits k)
  where
    x : ℤ
    x =
        if suc k == 0
        then service services i (n - 1)
        else service services i (suc k - last_valid_nf n)

    before : suc k - last_valid_nf n ≡ k
    before = ground (arith, h)

    at_k : x ≡ pos (f k)
    at_k = rw before (ground (arith, v.filled k (omega arith)))

row_from-ended :
    (services : ℕ → ℤ) (i n : ℕ) (f : ℕ → ℕ) (left k : ℕ) (c : Chain)
    → Row services i n f
    → left + k ≡ 12
    → n ≤ k
    → row_from services i left k c ≡ c
unfolding row_from append_service
row_from-ended services i n f zero k c v e h = refl
row_from-ended services i n f (suc left) k c v e h =
    ap (λ x. row_from services i left (k + 1) (append_service x c)) (v.ended k h (omega arith))
    ∙ row_from-ended services i n f left (k + 1) c v (omega arith) (omega arith)

pub row_from-build :
    (services : ℕ → ℤ) (i n : ℕ) (f : ℕ → ℕ) (left k m : ℕ) (c : Chain)
    → Row services i n f
    → left + k ≡ 12
    → k + m ≡ n
    → n ≤ 12
    → row_from services i left k c ≡ build c (ups f m k)
unfolding row_from ups build
row_from-build services i n f zero k zero c v e g fits = refl
row_from-build services i n f zero k (suc m) c v e g fits = absurd (omega arith)
row_from-build services i n f (suc left) k zero c v e g fits =
    row_from-ended services i n f (suc left) k c v e (omega arith)
row_from-build services i n f (suc left) k (suc m) c v e g fits =
    row_from-build services i n f left (k + 1) m (append_service (service services i k) c) v
      (omega arith) (omega arith) fits
    ∙ append_service-build c (service services i k) (f k) (ups f m (k + 1))
        (v.filled k (omega arith)) (v.is_service k) (v.fits k)

pub get_elem?-downs :
    (f : ℕ → ℕ) (g n k : ℕ)
    → get_elem? (downs f g n) k ≡ (
        if ltb k n
        then some (to_service (f (n - 1 - k)))
        else if k == n
        then some (to_service g)
        else none)
unfolding downs
get_elem?-downs f g zero zero = ground arith
get_elem?-downs f g zero (suc k) = ground arith
get_elem?-downs f g (suc n) zero = ground arith
get_elem?-downs f g (suc n) (suc k) = ground (arith, get_elem?-downs f g n k)

pub get_elem?-ups :
    (f : ℕ → ℕ) (n s k : ℕ)
    → get_elem? (ups f n s) k ≡ (if ltb k n then some (to_service (f (s + k))) else none)
unfolding ups
get_elem?-ups f zero s k = ground arith
get_elem?-ups f (suc n) s zero = ground arith
get_elem?-ups f (suc n) s (suc k) = ground (arith, get_elem?-ups f n (s + 1) k)

pub length-downs : (f : ℕ → ℕ) (g n : ℕ) → length (downs f g n) ≡ suc n
unfolding downs
length-downs f g zero = refl
length-downs f g (suc n) = ap suc (length-downs f g n)

pub length-ups : (f : ℕ → ℕ) (n s : ℕ) → length (ups f n s) ≡ n
unfolding ups
length-ups f zero s = refl
length-ups f (suc n) s = ap suc (length-ups f n (s + 1))
