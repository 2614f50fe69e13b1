-- ===== src/Args/Ports.antt =====
-- The ports that a mask selects.
use nfvnice_source.Args.{Strtoul, Settings, add_port, mask_from, is_empty, parse_portmask}
use nfvnice_source.Prelude.{
  ℕ, zero, suc, ◌+◌, ◌/◌, ◌%◌, ◌^◌, ◌<◌, ◌≡◌, List, [], ◌∷◌, ◌++◌, some, Bool, true, Bool-cases,
  inl, inr, refl, sym, ap, ap₂, ◌∙◌, append-nil, append_assoc, length, ltb, ◌==◌, ==_iff, ◌&&◌, not,
  if◌then◌else◌, arith, pos, negsuc,
}

-- `pm >> i`.
pub shifted : ℕ → ℕ → ℕ
shifted pm zero = pm
shifted pm (suc i) = shifted pm i / 2

-- Bit `i` of the mask is set, for a port that is there.
abbrev pub is_chosen : ℕ → ℕ → ℕ → Bool
is_chosen max_ports pm i = (shifted pm i % 2 == 1) && ltb i max_ports

-- The chosen ports among the `k` from `i` on, in ascending order.
pub chosen : ℕ → ℕ → ℕ → ℕ → List ℕ
chosen max_ports pm i zero = []
chosen max_ports pm i (suc k) =
    let rest = chosen max_ports pm (suc i) k in if is_chosen max_ports pm i then i ∷ rest else rest

add_ports : List ℕ → Settings → Settings
add_ports [] s = s
add_ports (i ∷ is) s = add_ports is (add_port i s)

-- The settings with ports at the end of the array.
abbrev pub with_ports : List ℕ → Settings → Settings
with_ports is s = record s { id = s.id ++ is; num_ports = (s.num_ports + length is) % 256 }

-- `num_ports` is a `uint8_t`.
add_ports-with_ports :
    (is : List ℕ) (s : Settings) → s.num_ports < 256 → add_ports is s ≡ with_ports is s
unfolding add_ports
add_ports-with_ports [] s h =
    ap₂ (λ x n. record s { id = x; num_ports = n }) (sym (append-nil s.id)) (omega arith)
add_ports-with_ports (i ∷ is) s h =
    add_ports-with_ports is (add_port i s) (omega arith)
    ∙ ap₂ (λ x n. record s { id = x; num_ports = n }) (append_assoc s.id (i ∷ []) is) (omega arith)

chosen-zero : (max_ports pm i k : ℕ) → shifted pm i ≡ 0 → chosen max_ports pm i k ≡ []
unfolding chosen shifted
chosen-zero max_ports pm i zero h = refl
chosen-zero max_ports pm i (suc k) h = rw h (chosen-zero max_ports pm (suc i) k (rw h refl))

-- A mask of 0 chooses none.
pub chosen_none : (max_ports pm k : ℕ) → pm ≡ 0 → chosen max_ports pm 0 k ≡ []
unfolding shifted
chosen_none max_ports pm k h = chosen-zero max_ports pm 0 k h

halved : (x k : ℕ) → x < 2 ^ suc k → x / 2 < 2 ^ k
halved x k h = omega arith

-- With a round for each bit and one for the test of 0 the loop adds the chosen ports.
mask_from_lem :
    (max_ports pm k i : ℕ) (s : Settings)
    → shifted pm i < 2 ^ k
    → i + k < 256
    → mask_from (suc k) max_ports (shifted pm i) i s ≡ some (add_ports (chosen max_ports pm i k) s)
unfolding mask_from chosen add_ports shifted
mask_from_lem max_ports pm zero i s h hi = rw zero_left refl
  where
    zero_left : (shifted pm i == 0) ≡ true
    zero_left = ground arith
mask_from_lem max_ports pm (suc k) i s h hi = elim (Bool-cases (shifted pm i == 0)) [
  | inl e ↦ rw (e, chosen-zero max_ports pm i (suc k) ((==_iff (shifted pm i) 0).0 e)) refl
  | inr e ↦
      rw (e, next_count)
        (elim (Bool-cases (is_chosen max_ports pm i)) [
          | inl c ↦ rw c (
              mask_from_lem max_ports pm k (suc i) (add_port i s) (halved (shifted pm i) k h)
                (omega arith))
          | inr c ↦
              rw c
                (mask_from_lem max_ports pm k (suc i) s (halved (shifted pm i) k h) (omega arith))
        ])
]
  where
    next_count : (i + 1) % 256 ≡ suc i
    next_count = omega arith

-- C: the value of `strtoul` is an `unsigned long`.
abbrev pub InRange : Strtoul → Type 0
InRange strtoul = (base : ℕ) (text : List ℕ) → (strtoul base text).0 < 2 ^ 64

module _ (strtoul : Strtoul) (range : InRange strtoul) where
  -- For a number of ports below 256 and a `strtoul` that gives values below 2 ^ 64: a mask of value 0 changes nothing and is accepted, whatever text
  -- follows it; any other value is refused, with nothing changed, when text follows it; otherwise the
  -- ports below `max_ports` whose bit is set are appended to the array in ascending order and their
  -- number is added to that of the ports, modulo 256. The loop ends within its 65 rounds.
  pub parse_portmask_lem :
      (max_ports : ℕ) (text : List ℕ) (s : Settings)
      → s.num_ports < 256
      → parse_portmask strtoul max_ports (some text) s ≡ (
          if (strtoul 16 text).0 == 0
          then some (pos 0, s)
          else if not (is_empty (strtoul 16 text).1)
          then some (negsuc 0, s)
          else some (pos 0, with_ports (chosen max_ports (strtoul 16 text).0 0 64) s))
  unfolding parse_portmask shifted
  parse_portmask_lem max_ports text s small =
      rw (mask_from_lem max_ports (strtoul 16 text).0 64 0 s (range 16 text) (omega arith)) (
        ap
          (λ s'.
            if (strtoul 16 text).0 == 0
            then some (pos 0, s)
            else if not (is_empty (strtoul 16 text).1)
            then some (negsuc 0, s)
            else some (pos 0, s'))
          (add_ports-with_ports (chosen max_ports (strtoul 16 text).0 0 64) s small))
