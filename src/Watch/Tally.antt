-- ===== src/Watch/Tally.antt =====
-- The items of a list, each of them once, in the order in which they first occur.
use nfvnice_source.Prelude.{
  ℕ, ◌+◌, ◌≡◌, inl, inr, refl, List, [], ◌∷◌, ◌++◌, Bool, false, ◌||◌, Bool-cases, arith, ◌==◌,
  if◌then◌else◌,
}

-- The chain `c` is in the list, and how often.
unfoldable pub member : ℕ → List ℕ → Bool
member c [] = false
member c (x ∷ xs) = (x == c) || member c xs

unfoldable pub occurrences : ℕ → List ℕ → ℕ
occurrences c [] = 0
occurrences c (x ∷ xs) = (if x == c then 1 else 0) + occurrences c xs

-- Every item once, in the order of the first time that it occurs.
unfoldable pub add_new : List ℕ → ℕ → List ℕ
add_new xs c = if member c xs then xs else xs ++ c ∷ []

unfoldable pub add_all : List ℕ → List ℕ → List ℕ
add_all xs [] = xs
add_all xs (c ∷ cs) = add_all (add_new xs c) cs

abbrev pub Distinct : List ℕ → Type 0
Distinct [] = Unit {0}
Distinct (x ∷ xs) = (member x xs ≡ false) × Distinct xs

pub member-append : (c d : ℕ) (xs : List ℕ) → member c (xs ++ d ∷ []) ≡ ((d == c) || member c xs)
unfolding member
member-append c d [] = ground arith
member-append c d (x ∷ xs) = ground (arith, member-append c d xs)

pub Distinct-append :
    (xs : List ℕ) (c : ℕ) → Distinct xs → member c xs ≡ false → Distinct (xs ++ c ∷ [])
unfolding member
Distinct-append [] c d new = (refl, tt)
Distinct-append (x ∷ xs) c d new =
    (ground (arith, member-append x c xs), Distinct-append xs c d.1 (ground arith))

pub add_new-Distinct : (xs : List ℕ) (c : ℕ) → Distinct xs → Distinct (add_new xs c)
unfolding add_new
add_new-Distinct xs c d = elim (Bool-cases (member c xs)) [
  | inl old ↦ rw old d
  | inr new ↦ rw new (Distinct-append xs c d new)
]

pub add_all-Distinct : (xs cs : List ℕ) → Distinct xs → Distinct (add_all xs cs)
unfolding add_all
add_all-Distinct xs [] d = d
add_all-Distinct xs (c ∷ cs) d = add_all-Distinct (add_new xs c) cs (add_new-Distinct xs c d)

pub member-add_new : (xs : List ℕ) (c e : ℕ) → member e (add_new xs c) ≡ ((c == e) || member e xs)
unfolding add_new
member-add_new xs c e = elim (Bool-cases (member c xs)) [
  | inl old ↦ rw old (grind arith)
  | inr new ↦ rw new (member-append e c xs)
]

pub member-add_all :
    (xs cs : List ℕ) (e : ℕ) → member e (add_all xs cs) ≡ (member e xs || member e cs)
unfolding add_all member
member-add_all xs [] e = ground arith
member-add_all xs (c ∷ cs) e =
    ground (arith, member-add_all (add_new xs c) cs e, member-add_new xs c e)
