-- ===== src/Installer/FileTests.antt =====
-- A file of services, read with an `fgets` and an `atoi` of its own.
use nfvnice_source.Installer.Parse.{Fgets, newline, parse_chars, parse_services, no_line}
use nfvnice_source.Installer.Lines.{All, none_left, also, IsPlain, done, more, text}
use nfvnice_source.Installer.Text.{
  Documented, AllRead, end, and_line, file_of, parse_services-file_of,
}
use nfvnice_source.Prelude.{
  ℕ, zero, suc, ◌-◌, ◌≤◌, ◌<◌, ◌≡◌, ◌≢◌, refl, ap, ◌∙◌, List, [], ◌∷◌, ◌++◌, length, length-append,
  replicate, none, some, false, arith, ◌==◌, if◌then◌else◌, ℤ, pos,
}

-- At most `n` characters, up to and with the end of the line; and what is left.
abbrev read : ℕ → List ℕ → List ℕ × List ℕ
read zero cs = ([], cs)
read (suc n) [] = ([], [])
read (suc n) (c ∷ cs) =
    let (line, rest) = read n cs in if c == newline then (c ∷ [], cs) else (c ∷ line, rest)

abbrev fgets : Fgets
fgets n [] = none
fgets n (c ∷ cs) = some (read (n - 1) (c ∷ cs))

read-on :
    (c n : ℕ) (cs : List ℕ)
    → c ≢ newline
    → read (suc n) (c ∷ cs) ≡ (c ∷ (read n cs).0, (read n cs).1)
read-on c n cs h = rw (goes_on) refl
  where
    goes_on : (c == newline) ≡ false
    goes_on = ground (arith, h)

read-whole :
    (n : ℕ) (line rest : List ℕ)
    → All (λ c. c ≢ newline) line
    → length line < n
    → read n (line ++ newline ∷ rest) ≡ (line ++ newline ∷ [], rest)
read-whole zero line rest all h = absurd (omega arith)
read-whole (suc n) [] rest all h = refl
read-whole (suc n) (c ∷ cs) rest (also p ps) h =
    read-on c n (cs ++ newline ∷ rest) p
    ∙ ap (λ (x : List ℕ × List ℕ). (c ∷ x.0, x.1)) (read-whole n cs rest ps (omega arith))

read-cut :
    (n : ℕ) (line rest : List ℕ)
    → All (λ c. c ≢ newline) line
    → length line ≡ n
    → read n (line ++ rest) ≡ (line, rest)
read-cut zero [] rest all h = refl
read-cut zero (c ∷ cs) rest all h = absurd (omega arith)
read-cut (suc n) [] rest all h = absurd (omega arith)
read-cut (suc n) (c ∷ cs) rest (also p ps) h =
    read-on c n (cs ++ rest) p
    ∙ ap (λ (x : List ℕ × List ℕ). (c ∷ x.0, x.1)) (read-cut n cs rest ps (omega arith))

fgets-read : (n : ℕ) (cs : List ℕ) → 0 < length cs → fgets n cs ≡ some (read (n - 1) cs)
fgets-read n [] h = absurd (omega arith)
fgets-read n (c ∷ cs) h = refl

fgets-Documented : Documented fgets
fgets-Documented = record {
  whole = λ n line rest all h.
      fgets-read n (line ++ newline ∷ rest) (omega (arith, length-append line (newline ∷ rest)))
      ∙ ap some (read-whole (n - 1) line rest all (omega (arith, h)));
  cut = λ n line rest all h more.
      fgets-read n (line ++ rest) (omega (arith, length-append line rest))
      ∙ ap some (read-cut (n - 1) line rest all (omega (arith, h)));
  ended = λ n. refl;
}

-- One digit, read as the number that it stands for.
abbrev digit : List ℕ → ℤ
digit [] = pos 0
digit (c ∷ cs) = pos (c - 48)

-- "5,6" and "7".
abbrev file : List (List (List ℕ))
file = ((53 ∷ []) ∷ (54 ∷ []) ∷ []) ∷ ((55 ∷ []) ∷ []) ∷ []

is_plain : (c : ℕ) → 48 ≤ c → IsPlain c
is_plain c h = record {
  no_comma = λ e. omega (arith, e);
  no_newline = λ e. omega (arith, e);
  no_zero = λ e. omega (arith, e);
}

one_digit : (c : ℕ) → 48 ≤ c → All IsPlain (c ∷ [])
one_digit c h = also (is_plain c h) none_left

file_reads : AllRead digit file ((5 ∷ 6 ∷ []) ∷ (7 ∷ []) ∷ [])
unfolding text
file_reads =
    and_line
      (more (one_digit 53 (omega arith)) refl (omega arith)
        (more (one_digit 54 (omega arith)) refl (omega arith) done))
      (omega arith) (omega arith) (omega arith)
      (and_line (more (one_digit 55 (omega arith)) refl (omega arith) done) (omega arith)
        (omega arith) (omega arith) end)

parse_services-file_of_example :
    parse_services fgets digit (file_of file) ≡ some ((5 ∷ 6 ∷ []) ∷ (7 ∷ []) ∷ [])
parse_services-file_of_example =
    parse_services-file_of digit fgets fgets-Documented file_reads (omega arith)

-- Without an end of line the last number is left out.
no_newline_at_end : (parse_chars digit (53 ∷ 44 ∷ 54 ∷ []) no_line).ids ≡ 5 ∷ []
unfolding parse_chars
no_newline_at_end = refl

-- A line of more than 62 characters gives two rows: 5 in front of 61 commas, and 6.
long_line :
    parse_services fgets digit (53 ∷ 44 ∷ (replicate 60 44 ++ (54 ∷ newline ∷ [])))
    ≡ some ((5 ∷ []) ∷ (6 ∷ []) ∷ [])
unfolding parse_services parse_chars
long_line = refl
