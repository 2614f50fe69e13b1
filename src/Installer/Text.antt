-- ===== src/Installer/Text.antt =====
-- Reading back a file of services that was written as such files are.
use nfvnice_source.Installer.Lines.{
  All, Reads, text, body, text-body, body-All, stored_of, line, parse_chars-text,
}
use nfvnice_source.Installer.Parse.{
  no_line, newline, parse_chars, Fgets, with_line, parse_from, parse_services,
}
use nfvnice_source.Prelude.{
  ℕ, ◌+◌, ◌≤◌, ◌<◌, ◌≡◌, ◌≢◌, refl, sym, ap, ◌∙◌, List, [], ◌∷◌, ◌++◌, append-nil, append_assoc,
  Option, none, some, Bool, true, false, zero, suc, length, length-append, arith, leb, ◌==◌,
  if◌then◌else◌, ℤ,
}

-- The documentation of `fgets`: it reads up to and with the end of a line, or, where the line has more
-- characters, one less than the size; and it gives NULL at the end of the file.
pub record Documented (fgets : Fgets) : Type 0 where
  pub whole :
      (n : ℕ) (line rest : List ℕ)
      → All (λ c. c ≢ newline) line
      → length line + 2 ≤ n
      → fgets n (line ++ newline ∷ rest) ≡ some (line ++ newline ∷ [], rest)
  pub cut :
      (n : ℕ) (line rest : List ℕ)
      → All (λ c. c ≢ newline) line
      → length line + 1 ≡ n
      → 1 < n
      → fgets n (line ++ rest) ≡ some (line, rest)
  pub ended : (n : ℕ) → fgets n [] ≡ none

-- The file of some lines.
pub file_of : List (List (List ℕ)) → List ℕ
file_of [] = []
file_of (ts ∷ tss) = text ts ++ file_of tss

-- The same for the lines of a file, each of 1 to 12 numbers and, with its end, at most 62 characters.
pub data AllRead (atoi : List ℕ → ℤ) : List (List (List ℕ)) → List (List ℕ) → Type 0 where
  end : AllRead atoi [] []
  and_line :
      {ts : List (List ℕ)} {ns : List ℕ} {tss : List (List (List ℕ))} {nss : List (List ℕ)}
      → Reads atoi ts ns
      → 0 < length ns
      → length ns ≤ 12
      → length (text ts) ≤ 62
      → AllRead atoi tss nss
      → AllRead atoi (ts ∷ tss) (ns ∷ nss)

-- There are no more lines than characters.
length-file_of : (tss : List (List (List ℕ))) → length tss ≤ length (file_of tss)
unfolding file_of
length-file_of [] = omega arith
length-file_of (ts ∷ tss) = omega (
  arith,
  length-file_of tss,
  length-append (text ts) (file_of tss),
  ap length (text-body ts),
  length-append (body ts) (newline ∷ []),
)

length-AllRead :
    {atoi : List ℕ → ℤ} {tss : List (List (List ℕ))} {nss : List (List ℕ)}
    → AllRead atoi tss nss
    → length tss ≡ length nss
length-AllRead end = refl
length-AllRead (and_line reads lt few short rest) = ap suc (length-AllRead rest)

nil_of_length : (xs : List (List ℕ)) → length xs ≡ 0 → [] ≡ xs
nil_of_length [] e = refl
nil_of_length (x ∷ xs) e = absurd (omega arith)

module _ (atoi : List ℕ → ℤ) where
  -- One line of the file.
  with_line-stored :
      (l row : List ℕ) (n : ℕ) (rows : List (List ℕ))
      → stored_of (parse_chars atoi l no_line) ≡ (row, n)
      → 0 < n
      → with_line atoi l rows ≡ rows ++ row ∷ []
  with_line-stored l row n rows e lt =
      ap (λ (x : List ℕ × ℕ). if x.1 == 0 then rows else rows ++ x.0 ∷ []) e
      ∙ ap (λ none_there. if none_there then rows else rows ++ row ∷ []) added_some
    where
      added_some : (n == 0) ≡ false
      added_some = ground arith

  module _ (fgets : Fgets) (doc : Documented fgets) where
    fgets-text :
        {ts : List (List ℕ)} {ns : List ℕ} (rest : List ℕ)
        → Reads atoi ts ns
        → length (text ts) ≤ 62
        → fgets 63 (text ts ++ rest) ≡ some (text ts, rest)
    fgets-text {ts = ts} rest reads short =
        ap (λ x. fgets 63 (x ++ rest)) (text-body ts)
        ∙ ap (fgets 63) (append_assoc (body ts) (newline ∷ []) rest)
        ∙ doc.whole 63 (body ts) rest (body-All reads)
            (omega (arith, ap length (text-body ts), length-append (body ts) (newline ∷ [])))
        ∙ ap (λ x. some (x, rest)) (sym (text-body ts))

    -- What is done with a line.
    abbrev continue : ℕ → List (List ℕ) → Option (List ℕ × List ℕ) → Option (List (List ℕ))
    continue fuel rows none = some rows
    continue fuel rows (some (line, rest)) =
        if leb 32 (length (with_line atoi line rows))
        then some (with_line atoi line rows)
        else parse_from fgets atoi fuel rest (with_line atoi line rows)

    parse_from-file_of :
        {tss : List (List (List ℕ))} {nss : List (List ℕ)} (fuel : ℕ) (rows : List (List ℕ))
        → AllRead atoi tss nss
        → length rows + length nss ≤ 32
        → length nss ≤ fuel
        → parse_from fgets atoi (suc fuel) (file_of tss) rows ≡ some (rows ++ nss)
    unfolding parse_from file_of
    parse_from-file_of fuel rows end h enough =
        ap (continue fuel rows) (doc.ended 63) ∙ ap some (sym (append-nil rows))
    parse_from-file_of zero rows (and_line reads lt few short rest) h enough = absurd (omega arith)
    parse_from-file_of (suc fuel) rows
          (and_line {ts = ts} {ns = ns} {tss = tss} {nss = nss} reads lt few short rest) h enough =
        ap (continue (suc fuel) rows) (fgets-text (file_of tss) reads short)
        ∙ ap with_rows (
            with_line-stored (text ts) ns (0 + length ns) rows
              (parse_chars-text atoi [] 0 reads (omega arith)) (omega arith))
        ∙ by_room (leb 32 (length (rows ++ ns ∷ []))) refl (λ room.
          parse_from-file_of fuel (rows ++ ns ∷ []) rest
            (omega (arith, length-append rows (ns ∷ []))) (omega arith))
      where
        with_rows : List (List ℕ) → Option (List (List ℕ))
        with_rows x =
            if leb 32 (length x) then some x else parse_from fgets atoi (suc fuel) (file_of tss) x

        by_room :
            (full : Bool)
            → leb 32 (length (rows ++ ns ∷ [])) ≡ full
            → (full ≡ false
                → parse_from fgets atoi (suc fuel) (file_of tss) (rows ++ ns ∷ [])
                  ≡ some ((rows ++ ns ∷ []) ++ nss))
            → (if full
                then some (rows ++ ns ∷ [])
                else parse_from fgets atoi (suc fuel) (file_of tss) (rows ++ ns ∷ []))
              ≡ some (rows ++ ns ∷ nss)
        by_room true e later =
            ap (λ x. some (rows ++ ns ∷ x))
              (nil_of_length nss (ground (arith, e, h, length-append rows (ns ∷ []))))
        by_room false e later = later refl ∙ ap some (append_assoc rows (ns ∷ []) nss)

    -- A file of at most 32 lines, each with at least one and at most 12 texts
    -- that `atoi` reads as positive numbers, without commas, ends of line and zero characters in them but
    -- with commas between them, and at most 62 characters with its end, where `fgets` does what its
    -- documentation says: the loop ends, and the rows that are read are the numbers of the lines.
    pub parse_services-file_of :
        {tss : List (List (List ℕ))} {nss : List (List ℕ)}
        → AllRead atoi tss nss
        → length nss ≤ 32
        → parse_services fgets atoi (file_of tss) ≡ some nss
    unfolding parse_services
    parse_services-file_of {tss = tss} {nss = nss} all h =
        ap (λ n. parse_from fgets atoi n (file_of tss) []) one_more
        ∙ parse_from-file_of (length (file_of tss)) [] all (omega arith)
            (omega (arith, length-file_of tss, length-AllRead all))
      where
        one_more : length (file_of tss) + 1 ≡ suc (length (file_of tss))
        one_more = omega arith
