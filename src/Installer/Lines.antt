-- ===== src/Installer/Lines.antt =====
-- One line of a file of services that was written as such files are: reading its characters.
use nfvnice_source.Installer.Parse.{
  Line, comma, newline, close, collect, at_end, parse_chars, store_id,
}
use nfvnice_source.Prelude.{
  ℕ, ◌+◌, ◌≤◌, ◌<◌, ◌≡◌, ◌≢◌, refl, sym, ap, ap₂, ◌∙◌, List, [], ◌∷◌, ◌++◌, append-nil,
  append_assoc, Bool, true, false, not, suc, length, length-append, arith, leb, ◌==◌, if◌then◌else◌,
  ℤ, pos,
}

-- A character of a number.
pub record IsPlain (c : ℕ) : Type 0 where
  pub no_comma : c ≢ comma
  pub no_newline : c ≢ newline
  pub no_zero : c ≢ 0

pub data All (P : ℕ → Type 0) : List ℕ → Type 0 where
  none_left : All P []
  also : {c : ℕ} {cs : List ℕ} → P c → All P cs → All P (c ∷ cs)

-- The texts `ts` are numbers that `atoi` reads as `ns`, all of them positive.
pub data Reads (atoi : List ℕ → ℤ) : List (List ℕ) → List ℕ → Type 0 where
  done : Reads atoi [] []
  more :
      {c n : ℕ} {t : List ℕ} {ts : List (List ℕ)} {ns : List ℕ}
      → All IsPlain (c ∷ t)
      → atoi (c ∷ t) ≡ pos n
      → 0 < n
      → Reads atoi ts ns
      → Reads atoi ((c ∷ t) ∷ ts) (n ∷ ns)

-- A line of a file: numbers with commas between them, and the end of the line.
unfoldable pub text : List (List ℕ) → List ℕ
text [] = newline ∷ []
text (t ∷ []) = t ++ newline ∷ []
text (t ∷ u ∷ ts) = t ++ comma ∷ text (u ∷ ts)

-- A line without its end.
pub body : List (List ℕ) → List ℕ
body [] = []
body (t ∷ []) = t
body (t ∷ u ∷ ts) = t ++ comma ∷ body (u ∷ ts)

pub text-body : (ts : List (List ℕ)) → text ts ≡ body ts ++ newline ∷ []
unfolding text body
text-body [] = refl
text-body (t ∷ []) = refl
text-body (t ∷ u ∷ ts) =
    ap (λ x. t ++ comma ∷ x) (text-body (u ∷ ts))
    ∙ sym (append_assoc t (comma ∷ body (u ∷ ts)) (newline ∷ []))

All-append : {P : ℕ → Type 0} {xs ys : List ℕ} → All P xs → All P ys → All P (xs ++ ys)
All-append none_left qs = qs
All-append (also p ps) qs = also p (All-append ps qs)

one_line : {cs : List ℕ} → All IsPlain cs → All (λ c. c ≢ newline) cs
one_line none_left = none_left
one_line (also p ps) = also p.no_newline (one_line ps)

pub body-All :
    {atoi : List ℕ → ℤ} {ts : List (List ℕ)} {ns : List ℕ}
    → Reads atoi ts ns
    → All (λ c. c ≢ newline) (body ts)
unfolding body
body-All done = none_left
body-All (more ps e l done) = one_line ps
body-All (more ps e l (more qs f k rest)) =
    All-append (one_line ps) (also (λ e. absurd (omega arith)) (body-All (more qs f k rest)))

abbrev pub stored_of : Line → List ℕ × ℕ
stored_of s = (s.ids, s.added)

-- What a line has stored.
abbrev pub line : List ℕ → List ℕ → ℕ → Line
line svc ids added = record { svc = svc; ids = ids; added = added }

module _ (atoi : List ℕ → ℤ) where
  -- One character, while the row is not full.
  step_to :
      (c : ℕ) (cs : List ℕ) (s s1 : Line)
      → collect atoi c (close atoi c s) ≡ s1
      → length s1.ids < 12
      → parse_chars atoi (c ∷ cs) s ≡ parse_chars atoi cs s1
  unfolding parse_chars
  step_to c cs s s1 e h =
      ap (λ (x : Line). if leb 12 (length x.ids) then x else parse_chars atoi cs x) e
      ∙ ap (λ full. if full then s1 else parse_chars atoi cs s1) below
    where
      below : leb 12 (length s1.ids) ≡ false
      below = ground arith

  plain_char :
      (c : ℕ) (s : Line)
      → IsPlain c
      → collect atoi c (close atoi c s) ≡ record s { svc = s.svc ++ c ∷ [] }
  plain_char c s p = ground (arith, p.no_comma, p.no_newline, p.no_zero)

  closing :
      (d n : ℕ) (svc ids : List ℕ) (added : ℕ)
      → atoi (d ∷ svc) ≡ pos n
      → 0 < n
      → (collect atoi comma (close atoi comma (line (d ∷ svc) ids added))
          ≡ line [] (ids ++ n ∷ []) (added + 1))
        × (collect atoi newline (close atoi newline (line (d ∷ svc) ids added))
            ≡ line (newline ∷ []) (ids ++ n ∷ []) (added + 1))
  closing d n svc ids added e h =
      (stored comma [] refl refl, stored newline (newline ∷ []) refl refl)
    where
      is_stored : store_id (atoi (d ∷ svc)) ids ≡ ids ++ n ∷ []
      is_stored = ap (λ z. store_id z ids) e ∙ ground arith

      stored :
          (c : ℕ) (left : List ℕ)
          → at_end c (line (d ∷ svc) ids added) ≡ not (suc (length svc) == 0)
          → collect atoi c (line [] (store_id (atoi (d ∷ svc)) ids) (added + 1))
            ≡ line left (store_id (atoi (d ∷ svc)) ids) (added + 1)
          → collect atoi c (close atoi c (line (d ∷ svc) ids added))
            ≡ line left (ids ++ n ∷ []) (added + 1)
      stored c left ends kept =
          ap
            (λ at. collect atoi c (
              if at
              then line [] (store_id (atoi (d ∷ svc)) ids) (added + 1)
              else line (d ∷ svc) ids added))
            (ends ∙ nonempty)
          ∙ kept
          ∙ ap (λ x. line left x (added + 1)) is_stored
        where
          nonempty : not (suc (length svc) == 0) ≡ true
          nonempty = ground arith

  -- The characters of a number are collected.
  parse_chars-plain :
      (t cs svc ids : List ℕ) (added : ℕ)
      → All IsPlain t
      → length ids < 12
      → parse_chars atoi (t ++ cs) (line svc ids added)
        ≡ parse_chars atoi cs (line (svc ++ t) ids added)
  parse_chars-plain [] cs svc ids added none_left h =
      ap (λ x. parse_chars atoi cs (line x ids added)) (sym (append-nil svc))
  parse_chars-plain (c ∷ t) cs svc ids added (also p ps) h =
      step_to c (t ++ cs) (line svc ids added) (line (svc ++ c ∷ []) ids added)
        (plain_char c (line svc ids added) p) h
      ∙ parse_chars-plain t cs (svc ++ c ∷ []) ids added ps h
      ∙ ap (λ x. parse_chars atoi cs (line x ids added)) (append_assoc svc (c ∷ []) t)

  -- The last character of a line.
  parse_chars-end :
      (c : ℕ) (s : Line) → parse_chars atoi (c ∷ []) s ≡ collect atoi c (close atoi c s)
  unfolding parse_chars
  parse_chars-end c s = by_full (leb 12 (length (collect atoi c (close atoi c s)).ids))
    where
      s1 : Line
      s1 = collect atoi c (close atoi c s)

      by_full : (full : Bool) → (if full then s1 else s1) ≡ s1
      by_full true = refl
      by_full false = refl

  -- A line of numbers, after some that were stored already.
  pub parse_chars-text :
      {ts : List (List ℕ)} {ns : List ℕ} (ids : List ℕ) (added : ℕ)
      → Reads atoi ts ns
      → length ids + length ns ≤ 12
      → stored_of (parse_chars atoi (text ts) (line [] ids added)) ≡ (ids ++ ns, added + length ns)
  unfolding text
  parse_chars-text ids added done h =
      ap stored_of (parse_chars-end newline (line [] ids added))
      ∙ ap₂ (λ x n. (x, n)) (sym (append-nil ids)) (omega arith)
  parse_chars-text ids added (more {c = c} {n = n} {t = t} ps e l done) h = ap stored_of (
      parse_chars-plain (c ∷ t) (newline ∷ []) [] ids added ps (omega arith)
      ∙ parse_chars-end newline (line (c ∷ t) ids added)
      ∙ (closing c n t ids added e l).1)
  parse_chars-text ids added
        (more {c = c} {n = n} {t = t} ps e l
          (more {c = d} {n = m} {t = u} {ts = ts} {ns = ns} qs f k rest))
        h =
      ap stored_of (
        parse_chars-plain (c ∷ t) (comma ∷ text ((d ∷ u) ∷ ts)) [] ids added ps (omega arith)
        ∙ step_to comma (text ((d ∷ u) ∷ ts)) (line (c ∷ t) ids added)
            (line [] (ids ++ n ∷ []) (added + 1)) (closing c n t ids added e l).0
            (omega (arith, length-append ids (n ∷ []))))
      ∙ parse_chars-text (ids ++ n ∷ []) (added + 1) (more qs f k rest)
          (omega (arith, length-append ids (n ∷ [])))
      ∙ ap₂ (λ x n. (x, n)) (append_assoc ids (n ∷ []) (m ∷ ns)) (omega arith)
