-- ===== src/Installer/Parse.antt =====
-- The file of services, `parse_services` of examples/flow_rule_installer/flow_rule_installer.c: each line
-- is a list of numbers with commas between them. Characters are their codes. `fgets` and `atoi` are
-- parameters; the file that is read is there, and reading it does not fail.
use nfvnice_source.Chain.{max_chain_length}
use nfvnice_source.Prelude.{
  ℕ, zero, suc, Option, none, some, ◌+◌, List, [], ◌∷◌, ◌++◌, Bool, not, length, leb, ◌==◌, ◌&&◌,
  ◌||◌, if◌then◌else◌, ℤ, pos, negsuc,
}

-- `MAX_SERVICE_CHAINS`, and the characters that are looked for.
abbrev pub max_service_chains : ℕ
max_service_chains = 32

abbrev pub comma : ℕ
comma = 44

abbrev pub newline : ℕ
newline = 10

-- The variables of the loop over a line: `svc`, the services that were stored in the row, and `added`.
pub record Line : Type 0 where
  pub svc : List ℕ
  pub ids : List ℕ
  pub added : ℕ

abbrev pub no_line : Line
no_line = record { svc = []; ids = []; added = 0 }

-- `if (svc_id > 0) services[max_service_chains][svc_index++] = svc_id`.
abbrev pub store_id : ℤ → List ℕ → List ℕ
store_id (pos n) ids = if n == 0 then ids else ids ++ n ∷ []
store_id (negsuc n) ids = ids

abbrev pub at_end : ℕ → Line → Bool
at_end c s = (c == comma || (c == 0 || c == newline)) && not (length s.svc == 0)

-- `atoi` is given the text up to the terminating zero.
module _ (atoi : List ℕ → ℤ) where
  abbrev pub close : ℕ → Line → Line
  close c s =
      if at_end c s
      then record { svc = []; ids = store_id (atoi s.svc) s.ids; added = s.added + 1 }
      else s

  abbrev pub collect : ℕ → Line → Line
  collect c s = if not (c == 0) && not (c == comma) then record s { svc = s.svc ++ c ∷ [] } else s

  -- The loop over the characters, which a full row ends.
  unfoldable pub parse_chars : List ℕ → Line → Line
  parse_chars [] s = s
  parse_chars (c ∷ cs) s =
      let s1 = collect c (close c s) in
      let rest = parse_chars cs s1 in if leb max_chain_length (length s1.ids) then s1 else rest

  -- What a line adds to the rows.
  abbrev pub with_line : List ℕ → List (List ℕ) → List (List ℕ)
  with_line line rows =
      let s = parse_chars line no_line in if s.added == 0 then rows else rows ++ s.ids ∷ []

-- What `fgets` gives for a size and what is left of the file: the characters that it reads, and what is
-- left then; `none` is NULL, at the end of the file.
abbrev pub Fgets : Type 0
Fgets = ℕ → List ℕ → Option (List ℕ × List ℕ)

module _ (fgets : Fgets) (atoi : List ℕ → ℤ) where
  -- The loop over what `fgets(line, 63, fp)` gives, on fuel, with the rows so far; `none` means that it ran
  -- out. The 32nd row ends it.
  unfoldable pub parse_from : ℕ → List ℕ → List (List ℕ) → Option (List (List ℕ))
  parse_from zero file rows = none
  parse_from (suc fuel) file rows = elim (fgets 63 file) [
    | none ↦ some rows
    | some (line, rest) ↦
        if leb max_service_chains (length (with_line atoi line rows))
        then some (with_line atoi line rows)
        else parse_from fuel rest (with_line atoi line rows)
  ]

  -- `parse_services`: the rows of `services`. Every call of `fgets` but the last takes a character.
  unfoldable pub parse_services : List ℕ → Option (List (List ℕ))
  unfolding parse_from
  parse_services file = parse_from (length file + 1) file []
