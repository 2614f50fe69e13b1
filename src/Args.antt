-- ===== src/Args.antt =====
-- The command line of the manager: onvm/onvm_mgr/onvm_args.c. `getopt_long` is the list of the options
-- that it finds, each with its argument, and `strtoul` is a parameter; a text is its characters.
pub mod Ports
pub mod Wishes
pub mod Options
mod Tests
use nfvnice_source.Prelude.{
  ℕ, zero, suc, ◌+◌, ◌/◌, ◌%◌, ◌^◌, List, [], ◌∷◌, ◌++◌, Option, none, some, Bool, true, false, ltb,
  leb, ◌==◌, ◌&&◌, ◌||◌, not, if◌then◌else◌, ℤ, pos, negsuc,
}

-- What `strtoul` gives for a base and a text: the number and what is left of the text at `*end`.
abbrev pub Strtoul : Type 0
Strtoul = ℕ → List ℕ → ℕ × List ℕ

-- The globals that the options set: `ports`, of which `id` is the part of the array that is in use,
-- `num_clients`, `num_services`, `default_service` and `is_static_clients`.
pub record Settings : Type 0 where
  pub num_ports : ℕ
  pub id : List ℕ
  pub num_clients : ℕ
  pub num_services : ℕ
  pub default_service : ℕ
  pub is_static_clients : Bool

abbrev pub add_port : ℕ → Settings → Settings
add_port count s = record s { id = s.id ++ count ∷ []; num_ports = (s.num_ports + 1) % 256 }

-- The loop of `parse_portmask` over the bits of the mask, on fuel; `none` means that it ran out.
pub mask_from : ℕ → ℕ → ℕ → ℕ → Settings → Option Settings
mask_from zero max_ports pm count s = none
mask_from (suc fuel) max_ports pm count s =
    let rest =
      mask_from fuel max_ports (pm / 2) ((count + 1) % 256)
        (if (pm % 2 == 1) && ltb count max_ports then add_port count s else s) in
    if pm == 0 then some s else rest

abbrev pub is_empty : List ℕ → Bool
is_empty [] = true
is_empty (c ∷ cs) = false

-- An `unsigned long` has 64 bits, so that 65 rounds are enough.
abbrev pub mask_fuel : ℕ
mask_fuel = 65

-- The test that the other three parsers share.
abbrev pub is_bad : ℕ × List ℕ → Bool
is_bad (temp, end) = not (is_empty end) || (temp == 0)

-- The options that `getopt_long` knows, with their arguments, and any other.
pub data Opt : Type 0 where
  portmask num_clients num_services default_service : List ℕ → Opt
  unknown : ℕ → Opt

module _ (strtoul : Strtoul) where
  -- `parse_portmask`, with its `int` result and the settings; the text is NULL for `none`.
  pub parse_portmask : ℕ → Option (List ℕ) → Settings → Option (ℤ × Settings)
  unfolding mask_from
  parse_portmask max_ports none s = some (negsuc 0, s)
  parse_portmask max_ports (some text) s =
      let (pm, end) = strtoul 16 text in
      if pm == 0
      then some (pos 0, s)
      else if not (is_empty end)
      then some (negsuc 0, s)
      else elim (mask_from mask_fuel max_ports pm 0 s) [ none ↦ none | some s' ↦ some (pos 0, s') ]

  pub parse_default_service : List ℕ → Settings → ℤ × Settings
  parse_default_service text s =
      let r = strtoul 10 text in
      if is_bad r then (negsuc 0, s) else (pos 0, record s { default_service = r.0 % 2 ^ 16 })

  pub parse_num_services : List ℕ → Settings → ℤ × Settings
  parse_num_services text s =
      let r = strtoul 10 text in
      if is_bad r then (negsuc 0, s) else (pos 0, record s { num_services = r.0 % 2 ^ 16 })

  -- `parse_num_clients`; no text and an empty one mean dynamic numbers.
  pub parse_num_clients : Option (List ℕ) → Settings → ℤ × Settings
  parse_num_clients none s = (pos 0, s)
  parse_num_clients (some text) s =
      let r = strtoul 10 text in
      if is_empty text
      then (pos 0, s)
      else if is_bad r
      then (negsuc 0, s)
      else (pos 0, record s { num_clients = r.0 % 2 ^ 16; is_static_clients = true })

  -- What one option does; the first component says whether its parser returned 0.
  pub apply : ℕ → Opt → Settings → Option (ℤ × Settings)
  unfolding parse_portmask parse_num_clients parse_num_services parse_default_service
  apply max_ports (Opt.portmask text) s = parse_portmask max_ports (some text) s
  apply max_ports (Opt.num_clients text) s = some (parse_num_clients (some text) s)
  apply max_ports (Opt.num_services text) s = some (parse_num_services text s)
  apply max_ports (Opt.default_service text) s = some (parse_default_service text s)
  apply max_ports (Opt.unknown opt) s = some (negsuc 0, s)

  -- The loop of `parse_app_args` and what follows it.
  pub parse_options : ℕ → List Opt → Settings → Option (ℤ × Settings)
  parse_options max_ports [] s =
      some (if s.is_static_clients && (s.num_clients == 0) then (negsuc 0, s) else (pos 0, s))
  parse_options max_ports (o ∷ os) s = elim (apply max_ports o s) [
    | none ↦ none
    | some (pos n, s') ↦ if n == 0 then parse_options max_ports os s' else some (negsuc 0, s')
    | some (negsuc n, s') ↦ some (negsuc 0, s')
  ]

  -- `parse_app_args`.
  pub parse_app_args : ℕ → List Opt → Settings → Option (ℤ × Settings)
  unfolding parse_options
  parse_app_args max_ports os s =
      parse_options max_ports os (record s { is_static_clients = false })
