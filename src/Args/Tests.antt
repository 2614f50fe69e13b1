-- ===== src/Args/Tests.antt =====
-- A `strtoul` for digits and small letters, and command lines.
use nfvnice_source.Args.{Strtoul, Settings, parse_portmask, parse_num_services, Opt, parse_app_args}
use nfvnice_source.Args.Ports.{InRange, with_ports, chosen, parse_portmask_lem}
use nfvnice_source.Args.Options.{all_accepted, final, verdict, lacks_clients, parse_app_args_lem}
use nfvnice_source.Prelude.{
  ℕ, ◌+◌, ◌-◌, ◌*◌, ◌^◌, ◌<◌, ◌≡◌, refl, List, [], ◌∷◌, some, false, ltb, leb, ◌&&◌, not,
  if◌then◌else◌, arith, pos,
}

-- The value of a character as a digit; 99 for none.
abbrev digit : ℕ → ℕ
digit c = if leb 48 c && leb c 57 then c - 48 else if leb 97 c && leb c 122 then c - 87 else 99

abbrev scan : ℕ → ℕ → List ℕ → ℕ × List ℕ
scan base acc [] = (acc, [])
scan base acc (c ∷ cs) =
    let rest = scan base (acc * base + digit c) cs in
    if ltb (digit c) base then rest else (acc, c ∷ cs)

abbrev clip : ℕ → ℕ
clip n = if ltb n (2 ^ 64) then n else 2 ^ 64 - 1

abbrev strtoul : Strtoul
strtoul base text = let r = scan base 0 text in (clip r.0, r.1)

clip-lt : (n : ℕ) → clip n < 2 ^ 64
clip-lt n = ground arith

strtoul-InRange : InRange strtoul
strtoul-InRange base text = clip-lt (scan base 0 text).0

abbrev defaults : Settings
defaults = record {
  num_ports = 0;
  id = [];
  num_clients = 0;
  num_services = 16;
  default_service = 1;
  is_static_clients = false;
}

-- Mask "b" for three ports: the ports 0 and 1, since the fourth is not there.
mask_b :
    parse_portmask strtoul 3 (some (98 ∷ [])) defaults
    ≡ some (pos 0, record defaults { id = 0 ∷ 1 ∷ []; num_ports = 2 })
unfolding parse_portmask
mask_b = refl

-- Text without a digit is accepted as a mask: its value 0 is answered before the rest is looked at.
mask_of_text : parse_portmask strtoul 3 (some (120 ∷ 121 ∷ [])) defaults ≡ some (pos 0, defaults)
unfolding parse_portmask
mask_of_text = refl

-- "65536" services are none.
services_65536 :
    parse_num_services strtoul (54 ∷ 53 ∷ 53 ∷ 51 ∷ 54 ∷ []) defaults
    ≡ (pos 0, record defaults { num_services = 0 })
unfolding parse_num_services
services_65536 = refl

parse_portmask_lem_example :
    parse_portmask strtoul 3 (some (98 ∷ [])) defaults
    ≡ some (pos 0, with_ports (chosen 3 11 0 64) defaults)
parse_portmask_lem_example =
    parse_portmask_lem strtoul strtoul-InRange 3 (98 ∷ []) defaults (omega arith)

-- `-p b -n 65536`.
abbrev line : List Opt
line = Opt.portmask (98 ∷ []) ∷ Opt.num_clients (54 ∷ 53 ∷ 53 ∷ 51 ∷ 54 ∷ []) ∷ []

parse_app_args_lem_example :
    let s' = final strtoul 3 line defaults in
    parse_app_args strtoul 3 line defaults
    ≡ some (verdict (all_accepted strtoul line && not (lacks_clients s')), s')
parse_app_args_lem_example =
    parse_app_args_lem strtoul strtoul-InRange 3 line defaults (omega arith)
