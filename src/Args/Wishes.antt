-- ===== src/Args/Wishes.antt =====
-- What the options of a command line ask for, and what the settings become.
use nfvnice_source.Args.{Settings}
use nfvnice_source.Prelude.{
  ℕ, ◌+◌, ◌%◌, ◌<◌, ◌≡◌, List, [], ◌∷◌, ◌++◌, append-nil, append_assoc, length, length-append, Bool,
  refl, ap₂, ◌==◌, ◌||◌, not, arith,
}

-- What options ask for: ports, and numbers of clients, of services and of the default service.
pub record Wishes : Type 0 where
  pub ports : List ℕ
  pub clients : List ℕ
  pub services : List ℕ
  pub defaults : List ℕ

abbrev pub no_wishes : Wishes
no_wishes = record { ports = []; clients = []; services = []; defaults = [] }

abbrev pub both : Wishes → Wishes → Wishes
both a b = record {
  ports = a.ports ++ b.ports;
  clients = a.clients ++ b.clients;
  services = a.services ++ b.services;
  defaults = a.defaults ++ b.defaults;
}

-- The last of the numbers, or what was there before.
unfoldable pub last_of : List ℕ → ℕ → ℕ
last_of [] before = before
last_of (x ∷ xs) before = last_of xs x

-- The ports are appended, and of the numbers the last one stays.
abbrev pub granted : Wishes → Settings → Settings
granted v s = record {
  num_ports = (s.num_ports + length v.ports) % 256;
  id = s.id ++ v.ports;
  num_clients = last_of v.clients s.num_clients;
  num_services = last_of v.services s.num_services;
  default_service = last_of v.defaults s.default_service;
  is_static_clients = not (length v.clients == 0) || s.is_static_clients;
}

last_of-append : (xs ys : List ℕ) (d : ℕ) → last_of ys (last_of xs d) ≡ last_of (xs ++ ys) d
unfolding last_of
last_of-append [] ys d = refl
last_of-append (x ∷ xs) ys d = last_of-append xs ys x

or_later :
    (xs ys : List ℕ) (b : Bool)
    → (not (length ys == 0) || (not (length xs == 0) || b)) ≡ (not (length (xs ++ ys) == 0) || b)
or_later xs ys b = ground (arith, length-append xs ys)

pub granted-both : (v u : Wishes) (s : Settings) → granted u (granted v s) ≡ granted (both v u) s
granted-both v u s i = record {
  num_ports = ports i;
  id = append_assoc s.id v.ports u.ports i;
  num_clients = last_of-append v.clients u.clients s.num_clients i;
  num_services = last_of-append v.services u.services s.num_services i;
  default_service = last_of-append v.defaults u.defaults s.default_service i;
  is_static_clients = or_later v.clients u.clients s.is_static_clients i;
}
  where
    ports :
        ((s.num_ports + length v.ports) % 256 + length u.ports) % 256
        ≡ (s.num_ports + length (v.ports ++ u.ports)) % 256
    ports = omega (arith, length-append v.ports u.ports)

-- Wishes for no port.
pub granted_numbers :
    (cs ss ds : List ℕ) (s : Settings)
    → s.num_ports < 256
    → granted (record { ports = []; clients = cs; services = ss; defaults = ds }) s ≡ record s {
      num_clients = last_of cs s.num_clients;
      num_services = last_of ss s.num_services;
      default_service = last_of ds s.default_service;
      is_static_clients = not (length cs == 0) || s.is_static_clients;
    }
granted_numbers cs ss ds s h =
    ap₂
      (λ x n. record {
        num_ports = n;
        id = x;
        num_clients = last_of cs s.num_clients;
        num_services = last_of ss s.num_services;
        default_service = last_of ds s.default_service;
        is_static_clients = not (length cs == 0) || s.is_static_clients;
      })
      (append-nil s.id) (omega arith)
