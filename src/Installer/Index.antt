-- ===== src/Installer/Index.antt =====
-- Which chain a new flow is given: TCP flows take the even chains in turn, UDP flows the odd ones.
use native.Mathlib.Nat.{mod-add-mod, mod-lt}
use nfvnice_source.FlowDir.{RteHash}
use nfvnice_source.Headers.{Key, swap16, ip_protocol_tcp, ip_protocol_udp}
use nfvnice_source.Installer.{Installer, get_sc_index_based_on_flow_key}
use nfvnice_source.Prelude.Circle.{succ-mod}
use nfvnice_source.Prelude.{
  ℕ, ◌+◌, ◌*◌, ◌/◌, ◌%◌, ◌≤◌, ◌<◌, ◌≡◌, refl, sym, ◌∙◌, List, [], ◌∷◌, Option, none, some, Bool,
  not, arith, leb, ◌==◌, ◌&&◌, if◌then◌else◌,
}

-- The flows that take part in the turns, of a list.
abbrev pub in_tcp_turn : Key → Bool
in_tcp_turn key = key.proto == ip_protocol_tcp && not (swap16 key.dst_port == 6000)

abbrev pub in_udp_turn : Key → Bool
in_udp_turn key = key.proto == ip_protocol_udp

unfoldable pub count_of : (Key → Bool) → List Key → ℕ
count_of f [] = 0
count_of f (k ∷ ks) = (if f k then 1 else 0) + count_of f ks

-- `n` turns in a circle of `h` places.
one_more : (n h : ℕ) → 0 < h → (n + 1) % h ≡ (if n % h + 1 == h then 0 else n % h + 1)
one_more n h lt = sym (mod-add-mod n h 1) ∙ succ-mod h (n % h) (mod-lt n lt) ∙ ground arith

tcp_turn :
    (n max : ℕ)
    → 0 < max
    → (if leb max (2 * (n % ((max + 1) / 2)) + 2) then 0 else 2 * (n % ((max + 1) / 2)) + 2)
      ≡ 2 * ((n + 1) % ((max + 1) / 2))
tcp_turn n max lt = grind (arith, one_more n ((max + 1) / 2))

udp_turn :
    (n max : ℕ)
    → 1 < max
    → (if leb max (1 + 2 * (n % (max / 2)) + 2) then 1 else 1 + 2 * (n % (max / 2)) + 2)
      ≡ 1 + 2 * ((n + 1) % (max / 2))
udp_turn n max lt = grind (arith, one_more n (max / 2))

tcp_below : (n max : ℕ) → 0 < max → 2 * (n % ((max + 1) / 2)) < max
tcp_below n max lt = grind (arith, mod-lt)

udp_below : (n max : ℕ) → 1 < max → 1 + 2 * (n % (max / 2)) < max
udp_below n max lt = grind (arith, mod-lt)

-- The index that the turns give: to port 6000 always the first chain, and to a flow that is neither
-- TCP nor UDP, or UDP with a single chain, none.
abbrev pub turn : ℕ → ℕ → ℕ → Key → Option ℕ
turn m t u key =
    if key.proto == ip_protocol_tcp
    then some (if swap16 key.dst_port == 6000 then 0 else 2 * (t % ((m + 1) / 2)))
    else if key.proto == ip_protocol_udp && not (m == 1)
    then some (1 + 2 * (u % (m / 2)))
    else none

module _ (h : RteHash) where
  -- The state after a list of flows.
  pub after : List Key → Installer h → Installer h
  after [] s = s
  after (k ∷ ks) s = after ks (get_sc_index_based_on_flow_key h k s).1

  -- The turns that the static variables stand for, with `m` chains.
  record InTurn (m t u : ℕ) (s : Installer h) : Type 0 where
    chains : s.max_service_chains ≡ m
    tcp : s.tcp_inx ≡ 2 * (t % ((m + 1) / 2))
    udp : 1 < m → s.udp_inx ≡ 1 + 2 * (u % (m / 2))
    udp_one : m ≡ 1 → s.udp_inx ≡ 1

  InTurn-eq :
      {m t t' u u' : ℕ} {s : Installer h} → t ≡ t' → u ≡ u' → InTurn m t u s → InTurn m t' u' s
  InTurn-eq e f v = record {
    chains = v.chains;
    tcp = rw (sym e) v.tcp;
    udp = rw (sym f) v.udp;
    udp_one = v.udp_one;
  }

  module _ (m : ℕ) (there : 0 < m) (few : m ≤ 32) where
    index-InTurn :
        (key : Key) (t u : ℕ) (s : Installer h)
        → InTurn m t u s
        → InTurn m
            (t + (if in_tcp_turn key then 1 else 0))
            (u + (if in_udp_turn key then 1 else 0))
            (get_sc_index_based_on_flow_key h key s).1
    unfolding get_sc_index_based_on_flow_key
    index-InTurn key t u s v = record {
      chains = ground (arith, v.chains);
      tcp = ground (arith, there, few, v.chains, v.tcp, tcp_turn t m there);
      udp = λ many. ground (arith, few, v.chains, v.udp, udp_turn u m many);
      udp_one = λ single. ground (arith, v.chains, v.udp_one);
    }

    after-InTurn :
        (ks : List Key) (t u : ℕ) (s : Installer h)
        → InTurn m t u s
        → InTurn m (t + count_of in_tcp_turn ks) (u + count_of in_udp_turn ks) (after ks s)
    unfolding after count_of
    after-InTurn [] t u s v = InTurn-eq (omega arith) (omega arith) v
    after-InTurn (k ∷ ks) t u s v = InTurn-eq (omega arith) (omega arith) (
        after-InTurn ks (t + (if in_tcp_turn k then 1 else 0))
          (u + (if in_udp_turn k then 1 else 0)) (get_sc_index_based_on_flow_key h k s).1
          (index-InTurn k t u s v))

  at_turn :
      (m t u : ℕ) (key : Key) (s : Installer h)
      → 0 < m
      → m ≤ 32
      → InTurn m t u s
      → (get_sc_index_based_on_flow_key h key s).0 ≡ turn m t u key
  unfolding get_sc_index_based_on_flow_key
  at_turn m t u key s there few v =
      ground (arith, v.chains, v.tcp, v.udp, v.udp_one, tcp_below t m there, udp_below u m)

  -- At least one and at most 32 chains are configured, and the static variables are as at the start. After
  -- flows `ks` have been given their chains, the next flow is given the chain of its turn: the TCP flows
  -- take the chains 0, 2, 4, … in a circle, the UDP flows the chains 1, 3, 5, …
  pub get_sc_index_lem :
      (ks : List Key) (key : Key) (s : Installer h)
      → 0 < s.max_service_chains
      → s.max_service_chains ≤ 32
      → s.tcp_inx ≡ 0
      → s.udp_inx ≡ 1
      → (get_sc_index_based_on_flow_key h key (after ks s)).0
        ≡ turn s.max_service_chains (count_of in_tcp_turn ks) (count_of in_udp_turn ks) key
  get_sc_index_lem ks key s there few tcp udp =
      let m = s.max_service_chains in
      at_turn m (count_of in_tcp_turn ks) (count_of in_udp_turn ks) key (after ks s) there few
        (InTurn-eq (omega arith) (omega arith) (after-InTurn m there few ks 0 0 s start))
    where
      start : InTurn s.max_service_chains 0 0 s
      start = record {
        chains = refl;
        tcp = grind arith;
        udp = λ many. grind arith;
        udp_one = λ single. udp;
      }
