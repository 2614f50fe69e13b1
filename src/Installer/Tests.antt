-- ===== src/Installer/Tests.antt =====
-- The installer on three chains: 5 and 6; 7, 8 and 9; and 4.
use nfvnice_source.Action
use nfvnice_source.Chain.Steps.{step_or_drop}
use nfvnice_source.FlowDir.{
  RteHash, Director, onvm_flow_dir_get_key, onvm_flow_dir_add_key, onvm_ft_add_key,
  onvm_ft_lookup_key,
}
use nfvnice_source.FlowDir.Lookup.{Documented}
use nfvnice_source.FlowDir.Sample.{
  same_key, with_key, with_key_self, with_key_other, flow, flow-IsKey,
}
use nfvnice_source.Headers.{Key}
use nfvnice_source.Headers.Frame.{frame, onvm_ft_fill_key-frame}
use nfvnice_source.Installer.{
  Installer, flipped, get_sc_index_based_on_flow_key, fill_entry,
  get_sc_and_index_based_on_flow_key, install, setup_schain_and_flow_entry_for_flip_key,
}
use nfvnice_source.Installer.Fill.{entries_of}
use nfvnice_source.Installer.Flip.{Row, to_service}
use nfvnice_source.Installer.Index.{after, count_of, turn, get_sc_index_lem}
use nfvnice_source.Installer.Install.{NewFlow, setup_rule_for_packet_lem}
use nfvnice_source.Installer.Made.{told, made, setup_service_chain_lem, setup_service_chain_overrun}
use nfvnice_source.Installer.Rules.{
  setup_rule_for_packet, setup_rule_for_flow, setup_flow_rule_and_sc_entries,
  add_flow_key_to_sc_flow_table,
}
use nfvnice_source.Installer.Rows.{populate}
use nfvnice_source.Mgr.{Packet, no_entry}
use nfvnice_source.Mgr.Sample
use nfvnice_source.Prelude.{
  ℕ, ◌+◌, ◌-◌, ◌≡◌, refl, ap, ◌∙◌, [], ◌∷◌, Option, none, some, true, false, length, arith, ltb,
  ◌==◌, if◌then◌else◌, ℤ, pos, negsuc,
}

-- A table that gives its places in turn.
abbrev hash : RteHash
hash = record {
  Table = (Key → ℤ) × ℕ;
  add_key_with_hash = λ t k s. (pos t.1, (with_key t.0 k (pos t.1), t.1 + 1));
  lookup_with_hash = λ t k s. t.0 k;
  del_key_with_hash = λ t k s. (t.0 k, (with_key t.0 k (negsuc 1), t.1));
  del_key = λ t k. (t.0 k, (with_key t.0 k (negsuc 1), t.1));
  softrss_be = λ a b c e. 5;
}

hash-Documented : Documented hash
hash-Documented = record {
  added = λ t k s i e. with_key_self t.0 k (pos t.1) ∙ e;
  added_other = λ t k k' s s' ne. with_key_other t.0 k k' (pos t.1) ne;
  deleted = λ t k s i e. (e, with_key_self t.0 k (negsuc 1));
  deleted_other = λ t k k' s s' ne. with_key_other t.0 k k' (negsuc 1) ne;
}

abbrev packet : Packet
packet = record (Sample.packet 9 1) { bytes = frame flow 64 []; rss = 5 }

abbrev calloc : ℕ → Option ℕ
calloc n = some (100 + n)

abbrev start : Installer hash
start = record {
  director = record {
    world = record Sample.world { entries = λ e. no_entry };
    table = (λ k. negsuc 1, 0);
    keys = λ k. flow;
    freed = [];
  };
  max_service_chains = 3;
  tcp_inx = 0;
  udp_inx = 1;
  sc = λ i. 10 + i;
  sc_flip = λ i. 20 + i;
  ref_count_for_sc = λ i. 0;
  ref_count_for_sc_flip = λ i. 0;
  instance_id = 4;
  calls = 0;
}

new_flow : NewFlow hash calloc packet flow 100 101 0 1 start
new_flow = record {
  hashed = refl;
  key_of = onvm_ft_fill_key-frame flow 64 [] flow-IsKey;
  tcp_or_udp = refl;
  two_ways = λ e. omega (arith, ap (λ (k : Key). k.src_addr) e);
  memory = refl;
  memory_flip = refl;
  unknown = refl;
  unknown_flip = refl;
  stored = refl;
  stored_flip = refl;
  apart = λ e. omega (arith, e);
}

first_udp : (get_sc_index_based_on_flow_key hash flow start).0 ≡ some 1
unfolding get_sc_index_based_on_flow_key
first_udp = refl

setup_rule_for_packet_lem_example :
    (p' : Packet) × (s' : Installer hash) × (setup_rule_for_packet hash calloc packet start
      ≡ some (pos 0, p', s'))
    × (p'.meta.action ≡ Action.next)
    × (onvm_flow_dir_get_key hash s'.director flow ≡ (pos 0, some 0))
    × (onvm_flow_dir_get_key hash s'.director (flipped hash flow) ≡ (pos 1, some 1))
    × ((entries_of hash s' 0).sc ≡ some 11)
    × ((entries_of hash s' 1).sc ≡ some 21)
setup_rule_for_packet_lem_example =
    setup_rule_for_packet_lem hash calloc hash-Documented packet flow 100 101 0 1 1 start new_flow
      first_udp

-- With a single chain the first UDP packet ends the process.
single : setup_rule_for_packet hash calloc packet (record start { max_service_chains = 1 }) ≡ none
unfolding setup_rule_for_packet setup_rule_for_flow fill_entry get_sc_and_index_based_on_flow_key
    get_sc_index_based_on_flow_key onvm_flow_dir_get_key
    nfvnice_source.FlowDir.onvm_flow_dir_add_key nfvnice_source.FlowDir.onvm_ft_add_key
    nfvnice_source.FlowDir.onvm_ft_lookup_key
single = rw (onvm_ft_fill_key-frame flow 64 [] flow-IsKey) refl

abbrev tcp_flow : Key
tcp_flow = record flow { proto = 6 }

get_sc_index_lem_example :
    (get_sc_index_based_on_flow_key hash tcp_flow
      (after hash (tcp_flow ∷ flow ∷ tcp_flow ∷ []) start)).0
    ≡ turn 3 2 1 tcp_flow
unfolding count_of
get_sc_index_lem_example =
    get_sc_index_lem hash (tcp_flow ∷ flow ∷ tcp_flow ∷ []) tcp_flow start (omega arith)
      (omega arith) refl refl

-- The rows as they lie in memory: the services, and -1 where there is none.
abbrev services_of_first : ℕ → ℕ
services_of_first j = if j == 0 then 5 else 6

abbrev memory : ℕ → ℤ
memory n = if ltb n 2 then pos (services_of_first n) else negsuc 0

one_service_and_an_end : Row memory 0 2 services_of_first
one_service_and_an_end = record {
  filled = λ j h. ground (arith, h);
  ended = λ j h k. ground (arith, h);
  is_service = λ j. ground arith;
  fits = λ j. ground arith;
}

setup_service_chain_lem_example :
    (told (made memory 1 0 0 false) 1
      ≡ step_or_drop (if ltb 1 2 then some (to_service (services_of_first 1)) else none))
    × (told (made memory 1 0 0 true) 1
        ≡ step_or_drop (
            if ltb 1 (2 - 1)
            then some (to_service (services_of_first (2 - 2 - 1)))
            else if 1 == 2 - 1
            then some (to_service (services_of_first (2 - 1)))
            else none))
setup_service_chain_lem_example =
    setup_service_chain_lem memory 1 0 2 0 services_of_first one_service_and_an_end (omega arith)
      (omega arith) 1 (omega arith)

-- Two full rows behind each other.
abbrev full : ℕ → ℤ
full n = pos (n + 1)

thirteen_services : Row full 0 13 (λ j. if ltb j 13 then j + 1 else 1)
thirteen_services = record {
  filled = λ j h. ground (arith, h);
  ended = λ j h k. absurd (omega (arith, h, k));
  is_service = λ j. ground arith;
  fits = λ j. ground arith;
}

setup_service_chain_overrun_example :
    ((made full 2 0 0 true).chain_length ≡ 13) × (length (made full 2 0 0 true).sc ≡ 13)
setup_service_chain_overrun_example =
    setup_service_chain_overrun full 2 0 0 (λ j. if ltb j 13 then j + 1 else 1) thirteen_services
      (omega arith)

-- A rule of the file is installed in both directions, and a second time it is refused.
abbrev places_taken : Option (ℤ × Installer hash) → ℕ
places_taken none = 0
places_taken (some (ret, s)) = s.director.table.1

rules_of_file :
    places_taken (setup_flow_rule_and_sc_entries hash calloc (flow ∷ flow ∷ []) (pos 0) start) ≡ 2
unfolding setup_flow_rule_and_sc_entries add_flow_key_to_sc_flow_table
    setup_schain_and_flow_entry_for_flip_key install fill_entry get_sc_and_index_based_on_flow_key
    get_sc_index_based_on_flow_key onvm_flow_dir_get_key onvm_flow_dir_add_key onvm_ft_add_key
    onvm_ft_lookup_key same_key
rules_of_file = refl

-- One row, one pair of chains.
first_chains : length (populate memory 1 0 1 0) ≡ 1
unfolding populate
first_chains = refl
