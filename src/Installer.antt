-- ===== src/Installer.antt =====
-- The NF that installs flow rules, examples/flow_rule_installer/flow_rule_installer.c: a packet of an
-- unknown flow gets one of the configured service chains, and the flow in the other direction the flipped
-- one. Its chains are in Installer/Rows, and the file of services in Installer/Parse.
pub mod Rows
pub mod Flip
pub mod Made
pub mod Parse
pub mod Lines
pub mod Text
pub mod Index
pub mod Rules
pub mod Fill
pub mod Keys
pub mod Install
mod Tests
mod FileTests
use nfvnice_source.Action
use nfvnice_source.FlowDir.{RteHash, Director, swap32, onvm_flow_dir_get_key, onvm_flow_dir_add_key}
use nfvnice_source.FlowDir.Entries.{onvm_flow_dir_reset_entry}
use nfvnice_source.Headers.{Key, swap16, ip_protocol_tcp, ip_protocol_udp, onvm_ft_fill_key}
use nfvnice_source.Mgr.{Packet, FlowEntry, Meta, World}
use nfvnice_source.Prelude.{
  ℕ, ◌+◌, ◌%◌, ◌^◌, List, [], ◌∷◌, Option, none, some, Bool, true, false, update, leb, ◌==◌, ◌||◌,
  if◌then◌else◌, ℤ, pos, negsuc,
}

-- -ENOENT, -ENOMEM, -EEXIST.
abbrev pub no_entry : ℤ
no_entry = negsuc 1

abbrev pub no_memory : ℤ
no_memory = negsuc 11

abbrev pub exists : ℤ
exists = negsuc 16

abbrev pub is_no_entry : ℤ → Bool
is_no_entry (pos n) = false
is_no_entry (negsuc n) = n == 1

module _ (h : RteHash) where
  -- The globals and the static variables; `sc` and `sc_flip` are the pointers of `gSClist`, and `calls`
  -- counts the calls of `rte_calloc`.
  pub record Installer : Type 0 where
    pub director : Director h
    pub max_service_chains : ℕ
    pub tcp_inx : ℕ
    pub udp_inx : ℕ
    pub sc : ℕ → ℕ
    pub sc_flip : ℕ → ℕ
    pub ref_count_for_sc : ℕ → ℕ
    pub ref_count_for_sc_flip : ℕ → ℕ
    pub instance_id : ℕ
    pub calls : ℕ

  -- The cases of `get_sc_index_based_on_flow_key`: the index and the state.
  abbrev pub to_port_6000 : Key → Bool
  to_port_6000 key = swap16 key.dst_port == 6000

  abbrev pub next_tcp : Key → Installer → ℕ
  next_tcp key s =
      let next = if to_port_6000 key then s.tcp_inx else (s.tcp_inx + 2) % 2 ^ 32 in
      if leb s.max_service_chains next then 0 else next

  abbrev pub next_udp : Installer → ℕ
  next_udp s =
      let next = (s.udp_inx + 2) % 2 ^ 32 in if leb s.max_service_chains next then 1 else next

  abbrev pub in_range : ℕ → ℕ → Option ℕ
  in_range index max = if leb max index then none else some index

  -- `get_sc_index_based_on_flow_key`; `none` is -1.
  pub get_sc_index_based_on_flow_key : Key → Installer → Option ℕ × Installer
  get_sc_index_based_on_flow_key key s =
      if s.max_service_chains == 0
      then (none, s)
      else if key.proto == ip_protocol_tcp
      then (
        in_range (if to_port_6000 key then 0 else s.tcp_inx) s.max_service_chains,
        record s { tcp_inx = next_tcp key s },
      )
      else if key.proto == ip_protocol_udp
      then (in_range s.udp_inx s.max_service_chains, record s { udp_inx = next_udp s })
      else (none, s)

  -- `ref_cnt += 1` of a chain.
  abbrev pub refer : ℕ → Director h → Director h
  refer c d = record d {
    world = record d.world {
      chains =
          update d.world.chains c
            (record (d.world.chains c) { ref_cnt = ((d.world.chains c).ref_cnt + 1) % 256 });
    };
  }

  -- The chain at an index, and the counts.
  abbrev pub chain_at : Bool → ℕ → Installer → ℕ × Installer
  chain_at true index s = (
    s.sc_flip index,
    record s {
      ref_count_for_sc_flip =
          update s.ref_count_for_sc_flip index ((s.ref_count_for_sc_flip index + 1) % 2 ^ 32);
      director = refer (s.sc_flip index) s.director;
    },
  )
  chain_at false index s = (
    s.sc index,
    record s {
      ref_count_for_sc = update s.ref_count_for_sc index ((s.ref_count_for_sc index + 1) % 2 ^ 32);
      director = refer (s.sc index) s.director;
    },
  )

  -- `get_sc_and_index_based_on_flow_key`: the chain, if there is one, what is left in `*in_index`, and the
  -- state.
  abbrev pub chosen : Key → Option ℕ → Installer → Option ℕ × Installer
  chosen key (some index) s = (some index, s)
  chosen key none s = get_sc_index_based_on_flow_key key s

  abbrev pub chain_for : Bool → Option ℕ × Installer → Option ℕ × Option ℕ × Installer
  chain_for flip (none, s) = (none, none, s)
  chain_for flip (some index, s) =
      let (c, s') = chain_at flip index s in
      if leb s.max_service_chains index then (none, some index, s) else (some c, some index, s')

  pub get_sc_and_index_based_on_flow_key :
      Key → Option ℕ → Bool → Installer → Option ℕ × Option ℕ × Installer
  get_sc_and_index_based_on_flow_key key in_index flip s = chain_for flip (chosen key in_index s)

  -- `rte_free(fk)`.
  abbrev pub free : ℕ → Installer → Installer
  free fk s = record s { director = record s.director { freed = fk ∷ s.director.freed } }

  -- `flow_entry->sc = c`.
  abbrev pub set_chain : ℕ → Option ℕ → Installer → Installer
  set_chain entry c s = record s {
    director = record s.director {
      world = record s.director.world {
        entries =
            update s.director.world.entries entry
              (record (s.director.world.entries entry) { sc = c });
      };
    };
  }

  -- A new entry: `onvm_flow_dir_reset_entry`, its key, and no chain yet.
  abbrev pub begin_entry : ℕ → ℕ → Key → Installer → Installer
  begin_entry entry fk key s =
      let entries = (onvm_flow_dir_reset_entry entry s.director.world.entries).1 in
      record s {
        director = record s.director {
          world = record s.director.world {
            entries = update entries entry (record (entries entry) { key = some fk; sc = none });
          };
        };
      }

  -- The end of the three functions that install a flow, for a new entry: what `get_sc_and_index` found
  -- becomes its chain. The result is the index; `none` is the end of the process.
  pub fill_entry : Bool → ℕ → ℕ → Key → Option ℕ → Installer → Option (Option ℕ × Installer)
  fill_entry flip entry fk key in_index s =
      let (c, index, s') =
        get_sc_and_index_based_on_flow_key key in_index flip (begin_entry entry fk key s) in
      elim c [ none ↦ none | some chain ↦ some (index, set_chain entry (some chain) s') ]

  abbrev pub flipped : Key → Key
  flipped key = record {
    src_addr = key.dst_addr;
    dst_addr = key.src_addr;
    src_port = key.dst_port;
    dst_port = key.src_port;
    proto = key.proto;
  }

  module _ (calloc : ℕ → Option ℕ) where
    -- `rte_calloc`: what this call of it gives, and `*fk = key`.
    abbrev pub allocate : Key → Installer → Option ℕ × Installer
    allocate key s = elim (calloc s.calls) [
      | none ↦ (none, record s { calls = s.calls + 1 })
      | some fk ↦ (
        some fk,
        record s {
          calls = s.calls + 1;
          director = record s.director { keys = update s.director.keys fk key };
        },
      )
    ]

    -- `onvm_flow_dir_add_key` for a key that is not there.
    abbrev pub added : Key → Installer → Option ℕ × Installer
    added key s =
        let (r, d) = onvm_flow_dir_add_key h s.director key in (r.1, record s { director = d })

    abbrev pub when_added :
        Bool → ℕ → Key → Option ℕ → Option ℕ × Installer → Option (ℤ × Option ℕ × Installer)
    when_added flip fk key in_index (none, s) = some (no_memory, in_index, s)
    when_added flip fk key in_index (some entry, s) =
        elim (fill_entry flip entry fk key in_index s) [
          | none ↦ none
          | some (index, s') ↦ some (pos 0, index, s')
        ]

    -- Installing a key, from the call of `onvm_flow_dir_get_key` on: the value returned so far.
    pub install : Bool → ℕ → Key → Option ℕ → Installer → Option (ℤ × Option ℕ × Installer)
    install flip fk key in_index s =
        let ret = (onvm_flow_dir_get_key h s.director key).0 in
        if is_no_entry ret then when_added flip fk key in_index (added key s) else elim ret [
          | pos i ↦ some (exists, in_index, free fk s)
          | negsuc n ↦ some (negsuc n, in_index, free fk s)
        ]

    -- `setup_schain_and_flow_entry_for_flip_key(fk_in, sc_index)`.
    pub setup_schain_and_flow_entry_for_flip_key :
        Key → Option ℕ → Installer → Option (ℤ × Installer)
    setup_schain_and_flow_entry_for_flip_key fk_in sc_index s =
        let (fk, s1) = allocate (flipped fk_in) s in
        elim fk [
          | none ↦ some (no_memory, s1)
          | some address ↦ elim (install true address (flipped fk_in) sc_index s1) [
            | none ↦ none
            | some (ret, index, s2) ↦ some (ret, s2)
          ]
        ]
