-- ===== src/Installer/Rules.antt =====
-- The rules of the file and the packets of unknown flows, `add_flow_key_to_sc_flow_table` and
-- `setup_rule_for_packet` of examples/flow_rule_installer/flow_rule_installer.c.
use nfvnice_source.Action
use nfvnice_source.FlowDir.{RteHash, swap32, onvm_flow_dir_get_key}
use nfvnice_source.Headers.{Key, swap16, ip_protocol_tcp, ip_protocol_udp, onvm_ft_fill_key}
use nfvnice_source.Mgr.{Packet}
use nfvnice_source.Prelude.{
  ℕ, ◌%◌, List, [], ◌∷◌, Option, none, some, Bool, false, ◌==◌, ◌||◌, if◌then◌else◌, ℤ, pos, negsuc,
}
use nfvnice_source.Installer.{
  Installer, no_memory, free, fill_entry, allocate, added, install,
  setup_schain_and_flow_entry_for_flip_key,
}

module _ (h : RteHash) (calloc : ℕ → Option ℕ) where
  -- The end of `add_flow_key_to_sc_flow_table` and of the new case of `setup_rule_for_packet`: the flow in
  -- the other direction is installed too, and what that returns is not looked at.
  abbrev pub with_flip : Key → Option (ℤ × Option ℕ × Installer h) → Option (ℤ × Installer h)
  with_flip key none = none
  with_flip key (some (pos ret, index, s)) =
      elim (setup_schain_and_flow_entry_for_flip_key h calloc key index s) [
        | none ↦ none
        | some (_, s') ↦ some (pos ret, s')
      ]
  with_flip key (some (negsuc ret, index, s)) = some (negsuc ret, s)

  abbrev pub big_endian : Key → Key
  big_endian ft = record {
    src_addr = swap32 ft.src_addr;
    dst_addr = swap32 ft.dst_addr;
    src_port = swap16 ft.src_port;
    dst_port = swap16 ft.dst_port;
    proto = ft.proto;
  }

  -- `add_flow_key_to_sc_flow_table(ft)`, for a rule in host order.
  unfoldable pub add_flow_key_to_sc_flow_table : Key → Installer h → Option (ℤ × Installer h)
  add_flow_key_to_sc_flow_table ft s =
      let (fk, s1) = allocate h calloc (big_endian ft) s in
      elim fk [
        | none ↦ some (no_memory, s1)
        | some address ↦
            with_flip (big_endian ft) (install h calloc false address (big_endian ft) none s1)
      ]

  -- `setup_flow_rule_and_sc_entries`, over the rules of the file; it returns what the last one returned.
  unfoldable pub setup_flow_rule_and_sc_entries :
      List Key → ℤ → Installer h → Option (ℤ × Installer h)
  setup_flow_rule_and_sc_entries [] ret s = some (ret, s)
  setup_flow_rule_and_sc_entries (ft ∷ fts) ret s = elim (add_flow_key_to_sc_flow_table ft s) [
    | none ↦ none
    | some (ret', s') ↦ setup_flow_rule_and_sc_entries fts ret' s'
  ]

  -- What `setup_rule_for_packet` writes to the meta data.
  abbrev pub from_here : Installer h → Packet → Packet
  from_here s p = record p { meta = record p.meta { src = s.instance_id % 256; chain_index = 0 } }

  abbrev pub act : ℕ → Packet → Packet
  act action p = record p { meta = record p.meta { action = action } }

  abbrev pub on_alternate_port : ℕ → Packet → Packet
  on_alternate_port action p = record p {
    meta = record p.meta { destination = if p.port == 0 then 1 else 0; action = action };
  }

  abbrev pub is_tcp_or_udp : Key → Bool
  is_tcp_or_udp key = key.proto == ip_protocol_tcp || key.proto == ip_protocol_udp

  -- A flow that has an entry: its chain is printed, which is a read through NULL if there is none.
  abbrev pub known_flow : ℕ → ℕ → Packet → Installer h → Option (ℤ × Packet × Installer h)
  known_flow fk entry p s = elim (s.director.world.entries entry).sc [
    | none ↦ none
    | some c ↦ some (pos 0, act Action.next p, free h fk s)
  ]

  abbrev pub finish_packet : Packet → Option (ℤ × Installer h) → Option (ℤ × Packet × Installer h)
  finish_packet p none = none
  finish_packet p (some (_, s)) = some (pos 0, act Action.next p, s)

  abbrev pub new_flow :
      ℕ → Key → Packet → Option ℕ × Installer h → Option (ℤ × Packet × Installer h)
  new_flow fk key p (none, s) = some (pos 0, on_alternate_port Action.drop p, free h fk s)
  new_flow fk key p (some entry, s) = elim (fill_entry h false entry fk key none s) [
    | none ↦ none
    | some (index, s') ↦
        finish_packet p (setup_schain_and_flow_entry_for_flip_key h calloc key index s')
  ]

  abbrev pub by_entry :
      ℕ → Key → Packet → Option ℕ → Installer h → Option (ℤ × Packet × Installer h)
  by_entry fk key p none s = new_flow fk key p (added h calloc key s)
  by_entry fk key p (some entry) s = known_flow fk entry p s

  unfoldable pub setup_rule_for_flow :
      ℕ → Key → Packet → Installer h → Option (ℤ × Packet × Installer h)
  setup_rule_for_flow fk key p s =
      let (ret, flow_entry) = onvm_flow_dir_get_key h s.director key in
      by_entry fk key p flow_entry s

  -- What follows `rte_calloc`, without an IPv4 header and with one.
  abbrev pub without_key : Packet → Option ℕ × Installer h → Option (ℤ × Packet × Installer h)
  without_key p (none, s) = some (no_memory, p, s)
  without_key p (some fk, s) = some (pos 0, on_alternate_port Action.out p, free h fk s)

  abbrev pub with_key : Packet → Key → Option ℕ × Installer h → Option (ℤ × Packet × Installer h)
  with_key p key (none, s) = some (no_memory, p, s)
  with_key p key (some fk, s) =
      if is_tcp_or_udp key
      then setup_rule_for_flow fk key p s
      else some (pos 0, on_alternate_port Action.out p, free h fk s)

  abbrev pub zero_key : Key
  zero_key = record { src_addr = 0; dst_addr = 0; src_port = 0; dst_port = 0; proto = 0 }

  abbrev pub by_key : Packet → Option Key → Installer h → Option (ℤ × Packet × Installer h)
  by_key p none s = without_key p (allocate h calloc zero_key s)
  by_key p (some key) s = with_key p key (allocate h calloc key s)

  -- `setup_rule_for_packet(pkt, meta)`: what it returns, the packet with its meta data, and the state.
  -- `none` is the end of the process or a read through NULL.
  unfoldable pub setup_rule_for_packet : Packet → Installer h → Option (ℤ × Packet × Installer h)
  setup_rule_for_packet pkt s =
      let p = from_here s pkt in
      if p.rss == 0
      then some (pos 0, on_alternate_port Action.out p, s)
      else by_key p (onvm_ft_fill_key p.bytes) s
