-- ===== src/Installer/Install.antt =====
-- A packet of an unknown flow, and what its flow and the flow in the other direction get.
use nfvnice_source.Action
use nfvnice_source.FlowDir.{RteHash, data_at, onvm_softrss, onvm_flow_dir_get_key}
use nfvnice_source.FlowDir.Lookup.{Documented}
use nfvnice_source.Headers.{Key, onvm_ft_fill_key}
use nfvnice_source.Installer.{
  Installer, no_entry, free, get_sc_index_based_on_flow_key, fill_entry, flipped,
  setup_schain_and_flow_entry_for_flip_key,
}
use nfvnice_source.Installer.Rules.{
  from_here, act, is_tcp_or_udp, new_flow, setup_rule_for_flow, setup_rule_for_packet, by_key,
  with_key, by_entry, on_alternate_port, finish_packet,
}
use nfvnice_source.Mgr.{Packet}
use nfvnice_source.Prelude.{
  ℕ, ◌+◌, ◌<◌, ◌≡◌, ◌≢◌, refl, sym, ap, ◌∙◌, Option, none, some, true, false, arith, ◌==◌,
  if◌then◌else◌, ℤ, pos,
}
use nfvnice_source.Installer.Fill.{entries_of, Filled, fill_entry_lem, chosen_same}
use nfvnice_source.Installer.Keys.{
  where_is, add_to, with_table, with_memory, get_key_lem, allocate_lem, added_lem, flip_lem,
}

module _ (h : RteHash) (calloc : ℕ → Option ℕ) where
  -- A packet of a TCP or UDP flow that is not in the table in either direction, with room in the table
  -- and memory for both.
  pub record NewFlow (pkt : Packet) (key : Key) (a b i j : ℕ) (s : Installer h) : Type 0 where
    pub hashed : (pkt.rss == 0) ≡ false
    pub key_of : onvm_ft_fill_key pkt.bytes ≡ some key
    pub tcp_or_udp : is_tcp_or_udp h calloc key ≡ true
    pub two_ways : key ≢ flipped h key
    pub memory : calloc s.calls ≡ some a
    pub memory_flip : calloc (s.calls + 1) ≡ some b
    pub unknown : where_is h key s ≡ no_entry
    pub unknown_flip : where_is h (flipped h key) s ≡ no_entry
    pub stored : (add_to h s.director.table key).0 ≡ pos i
    pub stored_flip : (add_to h (add_to h s.director.table key).1 (flipped h key)).0 ≡ pos j
    pub apart : i ≢ j

  index_below :
      (key : Key) (x : ℕ) (s : Installer h)
      → (get_sc_index_based_on_flow_key h key s).0 ≡ some x
      → x < s.max_service_chains
  unfolding get_sc_index_based_on_flow_key
  index_below key x s e = ground (arith, e)

  -- The function up to the search for the flow.
  to_flow :
      (pkt : Packet) (key : Key) (a b i j : ℕ) (s : Installer h)
      → NewFlow pkt key a b i j s
      → setup_rule_for_packet h calloc pkt s
        ≡ new_flow h calloc a key
            (from_here h calloc s pkt)
            (some i, with_table h (add_to h s.director.table key).1 (with_memory h calloc a key s))
  unfolding setup_rule_for_packet setup_rule_for_flow
  to_flow pkt key a b i j s v =
      ap
        (λ zero_hash.
          if zero_hash
          then some (pos 0, on_alternate_port h calloc Action.out p, s)
          else by_key h calloc p (onvm_ft_fill_key p.bytes) s)
        v.hashed
      ∙ ap (λ o. by_key h calloc p o s) v.key_of
      ∙ ap (with_key h calloc p key) (allocate_lem h calloc key a s v.memory)
      ∙ ap
          (λ known.
            if known
            then setup_rule_for_flow h calloc a key p s1
            else some (pos 0, on_alternate_port h calloc Action.out p, free h a s1))
          v.tcp_or_udp
      ∙ ap (λ (r : ℤ × Option ℕ). by_entry h calloc a key p r.1 s1)
          (get_key_lem h key s1 ∙ ap (λ z. (z, data_at z)) v.unknown)
      ∙ ap (new_flow h calloc a key p) (added_lem h calloc key i s1 v.stored)
    where
      p : Packet
      p = from_here h calloc s pkt

      s1 : Installer h
      s1 = with_memory h calloc a key s

  -- A packet whose RSS hash is not 0, of a TCP or UDP flow whose key differs from that of the other
  -- direction, with neither of the two in the table, memory for two keys, and room in the table, which gives
  -- them different indices; `get_sc_index_based_on_flow_key` gives a chain for the flow, and the calls of
  -- rte_hash do what their documentation says. Then the function returns 0 and tells the packet to go on,
  -- the table has both directions of the flow, and their entries have the chain of one index and the
  -- flipped chain of the same index.
  pub setup_rule_for_packet_lem :
      Documented h
      → (pkt : Packet) (key : Key) (a b i j x : ℕ) (s : Installer h) → NewFlow pkt key a b i j s
      → (get_sc_index_based_on_flow_key h key s).0 ≡ some x
      → (p' : Packet) × (s' : Installer h) × (setup_rule_for_packet h calloc pkt s
          ≡ some (pos 0, p', s'))
        × (p'.meta.action ≡ Action.next)
        × (onvm_flow_dir_get_key h s'.director key ≡ (pos i, some i))
        × (onvm_flow_dir_get_key h s'.director (flipped h key) ≡ (pos j, some j))
        × ((entries_of h s' i).sc ≡ some (s.sc x))
        × ((entries_of h s' j).sc ≡ some (s.sc_flip x))
  setup_rule_for_packet_lem doc pkt key a b i j x s v e = both_ways (
      fill_entry_lem h i a key none false x s2 (chosen_same h key none s2.director s2.calls s ∙ e)
        below)
    where
      t1 : h.Table
      t1 = (add_to h s.director.table key).1

      s2 : Installer h
      s2 = with_table h t1 (with_memory h calloc a key s)

      p : Packet
      p = from_here h calloc s pkt

      other : Key
      other = flipped h key

      below : x < s.max_service_chains
      below = index_below key x s e

      Result : Type 0
      Result =
          (p' : Packet) × (s' : Installer h) × (setup_rule_for_packet h calloc pkt s
            ≡ some (pos 0, p', s'))
          × (p'.meta.action ≡ Action.next)
          × (onvm_flow_dir_get_key h s'.director key ≡ (pos i, some i))
          × (onvm_flow_dir_get_key h s'.director other ≡ (pos j, some j))
          × ((entries_of h s' i).sc ≡ some (s.sc x))
          × ((entries_of h s' j).sc ≡ some (s.sc_flip x))

      found_at :
          (k : Key) (n : ℕ) (u : Installer h)
          → where_is h k u ≡ pos n
          → onvm_flow_dir_get_key h u.director k ≡ (pos n, some n)
      found_at k n u at = get_key_lem h k u ∙ ap (λ z. (z, data_at z)) at

      finish :
          (s3 : Installer h)
          → fill_entry h false i a key none s2 ≡ some (some x, s3)
          → Filled h i (s.sc x) s2 s3
          → (s4 : Installer h) × (setup_schain_and_flow_entry_for_flip_key h calloc key (some x) s3
              ≡ some (pos 0, s4))
            × Filled h j
                (s3.sc_flip x)
                (with_table h
                  (add_to h s3.director.table other).1
                  (with_memory h calloc b other s3))
                s4
          → Result
      finish s3 filled f (s4, done, g) = (
        act h calloc Action.next p,
        s4,
        to_flow pkt key a b i j s v
            ∙ ap
                (λ (o : Option (Option ℕ × Installer h)).
                  (elim o as (λ _. Option (ℤ × Packet × Installer h)) [
                    | none ↦ none
                    | some (index, u) ↦
                        finish_packet h calloc p
                          (setup_schain_and_flow_entry_for_flip_key h calloc key index u)
                  ]))
                filled
            ∙ ap (finish_packet h calloc p) done,
        refl,
        found_at key i s4 at_key,
        found_at other j s4 at_other,
        g.others i v.apart ∙ f.given,
        g.given ∙ ap some (ap (λ q. q x) f.sc_flip),
      )
        where
          table : s4.director.table ≡ (add_to h t1 other).1
          table = g.table ∙ ap (λ t. (add_to h t other).1) f.table

          at_key : where_is h key s4 ≡ pos i
          at_key =
              ap (λ t. h.lookup_with_hash t key (onvm_softrss h key)) table
              ∙ doc.added_other t1 other key (onvm_softrss h other) (onvm_softrss h key)
                  (λ same. v.two_ways (sym same))
              ∙ doc.added s.director.table key (onvm_softrss h key) i v.stored

          at_other : where_is h other s4 ≡ pos j
          at_other =
              ap (λ t. h.lookup_with_hash t other (onvm_softrss h other)) table
              ∙ doc.added t1 other (onvm_softrss h other) j v.stored_flip

      both_ways :
          (s3 : Installer h) × (fill_entry h false i a key none s2 ≡ some (some x, s3))
            × Filled h i (s.sc x) s2 s3
          → Result
      both_ways (s3, filled, f) = finish s3 filled f (
          flip_lem h calloc key b j x s3 (ap calloc f.calls ∙ v.memory_flip)
            (ap (λ t. h.lookup_with_hash t other (onvm_softrss h other)) f.table
              ∙ doc.added_other s.director.table key other (onvm_softrss h key)
                  (onvm_softrss h other) v.two_ways
              ∙ v.unknown_flip)
            (ap (λ t. (add_to h t other).0) f.table ∙ v.stored_flip) (omega (arith, below, f.max)))
