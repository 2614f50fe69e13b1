-- ===== src/Bkpr.antt =====
-- Back pressure, onvm/onvm_mgr/onvm_pkt.c: when the receive ring of an NF passes its mark, the
-- position of the NF is marked in the service chains of the packets at hand, and the marked flows are
-- kept in a ring of the NF; when the ring has drained, the marks of that list are taken back. The
-- configuration is the one of common.h: approach 1, with the list as a ring, no global timer mode.
pub mod Ring
pub mod Clear
pub mod Mark
pub mod Stale
mod Tests
use nfvnice_source.Bits.{bit, set_bit, clear_bit, test_bit}
use nfvnice_source.Chain.{Chain}
use nfvnice_source.Headers.{onvm_ft_fill_key}
use nfvnice_source.Mgr.{
  Packet, Meta, FlowEntry, Backlog, BacklogRing, Client, World, Dpdk, low_water_mark, on_client,
}
use nfvnice_source.Prelude.{
  ℕ, zero, suc, ◌+◌, ◌-◌, ◌%◌, ◌^◌, ◌≡◌, List, [], ◌∷◌, Option, none, some, Bool, true, false,
  bit_or, not, length, get_or, set, update, ltb, leb, ◌==◌, ◌&&◌, ◌||◌, if◌then◌else◌,
}

abbrev pub no_backlog : Backlog
no_backlog = record { chain_index = 0; flow = none }

-- `if((++h) == max_len) h = 0` on a `uint16_t`.
abbrev pub bump : ℕ → ℕ → ℕ
bump max_len h = if (h + 1) % 2 ^ 16 == max_len then 0 else (h + 1) % 2 ^ 16

-- The test for a full list in `write_ft_to_cl_bft`.
abbrev pub is_full : BacklogRing → Bool
is_full b = (b.w_h + 1) % b.max_len == b.r_h

-- What `write_ft_to_cl_bft` does to the list, if it is not full.
pub put : BacklogRing → ℕ → ℕ → BacklogRing
put b entry chain_index = record b {
  bft = set b.bft b.w_h (record { chain_index = chain_index; flow = some entry });
  bft_count = (b.bft_count + 1) % 2 ^ 16;
  w_h = bump b.max_len b.w_h;
}

-- The slot that `read_all_ft_frm_cl_bft` looks at, and what it does to the list if the slot is used.
abbrev pub oldest : BacklogRing → Backlog
oldest b = get_or b.bft b.r_h no_backlog

pub take_oldest : BacklogRing → BacklogRing
take_oldest b = record b {
  bft = set b.bft b.r_h no_backlog;
  r_h = bump b.max_len b.r_h;
  bft_count = (b.bft_count + 2 ^ 16 - 1) % 2 ^ 16;
}

-- `write_ft_to_cl_bft(&clients[i], &entries[entry], chain_index)`.
unfoldable pub write_ft_to_cl_bft : ℕ → ℕ → ℕ → World → World
write_ft_to_cl_bft i entry chain_index w =
    if is_full (w.clients i).bft_list
    then w
    else record (on_client i (λ c. record c { bft_list = put c.bft_list entry chain_index }) w) {
      entries = update w.entries entry (record (w.entries entry) {
        idle_timeout = bit_or (w.entries entry).idle_timeout (bit chain_index) % 2 ^ 16;
        hard_timeout = (w.clients i).instance_id;
      });
    }

-- `CLEAR_BIT(flow_entry->sc->highest_downstream_nf_index_id, chain_index)`. A flow is listed only with
-- its chain; if the entry has lost the chain since, this would be a read through NULL.
unfoldable pub clear_mark : ℕ → ℕ → World → World
clear_mark entry chain_index w = elim (w.entries entry).sc [
  | none ↦ w
  | some c ↦ record w {
    chains =
        update w.chains c
          (record (w.chains c) { overflowing = clear_bit 8 (w.chains c).overflowing chain_index });
  }
]

-- One round of the loop of `read_all_ft_frm_cl_bft`.
unfoldable pub read_one : ℕ → World → World
unfolding take_oldest clear_mark
read_one i w = elim (oldest (w.clients i).bft_list).flow [
  | none ↦ w
  | some entry ↦
      on_client i (λ c. record c { bft_list = take_oldest c.bft_list })
        (clear_mark entry (oldest (w.clients i).bft_list).chain_index w)
]

unfoldable pub read_rounds : ℕ → ℕ → World → World
read_rounds zero i w = w
read_rounds (suc n) i w = read_rounds n i (read_one i w)

-- `ttl_nodes`, a `uint16_t`.
abbrev pub ttl_nodes : BacklogRing → ℕ
ttl_nodes b = (if ltb b.r_h b.w_h then b.w_h else b.w_h + b.max_len - b.r_h) % 2 ^ 16

-- `read_all_ft_frm_cl_bft(&clients[i])`.
unfoldable pub read_all_ft_frm_cl_bft : ℕ → World → World
read_all_ft_frm_cl_bft i w =
    let b = (w.clients i).bft_list in if b.w_h == b.r_h then w else read_rounds (ttl_nodes b) i w

-- `get_flow_entry`, through `onvm_flow_dir_get_pkt` and `onvm_ft_lookup_pkt`: the index of the entry.
pub get_flow_entry : Dpdk → Packet → Option ℕ
get_flow_entry d p = elim (onvm_ft_fill_key p.bytes) [
  | none ↦ none
  | some key ↦ d.hash_lookup key p.rss
]

-- The service chain of a packet, if its flow has an entry with one.
abbrev pub entry_chain : World → Option ℕ → Option ℕ
entry_chain w none = none
entry_chain w (some entry) = (w.entries entry).sc

-- The body of the loop of `onvm_detect_and_set_back_pressure` for a packet with entry and chain.
unfoldable pub mark_chain : ℕ → ℕ → ℕ → ℕ → World → World
mark_chain i entry c chain_index w =
    if ltb chain_index 1 || test_bit (w.chains c).overflowing chain_index
    then w
    else write_ft_to_cl_bft i entry chain_index (record w {
      chains =
          update w.chains c
            (record (w.chains c) { overflowing = set_bit 8 (w.chains c).overflowing chain_index });
    })

unfoldable pub mark_packet : Dpdk → ℕ → Packet → World → World
mark_packet d i p w = elim (get_flow_entry d p) [
  | none ↦ w
  | some entry ↦ elim (w.entries entry).sc [
    | none ↦ w
    | some c ↦ mark_chain i entry c p.meta.chain_index w
  ]
]

unfoldable pub mark_packets : Dpdk → ℕ → List Packet → World → World
mark_packets d i [] w = w
mark_packets d i (p ∷ ps) w = mark_packets d i ps (mark_packet d i p w)

-- The service of the NF, as `cl->info->service_id`; the callers have tested `cl->info`.
abbrev pub service_of : World → ℕ → ℕ
service_of w i = elim (w.clients i).info [ none ↦ 0 | some info ↦ (w.infos info).service_id ]

-- `onvm_detect_and_set_back_pressure(pkts, count, &clients[i])`.
unfoldable pub onvm_detect_and_set_back_pressure : Dpdk → ℕ → List Packet → World → World
onvm_detect_and_set_back_pressure d i pkts w =
    if w.global_bkpr_mode
    then record w {
      downstream_nf_overflow = true;
      highest_downstream_nf_service_id =
          set_bit 16 w.highest_downstream_nf_service_id (service_of w i);
    }
    else mark_packets d i pkts w

-- The global mode of `onvm_check_and_reset_back_pressure`, below the low mark.
unfoldable pub reset_global : ℕ → World → World
reset_global i w =
    if w.downstream_nf_overflow && test_bit w.highest_downstream_nf_service_id (service_of w i)
    then (let left = clear_bit 16 w.highest_downstream_nf_service_id (service_of w i) in
        record w {
          highest_downstream_nf_service_id = left;
          downstream_nf_overflow = not (left == 0);
        })
    else w

-- `onvm_check_and_reset_back_pressure(pkts, count, &clients[i])`; it does not look at the packets.
unfoldable pub onvm_check_and_reset_back_pressure : ℕ → World → World
onvm_check_and_reset_back_pressure i w =
    if leb low_water_mark (length (w.places.rx_q i))
    then w
    else if w.global_bkpr_mode
    then reset_global i w
    else read_all_ft_frm_cl_bft i w
