-- ===== src/FlowDir.antt =====
-- The flow table, onvm/shared/onvm_flow_table.c, and the flow director, onvm/shared/onvm_flow_dir.c, over
-- the hash table of DPDK. A flow entry is the number of its place in the data array of the table.
pub mod Entries
pub mod Kept
pub mod Lookup
pub mod Delete
pub mod Create
pub mod Index
pub mod Sample
mod Tests
use nfvnice_source.Headers.{Key, swap16, onvm_ft_fill_key}
use nfvnice_source.Mgr.{Packet, World}
use nfvnice_source.Prelude.{
  ℕ, ◌+◌, ◌*◌, ◌/◌, ◌%◌, List, ◌∷◌, Option, none, some, update, ◌==◌, if◌then◌else◌, ℤ, pos, negsuc,
}

-- What the program calls of DPDK: `rte_hash_add_key_with_hash`, `rte_hash_lookup_with_hash`,
-- `rte_hash_del_key_with_hash` and `rte_hash_del_key`, and `rte_softrss_be` with the symmetric key on a
-- tuple of addresses and ports. Tables are given and left; an `int` result comes first.
pub record RteHash : Type 1 where
  pub Table : Type 0
  pub add_key_with_hash : Table → Key → ℕ → ℤ × Table
  pub lookup_with_hash : Table → Key → ℕ → ℤ
  pub del_key_with_hash : Table → Key → ℕ → ℤ × Table
  pub del_key : Table → Key → ℤ × Table
  pub softrss_be : ℕ → ℕ → ℕ → ℕ → ℕ

-- `rte_be_to_cpu_32`.
abbrev pub swap32 : ℕ → ℕ
swap32 x = swap16 (x / 65536) + 65536 * swap16 (x % 65536)

-- `EPROTONOSUPPORT` of <errno.h>, negated.
abbrev pub not_supported : ℤ
not_supported = negsuc 92

-- `*data = onvm_ft_get_data(table, tbl_index)` if the index is not negative; `none` means that `*data`
-- is not written.
abbrev pub data_at : ℤ → Option ℕ
data_at (pos i) = some i
data_at (negsuc n) = none

module _ (h : RteHash) where
  open h use {Table, add_key_with_hash, lookup_with_hash, del_key_with_hash, del_key, softrss_be}

  -- `onvm_softrss`.
  pub onvm_softrss : Key → ℕ
  onvm_softrss key =
      softrss_be (swap32 key.src_addr) (swap32 key.dst_addr) (swap16 key.src_port)
        (swap16 key.dst_port)

  -- `onvm_ft_add_pkt`, with the entry that is stored through `data`.
  pub onvm_ft_add_pkt : Table → Packet → (ℤ × Option ℕ) × Table
  onvm_ft_add_pkt table p = elim (onvm_ft_fill_key p.bytes) [
    | none ↦ ((not_supported, none), table)
    | some key ↦ let r = add_key_with_hash table key p.rss in ((r.0, data_at r.0), r.1)
  ]

  pub onvm_ft_lookup_pkt : Table → Packet → ℤ × Option ℕ
  onvm_ft_lookup_pkt table p = elim (onvm_ft_fill_key p.bytes) [
    | none ↦ (not_supported, none)
    | some key ↦ let r = lookup_with_hash table key p.rss in (r, data_at r)
  ]

  pub onvm_ft_remove_pkt : Table → Packet → ℤ × Table
  onvm_ft_remove_pkt table p = elim (onvm_ft_fill_key p.bytes) [
    | none ↦ (not_supported, table)
    | some key ↦ del_key_with_hash table key p.rss
  ]

  unfoldable pub onvm_ft_add_key : Table → Key → (ℤ × Option ℕ) × Table
  unfolding onvm_softrss
  onvm_ft_add_key table key =
      let r = add_key_with_hash table key (onvm_softrss key) in ((r.0, data_at r.0), r.1)

  unfoldable pub onvm_ft_lookup_key : Table → Key → ℤ × Option ℕ
  unfolding onvm_softrss
  onvm_ft_lookup_key table key =
      let r = lookup_with_hash table key (onvm_softrss key) in (r, data_at r)

  pub onvm_ft_remove_key : Table → Key → ℤ × Table
  onvm_ft_remove_key table key = del_key table key

  -- The state of the flow director: the shared state of the manager with the entries and the chains,
  -- the hash table of `sdn_ft`, what the key pointers of the entries lead to, and the keys that
  -- `rte_free` was called for.
  pub record Director : Type 0 where
    pub world : World
    pub table : Table
    pub keys : ℕ → Key
    pub freed : List ℕ

  pub onvm_flow_dir_get_pkt : Director → Packet → ℤ × Option ℕ
  onvm_flow_dir_get_pkt d p = onvm_ft_lookup_pkt d.table p

  pub onvm_flow_dir_add_pkt : Director → Packet → (ℤ × Option ℕ) × Director
  onvm_flow_dir_add_pkt d p = let r = onvm_ft_add_pkt d.table p in (r.0, record d { table = r.1 })

  unfoldable pub onvm_flow_dir_get_key : Director → Key → ℤ × Option ℕ
  onvm_flow_dir_get_key d key = onvm_ft_lookup_key d.table key

  unfoldable pub onvm_flow_dir_add_key : Director → Key → (ℤ × Option ℕ) × Director
  onvm_flow_dir_add_key d key =
      let r = onvm_ft_add_key d.table key in (r.0, record d { table = r.1 })

  -- `rte_free(flow_entry->key)`; for NULL it does nothing.
  pub free_key : ℕ → Director → Director
  free_key entry d = elim (d.world.entries entry).key [
    | none ↦ d
    | some key ↦ record d { freed = key ∷ d.freed }
  ]

  -- `onvm_flow_dir_del_and_free_pkt`.
  pub onvm_flow_dir_del_and_free_pkt : Director → Packet → ℤ × Director
  unfolding onvm_flow_dir_get_pkt onvm_ft_remove_pkt
  onvm_flow_dir_del_and_free_pkt d p =
      let got = onvm_flow_dir_get_pkt d p in
      elim got.1 [
        | none ↦ (got.0, d)
        | some entry ↦
            let removed = onvm_ft_remove_pkt d.table p in
            (removed.0, record (free_key entry d) { table = removed.1 })
      ]

  -- `flow_entry->sc->ref_cnt--`, on a `uint8_t`.
  abbrev pub drop_reference : ℕ → Director → Director
  drop_reference c d = record d {
    world = record d.world {
      chains =
          update d.world.chains c
            (record (d.world.chains c) { ref_cnt = ((d.world.chains c).ref_cnt + 255) % 256 });
    };
  }

  -- `onvm_flow_dir_del_pkt`; `none` is an access through the chain at NULL.
  pub onvm_flow_dir_del_pkt : Director → Packet → Option (ℤ × Director)
  unfolding onvm_flow_dir_get_pkt onvm_flow_dir_del_and_free_pkt
  onvm_flow_dir_del_pkt d p =
      let got = onvm_flow_dir_get_pkt d p in
      elim got.1 [
        | none ↦ some (got.0, d)
        | some entry ↦ elim (d.world.entries entry).sc [
          | none ↦ none
          | some c ↦ some (
              if (d.world.chains c).ref_cnt == 0
              then onvm_flow_dir_del_and_free_pkt (drop_reference c d) p
              else (got.0, drop_reference c d))
        ]
      ]

  -- `onvm_flow_dir_del_and_free_key`: the call of `onvm_ft_remove_key` is commented out.
  pub onvm_flow_dir_del_and_free_key : Director → Key → ℤ × Director
  unfolding onvm_flow_dir_get_key
  onvm_flow_dir_del_and_free_key d key =
      let got = onvm_flow_dir_get_key d key in
      elim got.1 [
        | none ↦ (got.0, d)
        | some entry ↦ (
          got.0,
          record (free_key entry d) {
            world = record d.world {
              entries =
                  update d.world.entries entry (record (d.world.entries entry) { key = none });
            };
          },
        )
      ]

  pub onvm_flow_dir_del_key : Director → Key → Option (ℤ × Director)
  unfolding onvm_flow_dir_get_key onvm_flow_dir_del_and_free_key
  onvm_flow_dir_del_key d key =
      let got = onvm_flow_dir_get_key d key in
      elim got.1 [
        | none ↦ some (got.0, d)
        | some entry ↦ elim (d.world.entries entry).sc [
          | none ↦ none
          | some c ↦ some (
              if (d.world.chains c).ref_cnt == 0
              then onvm_flow_dir_del_and_free_key (drop_reference c d) key
              else (got.0, drop_reference c d))
        ]
      ]
