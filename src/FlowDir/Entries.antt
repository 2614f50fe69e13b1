-- ===== src/FlowDir/Entries.antt =====
-- The operations of onvm/shared/onvm_flow_dir.c that go over all entries of the table.
use nfvnice_source.FlowDir.{RteHash, Director, onvm_flow_dir_del_key}
use nfvnice_source.Mgr.{FlowEntry, no_entry}
use nfvnice_source.Prelude.{
  ℕ, zero, suc, ◌+◌, ◌-◌, ◌%◌, ◌^◌, Option, none, some, update, ℤ, pos, negsuc,
}

-- The loop of `onvm_flow_dir_set_index`, from entry `t` on.
unfoldable pub set_index_from : ℕ → ℕ → (ℕ → FlowEntry) → ℕ → FlowEntry
set_index_from zero t entries = entries
set_index_from (suc left) t entries =
    set_index_from left (t + 1) (update entries t (record (entries t) { entry_index = t }))

-- `onvm_flow_dir_set_index` for a table with `n` entries (SDN_FT_ENTRIES).
unfoldable pub onvm_flow_dir_set_index : ℕ → (ℕ → FlowEntry) → ℕ → FlowEntry
unfolding set_index_from
onvm_flow_dir_set_index n entries = set_index_from n 0 entries

-- `onvm_flow_dir_reset_entry(&data[entry])`; the index is cast to `int`, and is taken to fit.
unfoldable pub onvm_flow_dir_reset_entry : ℕ → (ℕ → FlowEntry) → ℕ × (ℕ → FlowEntry)
onvm_flow_dir_reset_entry entry entries =
    let ft_index = (entries entry).entry_index in
    (ft_index, update entries entry (record no_entry { entry_index = ft_index }))

-- The loop of `onvm_flow_dir_clear_all_entries`, which counts the entries with a key and the successful
-- deletions.
module _ (h : RteHash) where
  -- `>= 0`.
  abbrev pub counts : ℤ → ℕ
  counts (pos n) = 1
  counts (negsuc n) = 0

  unfoldable pub clear_all_from : ℕ → ℕ → ℕ → ℕ → Director h → Option (ℕ × Director h)
  clear_all_from zero t active cleared d = some ((active + 2 ^ 32 - cleared) % 2 ^ 32, d)
  clear_all_from (suc left) t active cleared d = elim (d.world.entries t).key [
    | none ↦ clear_all_from left (t + 1) active cleared d
    | some key ↦ elim (onvm_flow_dir_del_key h d (d.keys key)) [
      | none ↦ none
      | some (ret, d') ↦
          clear_all_from left (t + 1) ((active + 1) % 2 ^ 32) ((cleared + counts ret) % 2 ^ 32) d'
    ]
  ]

  -- `onvm_flow_dir_clear_all_entries` for a table with `n` entries; the result is an `unsigned` that is
  -- cast to `int`.
  unfoldable pub onvm_flow_dir_clear_all_entries : ℕ → Director h → Option (ℕ × Director h)
  unfolding clear_all_from
  onvm_flow_dir_clear_all_entries n d = clear_all_from n 0 0 0 d
