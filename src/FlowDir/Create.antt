-- ===== src/FlowDir/Create.antt =====
-- Creating and freeing a flow table: `onvm_ft_create` and `onvm_ft_free` of
-- onvm/shared/onvm_flow_table.c.
use nfvnice_source.Prelude.{
  ℕ, ◌≡◌, ◌⊎◌, inl, inr, refl, Option, none, some, Bool, true, false, if◌then◌else◌,
}

-- `struct onvm_ft`, without its pointers.
pub record FlowTable : Type 0 where
  pub cnt : ℕ
  pub entry_size : ℕ

-- Which of the three allocations are in use: the hash table, the structure, and the data array.
pub record Live : Type 0 where
  pub hash : Bool
  pub table : Bool
  pub entries : Bool

abbrev pub nothing : Live
nothing = record { hash = false; table = false; entries = false }

abbrev pub everything : Live
everything = record { hash = true; table = true; entries = true }

-- `onvm_ft_create(cnt, entry_size)`; the tests say whether `rte_hash_create` and the two calls of
-- `rte_calloc` succeed.
pub onvm_ft_create : Bool → Bool → Bool → ℕ → ℕ → Option FlowTable × Live
onvm_ft_create got_hash got_ft got_data cnt entry_size =
    if got_hash
    then (let with_hash = record nothing { hash = true } in
        if got_ft
        then (let with_ft = record with_hash { table = true } in
            if got_data
            then (
              some (record { cnt = cnt; entry_size = entry_size }),
              record with_ft { entries = true },
            )
            else (none, record with_ft { hash = false; table = false }))
        else (none, record with_hash { hash = false }))
    else (none, nothing)

-- `onvm_ft_free`: it resets and frees the hash table.
pub onvm_ft_free : Live → Live
onvm_ft_free live = record live { hash = false }

-- Creating a table either fails, exactly if one of the three allocations fails, and then nothing stays
-- allocated, or it gives a table with the size that was asked for and all three parts. Freeing that
-- table gives back the hash table, but neither the structure nor the data array.
onvm_ft_create_lem :
    (got_hash got_ft got_data : Bool) (cnt entry_size : ℕ)
    → let r = onvm_ft_create got_hash got_ft got_data cnt entry_size in
      ((r.0 ≡ none)
        × (r.1 ≡ nothing)
        × ((got_hash ≡ false) ⊎ (got_ft ≡ false) ⊎ (got_data ≡ false)))
      ⊎ ((r.0 ≡ some (record { cnt = cnt; entry_size = entry_size }))
          × (r.1 ≡ everything)
          × (onvm_ft_free r.1 ≡ record { hash = false; table = true; entries = true })
          × (got_hash ≡ true)
          × (got_ft ≡ true)
          × (got_data ≡ true))
unfolding onvm_ft_create onvm_ft_free
onvm_ft_create_lem true true true cnt size = inr (refl, refl, refl, refl, refl, refl)
onvm_ft_create_lem true true false cnt size = inl (refl, refl, inr (inr refl))
onvm_ft_create_lem true false got_data cnt size = inl (refl, refl, inr (inl refl))
onvm_ft_create_lem false got_ft got_data cnt size = inl (refl, refl, inl refl)
