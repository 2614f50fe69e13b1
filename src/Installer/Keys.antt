-- ===== src/Installer/Keys.antt =====
-- Installing a key that is not in the table.
use nfvnice_source.FlowDir.{
  RteHash, data_at, onvm_softrss, onvm_flow_dir_get_key, onvm_flow_dir_add_key, onvm_ft_add_key,
  onvm_ft_lookup_key,
}
use nfvnice_source.Headers.{Key}
use nfvnice_source.Installer.{
  Installer, no_entry, no_memory, exists, is_no_entry, when_added, free, chosen, flipped, added,
  install, allocate, setup_schain_and_flow_entry_for_flip_key,
}
use nfvnice_source.Prelude.{
  ℕ, ◌+◌, ◌<◌, ◌≡◌, refl, ap, ◌∙◌, Option, none, some, Bool, true, update, if◌then◌else◌, ℤ, pos,
  negsuc,
}
use nfvnice_source.Installer.Fill.{chain_of, Filled, fill_entry_lem, chosen_same}

module _ (h : RteHash) where
  -- Where a key is, and the table with the key added.
  abbrev pub where_is : Key → Installer h → ℤ
  where_is key s = h.lookup_with_hash s.director.table key (onvm_softrss h key)

  abbrev pub add_to : h.Table → Key → ℤ × h.Table
  add_to table key = h.add_key_with_hash table key (onvm_softrss h key)

  abbrev pub with_table : h.Table → Installer h → Installer h
  with_table table s = record s { director = record s.director { table = table } }

  pub get_key_lem :
      (key : Key) (s : Installer h)
      → onvm_flow_dir_get_key h s.director key ≡ (where_is key s, data_at (where_is key s))
  unfolding onvm_flow_dir_get_key onvm_ft_lookup_key
  get_key_lem key s = refl

  module _ (calloc : ℕ → Option ℕ) where
    abbrev pub with_memory : ℕ → Key → Installer h → Installer h
    with_memory fk key s = record s {
      calls = s.calls + 1;
      director = record s.director { keys = update s.director.keys fk key };
    }

    pub allocate_lem :
        (key : Key) (fk : ℕ) (s : Installer h)
        → calloc s.calls ≡ some fk
        → allocate h calloc key s ≡ (some fk, with_memory fk key s)
    allocate_lem key fk s e =
        ap
          (λ o. (elim o as (λ _. Option ℕ × Installer h) [
            | none ↦ (none, record s { calls = s.calls + 1 })
            | some a ↦ (some a, with_memory a key s)
          ]))
          e

    pub added_lem :
        (key : Key) (i : ℕ) (s : Installer h)
        → (add_to s.director.table key).0 ≡ pos i
        → added h calloc key s ≡ (some i, with_table (add_to s.director.table key).1 s)
    unfolding onvm_flow_dir_add_key onvm_ft_add_key
    added_lem key i s e = ap (λ r. (data_at r, with_table (add_to s.director.table key).1 s)) e

    install_lem :
        (flip : Bool) (fk i : ℕ) (key : Key) (in_index : Option ℕ) (x : ℕ) (s : Installer h)
        → where_is key s ≡ no_entry
        → (add_to s.director.table key).0 ≡ pos i
        → (chosen h key in_index s).0 ≡ some x
        → x < s.max_service_chains
        → (s' : Installer h) × (install h calloc flip fk key in_index s ≡ some (pos 0, some x, s'))
          × Filled h i (chain_of h flip x s) (with_table (add_to s.director.table key).1 s) s'
    unfolding install
    install_lem flip fk i key in_index x s absent new e lt =
        let table = (add_to s.director.table key).1 in
        let (s', filled, v) =
          fill_entry_lem h i fk key in_index flip x (with_table table s)
            (chosen_same h key in_index (record s.director { table = table }) s.calls s ∙ e) lt in
        (
          s',
          ap
                (λ (r : ℤ × Option ℕ).
                  if is_no_entry r.0
                  then when_added h calloc flip fk key in_index (added h calloc key s)
                  else elim r.0 as (λ _. Option (ℤ × Option ℕ × Installer h)) [
                    | pos n ↦ some (exists, in_index, free h fk s)
                    | negsuc n ↦ some (negsuc n, in_index, free h fk s)
                  ])
                (get_key_lem key s ∙ ap (λ z. (z, data_at z)) absent)
              ∙ ap (when_added h calloc flip fk key in_index) (added_lem key i s new)
              ∙ ap
                  (λ (o : Option (Option ℕ × Installer h)).
                    elim o as (λ _. Option (ℤ × Option ℕ × Installer h)) [
                      | none ↦ none
                      | some (index, u) ↦ some (pos 0, index, u)
                    ])
                  filled,
          v,
        )

    pub flip_lem :
        (key : Key) (b j x : ℕ) (s : Installer h)
        → calloc s.calls ≡ some b
        → where_is (flipped h key) s ≡ no_entry
        → (add_to s.director.table (flipped h key)).0 ≡ pos j
        → x < s.max_service_chains
        → (s' : Installer h) × (setup_schain_and_flow_entry_for_flip_key h calloc key (some x) s
            ≡ some (pos 0, s'))
          × Filled h j
              (s.sc_flip x)
              (with_table
                (add_to s.director.table (flipped h key)).1
                (with_memory b (flipped h key) s))
              s'
    unfolding setup_schain_and_flow_entry_for_flip_key
    flip_lem key b j x s e absent new lt =
        let key' = flipped h key in
        let s1 = with_memory b key' s in
        let (s', done, v) = install_lem true b j key' (some x) x s1 absent new refl lt in
        (
          s',
          ap
                (λ (r : Option ℕ × Installer h). (elim r.0 as (λ _. Option (ℤ × Installer h)) [
                  | none ↦ some (no_memory, r.1)
                  | some address ↦
                      elim (install h calloc true address key' (some x) r.1)
                        as (λ _. Option (ℤ × Installer h)) [
                          | none ↦ none
                          | some (ret, index, s2) ↦ some (ret, s2)
                        ]
                ]))
                (allocate_lem key' b s e)
              ∙ ap
                  (λ (o : Option (ℤ × Option ℕ × Installer h)).
                    (elim o as (λ _. Option (ℤ × Installer h)) [
                      | none ↦ none
                      | some (ret, index, s2) ↦ some (ret, s2)
                    ]))
                  done,
          v,
        )
