-- ===== src/Installer/Fill.antt =====
-- Giving a chain to a new entry of the flow table.
use nfvnice_source.FlowDir.{RteHash, Director}
use nfvnice_source.FlowDir.Entries.{onvm_flow_dir_reset_entry}
use nfvnice_source.Headers.{Key}
use nfvnice_source.Installer.{
  Installer, get_sc_index_based_on_flow_key, get_sc_and_index_based_on_flow_key, chain_for, chosen,
  chain_at, set_chain, begin_entry, fill_entry,
}
use nfvnice_source.Mgr.{FlowEntry}
use nfvnice_source.Prelude.{
  ℕ, ◌<◌, ◌≡◌, ◌≢◌, refl, ap, ◌∙◌, Option, none, some, Bool, true, false, arith, leb, update_self,
  update_ne, if◌then◌else◌,
}

module _ (h : RteHash) where
  abbrev pub entries_of : Installer h → ℕ → FlowEntry
  entries_of s = s.director.world.entries

  abbrev pub chain_of : Bool → ℕ → Installer h → ℕ
  chain_of flip x s = if flip then s.sc_flip x else s.sc x

  -- What giving a chain to an entry leaves, from `s` to `s'`.
  pub record Filled (entry chain : ℕ) (s s' : Installer h) : Type 0 where
    pub given : (entries_of s' entry).sc ≡ some chain
    pub others : (k : ℕ) → k ≢ entry → (entries_of s' k).sc ≡ (entries_of s k).sc
    pub table : s'.director.table ≡ s.director.table
    pub sc : s'.sc ≡ s.sc
    pub sc_flip : s'.sc_flip ≡ s.sc_flip
    pub max : s'.max_service_chains ≡ s.max_service_chains
    pub calls : s'.calls ≡ s.calls

  get_sc_and_index_lem :
      (key : Key) (in_index : Option ℕ) (flip : Bool) (x : ℕ) (s : Installer h)
      → (chosen h key in_index s).0 ≡ some x
      → x < (chosen h key in_index s).1.max_service_chains
      → get_sc_and_index_based_on_flow_key h key in_index flip s
        ≡ (let (c, s') = chain_at h flip x (chosen h key in_index s).1 in (some c, some x, s'))
  unfolding get_sc_and_index_based_on_flow_key
  get_sc_and_index_lem key in_index flip x s e lt =
      ap (λ o. chain_for h flip (o, (chosen h key in_index s).1)) e ∙ rw below refl
    where
      below : leb (chosen h key in_index s).1.max_service_chains x ≡ false
      below = ground arith

  -- Choosing a chain changes the turns only, and looks at nothing else.
  record Chose (s s' : Installer h) : Type 0 where
    director : s'.director ≡ s.director
    sc : s'.sc ≡ s.sc
    sc_flip : s'.sc_flip ≡ s.sc_flip
    max : s'.max_service_chains ≡ s.max_service_chains
    calls : s'.calls ≡ s.calls

  index-Chose : (key : Key) (s : Installer h) → Chose s (get_sc_index_based_on_flow_key h key s).1
  unfolding get_sc_index_based_on_flow_key
  index-Chose key s = record {
    director = ground arith;
    sc = ground arith;
    sc_flip = ground arith;
    max = ground arith;
    calls = ground arith;
  }

  chosen-Chose :
      (key : Key) (in_index : Option ℕ) (s : Installer h) → Chose s (chosen h key in_index s).1
  chosen-Chose key none s = index-Chose key s
  chosen-Chose key (some x) s = record {
    director = refl;
    sc = refl;
    sc_flip = refl;
    max = refl;
    calls = refl;
  }

  pub chosen_same :
      (key : Key) (in_index : Option ℕ) (d : Director h) (calls : ℕ) (s : Installer h)
      → (chosen h key in_index (record s { director = d; calls = calls })).0
        ≡ (chosen h key in_index s).0
  unfolding get_sc_index_based_on_flow_key
  chosen_same key none d calls s = ground arith
  chosen_same key (some x) d calls s = refl

  -- The chain at an index, its references counted: entries and table stay.
  record Counted (s s' : Installer h) : Type 0 where
    entries : entries_of s' ≡ entries_of s
    table : s'.director.table ≡ s.director.table
    sc : s'.sc ≡ s.sc
    sc_flip : s'.sc_flip ≡ s.sc_flip
    max : s'.max_service_chains ≡ s.max_service_chains
    calls : s'.calls ≡ s.calls

  chain_at_lem :
      (flip : Bool) (x : ℕ) (s : Installer h)
      → ((chain_at h flip x s).0 ≡ chain_of flip x s) × Counted s (chain_at h flip x s).1
  chain_at_lem true x s = (
    refl,
    record { entries = refl; table = refl; sc = refl; sc_flip = refl; max = refl; calls = refl },
  )
  chain_at_lem false x s = (
    refl,
    record { entries = refl; table = refl; sc = refl; sc_flip = refl; max = refl; calls = refl },
  )

  pub fill_entry_lem :
      (entry fk : ℕ) (key : Key) (in_index : Option ℕ) (flip : Bool) (x : ℕ) (s : Installer h)
      → (chosen h key in_index s).0 ≡ some x
      → x < s.max_service_chains
      → (s' : Installer h) × (fill_entry h flip entry fk key in_index s ≡ some (some x, s'))
        × Filled entry (chain_of flip x s) s s'
  unfolding fill_entry onvm_flow_dir_reset_entry
  fill_entry_lem entry fk key in_index flip x s e lt = (
    set_chain h entry (some c) v,
    ap
        (λ (r : Option ℕ × Option ℕ × Installer h).
          (elim r.0 as (λ _. Option (Option ℕ × Installer h)) [
            | none ↦ none
            | some chain ↦ some (r.1, set_chain h entry (some chain) r.2)
          ]))
        found,
    record {
      given =
          ap (λ (k : FlowEntry). k.sc)
            (update_self (entries_of v) (record (entries_of v entry) { sc = some c }) entry)
          ∙ ap some same;
      others = λ k ne.
          ap (λ (k : FlowEntry). k.sc)
            (update_ne (entries_of v) (record (entries_of v entry) { sc = some c }) entry k ne)
          ∙ ap (λ (f : ℕ → FlowEntry). (f k).sc)
              (counted.entries ∙ ap (λ (d : Director h). d.world.entries) chose.director)
          ∙ begun k ne;
      table = counted.table ∙ ap (λ (d : Director h). d.table) chose.director;
      sc = counted.sc ∙ chose.sc;
      sc_flip = counted.sc_flip ∙ chose.sc_flip;
      max = counted.max ∙ chose.max;
      calls = counted.calls ∙ chose.calls;
    },
  )
    where
      u : Installer h
      u = begin_entry h entry fk key s

      ch : Installer h
      ch = (chosen h key in_index u).1

      chose : Chose u ch
      chose = chosen-Chose key in_index u

      c : ℕ
      c = (chain_at h flip x ch).0

      v : Installer h
      v = (chain_at h flip x ch).1

      counted : Counted ch v
      counted = (chain_at_lem flip x ch).1

      found : get_sc_and_index_based_on_flow_key h key in_index flip u ≡ (some c, some x, v)
      found =
          get_sc_and_index_lem key in_index flip x u
            (chosen_same key in_index u.director s.calls s ∙ e) (omega (arith, lt, chose.max))

      at_index : (b : Bool) → chain_of b x ch ≡ chain_of b x s
      at_index true = ap (λ f. f x) chose.sc_flip
      at_index false = ap (λ f. f x) chose.sc

      same : c ≡ chain_of flip x s
      same = (chain_at_lem flip x ch).0 ∙ at_index flip

      begun : (k : ℕ) → k ≢ entry → (entries_of u k).sc ≡ (entries_of s k).sc
      begun k ne = ground (arith, ne)
