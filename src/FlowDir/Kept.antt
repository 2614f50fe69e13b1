-- ===== src/FlowDir/Kept.antt =====
-- What deleting by key leaves as it was, and clearing all entries with it.
use nfvnice_source.FlowDir.{
  RteHash, Director, onvm_ft_lookup_key, onvm_flow_dir_get_key, onvm_flow_dir_del_and_free_key,
  onvm_flow_dir_del_key, drop_reference, free_key,
}
use nfvnice_source.FlowDir.Entries.{counts, clear_all_from, onvm_flow_dir_clear_all_entries}
use nfvnice_source.Headers.{Key}
use nfvnice_source.Prelude.{
  ℕ, zero, suc, ◌+◌, ◌^◌, ◌<◌, ◌≡◌, ◌≢◌, inl, inr, refl, sym, ap, ap₂, ◌∙◌, none, some, Bool, true,
  false, Bool-cases, Option-cases, arith, ◌==◌, ==_iff, if◌then◌else◌, ℤ,
}

module _ (h : RteHash) where
  -- Keys may go, all else that a later deletion looks at stays.
  pub record Kept (d d' : Director h) : Type 0 where
    pub table : d'.table ≡ d.table
    pub keys : d'.keys ≡ d.keys
    pub chain : (e : ℕ) → (d'.world.entries e).sc ≡ (d.world.entries e).sc
    pub keyed : (e k : ℕ) → (d'.world.entries e).key ≡ some k → (d.world.entries e).key ≡ some k

  Kept-refl : (d : Director h) → Kept d d
  Kept-refl d = record { table = refl; keys = refl; chain = λ e. refl; keyed = λ e k x. x }

  Kept-trans : {a b c : Director h} → Kept a b → Kept b c → Kept a c
  Kept-trans p q = record {
    table = q.table ∙ p.table;
    keys = q.keys ∙ p.keys;
    chain = λ e. q.chain e ∙ p.chain e;
    keyed = λ e k x. p.keyed e k (q.keyed e k x);
  }

  drop_reference-Kept : (d : Director h) (c : ℕ) → Kept d (drop_reference h c d)
  drop_reference-Kept d c = record {
    table = refl;
    keys = refl;
    chain = λ e. refl;
    keyed = λ e k x. x;
  }

  abbrev Ends : (ℤ × Director h) → Director h → Key → Type 0
  Ends r d key = (r.0 ≡ (onvm_flow_dir_get_key h d key).0) × Kept d r.1

  get_key-table :
      (d d' : Director h) (key : Key)
      → d.table ≡ d'.table
      → (onvm_flow_dir_get_key h d key).0 ≡ (onvm_flow_dir_get_key h d' key).0
  unfolding onvm_flow_dir_get_key
  get_key-table d d' key e = ap (λ t. (onvm_ft_lookup_key h t key).0) e

  free_key-table : (entry : ℕ) (d : Director h) → (free_key h entry d).table ≡ d.table
  unfolding free_key
  free_key-table entry d = elim (Option-cases (d.world.entries entry).key) [
    | inl e ↦ rw (free_key, e) refl
    | inr (k, e) ↦ rw (free_key, e) refl
  ]

  free_key-keys : (entry : ℕ) (d : Director h) → (free_key h entry d).keys ≡ d.keys
  unfolding free_key
  free_key-keys entry d = elim (Option-cases (d.world.entries entry).key) [
    | inl e ↦ rw (free_key, e) refl
    | inr (k, e) ↦ rw (free_key, e) refl
  ]

  del_and_free-Kept :
      (d : Director h) (key : Key) → Ends (onvm_flow_dir_del_and_free_key h d key) d key
  unfolding onvm_flow_dir_del_and_free_key
  del_and_free-Kept d key = elim (Option-cases (onvm_flow_dir_get_key h d key).1) [
    | inl e ↦ rw (onvm_flow_dir_del_and_free_key, e) (refl, Kept-refl d)
    | inr (entry, e) ↦
        rw (onvm_flow_dir_del_and_free_key, e)
          (
            refl,
            record {
              table = free_key-table entry d;
              keys = free_key-keys entry d;
              chain = λ t. elim (Bool-cases (t == entry)) [
                | inl x ↦ rw x (ap (λ y. (d.world.entries y).sc) (sym ((==_iff t entry).0 x)))
                | inr x ↦ rw x refl
              ];
              keyed = λ t k. keyed_lem entry t k (t == entry);
            },
          )
  ]
    where
      keyed_lem :
          (entry t k : ℕ) (b : Bool)
          → (if b then record (d.world.entries entry) { key = none } else d.world.entries t).key
            ≡ some k
          → (d.world.entries t).key ≡ some k
      keyed_lem entry t k true x = cc
      keyed_lem entry t k false x = x

  del_key-Kept :
      (d : Director h) (key : Key)
      → ((e : ℕ) → (d.world.entries e).sc ≢ none)
      → (r : ℤ × Director h) × (onvm_flow_dir_del_key h d key ≡ some r) × Ends r d key
  unfolding onvm_flow_dir_del_key
  del_key-Kept d key bound = elim (Option-cases (onvm_flow_dir_get_key h d key).1) [
    | inl e ↦ (
      ((onvm_flow_dir_get_key h d key).0, d),
      rw (onvm_flow_dir_del_key, e) refl,
      (refl, Kept-refl d),
    )
    | inr (entry, e) ↦ elim (Option-cases (d.world.entries entry).sc) [
      | inl unbound ↦ absurd (bound entry unbound)
      | inr (c, at) ↦ elim (Bool-cases ((d.world.chains c).ref_cnt == 0)) [
        | inl last ↦ (
          onvm_flow_dir_del_and_free_key h (drop_reference h c d) key,
          rw (onvm_flow_dir_del_key, e) (rw (at) (rw last refl)),
          after_drop c (del_and_free-Kept (drop_reference h c d) key),
        )
        | inr more ↦ (
          ((onvm_flow_dir_get_key h d key).0, drop_reference h c d),
          rw (onvm_flow_dir_del_key, e) (rw (at) (rw more refl)),
          (refl, drop_reference-Kept d c),
        )
      ]
    ]
  ]
    where
      after_drop : {r : ℤ × Director h} (c : ℕ) → Ends r (drop_reference h c d) key → Ends r d key
      after_drop c x = (
        x.0 ∙ get_key-table (drop_reference h c d) d key refl,
        Kept-trans (drop_reference-Kept d c) x.1,
      )

  -- Every entry has a chain, and the key of every entry that has one is in the hash table.
  pub record Whole (d : Director h) : Type 0 where
    pub bound : (e : ℕ) → (d.world.entries e).sc ≢ none
    pub found :
        (e k : ℕ)
        → (d.world.entries e).key ≡ some k
        → counts h (onvm_flow_dir_get_key h d (d.keys k)).0 ≡ 1

  Kept-Whole : {d d' : Director h} → Kept d d' → Whole d → Whole d'
  Kept-Whole {d} {d'} k v = record {
    bound = λ e n. v.bound e (sym (k.chain e) ∙ n);
    found = λ e p x.
        ap (λ (keys : ℕ → Key). counts h (onvm_flow_dir_get_key h d' (keys p)).0) k.keys
        ∙ ap (counts h) (get_key-table d' d (d.keys p) k.table)
        ∙ v.found e p (k.keyed e p x);
  }

  clear_all_from-Kept :
      (left t n : ℕ) (d : Director h)
      → Whole d
      → n + left < 2 ^ 32
      → (d' : Director h) × (clear_all_from h left t n n d ≡ some (0, d')) × Kept d d'
  unfolding clear_all_from
  clear_all_from-Kept zero t n d v s = (d, ap (λ (k : ℕ). some (k, d)) (omega arith), Kept-refl d)
  clear_all_from-Kept (suc left) t n d v s = elim (Option-cases (d.world.entries t).key) [
    | inl e ↦ rw (clear_all_from, e) (clear_all_from-Kept left (t + 1) n d v (omega arith))
    | inr (k, e) ↦
        let (r, ran, (same, kept)) = del_key-Kept d (d.keys k) v.bound in
        let one : counts h r.0 ≡ 1 = ap (counts h) same ∙ v.found t k e in
        let (d', rest, kept') =
          clear_all_from-Kept left (t + 1) (n + 1) r.1 (Kept-Whole kept v) (omega arith) in
        (
          d',
          rw (clear_all_from, e)
              (rw ran (
                ap₂ (λ a b. clear_all_from h left (t + 1) a b r.1) (omega arith) (omega arith)
                ∙ rest)),
          Kept-trans kept kept',
        )
  ]

  -- A flow table with fewer than 2 ^ 32 entries, where every entry has a chain and the keys of the
  -- entries are in the hash table. Clearing all entries runs to its end and returns 0, as for a full
  -- success, and afterwards every flow is found in the hash table as before.
  pub clear_all_entries_lem :
      (n : ℕ) (d : Director h)
      → n < 2 ^ 32
      → Whole d
      → (d' : Director h) × (onvm_flow_dir_clear_all_entries h n d ≡ some (0, d'))
        × ((key : Key) → onvm_flow_dir_get_key h d' key ≡ onvm_flow_dir_get_key h d key)
  unfolding onvm_flow_dir_clear_all_entries onvm_flow_dir_get_key
  clear_all_entries_lem n d small v =
      let (d', ran, kept) = clear_all_from-Kept n 0 0 d v (omega arith) in
      (d', ran, λ key. ap (λ t. onvm_ft_lookup_key h t key) kept.table)
