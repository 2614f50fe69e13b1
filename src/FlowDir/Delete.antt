-- ===== src/FlowDir/Delete.antt =====
-- Deleting a flow by a packet: the reference count of its chain decides when the flow goes.
use nfvnice_source.FlowDir.{
  RteHash, Director, data_at, onvm_ft_lookup_pkt, onvm_ft_remove_pkt, onvm_flow_dir_get_pkt,
  onvm_flow_dir_del_and_free_pkt, onvm_flow_dir_del_pkt, drop_reference, free_key,
}
use nfvnice_source.FlowDir.Lookup.{Documented, lookup_pkt-key, lookup_pkt-none}
use nfvnice_source.Headers.{Key, onvm_ft_fill_key}
use nfvnice_source.Mgr.{Packet}
use nfvnice_source.Prelude.{
  ℕ, zero, suc, ◌+◌, ◌<◌, ◌≡◌, inl, inr, refl, sym, ap, subst, ◌∙◌, ◌∷◌, Option, none, some,
  Option-cases, ◌==◌, pos, negsuc, arith, true, false,
}

module _ (h : RteHash) (doc : Documented h) (p : Packet) where
  -- `n` calls of `onvm_flow_dir_del_pkt` for the packet; the result of the last one comes with the state.
  pub delete_times : ℕ → Director h → Option (Director h)
  delete_times zero d = some d
  delete_times (suc n) d = elim (onvm_flow_dir_del_pkt h d p) [
    | none ↦ none
    | some (ret, d') ↦ delete_times n d'
  ]

  -- The flow of the packet is entry `i`, which has chain `c` with `r` references.
  pub record Bound (d : Director h) (i c r : ℕ) : Type 0 where
    pub found : onvm_flow_dir_get_pkt h d p ≡ (pos i, some i)
    pub chain : (d.world.entries i).sc ≡ some c
    pub references : (d.world.chains c).ref_cnt ≡ r

  del_pkt-more :
      (d : Director h) (i c r : ℕ)
      → Bound d i c (suc r)
      → onvm_flow_dir_del_pkt h d p ≡ some (pos i, drop_reference h c d)
  unfolding onvm_flow_dir_del_pkt
  del_pkt-more d i c r b =
      rw (onvm_flow_dir_del_pkt, b.found)
        (rw (b.chain) (rw (more) (ap (λ r. some (r.0, drop_reference h c d)) b.found)))
    where
      more : ((d.world.chains c).ref_cnt == 0) ≡ false
      more = ground (arith, b.references)

  del_pkt-last :
      (d : Director h) (i c : ℕ)
      → Bound d i c 0
      → onvm_flow_dir_del_pkt h d p
        ≡ some (onvm_flow_dir_del_and_free_pkt h (drop_reference h c d) p)
  unfolding onvm_flow_dir_del_pkt
  del_pkt-last d i c b = rw (onvm_flow_dir_del_pkt, b.found) (rw (b.chain) (rw (last) refl))
    where
      last : ((d.world.chains c).ref_cnt == 0) ≡ true
      last = ground (arith, b.references)

  drop_reference-Bound :
      (d : Director h) (i c r : ℕ)
      → suc r < 256
      → Bound d i c (suc r)
      → Bound (drop_reference h c d) i c r
  unfolding onvm_flow_dir_get_pkt
  drop_reference-Bound d i c r small b = record {
    found = b.found;
    chain = b.chain;
    references = ground (arith, b.references);
  }

  -- After `n` of `n + m` references are gone.
  delete_times-more :
      (n m : ℕ) (d : Director h) (i c : ℕ)
      → n + m < 256
      → Bound d i c (n + m)
      → (d' : Director h) × (delete_times n d ≡ some d')
        × Bound d' i c m
        × (d'.freed ≡ d.freed)
        × ((d'.world.entries i).key ≡ (d.world.entries i).key)
  unfolding delete_times
  delete_times-more zero m d i c small b =
      (d, refl, subst (Bound d i c) (omega arith) b, refl, refl)
  delete_times-more (suc n) m d i c small b =
      let b' : Bound d i c (suc (n + m)) = subst (Bound d i c) (omega arith) b in
      let (d', ran, b'', fr, k) =
        delete_times-more n m (drop_reference h c d) i c (omega arith)
          (drop_reference-Bound d i c (n + m) (omega arith) b') in
      (d', rw (delete_times, del_pkt-more d i c (n + m) b') ran, b'', fr, k)

  free_key-freed :
      (e k : ℕ) (d : Director h)
      → (d.world.entries e).key ≡ some k
      → (free_key h e d).freed ≡ k ∷ d.freed
  unfolding free_key
  free_key-freed e k d at = rw (free_key, at) refl

  remove_pkt-key :
      (t : h.Table) (k : Key)
      → onvm_ft_fill_key p.bytes ≡ some k
      → onvm_ft_remove_pkt h t p ≡ h.del_key_with_hash t k p.rss
  unfolding onvm_ft_remove_pkt
  remove_pkt-key t k e = rw (onvm_ft_remove_pkt, e) refl

  del_and_free_pkt_lem :
      (d : Director h) (i k : ℕ)
      → onvm_flow_dir_get_pkt h d p ≡ (pos i, some i)
      → (d.world.entries i).key ≡ some k
      → let r = onvm_flow_dir_del_and_free_pkt h d p in
        (r.0 ≡ pos i)
        × (r.1.freed ≡ k ∷ d.freed)
        × (onvm_flow_dir_get_pkt h r.1 p ≡ (negsuc 1, none))
  unfolding onvm_flow_dir_del_and_free_pkt onvm_flow_dir_get_pkt
  del_and_free_pkt_lem d i k found key =
      rw (onvm_flow_dir_del_and_free_pkt, found)
        (elim (Option-cases (onvm_ft_fill_key p.bytes)) [
          | inl e ↦ absurd (no_key e)
          | inr (five, e) ↦
              let at : h.lookup_with_hash d.table five p.rss ≡ pos i =
                ap (λ r. r.0) (sym (lookup_pkt-key h doc d.table p five e) ∙ found) in
              let gone = doc.deleted d.table five p.rss i at in
              (
                ap (λ r. r.0) (remove_pkt-key d.table five e) ∙ gone.0,
                free_key-freed i k d key,
                ap (λ r. onvm_ft_lookup_pkt h r.1 p) (remove_pkt-key d.table five e)
                    ∙ lookup_pkt-key h doc _ p five e
                    ∙ ap (λ x. (x, data_at x)) gone.1,
              )
        ])
    where
      no_key : onvm_ft_fill_key p.bytes ≡ none → ⊥
      no_key e = cc (ap (λ r. r.0) (sym (lookup_pkt-none h doc d.table p e) ∙ found))

  -- The flow of a packet is entry `i`, with a key and a chain that has `r` references. After `r`
  -- deletions the flow is still found; one more deletion, with the result `i`, makes it unknown
  -- (-ENOENT) and frees its key, the only one that was freed.
  pub del_pkt_last :
      (d : Director h) (i c r k : ℕ)
      → r < 256
      → Bound d i c r
      → (d.world.entries i).key ≡ some k
      → (d1 d2 : Director h) × (delete_times r d ≡ some d1)
        × (onvm_flow_dir_get_pkt h d1 p ≡ (pos i, some i))
        × (onvm_flow_dir_del_pkt h d1 p ≡ some (pos i, d2))
        × (onvm_flow_dir_get_pkt h d2 p ≡ (negsuc 1, none))
        × (d2.freed ≡ k ∷ d.freed)
  unfolding onvm_flow_dir_get_pkt
  del_pkt_last d i c r k small b key =
      let (d1, ran, b1, fr, same) =
        delete_times-more r 0 d i c (omega arith) (subst (Bound d i c) (omega arith) b) in
      let (ret, freed, gone) =
        del_and_free_pkt_lem (drop_reference h c d1) i k b1.found (same ∙ key) in
      let d2 = (onvm_flow_dir_del_and_free_pkt h (drop_reference h c d1) p).1 in
      (
        d1,
        d2,
        ran,
        b1.found,
        del_pkt-last d1 i c b1 ∙ ap (λ x. some (x, d2)) ret,
        gone,
        freed ∙ ap (λ l. k ∷ l) fr,
      )
