-- ===== src/FlowDir/Lookup.antt =====
-- Adding a flow and looking it up again, over a hash table that does what its documentation says.
use nfvnice_source.FlowDir.{RteHash, not_supported, data_at, onvm_ft_lookup_pkt}
use nfvnice_source.Headers.{Key, onvm_ft_fill_key}
use nfvnice_source.Mgr.{Packet}
use nfvnice_source.Prelude.{ℕ, ◌≡◌, ◌≢◌, refl, none, some, pos, negsuc}

-- The documentation of `rte_hash`, for keys with the hash that belongs to them: an added key is found
-- where it was put, a deleted one is not found (-ENOENT), and other keys stay where they are.
pub record Documented (h : RteHash) : Type 0 where
  pub added :
      (t : h.Table) (k : Key) (s i : ℕ)
      → (h.add_key_with_hash t k s).0 ≡ pos i
      → h.lookup_with_hash (h.add_key_with_hash t k s).1 k s ≡ pos i
  pub added_other :
      (t : h.Table) (k k' : Key) (s s' : ℕ)
      → k ≢ k'
      → h.lookup_with_hash (h.add_key_with_hash t k s).1 k' s' ≡ h.lookup_with_hash t k' s'
  pub deleted :
      (t : h.Table) (k : Key) (s i : ℕ)
      → h.lookup_with_hash t k s ≡ pos i
      → ((h.del_key_with_hash t k s).0 ≡ pos i)
        × (h.lookup_with_hash (h.del_key_with_hash t k s).1 k s ≡ negsuc 1)
  pub deleted_other :
      (t : h.Table) (k k' : Key) (s s' : ℕ)
      → k ≢ k'
      → h.lookup_with_hash (h.del_key_with_hash t k s).1 k' s' ≡ h.lookup_with_hash t k' s'

module _ (h : RteHash) (doc : Documented h) where
  pub lookup_pkt-key :
      (t : h.Table) (p : Packet) (k : Key)
      → onvm_ft_fill_key p.bytes ≡ some k
      → onvm_ft_lookup_pkt h t p
        ≡ (h.lookup_with_hash t k p.rss, data_at (h.lookup_with_hash t k p.rss))
  unfolding onvm_ft_lookup_pkt
  lookup_pkt-key t p k e = rw (onvm_ft_lookup_pkt, e) refl

  pub lookup_pkt-none :
      (t : h.Table) (p : Packet)
      → onvm_ft_fill_key p.bytes ≡ none
      → onvm_ft_lookup_pkt h t p ≡ (not_supported, none)
  unfolding onvm_ft_lookup_pkt
  lookup_pkt-none t p e = rw (onvm_ft_lookup_pkt, e) refl
