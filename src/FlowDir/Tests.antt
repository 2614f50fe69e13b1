-- ===== src/FlowDir/Tests.antt =====
-- The flow director over a hash table that is a function from keys to places, and gives place 2 to all.
use nfvnice_source.FlowDir.{
  RteHash, Director, onvm_ft_lookup_key, onvm_ft_lookup_pkt, onvm_flow_dir_get_pkt,
  onvm_flow_dir_get_key, onvm_flow_dir_del_pkt,
}
use nfvnice_source.FlowDir.Delete.{delete_times, del_pkt_last}
use nfvnice_source.FlowDir.Entries.{onvm_flow_dir_clear_all_entries}
use nfvnice_source.FlowDir.Kept.{Whole, clear_all_entries_lem}
use nfvnice_source.FlowDir.Lookup.{Documented}
use nfvnice_source.FlowDir.Sample.{with_key, with_key_self, with_key_other, flow, flow-IsKey}
use nfvnice_source.Headers.{Key, onvm_ft_fill_key}
use nfvnice_source.Headers.Frame.{frame, onvm_ft_fill_key-frame}
use nfvnice_source.Mgr.{Packet, no_entry}
use nfvnice_source.Mgr.Sample
use nfvnice_source.Prelude.{
  ◌≡◌, refl, sym, ◌∙◌, [], ◌∷◌, none, some, none-some, arith, ℤ, pos, negsuc,
}

-- The table is a function from keys to what a lookup gives; every key gets place 2.
abbrev hash : RteHash
hash = record {
  Table = Key → ℤ;
  add_key_with_hash = λ t k s. (pos 2, with_key t k (pos 2));
  lookup_with_hash = λ t k s. t k;
  del_key_with_hash = λ t k s. (t k, with_key t k (negsuc 1));
  del_key = λ t k. (t k, with_key t k (negsuc 1));
  softrss_be = λ a b c e. 5;
}

hash-Documented : Documented hash
hash-Documented = record {
  added = λ t k s i e. with_key_self t k (pos 2) ∙ e;
  added_other = λ t k k' s s' ne. with_key_other t k k' (pos 2) ne;
  deleted = λ t k s i e. (e, with_key_self t k (negsuc 1));
  deleted_other = λ t k k' s s' ne. with_key_other t k k' (negsuc 1) ne;
}

-- A packet of the flow.
abbrev packet : Packet
packet = record (Sample.packet 9 1) { bytes = frame flow 64 []; rss = 5 }

packet_key : onvm_ft_fill_key packet.bytes ≡ some flow
packet_key = onvm_ft_fill_key-frame flow 64 [] flow-IsKey

-- Entry 2 has key 6 and chain 1, with 3 references; no key is in the table.
abbrev director : Director hash
director = record {
  world = record Sample.world {
    chains = λ c. record Sample.chain { ref_cnt = 3 };
    entries = λ e. record no_entry { key = some 6; sc = some 1 };
  };
  table = λ k. negsuc 1;
  keys = λ k. flow;
  freed = [];
}

-- The same with the flow in the table.
abbrev bound : Director hash
bound = record director { table = λ k. pos 2 }

found_at : onvm_flow_dir_get_pkt hash bound packet ≡ (pos 2, some 2)
unfolding onvm_flow_dir_get_pkt onvm_ft_lookup_pkt
found_at = rw (packet_key, onvm_ft_lookup_pkt) refl

del_pkt_last_example :
    (d1 d2 : Director hash) × (delete_times hash hash-Documented packet 3 bound ≡ some d1)
    × (onvm_flow_dir_get_pkt hash d1 packet ≡ (pos 2, some 2))
    × (onvm_flow_dir_del_pkt hash d1 packet ≡ some (pos 2, d2))
    × (onvm_flow_dir_get_pkt hash d2 packet ≡ (negsuc 1, none))
    × (d2.freed ≡ 6 ∷ [])
del_pkt_last_example =
    del_pkt_last hash hash-Documented packet bound 2 1 3 6 (omega arith)
      (record { found = found_at; chain = refl; references = refl }) refl

bound-Whole : Whole hash bound
unfolding onvm_flow_dir_get_key onvm_ft_lookup_key
bound-Whole = record { bound = λ e x. none-some (sym x); found = λ e k x. refl }

clear_all_entries_lem_example :
    (d' : Director hash) × (onvm_flow_dir_clear_all_entries hash 4 bound ≡ some (0, d'))
    × ((key : Key) → onvm_flow_dir_get_key hash d' key ≡ onvm_flow_dir_get_key hash bound key)
clear_all_entries_lem_example = clear_all_entries_lem hash 4 bound (omega arith) bound-Whole
