-- ===== src/Ringbuf/Tests.antt =====
-- A ring of three slots with one entry.
use nfvnice_source.Ringbuf.{Ring, onvm_su_ring_enqueu, onvm_su_ring_dequeue}
use nfvnice_source.Ringbuf.Queue.{
  IsValid, contents, has_room, onvm_su_ring_enqueu-contents, onvm_su_ring_dequeue-contents,
}
use nfvnice_source.Prelude.Circle.{advance-zero, advance-suc}
use nfvnice_source.Prelude.{
  ◌≡◌, ◌⊎◌, refl, sym, ◌∙◌, [], ◌∷◌, ◌++◌, set, replicate, arith, negsuc, if◌then◌else◌,
}

abbrev one_entry : Ring
one_entry = record { r_count = 1; r_h = 1; w_h = 2; max_len = 3; ring = set (replicate 512 0) 1 77 }

one_entry-IsValid : IsValid one_entry
one_entry-IsValid = record {
  elements = refl;
  small = omega arith;
  read_in = omega arith;
  room = omega arith;
  write_at = sym (advance-suc 3 1 0 ∙ advance-zero 3 2);
}

onvm_su_ring_enqueu-contents_example :
    let (ret, r') = onvm_su_ring_enqueu one_entry 78 in
    (ret ≡ (if has_room one_entry then negsuc 1 else negsuc 0))
    × (contents r'
        ≡ (if has_room one_entry then contents one_entry ++ 78 ∷ [] else contents one_entry))
    × IsValid r'
onvm_su_ring_enqueu-contents_example =
    onvm_su_ring_enqueu-contents one_entry 78 one_entry-IsValid (omega arith)

onvm_su_ring_dequeue-contents_example :
    let (ret, entry, r') = onvm_su_ring_dequeue one_entry in
    ((contents one_entry ≡ []) × (ret ≡ negsuc 0) × (entry ≡ 0) × (r' ≡ one_entry)
      ⊎ (ret ≡ negsuc 1) × (contents one_entry ≡ entry ∷ contents r'))
    × IsValid r'
onvm_su_ring_dequeue-contents_example = onvm_su_ring_dequeue-contents one_entry one_entry-IsValid
