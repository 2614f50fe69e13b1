-- ===== src/Bkpr/Tests.antt =====
-- Back pressure on the sample manager, with the list of NF 1.
use nfvnice_source.Bits.{test_bit}
use nfvnice_source.Bits.Laws.{IsPosition, set_bit-lt}
use nfvnice_source.Bkpr.{mark_chain, no_backlog, write_ft_to_cl_bft, read_all_ft_frm_cl_bft}
use nfvnice_source.Bkpr.Clear.{AreBytes, marked, names, read_all_ft_frm_cl_bft_lem}
use nfvnice_source.Bkpr.Mark.{mark_chain-Holds}
use nfvnice_source.Bkpr.Ring.{Holds}
use nfvnice_source.Bkpr.Stale.{mark_chain-read_all}
use nfvnice_source.Mgr.{World, Packet}
use nfvnice_source.Mgr.Sample.{packet, world, no_backlogs}
use nfvnice_source.Prelude.Circle.{advance, advance-zero, window-zero}
use nfvnice_source.Pkt.{is_throttled}
use nfvnice_source.Pkt.Throttle.{read_all-is_throttled}
use nfvnice_source.Prelude.{
  some, true, false, ◌↔◌, ℕ, zero, suc, none, get_or, sym, ◌≡◌, refl, not, ◌&&◌, ◌||◌, [], ◌∷◌, ltb,
  if◌then◌else◌, arith,
}

blank_at : (j : ℕ) → (get_or no_backlogs.bft j no_backlog).flow ≡ none
blank_at zero = refl
blank_at (suc zero) = refl
blank_at (suc (suc zero)) = refl
blank_at (suc (suc (suc j))) = refl

no_marks : Holds no_backlogs []
no_marks = record {
  elements = omega arith;
  small = omega arith;
  read_in = omega arith;
  count = refl;
  room = omega arith;
  write_at = sym (advance-zero 3 0);
  items = window-zero 3 no_backlog no_backlogs.bft 0;
  blank = λ k h l. blank_at (advance 3 0 k);
}

-- The words of the sample hold no mark.
bytes : AreBytes world.chains
bytes c = omega arith

second : IsPosition 2
second = (omega arith, omega arith)

-- The manager with position 2 of chain 1 marked for NF 1.
abbrev marked_world : World
marked_world = mark_chain 1 4 1 2 world

one_mark : Holds (marked_world.clients 1).bft_list ((4, 2) ∷ [])
unfolding test_bit
one_mark = mark_chain-Holds 1 4 1 2 [] world second no_marks

marked_bytes : AreBytes marked_world.chains
unfolding mark_chain write_ft_to_cl_bft
marked_bytes c = ground (arith, set_bit-lt 0 2)

read_all_ft_frm_cl_bft_lem_example :
    let w' = read_all_ft_frm_cl_bft 1 marked_world in
    Holds (w'.clients 1).bft_list []
    × ((c j : ℕ)
        → IsPosition j
        → marked w' c j
          ≡ (not (names marked_world.entries ((4, 2) ∷ []) c j) && marked marked_world c j))
read_all_ft_frm_cl_bft_lem_example =
    read_all_ft_frm_cl_bft_lem 1 ((4, 2) ∷ []) marked_world one_mark (second, tt) marked_bytes

mark_chain-Holds_example :
    Holds
      ((mark_chain 1 4 1 2 world).clients 1).bft_list
      (if marked world 1 2 then [] else if ltb 1 3 then (4, 2) ∷ [] else [])
mark_chain-Holds_example = mark_chain-Holds 1 4 1 2 [] world second no_marks

mark_chain-read_all_example :
    marked (read_all_ft_frm_cl_bft 1 (mark_chain 1 4 1 2 world)) 1 2
    ≡ not (ltb 1 3 || names world.entries [] 1 2)
unfolding test_bit
mark_chain-read_all_example =
    mark_chain-read_all 1 4 1 2 [] world refl second no_marks tt bytes refl

-- A packet of flow 4 at its first NF.
abbrev first_packet : Packet
first_packet = packet 5 1

read_all-is_throttled_example :
    (is_throttled (read_all_ft_frm_cl_bft 1 marked_world) (some 4) first_packet ≡ true) ↔ (
      (j : ℕ) × IsPosition j
      × (marked marked_world 1 j ≡ true)
      × (names marked_world.entries ((4, 2) ∷ []) 1 j ≡ false))
unfolding mark_chain write_ft_to_cl_bft test_bit
read_all-is_throttled_example =
    read_all-is_throttled 1 4 1 ((4, 2) ∷ []) marked_world first_packet refl one_mark (second, tt)
      marked_bytes refl
