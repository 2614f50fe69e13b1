-- ===== src/Pkt/Place.antt =====
-- What the packet paths leave alone: marking flows moves no packet, and no path changes the services
-- or the number of ports.
use nfvnice_source.Bkpr.{
  write_ft_to_cl_bft, mark_chain, mark_packet, mark_packets, onvm_detect_and_set_back_pressure,
}
use nfvnice_source.Mgr.{Packet, World, Dpdk}
use nfvnice_source.Prelude.{ℕ, ◌≡◌, refl, ◌∙◌, fun_ext, List, [], ◌∷◌, Option, arith}

-- The tables that no packet changes: the NFs of the services, and the chains of the flow entries.
abbrev pub tables : World → (ℕ → List ℕ) × (ℕ → Option ℕ)
tables w = (w.services, λ k. (w.entries k).sc)

mark_chain-places : (i e c ci : ℕ) (w : World) → (mark_chain i e c ci w).places ≡ w.places
unfolding mark_chain write_ft_to_cl_bft
mark_chain-places i e c ci w = ground arith

mark_packet-places :
    (d : Dpdk) (i : ℕ) (p : Packet) (w : World) → (mark_packet d i p w).places ≡ w.places
unfolding mark_packet
mark_packet-places d i p w = grind (arith, mark_chain-places)

mark_packets-places :
    (d : Dpdk) (i : ℕ) (ps : List Packet) (w : World) → (mark_packets d i ps w).places ≡ w.places
unfolding mark_packets
mark_packets-places d i [] w = refl
mark_packets-places d i (p ∷ ps) w =
    mark_packets-places d i ps (mark_packet d i p w) ∙ mark_packet-places d i p w

-- Marking the flows of an NF moves no packet.
pub detect-places :
    (d : Dpdk) (i : ℕ) (ps : List Packet) (w : World)
    → (onvm_detect_and_set_back_pressure d i ps w).places ≡ w.places
unfolding onvm_detect_and_set_back_pressure
detect-places d i ps w = ground (arith, mark_packets-places d i ps w)

mark_chain-services : (i e c ci : ℕ) (w : World) → (mark_chain i e c ci w).services ≡ w.services
unfolding mark_chain write_ft_to_cl_bft
mark_chain-services i e c ci w = ground arith

mark_chain-entries :
    (i e c ci : ℕ) (w : World) (k : ℕ) → ((mark_chain i e c ci w).entries k).sc ≡ (w.entries k).sc
unfolding mark_chain write_ft_to_cl_bft
mark_chain-entries i e c ci w k = grind arith

mark_chain-tables : (i e c ci : ℕ) (w : World) → tables (mark_chain i e c ci w) ≡ tables w
mark_chain-tables i e c ci w =
    rw (mark_chain-services i e c ci w, fun_ext (mark_chain-entries i e c ci w)) refl

mark_packet-tables :
    (d : Dpdk) (i : ℕ) (p : Packet) (w : World) → tables (mark_packet d i p w) ≡ tables w
unfolding mark_packet
mark_packet-tables d i p w = grind (arith, mark_chain-tables)

mark_packets-tables :
    (d : Dpdk) (i : ℕ) (ps : List Packet) (w : World) → tables (mark_packets d i ps w) ≡ tables w
unfolding mark_packets
mark_packets-tables d i [] w = refl
mark_packets-tables d i (p ∷ ps) w =
    mark_packets-tables d i ps (mark_packet d i p w) ∙ mark_packet-tables d i p w

pub detect-tables :
    (d : Dpdk) (i : ℕ) (ps : List Packet) (w : World)
    → tables (onvm_detect_and_set_back_pressure d i ps w) ≡ tables w
unfolding onvm_detect_and_set_back_pressure
detect-tables d i ps w = ground (arith, mark_packets-tables d i ps w)
