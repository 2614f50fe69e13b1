-- ===== src/Headers/Swap.antt =====
-- What the exchange of MAC addresses leaves in a frame.
use nfvnice_source.Prelude.{ℕ, ◌≡◌, refl, List, [], ◌∷◌}
use nfvnice_source.Headers.{onvm_pkt_mac_addr_swap}

abbrev six : ℕ → ℕ → ℕ → ℕ → ℕ → ℕ → List ℕ → List ℕ
six a b c d e f rest = a ∷ b ∷ c ∷ d ∷ e ∷ f ∷ rest

-- For every frame and port: the old source becomes the destination, the rest of the frame stays, and
-- the new source is what the uninitialised local variable holds, whatever the address of the port is.
onvm_pkt_mac_addr_swap_lem :
    (d0 d1 d2 d3 d4 d5 s0 s1 s2 s3 s4 s5 m0 m1 m2 m3 m4 m5 u0 u1 u2 u3 u4 u5 : ℕ) (rest : List ℕ)
    → onvm_pkt_mac_addr_swap
        (six u0 u1 u2 u3 u4 u5 [])
        (six m0 m1 m2 m3 m4 m5 [])
        (six d0 d1 d2 d3 d4 d5 (six s0 s1 s2 s3 s4 s5 rest))
      ≡ six s0 s1 s2 s3 s4 s5 (six u0 u1 u2 u3 u4 u5 rest)
unfolding onvm_pkt_mac_addr_swap
onvm_pkt_mac_addr_swap_lem d0 d1 d2 d3 d4 d5 s0 s1 s2 s3 s4 s5 m0 m1 m2 m3 m4 m5 u0 u1 u2 u3 u4 u5
      rest =
    refl
