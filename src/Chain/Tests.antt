-- ===== src/Chain/Tests.antt =====
-- Chains that are built and followed.
use nfvnice_source.Action
use nfvnice_source.Chain.{Chain, no_entry, onvm_sc_create, onvm_next_action, onvm_next_destination}
use nfvnice_source.Chain.Steps.{IsValid, build, onvm_next-build}
use nfvnice_source.Prelude.{ℕ, ◌≡◌, refl, [], ◌∷◌, replicate, arith}

-- To service 5, then out on port 1; and a chain with no room left.
abbrev two_steps : Chain
two_steps = record {
  sc =
      no_entry
      ∷ record { destination = 5; action = Action.tonf }
      ∷ record { destination = 1; action = Action.out }
      ∷ replicate 10 no_entry;
  chain_length = 2;
  ref_cnt = 0;
  overflowing = 0;
  nf_instances_mapped = 0;
  nf_instance_id = replicate 13 0;
}

abbrev full : Chain
full = record two_steps { chain_length = 12 }

two_steps-IsValid : IsValid two_steps
two_steps-IsValid = record { elements = refl; fits = omega arith }

full-IsValid : IsValid full
full-IsValid = record { elements = refl; fits = omega arith }

onvm_next-build_example :
    let c = build onvm_sc_create (record { destination = 4; action = 2 } ∷ []) in
    let first : ℕ × ℕ = (2, 4) in (onvm_next_action c 0, onvm_next_destination c 0) ≡ first
onvm_next-build_example =
    onvm_next-build (record { destination = 4; action = 2 } ∷ []) 0 (omega arith)
