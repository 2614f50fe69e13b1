-- ===== src/Installer/Made.antt =====
-- What the chains of a row look like to the packets that follow them.
use nfvnice_source.Chain.{Chain, onvm_sc_create, onvm_next_action, onvm_next_destination}
use nfvnice_source.Chain.Steps.{length-build, build, onvm_next-build, step_or_drop}
use nfvnice_source.Installer.Rows.{
  setup_service_chain_for_flow_entry, last_index_from, last_index, flip_from, row_from,
}
use nfvnice_source.Prelude.{
  ℕ, zero, suc, ◌+◌, ◌-◌, ◌≤◌, ◌<◌, ◌≡◌, refl, sym, ap, ap₂, ◌∙◌, none, some, Bool, true, false,
  length, arith, leb, ltb, ◌==◌, if◌then◌else◌, ℤ, pos, negsuc,
}
use nfvnice_source.Installer.Flip.{
  to_service, downs, ups, last_index_lem, flip_from-build, row_from-build, get_elem?-downs,
  get_elem?-ups, length-downs, length-ups, Row,
}

-- What a packet at position `k` of a chain is told.
abbrev pub told : Chain → ℕ → ℕ × ℕ
told c k = (onvm_next_action c k, onvm_next_destination c k)

-- The chain that is made of row `i`, of `m` rows.
abbrev pub made : (ℕ → ℤ) → ℕ → ℕ → ℕ → Bool → Chain
made services m i next_sc rev_order =
    (setup_service_chain_for_flow_entry services m onvm_sc_create (some i) rev_order next_sc).2

made-loops :
    (services : ℕ → ℤ) (m i next_sc : ℕ) (rev_order : Bool)
    → i < m
    → made services m i next_sc rev_order ≡ (
        if rev_order
        then flip_from services i (last_index services i) (last_index services i) onvm_sc_create
        else row_from services i 12 0 onvm_sc_create)
unfolding setup_service_chain_for_flow_entry
made-loops services m i next_sc rev_order h = ap₂ by_tests some_rows in_rows
  where
    some_rows : (m == 0) ≡ false
    some_rows = ground arith

    in_rows : leb m i ≡ false
    in_rows = ground arith

    by_tests : Bool → Bool → Chain
    by_tests no_rows outside =
        (if no_rows
          then (negsuc 0, next_sc, onvm_sc_create)
          else elim (if outside then none else some i) as (λ _. ℤ × ℕ × Chain) [
            | none ↦ (
              pos next_sc,
              if next_sc == m - 1 then 0 else next_sc + 1,
              row_from services next_sc 12 0 onvm_sc_create,
            )
            | some j ↦ (
              pos j,
              next_sc,
              if rev_order
                  then flip_from services j (last_index services j) (last_index services j)
                      onvm_sc_create
                  else row_from services j 12 0 onvm_sc_create,
            )
          ]).2

module _ (services : ℕ → ℤ) (m i n next_sc : ℕ) (f : ℕ → ℕ) (row : Row services i n f)
    (nonempty : 0 < n) (there : i < m) where
  made-flip :
      n < 12 → made services m i next_sc true ≡ build onvm_sc_create (downs f (f (n - 1)) (n - 1))
  made-flip short =
      made-loops services m i next_sc true there
      ∙ ap (λ last. flip_from services i last last onvm_sc_create)
          (last_index_lem services i n f 12 0 row nonempty short refl ∙ whole)
      ∙ ap (λ last. flip_from services i last (suc (n - 1)) onvm_sc_create) (sym whole)
      ∙ flip_from-build services i n f (n - 1) onvm_sc_create row (omega arith)
    where
      whole : n ≡ suc (n - 1)
      whole = omega arith

  made-row : n ≤ 12 → made services m i next_sc false ≡ build onvm_sc_create (ups f n 0)
  made-row short =
      made-loops services m i next_sc false there
      ∙ row_from-build services i n f 12 0 n onvm_sc_create row refl (omega arith) short

  -- A row of 1 to 11 services, with -1 behind them, at an index that there is a chain for: the chain leads
  -- through the services in order, and the flipped one through all but the last in reverse order and then
  -- through the last; behind them both drop.
  pub setup_service_chain_lem :
      (k : ℕ)
      → n < 12
      → (told (made services m i next_sc false) k
          ≡ step_or_drop (if ltb k n then some (to_service (f k)) else none))
        × (told (made services m i next_sc true) k
            ≡ step_or_drop (
                if ltb k (n - 1)
                then some (to_service (f (n - 2 - k)))
                else if k == n - 1
                then some (to_service (f (n - 1)))
                else none))
  setup_service_chain_lem k short = (
    ap (λ c. told c k) (made-row (omega arith))
        ∙ onvm_next-build (ups f n 0) k (omega (arith, length-ups f n 0))
        ∙ ap step_or_drop (get_elem?-ups f n 0 k ∙ from_start),
    ap (λ c. told c k) (made-flip short)
        ∙ onvm_next-build (downs f (f (n - 1)) (n - 1)) k
            (omega (arith, length-downs f (f (n - 1)) (n - 1)))
        ∙ ap step_or_drop (get_elem?-downs f (f (n - 1)) (n - 1) k ∙ two_less),
  )
    where
      from_start :
          (if ltb k n then some (to_service (f (0 + k))) else none)
          ≡ (if ltb k n then some (to_service (f k)) else none)
      from_start = ground arith

      two_less :
          (if ltb k (n - 1)
            then some (to_service (f (n - 1 - 1 - k)))
            else if k == n - 1
            then some (to_service (f (n - 1)))
            else none)
          ≡ (if ltb k (n - 1)
              then some (to_service (f (n - 2 - k)))
              else if k == n - 1
              then some (to_service (f (n - 1)))
              else none)
      two_less = ground arith

last_index_full :
    (services : ℕ → ℤ) (i : ℕ) (f : ℕ → ℕ) (left index : ℕ)
    → Row services i 13 f
    → left + index ≡ 12
    → last_index_from services i left index ≡ 13
unfolding last_index_from
last_index_full services i f zero index v e = omega arith
last_index_full services i f (suc left) index v e =
    rw (v.filled (index + 1) (omega arith))
      (last_index_full services i f left (index + 1) v (omega arith))

-- A full row of 12 services with another row behind it, whose first service is thus read as a 13th one: the
-- flipped chain takes 13 steps, and the index of the last one is the number of elements of its array.
pub setup_service_chain_overrun :
    (services : ℕ → ℤ) (m i next_sc : ℕ) (f : ℕ → ℕ)
    → Row services i 13 f
    → i < m
    → ((made services m i next_sc true).chain_length ≡ 13)
      × (length (made services m i next_sc true).sc ≡ 13)
unfolding onvm_sc_create
setup_service_chain_overrun services m i next_sc f row there =
    let all =
      made-loops services m i next_sc true there
      ∙ ap (λ last. flip_from services i last last onvm_sc_create)
          (last_index_full services i f 12 0 row refl)
      ∙ flip_from-build services i 13 f 12 onvm_sc_create row (omega arith) in
    let (n, size) =
      length-build (downs f (f 12) 12) onvm_sc_create (omega arith)
        (omega (arith, length-downs f (f 12) 12)) in
    (
      ap (λ c. c.chain_length) all ∙ n ∙ omega (arith, length-downs f (f 12) 12),
      ap (λ c. length c.sc) all ∙ size,
    )
