-- ===== src/Installer/Rows.antt =====
-- The service chains of examples/flow_rule_installer/flow_rule_installer.c: a row of the array `services`
-- becomes a chain, and a flipped one for the other direction. The rows follow each other in memory, so
-- that `services[i][12]` is `services[i + 1][0]`.
use nfvnice_source.Action
use nfvnice_source.Chain.{Chain, max_chain_length, onvm_sc_create, onvm_sc_append_entry}
use nfvnice_source.Prelude.{
  ℕ, zero, suc, ◌+◌, ◌-◌, ◌*◌, ◌%◌, ◌^◌, List, [], ◌∷◌, Option, none, some, Bool, true, false, leb,
  ◌==◌, if◌then◌else◌, ℤ, pos, negsuc,
}

-- `services[i][j]`.
abbrev pub service : (ℕ → ℤ) → ℕ → ℕ → ℤ
service services i j = services (12 * i + j)

-- `if (service_id > 0) onvm_sc_append_entry(sc, ONVM_NF_ACTION_TONF, service_id)`.
unfoldable pub append_service : ℤ → Chain → Chain
append_service (pos n) c = if n == 0 then c else (onvm_sc_append_entry c Action.tonf (n % 2 ^ 16)).1
append_service (negsuc n) c = c

-- `last_index` after its loop, which tests the element behind the one that the counter stood at.
abbrev pub is_end : ℤ → Bool
is_end (pos n) = false
is_end (negsuc n) = n == 0

unfoldable pub last_index_from : (ℕ → ℤ) → ℕ → ℕ → ℕ → ℕ
last_index_from services i zero index = index + 1
last_index_from services i (suc left) index =
    let later = last_index_from services i left (index + 1) in
    if is_end (service services i (index + 1)) then index + 1 else later

abbrev pub last_index : (ℕ → ℤ) → ℕ → ℕ
last_index services i = last_index_from services i max_chain_length 0

abbrev pub last_valid_nf : ℕ → ℕ
last_valid_nf last = if leb 1 (last - 1) then 1 else 0

-- The loop for the flipped chain, with `index` below `n`.
unfoldable pub flip_from : (ℕ → ℤ) → ℕ → ℕ → ℕ → Chain → Chain
flip_from services i last zero c = c
flip_from services i last (suc n) c = flip_from services i last n (
    append_service
      (if n == 0
        then service services i (last - 1)
        else service services i (n - last_valid_nf last))
      c)

-- The loop for the chain in the order of the row.
unfoldable pub row_from : (ℕ → ℤ) → ℕ → ℕ → ℕ → Chain → Chain
row_from services i zero index c = c
row_from services i (suc left) index c =
    row_from services i left (index + 1) (append_service (service services i index) c)

-- An index that there is a chain for; every other one gives way to `next_sc`.
abbrev pub valid_index : ℕ → Option ℕ → Option ℕ
valid_index max_service_chains none = none
valid_index max_service_chains (some i) = if leb max_service_chains i then none else some i

-- `setup_service_chain_for_flow_entry(sc, sc_index, rev_order, NULL)`, as it is called: what it returns,
-- the static `next_sc`, and the chain. `none` is an index of -1.
unfoldable pub setup_service_chain_for_flow_entry :
    (ℕ → ℤ) → ℕ → Chain → Option ℕ → Bool → ℕ → ℤ × ℕ × Chain
unfolding last_index_from flip_from row_from
setup_service_chain_for_flow_entry services max_service_chains sc sc_index rev_order next_sc =
    if max_service_chains == 0
    then (negsuc 0, next_sc, sc)
    else elim (valid_index max_service_chains sc_index) [
      | none ↦ (
        pos next_sc,
        if next_sc == max_service_chains - 1 then 0 else next_sc + 1,
        row_from services next_sc max_chain_length 0 sc,
      )
      | some i ↦ (
        pos i,
        next_sc,
        if rev_order
            then flip_from services i (last_index services i) (last_index services i) sc
            else row_from services i max_chain_length 0 sc,
      )
    ]

-- The chains that `parse_services` makes of the rows from `i` on: a chain and its flipped one for each.
unfoldable pub populate : (ℕ → ℤ) → ℕ → ℕ → ℕ → ℕ → List (Chain × Chain)
unfolding setup_service_chain_for_flow_entry
populate services max_service_chains next_sc zero i = []
populate services max_service_chains next_sc (suc left) i =
    let (_, next1, sc) =
      setup_service_chain_for_flow_entry services max_service_chains onvm_sc_create (some i) false
        next_sc in
    let (_, next2, sc_flip) =
      setup_service_chain_for_flow_entry services max_service_chains onvm_sc_create (some i) true
        next1 in
    (sc, sc_flip) ∷ populate services max_service_chains next2 left (i + 1)
