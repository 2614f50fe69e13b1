-- ===== src/Chain/Steps.antt =====
-- A service chain as the list of its steps: what appending does to the list, and which step a packet
-- is given.
use nfvnice_source.Action
use nfvnice_source.Prelude.{
  ℕ, zero, suc, ◌+◌, ◌≤◌, ◌<◌, ◌%◌, ◌≡◌, refl, sym, ap, ◌∙◌, append-nil, append_assoc, List, [],
  ◌∷◌, ◌++◌, Option, none, some, arith, length, get_elem?, get_or, set, take, drop, length-set, pos,
}
use nfvnice_source.Chain.{
  Chain, Entry, no_entry, onvm_sc_create, onvm_sc_append_entry, onvm_next_action,
  onvm_next_destination, onvm_sc_get_next_action_and_destination,
}

-- The array has its 13 elements, and the length leaves the index of the last step inside it.
pub record IsValid (c : Chain) : Type 0 where
  pub elements : length c.sc ≡ 13
  pub fits : c.chain_length ≤ 12

-- The steps in order; the reserved element is left out.
abbrev pub steps : Chain → List Entry
steps c = take c.chain_length (drop 1 c.sc)

get_elem?-take :
    {A : Type 0} (n i : ℕ) (xs : List A) → i < n → get_elem? (take n xs) i ≡ get_elem? xs i
get_elem?-take zero i xs h = elim h [ ]
get_elem?-take (suc n) i [] h = refl
get_elem?-take (suc n) zero (x ∷ xs) h = refl
get_elem?-take (suc n) (suc i) (x ∷ xs) h = get_elem?-take n i xs (omega arith)

take-set-append :
    {A : Type 0} (n : ℕ) (xs : List A) (v : A)
    → n < length xs
    → take (suc n) (set xs n v) ≡ take n xs ++ v ∷ []
take-set-append n [] v h = absurd (omega arith)
take-set-append zero (x ∷ xs) v h = refl
take-set-append (suc n) (x ∷ xs) v h = ap (◌∷◌ x) (take-set-append n xs v (omega arith))

get_elem?-eq-get_or :
    {A : Type 0} (xs : List A) (i : ℕ) (d : A)
    → i < length xs
    → get_elem? xs i ≡ some (get_or xs i d)
get_elem?-eq-get_or [] i d h = absurd (omega arith)
get_elem?-eq-get_or (x ∷ xs) zero d h = refl
get_elem?-eq-get_or (x ∷ xs) (suc i) d h = get_elem?-eq-get_or xs i d (omega arith)

drop-set :
    {A : Type 0} (n : ℕ) (xs : List A) (v : A) → drop 1 (set xs (suc n) v) ≡ set (drop 1 xs) n v
drop-set n [] v = refl
drop-set n (x ∷ xs) v = refl

length-drop_one : {A : Type 0} (xs : List A) (n : ℕ) → length xs ≡ suc n → length (drop 1 xs) ≡ n
length-drop_one [] n h = absurd (omega arith)
length-drop_one (x ∷ xs) n h = omega arith

get_or-drop_one :
    {A : Type 0} (xs : List A) (i : ℕ) (d : A) → get_or xs (suc i) d ≡ get_or (drop 1 xs) i d
get_or-drop_one [] i d = refl
get_or-drop_one (x ∷ xs) i d = refl

abbrev step : ℕ → ℕ → Entry
step action destination = record { destination = destination; action = action }

abbrev appended : Chain → ℕ → ℕ → Chain
appended c action destination = record c {
  sc = set c.sc (suc c.chain_length) (step action destination);
  chain_length = suc c.chain_length;
}

append_fits :
    (c : Chain) (action destination : ℕ)
    → c.chain_length ≤ 12
    → onvm_sc_append_entry c action destination ≡ (pos 0, appended c action destination)
unfolding onvm_sc_append_entry
append_fits c action destination h =
    let e : (c.chain_length + 1) % 256 ≡ suc c.chain_length = omega arith in rw e (ground arith)

appended-steps :
    (c : Chain) (action destination : ℕ)
    → IsValid c
    → c.chain_length < 12
    → (steps (appended c action destination) ≡ steps c ++ step action destination ∷ [])
      × IsValid (appended c action destination)
appended-steps c action destination v h = (
  rw (drop-set c.chain_length c.sc (step action destination)) (
      take-set-append c.chain_length (drop 1 c.sc) (step action destination)
        (omega (arith, length-drop_one c.sc 12 v.elements))),
  ground (arith, length-set c.sc (suc c.chain_length) (step action destination)),
)

-- A chain that is not full takes the entry: the call returns 0, the new step stands behind the old
-- ones, which are unchanged, and the chain stays valid.
onvm_sc_append_entry-steps :
    (c : Chain) (action destination : ℕ)
    → IsValid c
    → c.chain_length < 12
    → let (ret, c') = onvm_sc_append_entry c action destination in
      (ret ≡ pos 0)
      × (steps c' ≡ steps c ++ record { destination = destination; action = action } ∷ [])
      × IsValid c'
onvm_sc_append_entry-steps c action destination v h =
    let (grown, valid) = appended-steps c action destination v h in
    rw (append_fits c action destination (omega arith)) (refl, grown, valid)

-- The guard tests `chain_length > ONVM_MAX_CHAIN_LENGTH`, so a full valid chain takes one more entry:
-- the call returns 0 and the index that it writes to is the number of elements of the array, and the
-- chain is no longer valid.
onvm_sc_append_entry_overrun :
    (c : Chain) (action destination : ℕ)
    → IsValid c
    → c.chain_length ≡ 12
    → let (ret, c') = onvm_sc_append_entry c action destination in
      (ret ≡ pos 0) × (c'.chain_length ≡ length c.sc) × ¬ IsValid c'
onvm_sc_append_entry_overrun c action destination v h =
    rw (append_fits c action destination (omega arith)) (refl, omega arith, λ w. omega arith)

-- What the header of the accessors promises: the step at the position of the packet, and the drop
-- action with destination 0 behind the end.
abbrev pub step_or_drop : Option Entry → ℕ × ℕ
step_or_drop none = (Action.drop, 0)
step_or_drop (some e) = (e.action, e.destination)

get_elem?-take_ge : {A : Type 0} (n i : ℕ) (xs : List A) → n ≤ i → get_elem? (take n xs) i ≡ none
get_elem?-take_ge zero i xs h = refl
get_elem?-take_ge (suc n) i [] h = refl
get_elem?-take_ge (suc n) zero (x ∷ xs) h = absurd (omega arith)
get_elem?-take_ge (suc n) (suc i) (x ∷ xs) h = get_elem?-take_ge n i xs (omega arith)

steps_at :
    (c : Chain) (i : ℕ)
    → IsValid c
    → i < c.chain_length
    → get_elem? (steps c) i ≡ some (get_or c.sc (i + 1) no_entry)
steps_at c i v h =
    let e : i + 1 ≡ suc i = omega arith in
    rw (e, get_or-drop_one c.sc i no_entry, get_elem?-take c.chain_length i (drop 1 c.sc) h)
      (get_elem?-eq-get_or (drop 1 c.sc) i no_entry
        (omega (arith, length-drop_one c.sc 12 v.elements)))

-- For every position, the two accessors together give the step of a valid chain at that position,
-- and drop with destination 0 from the end of the chain on.
onvm_next-steps :
    (c : Chain) (i : ℕ)
    → IsValid c
    → (onvm_next_action c i, onvm_next_destination c i) ≡ step_or_drop (get_elem? (steps c) i)
unfolding onvm_next_action onvm_next_destination
onvm_next-steps c i v =
    ground (arith, steps_at c i v, get_elem?-take_ge c.chain_length i (drop 1 c.sc))

-- The combined accessor reads one element further back than the two above: at each position but the
-- first it gives what they give for the position before.
get_next_lags :
    (c : Chain) (i act dst : ℕ)
    → suc i < c.chain_length
    → let (ret, act', dst') = onvm_sc_get_next_action_and_destination c (suc i) act dst in
      (ret ≡ pos (suc i)) × (act' ≡ onvm_next_action c i) × (dst' ≡ onvm_next_destination c i)
unfolding onvm_sc_get_next_action_and_destination onvm_next_action onvm_next_destination
get_next_lags c i act dst h = ground arith

-- A new chain is valid and has no steps; every step added before it is full stays.
pub onvm_sc_create-steps : IsValid onvm_sc_create × (steps onvm_sc_create ≡ [])
unfolding onvm_sc_create
onvm_sc_create-steps = (ground arith, refl)

-- A chain that is built by appending a list of at most twelve steps to a new chain.
unfoldable pub build : Chain → List Entry → Chain
build c [] = c
build c (e ∷ es) = build (onvm_sc_append_entry c e.action e.destination).1 es

steps-build :
    (es : List Entry) (c : Chain)
    → IsValid c
    → c.chain_length + length es ≤ 12
    → (steps (build c es) ≡ steps c ++ es) × IsValid (build c es)
unfolding build
steps-build [] c v h = (sym (append-nil (steps c)), v)
steps-build (e ∷ es) c v h =
    let (grown, valid) = appended-steps c e.action e.destination v (omega arith) in
    let (rest, valid') = steps-build es (appended c e.action e.destination) valid (omega arith) in
    let same = ap (λ r. build r.1 es) (append_fits c e.action e.destination (omega arith)) in
    (
      ap steps same ∙ rest ∙ ap (λ l. l ++ es) grown ∙ append_assoc (steps c) (e ∷ []) es,
      rw same valid',
    )

-- Any list of at most twelve steps that is appended to a new chain is what packets follow: position
-- by position the accessors give the steps of the list in order, and then drop.
pub onvm_next-build :
    (es : List Entry) (i : ℕ)
    → length es ≤ 12
    → let c = build onvm_sc_create es in
      (onvm_next_action c i, onvm_next_destination c i) ≡ step_or_drop (get_elem? es i)
unfolding onvm_sc_create
onvm_next-build es i h =
    let (valid, fresh) = onvm_sc_create-steps in
    let (all, valid') = steps-build es onvm_sc_create valid (omega arith) in
    onvm_next-steps (build onvm_sc_create es) i valid' ∙ ap (λ l. step_or_drop (get_elem? l i)) all

-- The index of the last step that was appended, of up to 13, and the size of the array.
pub length-build :
    (es : List Entry) (c : Chain)
    → length c.sc ≡ 13
    → c.chain_length + length es ≤ 13
    → ((build c es).chain_length ≡ c.chain_length + length es) × (length (build c es).sc ≡ 13)
unfolding build
length-build [] c v h = (omega arith, v)
length-build (e ∷ es) c v h =
    let same = ap (λ r. build r.1 es) (append_fits c e.action e.destination (omega arith)) in
    let (n, size) =
      length-build es (appended c e.action e.destination)
        (length-set c.sc (suc c.chain_length) (step e.action e.destination) ∙ v) (omega arith) in
    rw same (omega (arith, n), size)
