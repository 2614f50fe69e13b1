-- ===== src/Bkpr/Ring.antt =====
-- The list of marked flows of an NF as a queue of marks.
use nfvnice_source.Bkpr.{no_backlog, bump, is_full, put, oldest, take_oldest, ttl_nodes}
use nfvnice_source.Mgr.{Backlog, BacklogRing}
use nfvnice_source.Prelude.{
  ℕ, suc, ◌+◌, ◌%◌, ◌^◌, ◌≤◌, ◌<◌, ◌≡◌, refl, sym, ap, ◌∙◌, not, List, [], ◌∷◌, ◌++◌, map,
  map-append, dec_lt, none, some, arith, length, length-append, length-set, get_or, set,
  get_or-set_self, get_or-set_ne, ltb, ◌==◌,
}
use nfvnice_source.Prelude.Circle.{
  advance, advance-zero, advance-suc, advance_injective, advance-turn, advance_lem, advance-lt,
  advance-ne, succ, succ-mod, succ-advance, window, window-suc, window-set, window-set_ne,
}

-- An entry of the flow table and a position of its chain.
abbrev pub Mark : Type 0
Mark = ℕ × ℕ

abbrev pub slot : Mark → Backlog
slot m = record { chain_index = m.1; flow = some m.0 }

-- The list holds the marks `ms`, oldest first, and all its other slots are empty.
pub record Holds (b : BacklogRing) (ms : List Mark) : Type 0 where
  pub elements : b.max_len ≤ length b.bft
  pub small : b.max_len < 2 ^ 15
  pub read_in : b.r_h < b.max_len
  pub count : b.bft_count ≡ length ms
  pub room : b.bft_count < b.max_len
  pub write_at : b.w_h ≡ advance b.max_len b.r_h b.bft_count
  pub items : window b.max_len no_backlog b.bft b.r_h b.bft_count ≡ map slot ms
  pub blank :
      (k : ℕ)
      → b.bft_count ≤ k
      → k < b.max_len
      → (get_or b.bft (advance b.max_len b.r_h k) no_backlog).flow ≡ none

bump_lem : (m h : ℕ) → h < m → m < 2 ^ 15 → bump m h ≡ succ m h
bump_lem m h hh hm = let e : (h + 1) % 2 ^ 16 ≡ h + 1 = omega arith in rw e

write_in : {b : BacklogRing} {ms : List Mark} → Holds b ms → b.w_h < b.max_len
write_in {b} v = omega (arith, v.write_at, advance-lt b.max_len b.bft_count b.r_h)

-- The list is full when one slot is left.
pub is_full_lem :
    (b : BacklogRing) (ms : List Mark)
    → Holds b ms
    → is_full b ≡ not (ltb (length ms + 1) b.max_len)
is_full_lem b ms v =
    rw (succ-mod b.max_len b.w_h (write_in v))
      (ground (arith, v.count, v.write_at, advance_lem b.max_len b.bft_count b.r_h))

-- An empty list has an empty slot at its read head.
pub oldest-empty : (b : BacklogRing) → Holds b [] → (oldest b).flow ≡ none
oldest-empty b v =
    ap (λ i. (get_or b.bft i no_backlog).flow) (sym (advance-zero b.max_len b.r_h))
    ∙ v.blank 0 (omega (arith, v.count)) (omega (arith, v.room))

put_at : BacklogRing → Backlog → BacklogRing
put_at b x = record b {
  bft = set b.bft (advance b.max_len b.r_h b.bft_count) x;
  bft_count = suc b.bft_count;
  w_h = advance b.max_len b.r_h (suc b.bft_count);
}

put_lem :
    (b : BacklogRing) (ms : List Mark) (entry chain_index : ℕ)
    → Holds b ms
    → length ms + 1 < b.max_len
    → put b entry chain_index ≡ put_at b (slot (entry, chain_index))
unfolding put put_at
put_lem b ms entry chain_index v h = ground (
  arith,
  v.count,
  v.small,
  v.write_at,
  advance-lt b.max_len b.bft_count b.r_h,
  succ-advance b.max_len b.bft_count b.r_h,
)

put_at-Holds :
    (b : BacklogRing) (ms : List Mark) (m : Mark)
    → Holds b ms
    → length ms + 1 < b.max_len
    → Holds (put_at b (slot m)) (ms ++ m ∷ [])
unfolding put_at
put_at-Holds b ms m v h = record {
  elements =
      omega (arith, v.elements, length-set b.bft (advance b.max_len b.r_h b.bft_count) (slot m));
  small = v.small;
  read_in = v.read_in;
  count = omega (arith, v.count, length-append ms (m ∷ []));
  room = omega (arith, v.count);
  write_at = refl;
  items =
      window-set b.max_len no_backlog b.bft (slot m) b.bft_count b.r_h v.elements v.read_in v.room
      ∙ ap (λ l. l ++ slot m ∷ []) v.items
      ∙ sym (map-append slot ms (m ∷ []));
  blank = λ k lo hi.
      ap (λ x. x.flow)
        (get_or-set_ne b.bft (slot m) no_backlog
          (advance_injective b.max_len b.bft_count k b.r_h v.read_in (omega arith) hi))
      ∙ v.blank k (omega arith) hi;
}

-- A mark that is put goes behind the others.
pub put-Holds :
    (b : BacklogRing) (ms : List Mark) (entry chain_index : ℕ)
    → Holds b ms
    → length ms + 1 < b.max_len
    → Holds (put b entry chain_index) (ms ++ (entry, chain_index) ∷ [])
put-Holds b ms entry chain_index v h =
    rw (put_lem b ms entry chain_index v h) (put_at-Holds b ms (entry, chain_index) v h)

take_at : BacklogRing → ℕ → BacklogRing
take_at b n = record b {
  bft = set b.bft b.r_h no_backlog;
  r_h = succ b.max_len b.r_h;
  bft_count = n;
}

take_lem :
    (b : BacklogRing) (m : Mark) (ms : List Mark)
    → Holds b (m ∷ ms)
    → take_oldest b ≡ take_at b (length ms)
unfolding take_oldest take_at
take_lem b m ms v = ground (arith, v.count, v.small, v.read_in, v.room)

-- The window with its first item apart.
first_item :
    (b : BacklogRing) (m : Mark) (ms : List Mark)
    → Holds b (m ∷ ms)
    → oldest b ∷ window b.max_len no_backlog b.bft (succ b.max_len b.r_h) (length ms)
      ≡ slot m ∷ map slot ms
first_item b m ms v =
    sym (window-suc b.max_len no_backlog b.bft b.r_h (length ms))
    ∙ ap (window b.max_len no_backlog b.bft b.r_h) (sym v.count)
    ∙ v.items

take_at_blank :
    (b : BacklogRing) (m : Mark) (ms : List Mark) (k : ℕ)
    → Holds b (m ∷ ms)
    → length ms ≤ k
    → k < b.max_len
    → (get_or
        (set b.bft b.r_h no_backlog)
        (advance b.max_len (succ b.max_len b.r_h) k)
        no_backlog).flow
      ≡ none
take_at_blank b m ms k v lo hi = elim (dec_lt (suc k) b.max_len) [
  | yes inside ↦ rw (← advance-suc b.max_len b.r_h k) (
      ap (λ x. x.flow)
        (get_or-set_ne b.bft no_backlog no_backlog
          (λ e. advance-ne b.max_len (suc k) b.r_h v.read_in (omega arith) inside (sym e)))
      ∙ v.blank (suc k) (omega (arith, v.count)) inside)
  | no turn ↦
      let last : suc k ≡ b.max_len = omega arith in
      rw (← advance-suc b.max_len b.r_h k) (
        ap (λ i. (get_or (set b.bft b.r_h no_backlog) i no_backlog).flow)
          (ap (advance b.max_len b.r_h) last ∙ advance-turn b.max_len b.r_h v.read_in)
        ∙ ap (λ x. x.flow)
            (get_or-set_self b.bft b.r_h no_backlog no_backlog
              (omega (arith, v.read_in, v.elements))))
]

take_at-Holds :
    (b : BacklogRing) (m : Mark) (ms : List Mark)
    → Holds b (m ∷ ms)
    → Holds (take_at b (length ms)) ms
unfolding take_at
take_at-Holds b m ms v = record {
  elements = omega (arith, v.elements, length-set b.bft b.r_h no_backlog);
  small = v.small;
  read_in = ground (arith, v.read_in);
  count = refl;
  room = omega (arith, v.count, v.room);
  write_at =
      v.write_at ∙ ap (advance b.max_len b.r_h) v.count ∙ advance-suc b.max_len b.r_h (length ms);
  items =
      window-set_ne b.max_len no_backlog b.bft no_backlog b.r_h (length ms) (succ b.max_len b.r_h)
        (λ k hk e.
          advance-ne b.max_len (suc k) b.r_h v.read_in (omega arith)
            (omega (arith, v.count, v.room)) (advance-suc b.max_len b.r_h k ∙ e))
      ∙ cc (first_item b m ms v);
  blank = λ k lo hi. take_at_blank b m ms k v lo hi;
}

-- Taking the oldest mark leaves the others.
pub take-Holds :
    (b : BacklogRing) (m : Mark) (ms : List Mark)
    → Holds b (m ∷ ms)
    → (oldest b ≡ slot m) × Holds (take_oldest b) ms
take-Holds b m ms v = (cc (first_item b m ms v), rw (take_lem b m ms v) (take_at-Holds b m ms v))

-- The loop has enough rounds for all marks.
pub ttl_nodes-ge : (b : BacklogRing) (ms : List Mark) → Holds b ms → length ms ≤ ttl_nodes b
ttl_nodes-ge b ms v = ground (arith, v.count, v.write_at, advance_lem b.max_len b.bft_count b.r_h)

-- The test for an empty list.
pub is_empty_lem :
    (b : BacklogRing) (ms : List Mark) → Holds b ms → (b.w_h == b.r_h) ≡ (length ms == 0)
is_empty_lem b ms v =
    ground (arith, v.count, v.read_in, v.room, v.write_at, advance_lem b.max_len b.bft_count b.r_h)
