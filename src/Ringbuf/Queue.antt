-- ===== src/Ringbuf/Queue.antt =====
-- The ring of onvm/shared/onvm_ringbuf.c behaves as a queue that holds one entry less than `max_len`.
use nfvnice_source.Prelude.{
  ℕ, zero, suc, ◌+◌, ◌-◌, ◌%◌, ◌^◌, ◌<◌, ◌≡◌, refl, sym, ap, ◌∙◌, Bool, false, Bool-cases, ltb→lt,
  lt→ltb, inl, inr, ◌⊎◌, not, List, [], ◌∷◌, ◌++◌, arith, length, get_or, set, ltb, ◌==◌,
  if◌then◌else◌, pos, negsuc, length-set,
}
use nfvnice_source.Prelude.Circle.{
  advance, advance-zero, window, succ, succ-advance, succ-mod, window-set, window-suc,
  length-window, advance-lt, advance_lem, advance-suc, window-zero,
}
use nfvnice_source.Ringbuf.{
  Ring, zeroed, bump, onvm_su_ring_init, onvm_su_ring_enqueu, onvm_su_ring_dequeue,
}

pub record IsValid (r : Ring) : Type 0 where
  pub elements : length r.ring ≡ 512
  pub small : r.max_len < 512
  pub read_in : r.r_h < r.max_len
  pub room : r.r_count < r.max_len
  pub write_at : r.w_h ≡ advance r.max_len r.r_h r.r_count

-- The entries, oldest first.
abbrev pub contents : Ring → List ℕ
contents r = window r.max_len 0 r.ring r.r_h r.r_count

bump_lem : (m h : ℕ) → h < m → m < 512 → bump m h ≡ succ m h
bump_lem m h hh hm = let e : (h + 1) % 2 ^ 16 ≡ h + 1 = omega arith in rw e

full_lem :
    {r : Ring}
    → IsValid r
    → ((r.w_h + 1) % r.max_len == r.r_h) ≡ not (ltb (r.r_count + 1) r.max_len)
full_lem {r} v =
    rw (succ-mod r.max_len r.w_h inside) (ground (arith, advance_lem r.max_len r.r_count r.r_h))
  where
    inside : r.w_h < r.max_len
    inside = omega (arith, advance-lt r.max_len r.r_count r.r_h)

empty_lem : {r : Ring} → IsValid r → (r.w_h == r.r_h) ≡ (r.r_count == 0)
empty_lem {r} v = ground (arith, advance_lem r.max_len r.r_count r.r_h)

-- The queue that a ring of `max_len` slots implements: one slot stays free.
abbrev pub has_room : Ring → Bool
has_room r = ltb (length (contents r)) (r.max_len - 1)

room_lem : (r : Ring) → has_room r ≡ ltb (r.r_count + 1) r.max_len
room_lem r = rw (length-window r.max_len 0 r.ring r.r_h r.r_count) (ground arith)

pushed : Ring → ℕ → Ring
pushed r entry = record r {
  ring = set r.ring (advance r.max_len r.r_h r.r_count) entry;
  r_count = suc r.r_count;
  w_h = advance r.max_len r.r_h (suc r.r_count);
}

enqueu_room :
    (r : Ring) (entry : ℕ)
    → IsValid r
    → 0 < entry
    → r.r_count + 1 < r.max_len
    → onvm_su_ring_enqueu r entry ≡ (negsuc 1, pushed r entry)
unfolding onvm_su_ring_enqueu pushed
enqueu_room r entry v he h = ground (
  arith,
  full_lem v,
  advance-lt r.max_len r.r_count r.r_h,
  succ-advance r.max_len r.r_count r.r_h,
)

enqueu_full :
    (r : Ring) (entry : ℕ)
    → IsValid r
    → 0 < entry
    → ltb (r.r_count + 1) r.max_len ≡ false
    → onvm_su_ring_enqueu r entry ≡ (negsuc 0, r)
unfolding onvm_su_ring_enqueu
enqueu_full r entry v he h = ground (arith, full_lem v)

pushed-IsValid :
    (r : Ring) (entry : ℕ) → IsValid r → r.r_count + 1 < r.max_len → IsValid (pushed r entry)
unfolding pushed
pushed-IsValid r entry v h =
    ground (arith, length-set r.ring (advance r.max_len r.r_h r.r_count) entry)

contents-pushed :
    (r : Ring) (entry : ℕ) → IsValid r → contents (pushed r entry) ≡ contents r ++ entry ∷ []
unfolding pushed
contents-pushed r entry v =
    window-set r.max_len 0 r.ring entry r.r_count r.r_h (omega arith) v.read_in v.room

-- Enqueueing an entry that is not NULL. While the queue has fewer than `max_len - 1` entries the
-- entry goes to its end; after that the call returns -1 and the queue stays. The ring stays valid.
-- Where the entry is stored the call returns -2.
pub onvm_su_ring_enqueu-contents :
    (r : Ring) (entry : ℕ)
    → IsValid r
    → 0 < entry
    → let (ret, r') = onvm_su_ring_enqueu r entry in
      (ret ≡ (if has_room r then negsuc 1 else negsuc 0))
      × (contents r' ≡ (if has_room r then contents r ++ entry ∷ [] else contents r))
      × IsValid r'
onvm_su_ring_enqueu-contents r entry v he = elim (Bool-cases (ltb (r.r_count + 1) r.max_len)) [
  | inl room ↦
      rw (room_lem r, room, enqueu_room r entry v he (ltb→lt _ _ room))
        (refl, contents-pushed r entry v, pushed-IsValid r entry v (ltb→lt _ _ room))
  | inr full ↦ rw (room_lem r, full, enqueu_full r entry v he full) (refl, refl, v)
]

popped : Ring → Ring
popped r = record r { r_h = succ r.max_len r.r_h; r_count = r.r_count - 1 }

dequeue_some :
    (r : Ring)
    → IsValid r
    → 0 < r.r_count
    → onvm_su_ring_dequeue r ≡ (negsuc 1, get_or r.ring r.r_h 0, popped r)
unfolding onvm_su_ring_dequeue popped
dequeue_some r v h = ground (arith, empty_lem v)

dequeue_none : (r : Ring) → IsValid r → r.r_count ≡ 0 → onvm_su_ring_dequeue r ≡ (negsuc 0, 0, r)
unfolding onvm_su_ring_dequeue
dequeue_none r v h = ground (arith, empty_lem v)

popped-IsValid : (r : Ring) (n : ℕ) → IsValid r → r.r_count ≡ suc n → IsValid (popped r)
unfolding popped
popped-IsValid r n v h = ground (arith, advance-suc r.max_len r.r_h n)

contents-popped :
    (r : Ring) (n : ℕ)
    → r.r_count ≡ suc n
    → contents r ≡ get_or r.ring r.r_h 0 ∷ contents (popped r)
unfolding popped
contents-popped r n h =
    ap (window r.max_len 0 r.ring r.r_h) h
    ∙ window-suc r.max_len 0 r.ring r.r_h n
    ∙ ap (λ k. get_or r.ring r.r_h 0 ∷ window r.max_len 0 r.ring (succ r.max_len r.r_h) k)
        (omega arith)

-- Dequeueing takes the oldest entry, the return value being -2; an empty ring stays as it is, and the
-- call returns -1 and NULL. The ring stays valid.
pub onvm_su_ring_dequeue-contents :
    (r : Ring)
    → IsValid r
    → let (ret, entry, r') = onvm_su_ring_dequeue r in
      ((contents r ≡ []) × (ret ≡ negsuc 0) × (entry ≡ 0) × (r' ≡ r)
        ⊎ (ret ≡ negsuc 1) × (contents r ≡ entry ∷ contents r'))
      × IsValid r'
onvm_su_ring_dequeue-contents r v = by_count r.r_count refl
  where
    by_count :
        (n : ℕ)
        → r.r_count ≡ n
        → let (ret, entry, r') = onvm_su_ring_dequeue r in
          ((contents r ≡ []) × (ret ≡ negsuc 0) × (entry ≡ 0) × (r' ≡ r)
            ⊎ (ret ≡ negsuc 1) × (contents r ≡ entry ∷ contents r'))
          × IsValid r'
    by_count zero e =
        let none_left : contents r ≡ [] =
          ap (window r.max_len 0 r.ring r.r_h) e ∙ window-zero r.max_len 0 r.ring r.r_h in
        rw (dequeue_none r v e) (inl (none_left, refl, refl, refl), v)
    by_count (suc n) e =
        rw (dequeue_some r v (omega arith))
          (inr (refl, contents-popped r n e), popped-IsValid r n v e)

-- A fresh ring of 1 to 511 slots is valid and empty.
onvm_su_ring_init-IsValid :
    (r : Ring) (max_size : ℕ)
    → 0 < max_size
    → max_size < 512
    → let (ret, r') = onvm_su_ring_init r max_size in
      (ret ≡ pos 0) × IsValid r' × (contents r' ≡ [])
unfolding onvm_su_ring_init
onvm_su_ring_init-IsValid r max_size lo hi = rw (lt→ltb _ _ hi) (
  refl,
  record {
    elements = refl;
    small = hi;
    read_in = lo;
    room = lo;
    write_at = sym (advance-zero max_size 0);
  },
  window-zero max_size 0 (zeroed max_size).ring 0,
)
