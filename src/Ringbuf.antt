-- ===== src/Ringbuf.antt =====
-- onvm/shared/onvm_ringbuf.c: a ring of pointers for a single user. A pointer is a number, and NULL is
-- 0. A function that is handed NULL in place of the ring gets `none`.
pub mod Queue
mod Tests
use nfvnice_source.Prelude.{
  ℕ, ◌+◌, ◌-◌, ◌%◌, ◌^◌, List, replicate, get_or, set, ltb, ◌==◌, if◌then◌else◌, ℤ, pos, negsuc,
}

-- `onvm_single_user_ring_t`.
pub record Ring : Type 0 where
  pub r_count : ℕ
  pub r_h : ℕ
  pub w_h : ℕ
  pub max_len : ℕ
  pub ring : List ℕ

-- `MAX_RINGBUF_SIZE`.
abbrev pub max_ringbuf_size : ℕ
max_ringbuf_size = 512

abbrev pub zeroed : ℕ → Ring
zeroed max_size = record {
  r_count = 0;
  r_h = 0;
  w_h = 0;
  max_len = max_size;
  ring = replicate 512 0;
}

-- `onvm_su_ring_init`, on a ring that is there.
pub onvm_su_ring_init : Ring → ℕ → ℤ × Ring
onvm_su_ring_init r max_size =
    if ltb max_size max_ringbuf_size then (pos 0, zeroed max_size) else (negsuc 0, r)

-- `if((++h) == max_len) h = 0` on a `uint16_t`.
abbrev pub bump : ℕ → ℕ → ℕ
bump max_len h = if (h + 1) % 2 ^ 16 == max_len then 0 else (h + 1) % 2 ^ 16

-- `onvm_su_ring_enqueu`, on a ring that is there and whose `max_len` is not 0: the remainder by 0 has
-- no meaning. The success path falls through to the last `return`.
pub onvm_su_ring_enqueu : Ring → ℕ → ℤ × Ring
onvm_su_ring_enqueu r entry =
    if entry == 0
    then (negsuc 1, r)
    else if (r.w_h + 1) % r.max_len == r.r_h
    then (negsuc 0, r)
    else (
      negsuc 1,
      record r {
        ring = set r.ring r.w_h entry;
        r_count = (r.r_count + 1) % 2 ^ 16;
        w_h = bump r.max_len r.w_h;
      },
    )

-- `onvm_su_ring_dequeue`, on a ring that is there. The second part is what `*pEntry` is set to.
pub onvm_su_ring_dequeue : Ring → ℤ × ℕ × Ring
onvm_su_ring_dequeue r = if r.w_h == r.r_h then (negsuc 0, 0, r) else (
  negsuc 1,
  get_or r.ring r.r_h 0,
  record r { r_h = bump r.max_len r.r_h; r_count = (r.r_count + 2 ^ 16 - 1) % 2 ^ 16 },
)

-- `onvm_su_ring_dinit`.
pub onvm_su_ring_dinit : Ring → ℤ × Ring
onvm_su_ring_dinit r = onvm_su_ring_init r 0
