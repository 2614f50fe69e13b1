-- ===== src/FlowDir/Sample.antt =====
-- A hash table as a function from keys to what a lookup gives, and a flow, for the tests.
use nfvnice_source.Headers.{Key}
use nfvnice_source.Headers.Frame.{IsKey}
use nfvnice_source.Prelude.{
  ◌≡◌, ◌≢◌, inl, inr, refl, Bool, true, Bool-cases, arith, ◌==◌, ◌&&◌, if◌then◌else◌, ℤ,
}

unfoldable pub same_key : Key → Key → Bool
same_key a b =
    a.src_addr == b.src_addr
    && (a.dst_addr == b.dst_addr
        && (a.src_port == b.src_port && (a.dst_port == b.dst_port && a.proto == b.proto)))

same_key_refl : (k : Key) → same_key k k ≡ true
unfolding same_key
same_key_refl k = ground arith

same_key-eq : (a b : Key) → same_key a b ≡ true → a ≡ b
unfolding same_key
same_key-eq a b h = ground arith

abbrev pub with_key : (Key → ℤ) → Key → ℤ → Key → ℤ
with_key t k v k' = if same_key k k' then v else t k'

pub with_key_self : (t : Key → ℤ) (k : Key) (v : ℤ) → with_key t k v k ≡ v
with_key_self t k v = rw (same_key_refl k) refl

pub with_key_other : (t : Key → ℤ) (k k' : Key) (v : ℤ) → k ≢ k' → with_key t k v k' ≡ t k'
with_key_other t k k' v ne = elim (Bool-cases (same_key k k')) [
  | inl e ↦ absurd (ne (same_key-eq k k' e))
  | inr e ↦ rw e refl
]

-- A UDP flow.
abbrev pub flow : Key
flow = record { src_addr = 167772161; dst_addr = 42; src_port = 53; dst_port = 77; proto = 17 }

pub flow-IsKey : IsKey flow
flow-IsKey = record {
  src_addr_fits = omega arith;
  dst_addr_fits = omega arith;
  src_port_fits = omega arith;
  dst_port_fits = omega arith;
  ports_of = inr (inl refl);
}
