-- ===== src/Apps/Displays.antt =====
-- How often the example NFs show what they counted, over the loop of the library.
use native.Mathlib.Nat.{div-eq_of_lt, mul-add-div_right}
use nfvnice_source.Apps.{
  Display, no_display, test_then_count, count_then_test, to_other_port, back_to_port, to_nf, bridge,
  monitor, forward,
}
use nfvnice_source.Mgr.{Packet}
use nfvnice_source.Nflib.Round.{Answers, answers}
use nfvnice_source.Prelude.{
  ℕ, zero, suc, ◌+◌, ◌*◌, ◌/◌, ◌%◌, ◌^◌, ◌<◌, ◌≡◌, refl, sym, ap, subst, ◌∙◌, List, [], ◌∷◌, map,
  arith, length,
}

unfoldable pub ticks : (Display → Display) → ℕ → Display → Display
ticks tick zero s = s
ticks tick (suc n) s = ticks tick n (tick s)

-- A handler that passes every packet on.
answers-each :
    (handler : Display → Packet → ℕ × Packet × Display) (pass : Packet → Packet)
    (tick : Display → Display)
    → ((s : Display) (p : Packet) → handler s p ≡ (0, pass p, tick s))
    → (ps : List Packet) (s : Display)
    → ((answers handler s ps).out ≡ map pass ps)
      × ((answers handler s ps).kept ≡ [])
      × ((answers handler s ps).state ≡ ticks tick (length ps) s)
unfolding answers ticks
answers-each handler pass tick is [] s = (refl, refl, refl)
answers-each handler pass tick is (p ∷ ps) s =
    let (out, kept, state) = answers-each handler pass tick is ps (tick s) in
    rw (is s p) (ap (λ q. pass p ∷ q) out, kept, state)

-- After `n` packets, of which `period` make the NF show its number, which then grows by `print_delay`.
record Counted (period print_delay n : ℕ) (s : Display) : Type 0 where
  all : s.calls * period + s.counter ≡ n
  below : s.counter < period
  shown : s.pkt_process ≡ (print_delay * s.calls) % 2 ^ 32

rise : (a b : ℕ) → ((a + 1) * b ≡ a * b + b) × (a * (b + 1) ≡ a * b + a)
rise a b = (omega arith, omega arith)

test_then_count-Counted :
    (d n : ℕ) (s : Display)
    → d < 2 ^ 32
    → Counted (d + 1) d n s
    → Counted (d + 1) d (suc n) (test_then_count d s)
unfolding test_then_count
test_then_count-Counted d n s small v = record {
  all = ground (arith, small, v.all, v.below, rise s.calls (d + 1));
  below = ground (arith, small, v.below);
  shown = ground (arith, v.shown, rise d s.calls);
}

count_then_test-Counted :
    (d n : ℕ) (s : Display)
    → d < 2 ^ 32
    → Counted d d n s
    → Counted d d (suc n) (count_then_test d s)
unfolding count_then_test
count_then_test-Counted d n s small v = record {
  all = ground (arith, small, v.all, v.below, rise s.calls d);
  below = ground (arith, small, v.below);
  shown = ground (arith, v.shown, rise d s.calls);
}

ticks-Counted :
    (m d : ℕ) (tick : Display → Display)
    → ((n : ℕ) (s : Display) → Counted m d n s → Counted m d (suc n) (tick s))
    → (n k : ℕ) (s : Display) → Counted m d k s
    → Counted m d (n + k) (ticks tick n s)
unfolding ticks
ticks-Counted m d tick step zero k s v = subst (λ x. Counted m d x s) (omega arith) v
ticks-Counted m d tick step (suc n) k s v =
    subst (λ x. Counted m d x (ticks tick n (tick s))) (omega arith)
      (ticks-Counted m d tick step n (suc k) (tick s) (step k s v))

Counted-calls : (m d n : ℕ) (s : Display) → Counted m d n s → s.calls ≡ n / m
Counted-calls m d n s v =
    omega (arith, div-eq_of_lt v.below)
    ∙ sym (mul-add-div_right some_period s.calls s.counter)
    ∙ ap (λ x. x / m) v.all
  where
    some_period : 0 < m
    some_period = omega (arith, v.below)

-- An NF has passed on all packets of a list and has shown its number once for every `period` of them.
abbrev pub Shows : ℕ → ℕ → List Packet → List Packet → Answers Display → Type 0
Shows period print_delay ps out a =
    (a.out ≡ out)
    × (a.kept ≡ [])
    × (a.state.calls ≡ length ps / period)
    × (a.state.pkt_process ≡ (print_delay * (length ps / period)) % 2 ^ 32)

shows :
    (handler : Display → Packet → ℕ × Packet × Display) (pass : Packet → Packet)
    (tick : Display → Display) (m d : ℕ) (ps : List Packet)
    → ((s : Display) (p : Packet) → handler s p ≡ (0, pass p, tick s))
    → 0 < m
    → ((n : ℕ) (s : Display) → Counted m d n s → Counted m d (suc n) (tick s))
    → Shows m d ps (map pass ps) (answers handler no_display ps)
shows handler pass tick m d ps is some_period step =
    let (out, kept, state) = answers-each handler pass tick is ps no_display in
    let v = ticks-Counted m d tick step (length ps) 0 no_display start in
    let calls =
      Counted-calls m d (length ps + 0) (ticks tick (length ps) no_display) v
      ∙ ap (λ x. x / m) (omega arith) in
    (
      out,
      kept,
      ap (λ s. s.calls) state ∙ calls,
      ap (λ s. s.pkt_process) state ∙ v.shown ∙ ap (λ x. (d * x) % 2 ^ 32) calls,
    )
  where
    start : Counted m d 0 no_display
    start = record { all = omega arith; below = some_period; shown = omega arith }

-- From the start, over any packets, with a print delay `d` that is not 0 and fits: the bridge, the monitor
-- and the forwarder pass every packet on in order, changed as `to_other_port`, `back_to_port` and `to_nf`
-- say. The monitor and the forwarder show their number once every `d` packets, but the bridge only once
-- every `d + 1`; the number that they show is `d` for each time, modulo 2 ^ 32.
pub packet_handler_lem :
    (d destination : ℕ) (addr port_addr : List ℕ) (ps : List Packet)
    → 0 < d
    → d < 2 ^ 32
    → Shows (d + 1) d ps (map to_other_port ps) (answers (bridge d) no_display ps)
      × Shows d d ps
          (map (back_to_port addr port_addr) ps)
          (answers (monitor addr port_addr d) no_display ps)
      × Shows d d ps (map (to_nf destination) ps) (answers (forward destination d) no_display ps)
unfolding bridge monitor forward
packet_handler_lem d destination addr port_addr ps positive small = (
  shows (bridge d) to_other_port (test_then_count d) (d + 1) d ps (λ s p. refl) (omega arith)
      (λ n s v. test_then_count-Counted d n s small v),
  shows (monitor addr port_addr d) (back_to_port addr port_addr) (count_then_test d) d d ps
      (λ s p. refl) positive (λ n s v. count_then_test-Counted d n s small v),
  shows (forward destination d) (to_nf destination) (count_then_test d) d d ps (λ s p. refl)
      positive (λ n s v. count_then_test-Counted d n s small v),
)
