-- ===== src/Nflib/Tests.antt =====
-- An NF that keeps every packet with an odd address, with rings for two packets.
use nfvnice_source.Mgr.{Packet, Enqueued, bump64}
use nfvnice_source.Mgr.Sample
use nfvnice_source.Nflib.{Rings, Documented, Lib, Turn, run_round, onvm_nf_yeild, trigger_ecb}
use nfvnice_source.Nflib.Retry.{passed, has_room}
use nfvnice_source.Nflib.Round.{to_burst, run_round_lem}
use nfvnice_source.Prelude.{
  ℕ, ◌+◌, ◌-◌, ◌%◌, ◌≡◌, refl, List, [], ◌∷◌, ◌++◌, some, Bool, true, false, Bool-cases, inl, inr,
  length, take, drop, take-append-drop, leb, if◌then◌else◌, arith,
}

abbrev fits : List Packet → List Packet → Bool
fits q pkts = leb (length pkts) (2 - length q)

abbrev bulk : List Packet → List Packet → Enqueued × List Packet
bulk q pkts = if fits q pkts then (Enqueued.stored, q ++ pkts) else (Enqueued.no_bufs, q)

abbrev rings : Rings
rings = record {
  enqueue_bulk = bulk;
  enqueue = λ q p. bulk q (p ∷ []);
  free_count = λ q. 2 - length q;
  dequeue_burst = λ q n. (take n q, drop n q);
}

rings-Documented : Documented rings
rings-Documented = record {
  bulk = λ q pkts. elim (Bool-cases (fits q pkts)) [ inl e ↦ rw e refl | inr e ↦ rw e refl ];
  room = λ q pkts h e. elim (Bool-cases (fits q pkts)) [
    | inl f ↦ cc (e, f)
    | inr f ↦ absurd (ground (arith, f, h))
  ];
  no_mark = λ q pkts e. elim (Bool-cases (fits q pkts)) [ inl f ↦ cc (e, f) | inr f ↦ cc (e, f) ];
  burst = λ q n. take-append-drop n q;
}

-- The state of this NF is the number of packets it has seen.
abbrev handler : ℕ → Packet → ℕ × Packet × ℕ
handler n p = (p.buf % 2, p, n + 1)

abbrev pkt : ℕ → Packet
pkt buf = Sample.packet buf 1

abbrev lib : Lib
lib = record {
  rx_ring = pkt 4 ∷ pkt 5 ∷ pkt 6 ∷ [];
  tx_ring = pkt 0 ∷ pkt 2 ∷ [];
  taken = [];
  freed = [];
  held = [];
  tx = 2;
  tx_drop = 0;
  tx_buffer = 0;
  tx_returned = 0;
  wkup_count = 0;
  flag = 0;
  need_ecb = false;
  has_ecb = false;
  ecb_calls = 0;
  posts = 0;
  keep_running = true;
}

-- The manager takes one packet at each wait: the second wait makes room.
abbrev turn : Turn
turn = record { takes = 1; puts = []; flag = 0; need_ecb = false }

abbrev turns : List Turn
turns = turn ∷ turn ∷ turn ∷ []

enough : has_room rings (length (to_burst rings handler 0 lib).out) lib.tx_ring turns ≡ true
unfolding has_room nfvnice_source.Nflib.Round.answers
enough = refl

run_round_lem_example :
    (s' : Lib) × (ts' : List Turn) × (run_round rings handler turns 0 lib
      ≡ some ((to_burst rings handler 0 lib).state, s', ts'))
    × (passed s' ≡ passed lib ++ (to_burst rings handler 0 lib).out)
    × (s'.held ≡ lib.held ++ (to_burst rings handler 0 lib).kept)
    × (s'.freed ≡ lib.freed)
    × (s'.tx_drop ≡ lib.tx_drop)
    × (s'.tx ≡ bump64 lib.tx (length (to_burst rings handler 0 lib).out))
run_round_lem_example =
    run_round_lem rings rings-Documented handler turns 0 lib (omega arith) enough
