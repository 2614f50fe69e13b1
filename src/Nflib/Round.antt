-- ===== src/Nflib/Round.antt =====
-- What a round of the loop of an NF does with the packets.
use nfvnice_source.Mgr.{Packet, bump64, packet_read_size}
use nfvnice_source.Nflib.{
  Rings, Documented, Lib, Turn, onvm_nf_yeild, finish, Batch, handle_each, process_burst, run_round,
}
use nfvnice_source.Prelude.{
  ℕ, ◌≡◌, refl, ap, sym, ◌∙◌, inl, inr, List, [], ◌∷◌, ◌++◌, some, true, Bool-cases, length,
  append_assoc, append-nil, ◌<◌, ◌^◌, ap₂, subst, ◌==◌, if◌then◌else◌, arith,
}
use nfvnice_source.Nflib.Retry.{passed, yeild-trigger, has_room, transmit_lem}

-- What an NF makes of a list of packets: its state, what it passes on and what it keeps, in order.
pub record Answers (H : Type 0) : Type 0 where
  pub state : H
  pub out : List Packet
  pub kept : List Packet

unfoldable pub answers : {H : Type 0} → (H → Packet → ℕ × Packet × H) → H → List Packet → Answers H
answers handler h [] = record { state = h; out = []; kept = [] }
answers handler h (p ∷ ps) =
    let (ret, p', h') = handler h p in
    let a = answers handler h' ps in
    if ret == 0 then record a { out = p' ∷ a.out } else record a { kept = p' ∷ a.kept }

module _ (r : Rings) {H : Type 0} (handler : H → Packet → ℕ × Packet × H) where
  -- The loop over a batch collects the answers, and changes nothing else.
  record Handled (a : Answers H) (b b' : Batch r handler) : Type 0 where
    state : b'.state ≡ a.state
    pkts_tx : b'.pkts_tx ≡ b.pkts_tx ++ a.out
    held : b'.lib.held ≡ b.lib.held ++ a.kept
    passed_on : passed b'.lib ≡ passed b.lib
    tx_ring : b'.lib.tx_ring ≡ b.lib.tx_ring
    freed : b'.lib.freed ≡ b.lib.freed
    tx : b'.lib.tx ≡ b.lib.tx
    tx_drop : b'.lib.tx_drop ≡ b.lib.tx_drop

  handle_each_lem :
      (ps : List Packet) (b : Batch r handler)
      → Handled (answers handler b.state ps) b (handle_each r handler ps b)
  unfolding handle_each answers
  handle_each_lem [] b = record {
    state = refl;
    pkts_tx = sym (append-nil b.pkts_tx);
    held = sym (append-nil b.lib.held);
    passed_on = refl;
    tx_ring = refl;
    freed = refl;
    tx = refl;
    tx_drop = refl;
  }
  handle_each_lem (p ∷ ps) b = elim (Bool-cases (x.0 == 0)) [
    | inl e ↦
        let b1 = record b { state = x.2; pkts_tx = b.pkts_tx ++ x.1 ∷ [] } in
        let i = handle_each_lem ps b1 in
        rw e (record {
          state = i.state;
          pkts_tx = i.pkts_tx ∙ append_assoc b.pkts_tx (x.1 ∷ []) _;
          held = i.held;
          passed_on = i.passed_on;
          tx_ring = i.tx_ring;
          freed = i.freed;
          tx = i.tx;
          tx_drop = i.tx_drop;
        })
    | inr e ↦
        let b1 = record b {
          state = x.2;
          lib = record b.lib {
            tx_buffer = bump64 b.lib.tx_buffer 1;
            held = b.lib.held ++ x.1 ∷ [];
          };
        } in
        let i = handle_each_lem ps b1 in
        rw e (record {
          state = i.state;
          pkts_tx = i.pkts_tx;
          held = i.held ∙ append_assoc b.lib.held (x.1 ∷ []) _;
          passed_on = i.passed_on;
          tx_ring = i.tx_ring;
          freed = i.freed;
          tx = i.tx;
          tx_drop = i.tx_drop;
        })
  ]
    where
      x : ℕ × Packet × H
      x = handler b.state p

  -- The answers to the packets of the next burst.
  abbrev pub to_burst : H → Lib → Answers H
  to_burst h s = answers handler h (r.dequeue_burst s.rx_ring packet_read_size).0

module _ (r : Rings) (doc : Documented r) {H : Type 0} (handler : H → Packet → ℕ × Packet × H) where
  process_burst_lem :
      (pkts : List Packet) (ts : List Turn) (h : H) (s : Lib)
      → s.tx < 2 ^ 64
      → has_room r (length (answers handler h pkts).out) s.tx_ring ts ≡ true
      → (s' : Lib) × (ts' : List Turn) × (process_burst r handler pkts ts h s
          ≡ some ((answers handler h pkts).state, s', ts'))
        × (passed s' ≡ passed s ++ (answers handler h pkts).out)
        × (s'.held ≡ s.held ++ (answers handler h pkts).kept)
        × (s'.freed ≡ s.freed)
        × (s'.tx_drop ≡ s.tx_drop)
        × (s'.tx ≡ bump64 s.tx (length (answers handler h pkts).out))
  unfolding process_burst answers has_room
  process_burst_lem [] [] h s small room = ground (arith, room)
  process_burst_lem [] (t ∷ ts) h s small room =
      let (same, ring, held, freed, dropped, tx) = yeild-trigger t s in
      (
        onvm_nf_yeild t s,
        ts,
        refl,
        same ∙ sym (append-nil (passed s)),
        held ∙ sym (append-nil s.held),
        freed,
        dropped,
        tx ∙ ground arith,
      )
  process_burst_lem (p ∷ ps) ts h s small room =
      let b = handle_each r handler (p ∷ ps) start in
      let i = handle_each_lem r handler (p ∷ ps) start in
      let (s', ts', ran, q) =
        transmit_lem r doc ts b.pkts_tx b.lib (subst (λ x. x < 2 ^ 64) (sym i.tx) small)
          (ap₂ (λ x y. has_room r (length x) y ts) i.pkts_tx i.tx_ring ∙ room) in
      (
        s',
        ts',
        ap (finish b.state) ran ∙ ap (λ x. some (x, s', ts')) i.state,
        q.order ∙ ap₂ (λ x y. x ++ y) i.passed_on i.pkts_tx,
        q.held ∙ i.held,
        q.freed ∙ i.freed,
        q.dropped ∙ i.tx_drop,
        q.counted ∙ ap₂ (λ x y. bump64 x (length y)) i.tx i.pkts_tx,
      )
    where
      start : Batch r handler
      start = record { state = h; pkts_tx = []; lib = s }

  -- The documentation of DPDK holds, the transmit ring has no water mark, and at one of the waits there
  -- is room for what the NF passes on of a burst. Then the round ends; what the NF passes on stands
  -- behind all that it has passed on before, in the order of the burst, and what it keeps behind what it
  -- has kept; no packet is freed or counted as dropped, and the packets passed on are counted.
  pub run_round_lem :
      (ts : List Turn) (h : H) (s : Lib)
      → s.tx < 2 ^ 64
      → has_room r (length (to_burst r handler h s).out) s.tx_ring ts ≡ true
      → (s' : Lib) × (ts' : List Turn) × (run_round r handler ts h s
          ≡ some ((to_burst r handler h s).state, s', ts'))
        × (passed s' ≡ passed s ++ (to_burst r handler h s).out)
        × (s'.held ≡ s.held ++ (to_burst r handler h s).kept)
        × (s'.freed ≡ s.freed)
        × (s'.tx_drop ≡ s.tx_drop)
        × (s'.tx ≡ bump64 s.tx (length (to_burst r handler h s).out))
  unfolding run_round
  run_round_lem ts h s small room =
      process_burst_lem (r.dequeue_burst s.rx_ring packet_read_size).0 ts h
        (record s { rx_ring = (r.dequeue_burst s.rx_ring packet_read_size).1 }) small room
