-- ===== src/Nflib/Retry.antt =====
-- Passing a batch on, and waiting for room on the transmit ring.
use nfvnice_source.Mgr.{Packet, Enqueued, ring_after, bump64}
use nfvnice_source.Nflib.{Rings, Documented, Lib, Turn, trigger_ecb, onvm_nf_yeild, retry, transmit}
use nfvnice_source.Prelude.{
  ℕ, suc, ◌≡◌, ◌≢◌, refl, ap, sym, ◌∙◌, inl, inr, List, [], ◌∷◌, ◌++◌, some, Bool, true, false,
  Bool-cases, ◌&&◌, ◌||◌, length, take, drop, take-append-drop, append_assoc, append-nil, ◌<◌, ◌^◌,
  ap₂, subst, leb→le, leb, ◌==◌, arith,
}

-- All packets that the NF has passed on: those that the manager took, and those on the ring.
abbrev pub passed : Lib → List Packet
passed s = s.taken ++ s.tx_ring

-- Nothing of `t` is lost against `s`: it passed on `out` after what was passed on before, and the NF
-- has freed no packet.
pub record Passes (out : List Packet) (s t : Lib) : Type 0 where
  pub order : passed t ≡ passed s ++ out
  pub held : t.held ≡ s.held
  pub freed : t.freed ≡ s.freed
  pub dropped : t.tx_drop ≡ s.tx_drop
  pub counted : t.tx ≡ bump64 s.tx (length out)

pub yeild-trigger :
    (t : Turn) (s : Lib)
    → (passed (onvm_nf_yeild t s) ≡ passed s)
      × ((onvm_nf_yeild t s).tx_ring ≡ drop t.takes s.tx_ring)
      × ((onvm_nf_yeild t s).held ≡ s.held)
      × ((onvm_nf_yeild t s).freed ≡ s.freed)
      × ((onvm_nf_yeild t s).tx_drop ≡ s.tx_drop)
      × ((onvm_nf_yeild t s).tx ≡ s.tx)
unfolding onvm_nf_yeild trigger_ecb
yeild-trigger t s = elim (Bool-cases ((s.need_ecb || t.need_ecb) && s.has_ecb)) [
  | inl e ↦ rw e (
    append_assoc s.taken (take t.takes s.tx_ring) (drop t.takes s.tx_ring)
        ∙ ap (λ x. s.taken ++ x) (take-append-drop t.takes s.tx_ring),
    refl,
    refl,
    refl,
    refl,
    refl,
  )
  | inr e ↦ rw e (
    append_assoc s.taken (take t.takes s.tx_ring) (drop t.takes s.tx_ring)
        ∙ ap (λ x. s.taken ++ x) (take-append-drop t.takes s.tx_ring),
    refl,
    refl,
    refl,
    refl,
    refl,
  )
]

some_packets : (n : ℕ) → (suc n == 0) ≡ false
some_packets n = ground arith

-- At one of the waits, after what the manager took, there is room for `n` packets.
unfoldable pub has_room : Rings → ℕ → List Packet → List Turn → Bool
has_room r n q [] = false
has_room r n q (t ∷ ts) = let q' = drop t.takes q in leb n (r.free_count q') || has_room r n q' ts

module _ (r : Rings) (doc : Documented r) where
  -- With room the ring takes all packets, since it has no water mark.
  enqueue-stored :
      (q pkts : List Packet) (x : Enqueued)
      → (r.enqueue_bulk q pkts).0 ≡ x
      → x ≢ Enqueued.no_bufs
      → r.enqueue_bulk q pkts ≡ (Enqueued.stored, q ++ pkts)
  enqueue-stored q pkts Enqueued.stored e ne =
      ap₂ (λ a b. (a, b)) e (doc.bulk q pkts ∙ ap (λ a. ring_after a q pkts) e)
  enqueue-stored q pkts Enqueued.quota e ne = absurd (doc.no_mark q pkts e)
  enqueue-stored q pkts Enqueued.no_bufs e ne = absurd (ne refl)

  refused-bulk :
      (q pkts : List Packet)
      → (r.enqueue_bulk q pkts).0 ≡ Enqueued.no_bufs
      → r.enqueue_bulk q pkts ≡ (Enqueued.no_bufs, q)
  refused-bulk q pkts e = ap₂ (λ a b. (a, b)) e (doc.bulk q pkts ∙ ap (λ a. ring_after a q pkts) e)

  room-stored :
      (q pkts : List Packet)
      → leb (length pkts) (r.free_count q) ≡ true
      → r.enqueue_bulk q pkts ≡ (Enqueued.stored, q ++ pkts)
  room-stored q pkts l =
      enqueue-stored q pkts (r.enqueue_bulk q pkts).0 refl (doc.room q pkts (leb→le _ _ l))

  room_later :
      (n : ℕ) (q q' : List Packet) (t : Turn) (ts : List Turn)
      → q' ≡ drop t.takes q
      → leb n (r.free_count q') ≡ false
      → has_room r n q (t ∷ ts) ≡ true
      → has_room r n q' ts ≡ true
  unfolding has_room
  room_later n q q' t ts e l h =
      subst (λ x. has_room r n x ts ≡ true) (sym e)
        (sym (
            ap (λ b. b || has_room r n (drop t.takes q) ts)
              (ap (λ x. leb n (r.free_count x)) (sym e) ∙ l))
          ∙ h)

  -- Waiting ends when there is room, and then the batch is behind what was passed on before.
  retry_lem :
      (ts : List Turn) (pkts : List Packet) (s : Lib)
      → has_room r (length pkts) s.tx_ring ts ≡ true
      → (s' : Lib) × (ts' : List Turn) × (retry r ts pkts s ≡ some (s', ts')) × Passes pkts s s'
  unfolding retry has_room
  retry_lem [] pkts s h = ground (arith, h)
  retry_lem (t ∷ ts) pkts s h =
      let (same, ring, held, freed, dropped, tx) = yeild-trigger t s in
      elim (Bool-cases (leb (length pkts) (r.free_count (onvm_nf_yeild t s).tx_ring))) [
        | inl l ↦
            let took = room-stored (onvm_nf_yeild t s).tx_ring pkts l in
            (
              record (onvm_nf_yeild t s) {
                tx_ring = (onvm_nf_yeild t s).tx_ring ++ pkts;
                tx = bump64 (onvm_nf_yeild t s).tx (length pkts);
              },
              ts,
              rw (retry, l, ap (λ x. x.0) took, ap (λ x. x.1) took) refl,
              record {
                order =
                    sym (append_assoc (onvm_nf_yeild t s).taken (onvm_nf_yeild t s).tx_ring pkts)
                    ∙ ap (λ x. x ++ pkts) same;
                held = held;
                freed = freed;
                dropped = dropped;
                counted = ap (λ x. bump64 x (length pkts)) tx;
              },
            )
        | inr l ↦
            let (s', ts', ran, p) =
              retry_lem ts pkts (onvm_nf_yeild t s)
                (room_later (length pkts) s.tx_ring _ t ts ring l h) in
            (
              s',
              ts',
              rw (retry, l) ran,
              record {
                order = p.order ∙ ap (λ x. x ++ pkts) same;
                held = p.held ∙ held;
                freed = p.freed ∙ freed;
                dropped = p.dropped ∙ dropped;
                counted = p.counted ∙ ap (λ x. bump64 x (length pkts)) tx;
              },
            )
      ]

  -- The same for passing a batch on, which waits only if the ring refuses it.
  pub transmit_lem :
      (ts : List Turn) (pkts : List Packet) (s : Lib)
      → s.tx < 2 ^ 64
      → has_room r (length pkts) s.tx_ring ts ≡ true
      → (s' : Lib) × (ts' : List Turn) × (transmit r ts pkts s ≡ some (s', ts')) × Passes pkts s s'
  unfolding transmit
  transmit_lem ts [] s small h = (
    s,
    ts,
    refl,
    record {
      order = sym (append-nil (passed s));
      held = refl;
      freed = refl;
      dropped = refl;
      counted = ground arith;
    },
  )
  transmit_lem ts (p ∷ ps) s small h = by_result (r.enqueue_bulk s.tx_ring (p ∷ ps)).0 refl
    where
      stored-ne-no_bufs : Enqueued.stored ≢ Enqueued.no_bufs
      stored-ne-no_bufs e = cc e

      by_result :
          (x : Enqueued)
          → (r.enqueue_bulk s.tx_ring (p ∷ ps)).0 ≡ x
          → (s' : Lib) × (ts' : List Turn) × (transmit r ts (p ∷ ps) s ≡ some (s', ts'))
            × Passes (p ∷ ps) s s'
      by_result Enqueued.stored e =
          let took = enqueue-stored s.tx_ring (p ∷ ps) Enqueued.stored e stored-ne-no_bufs in
          (
            record s { tx_ring = s.tx_ring ++ (p ∷ ps); tx = bump64 s.tx (length (p ∷ ps)) },
            ts,
            rw (transmit, some_packets (length ps), ap (λ x. x.0) took, ap (λ x. x.1) took) refl,
            record {
              order = sym (append_assoc s.taken s.tx_ring (p ∷ ps));
              held = refl;
              freed = refl;
              dropped = refl;
              counted = refl;
            },
          )
      by_result Enqueued.quota e = absurd (doc.no_mark s.tx_ring (p ∷ ps) e)
      by_result Enqueued.no_bufs e =
          let (s', ts', ran, q) = retry_lem ts (p ∷ ps) s h in
          let left = refused-bulk s.tx_ring (p ∷ ps) e in
          (
            s',
            ts',
            rw (transmit, some_packets (length ps), ap (λ x. x.0) left, ap (λ x. x.1) left) ran,
            q,
          )
