-- ===== src/Pkt/Tx/Total.antt =====
-- No read through NULL where every flow entry has its chain, and with that: every packet of a batch
-- from an NF ends in exactly one place.
use nfvnice_source.Bkpr.{get_flow_entry}
use nfvnice_source.Action
use nfvnice_source.Mgr.{Packet, World, Dpdk, Documented}
use nfvnice_source.Pkt.{onvm_pkt_drop, lose, onvm_pkt_enqueue_port, follow}
use nfvnice_source.Pkt.Count.{amount, total}
use nfvnice_source.Pkt.Moves.{InRange, Moves, InRange-Moves}
use nfvnice_source.Pkt.Tx.{
  dispatch, next_action, onvm_pkt_process_next_action, Round, continue, stop, fault, process_tx,
  onvm_pkt_process_tx_batch, from_nf, send_to_nf, count_next, count_drop, count_out, go_on,
}
use nfvnice_source.Prelude.{
  ℕ, ◌+◌, ◌≡◌, inl, inr, refl, sym, ap, subst, ◌∙◌, Bool, true, false, Option, none, some,
  Option-cases, List, [], ◌∷◌, ◌==◌, if◌then◌else◌, none-some,
}
use nfvnice_source.Pkt.Tx.Returned.{process_tx-Moves, tx_batch-Moves, RoundMoves}

-- Every flow entry has its chain, those that no flow uses included: a state in which each entry of the
-- array was given one.
unfoldable pub Chained : World → Type 0
Chained w = (e : ℕ) → ¬ ((w.entries e).sc ≡ none)

module _ (d : Dpdk) where
  next_action_total :
      (i : ℕ) (p : Packet) (entry : Option ℕ) (w : World)
      → Chained w
      → ¬ (next_action d i p entry w ≡ none)
  unfolding next_action Chained
  next_action_total i p none w h r = none-some (sym r)
  next_action_total i p (some e) w h r = elim (Option-cases (w.entries e).sc) [
    | inl empty ↦ h e empty
    | inr (c, found) ↦ none-some (
        sym (
          subst
            (λ (x : Option ℕ).
              (elim x [
                | none ↦ none
                | some c ↦ some (dispatch d i (follow (w.chains c) p) (some e) w)
              ])
              ≡ none)
            found r))
  ]

  process_next_action_total :
      (i : ℕ) (p : Packet) (entry : Option ℕ) (w : World)
      → Chained w
      → ¬ (onvm_pkt_process_next_action d i p entry w ≡ none)
  unfolding onvm_pkt_process_next_action
  process_next_action_total i p none w h = next_action_total i p (get_flow_entry d p) w h
  process_next_action_total i p (some e) w h = next_action_total i p (some e) w h

  -- A round that does not read through NULL.
  Sound : Round → Type 0
  Sound fault = ⊥
  Sound _ = Unit

  process_tx_total : (i : ℕ) (p : Packet) (w : World) → Chained w → Sound (process_tx d i p w)
  unfolding process_tx Chained Sound
  process_tx_total i p0 w h =
      by_action (p.meta.action == Action.drop) (p.meta.action == Action.next)
        (p.meta.action == Action.tonf) (p.meta.action == Action.out)
    where
      p : Packet
      p = from_nf i p0 w

      result : Option World
      result = onvm_pkt_process_next_action d i p (get_flow_entry d p) (count_next i w)

      by_result : (r : Option World) → result ≡ r → Sound (go_on r)
      by_result none e = process_next_action_total i p (get_flow_entry d p) (count_next i w) h e
      by_result (some w') e = tt

      by_action :
          (is_drop is_next is_tonf is_out : Bool)
          → Sound (
              if is_drop
              then continue (count_drop i (onvm_pkt_drop p w))
              else if is_next
              then go_on result
              else if is_tonf
              then continue (send_to_nf d i p w)
              else if is_out
              then continue (onvm_pkt_enqueue_port d p.meta.destination p (count_out i w))
              else stop (onvm_pkt_drop p w))
      by_action true n t o = tt
      by_action false true t o = by_result result refl
      by_action false false true o = tt
      by_action false false false true = tt
      by_action false false false false = tt

  module _ (ok : Documented d) where
    pub Chained-Moves : {a n : ℕ} {w w' : World} → Moves a n w w' → Chained w → Chained w'
    unfolding Chained
    Chained-Moves v h e r = h e (sym (ap (λ t. t.1 e) v.tables_kept) ∙ r)

    pub tx_batch_total :
        (i : ℕ) (ps : List Packet) (w : World)
        → InRange w
        → Chained w
        → (w' : World) × (onvm_pkt_process_tx_batch d i ps w ≡ some w')
    unfolding onvm_pkt_process_tx_batch RoundMoves Sound
    tx_batch_total i [] w h c = (w, refl)
    tx_batch_total i (p ∷ ps) w h c =
        by_round (process_tx d i p w) (process_tx-Moves d ok 0 i p w h) (process_tx_total i p w c)
          (tx_batch_total i ps)
      where
        by_round :
            (round : Round)
            → RoundMoves d ok 0 (amount 0 (p ∷ [])) w round
            → Sound round
            → ((w1 : World)
                → InRange w1
                → Chained w1
                → (w' : World) × (onvm_pkt_process_tx_batch d i ps w1 ≡ some w'))
            → (w' : World) × ((elim round [
              | continue w1 ↦ onvm_pkt_process_tx_batch d i ps w1
              | stop w1 ↦ some (lose ps w1)
              | fault ↦ none
            ])
                ≡ some w')
        by_round (continue w1) v s rest = rest w1 (InRange-Moves v h) (Chained-Moves v c)
        by_round (stop w1) v s rest = (lose ps w1, refl)
        by_round fault v s rest = absurd s

    -- A batch from NF `i`: where the calls of DPDK do what its documentation says, every flow entry
    -- has its chain and the NFs of the services have identifiers below 32, the batch is processed
    -- without a read through NULL, and afterwards every packet buffer is in the rings, the buffers,
    -- on the ports, freed or let go of exactly as often as it was before and in the batch together.
    pub onvm_pkt_process_tx_batch-conserves :
        (a i : ℕ) (pkts : List Packet) (w : World)
        → InRange w
        → Chained w
        → (w' : World) × (onvm_pkt_process_tx_batch d i pkts w ≡ some w')
          × (total a w'.places ≡ total a w.places + amount a pkts)
    onvm_pkt_process_tx_batch-conserves a i pkts w h c =
        let (w', r) = tx_batch_total i pkts w h c in
        (w', r, (tx_batch-Moves d ok a i pkts w w' h r).counted)
