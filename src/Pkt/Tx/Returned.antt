-- ===== src/Pkt/Tx/Returned.antt =====
-- Every packet that comes back from an NF ends in exactly one place.
use nfvnice_source.Bkpr.{get_flow_entry}
use nfvnice_source.Action
use nfvnice_source.Mgr.{Packet, World, Dpdk, Documented}
use nfvnice_source.Pkt.{
  onvm_pkt_drop, lose, onvm_pkt_enqueue_port, onvm_pkt_enqueue_nf, follow, advance,
}
use nfvnice_source.Pkt.Count.{amount, amount-nil, amount-cons, amount-meta}
use nfvnice_source.Pkt.Moves.{
  InRange, Moves, Moves-refl, Moves-trans, Moves-eq, InRange-Moves, drop-Moves, lose-Moves,
}
use nfvnice_source.Pkt.Tx.{
  dispatch, next_action, onvm_pkt_process_next_action, Round, continue, stop, fault, process_tx,
  onvm_pkt_process_tx_batch, from_nf, send_to_nf, use_global_mode, count_next, count_drop,
  count_tonf, count_out, go_on,
}
use nfvnice_source.Pkt.Place.{tables}
use nfvnice_source.Prelude.{
  ℕ, ◌+◌, ◌≡◌, refl, sym, subst, Bool, true, false, Option, none, some, List, [], ◌∷◌, arith, ◌==◌,
  if◌then◌else◌, some_inj, none-some,
}
use nfvnice_source.Pkt.Batch.{same-Moves, enqueue_port-Moves, enqueue_nf_like-Moves}

module _ (d : Dpdk) (ok : Documented d) (a : ℕ) where
  -- The statistics of the actions move nothing.
  same_places-Moves :
      {n : ℕ} (w w1 w' : World)
      → w1.places ≡ w.places
      → tables w1 ≡ tables w
      → Moves a n w1 w'
      → Moves a n w w'
  same_places-Moves w w1 w' e s v = Moves-eq (omega arith) (Moves-trans (same-Moves a w w1 e s) v)

  dispatch-Moves :
      (i : ℕ) (p q : Packet) (entry : Option ℕ) (w : World)
      → p.buf ≡ q.buf
      → InRange w
      → Moves a (amount a (q ∷ [])) w (dispatch d i p entry w)
  unfolding dispatch
  dispatch-Moves i p q entry w e h =
      by_action (p.meta.action == Action.drop) (p.meta.action == Action.tonf)
        (p.meta.action == Action.out)
    where
      by_action :
          (is_drop is_tonf is_out : Bool)
          → Moves a (amount a (q ∷ [])) w (
              if is_drop
              then count_drop i (onvm_pkt_drop p w)
              else if is_tonf
              then onvm_pkt_enqueue_nf d p.meta.destination (advance p) entry (count_tonf i w)
              else if is_out
              then onvm_pkt_enqueue_port d p.meta.destination (advance p) (count_out i w)
              else lose (p ∷ []) w)
      by_action true t o =
          let v = Moves-eq (amount-meta a p q e) (drop-Moves a p w) in
          record { tables_kept = v.tables_kept; ports = v.ports; counted = v.counted }
      by_action false true o =
          same_places-Moves w (count_tonf i w)
            (onvm_pkt_enqueue_nf d p.meta.destination (advance p) entry (count_tonf i w)) refl refl
            (enqueue_nf_like-Moves d ok a p.meta.destination (advance p) q entry (count_tonf i w) e
              h)
      by_action false false true =
          same_places-Moves w (count_out i w)
            (onvm_pkt_enqueue_port d p.meta.destination (advance p) (count_out i w)) refl refl
            (Moves-eq (amount-meta a (advance p) q e)
              (enqueue_port-Moves d ok a p.meta.destination (advance p) (count_out i w)))
      by_action false false false = Moves-eq (amount-meta a p q e) (lose-Moves a (p ∷ []) w)

  next_action-Moves :
      (i : ℕ) (p q : Packet) (entry : Option ℕ) (w w' : World)
      → p.buf ≡ q.buf
      → InRange w
      → next_action d i p entry w ≡ some w'
      → Moves a (amount a (q ∷ [])) w w'
  unfolding next_action
  next_action-Moves i p q none w w' e h r =
      subst (λ x. Moves a (amount a (q ∷ [])) w x) (some_inj r)
        (same_places-Moves w (use_global_mode w)
          (dispatch d i (follow (w.chains w.default_chain) p) none (use_global_mode w)) refl refl
          (dispatch-Moves i (follow (w.chains w.default_chain) p) q none (use_global_mode w) e h))
  next_action-Moves i p q (some entry) w w' e h r = by_chain (w.entries entry).sc r
    where
      by_chain :
          (chain : Option ℕ)
          → (elim chain [
            | none ↦ none
            | some c ↦ some (dispatch d i (follow (w.chains c) p) (some entry) w)
          ])
            ≡ some w'
          → Moves a (amount a (q ∷ [])) w w'
      by_chain none r = absurd (none-some r)
      by_chain (some c) r =
          subst (λ x. Moves a (amount a (q ∷ [])) w x) (some_inj r)
            (dispatch-Moves i (follow (w.chains c) p) q (some entry) w e h)

  process_next_action-Moves :
      (i : ℕ) (p q : Packet) (entry : Option ℕ) (w w' : World)
      → p.buf ≡ q.buf
      → InRange w
      → onvm_pkt_process_next_action d i p entry w ≡ some w'
      → Moves a (amount a (q ∷ [])) w w'
  unfolding onvm_pkt_process_next_action
  process_next_action-Moves i p q none w w' e h =
      next_action-Moves i p q (get_flow_entry d p) w w' e h
  process_next_action-Moves i p q (some entry) w w' e h =
      next_action-Moves i p q (some entry) w w' e h

  send_to_nf-Moves :
      (i : ℕ) (p q : Packet) (w : World)
      → p.buf ≡ q.buf
      → InRange w
      → Moves a (amount a (q ∷ [])) w (send_to_nf d i p w)
  send_to_nf-Moves i p q w e h = by_entry (get_flow_entry d p)
    where
      by_entry :
          (entry : Option ℕ)
          → Moves a (amount a (q ∷ [])) w (
              onvm_pkt_enqueue_nf d p.meta.destination
                (advance p)
                entry
                (elim entry [ none ↦ use_global_mode (count_tonf i w) | some e ↦ count_tonf i w ]))
      by_entry none =
          let w1 = use_global_mode (count_tonf i w) in
          same_places-Moves w w1 (onvm_pkt_enqueue_nf d p.meta.destination (advance p) none w1) refl
            refl (enqueue_nf_like-Moves d ok a p.meta.destination (advance p) q none w1 e h)
      by_entry (some entry) =
          let w1 = count_tonf i w in
          same_places-Moves w w1
            (onvm_pkt_enqueue_nf d p.meta.destination (advance p) (some entry) w1) refl refl
            (enqueue_nf_like-Moves d ok a p.meta.destination (advance p) q (some entry) w1 e h)

  -- A round counts its packet, whichever way it ends.
  unfoldable pub RoundMoves : ℕ → World → Round → Type 0
  RoundMoves n w (continue w') = Moves a n w w'
  RoundMoves n w (stop w') = Moves a n w w'
  RoundMoves n w fault = Unit

  pub process_tx-Moves :
      (i : ℕ) (p : Packet) (w : World)
      → InRange w
      → RoundMoves (amount a (p ∷ [])) w (process_tx d i p w)
  unfolding process_tx RoundMoves
  process_tx-Moves i p0 w h =
      by_action (p.meta.action == Action.drop) (p.meta.action == Action.next)
        (p.meta.action == Action.tonf) (p.meta.action == Action.out)
    where
      p : Packet
      p = from_nf i p0 w

      dropped : Moves a (amount a (p0 ∷ [])) w (onvm_pkt_drop p w)
      dropped = Moves-eq (amount-meta a p p0 refl) (drop-Moves a p w)

      by_result :
          (result : Option World)
          → onvm_pkt_process_next_action d i p (get_flow_entry d p) (count_next i w) ≡ result
          → RoundMoves (amount a (p0 ∷ [])) w (go_on result)
      by_result none r = tt
      by_result (some w') r =
          same_places-Moves w (count_next i w) w' refl refl
            (process_next_action-Moves i p p0 (get_flow_entry d p) (count_next i w) w' refl h r)

      by_action :
          (is_drop is_next is_tonf is_out : Bool)
          → RoundMoves (amount a (p0 ∷ [])) w (
              if is_drop
              then continue (count_drop i (onvm_pkt_drop p w))
              else if is_next
              then go_on (onvm_pkt_process_next_action d i p (get_flow_entry d p) (count_next i w))
              else if is_tonf
              then continue (send_to_nf d i p w)
              else if is_out
              then continue (onvm_pkt_enqueue_port d p.meta.destination p (count_out i w))
              else stop (onvm_pkt_drop p w))
      by_action true n t o = record {
        tables_kept = dropped.tables_kept;
        ports = dropped.ports;
        counted = dropped.counted;
      }
      by_action false true t o =
          by_result (onvm_pkt_process_next_action d i p (get_flow_entry d p) (count_next i w)) refl
      by_action false false true o = send_to_nf-Moves i p p0 w refl h
      by_action false false false true =
          same_places-Moves w (count_out i w)
            (onvm_pkt_enqueue_port d p.meta.destination p (count_out i w)) refl refl
            (Moves-eq (amount-meta a p p0 refl)
              (enqueue_port-Moves d ok a p.meta.destination p (count_out i w)))
      by_action false false false false = dropped

  pub tx_batch-Moves :
      (i : ℕ) (ps : List Packet) (w w' : World)
      → InRange w
      → onvm_pkt_process_tx_batch d i ps w ≡ some w'
      → Moves a (amount a ps) w w'
  unfolding onvm_pkt_process_tx_batch RoundMoves
  tx_batch-Moves i [] w w' h r =
      Moves-eq (sym (amount-nil a)) (subst (Moves a 0 w) (some_inj r) (Moves-refl a w))
  tx_batch-Moves i (p ∷ ps) w w' h r =
      by_round (process_tx d i p w) (process_tx-Moves i p w h) (λ w1. tx_batch-Moves i ps w1 w') r
    where
      by_round :
          (round : Round)
          → RoundMoves (amount a (p ∷ [])) w round
          → ((w1 : World)
              → InRange w1
              → onvm_pkt_process_tx_batch d i ps w1 ≡ some w'
              → Moves a (amount a ps) w1 w')
          → (elim round [
            | continue w1 ↦ onvm_pkt_process_tx_batch d i ps w1
            | stop w1 ↦ some (lose ps w1)
            | fault ↦ none
          ])
            ≡ some w'
          → Moves a (amount a (p ∷ ps)) w w'
      by_round (continue w1) v rest r =
          Moves-eq (sym (amount-cons a p ps)) (Moves-trans v (rest w1 (InRange-Moves v h) r))
      by_round (stop w1) v rest r = Moves-eq (sym (amount-cons a p ps)) (
          subst (Moves a (amount a (p ∷ []) + amount a ps) w) (some_inj r)
            (Moves-trans v (lose-Moves a ps w1)))
      by_round fault v rest r = absurd (none-some r)
