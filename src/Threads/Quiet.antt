-- ===== src/Threads/Quiet.antt =====
-- What moves no packet: the requests of NFs, the wakeups, and taking marks back.
use nfvnice_source.Bkpr.{
  clear_mark, read_one, read_rounds, read_all_ft_frm_cl_bft, reset_global,
  onvm_check_and_reset_back_pressure,
}
use nfvnice_source.Mgr.{World}
use nfvnice_source.Pkt.Place.{tables}
use nfvnice_source.Prelude.{ℕ, zero, suc, ◌+◌, ◌≡◌, refl, ◌∙◌, arith}
use nfvnice_source.Wake.{
  WakeupInfo, wakeup_client_internal, wakeup_client, wakeup_from, handle_wakeup,
}

-- Taking marks back.
read_one-places : (i : ℕ) (w : World) → (read_one i w).places ≡ w.places
unfolding read_one clear_mark
read_one-places i w = ground arith

read_one-tables : (i : ℕ) (w : World) → tables (read_one i w) ≡ tables w
unfolding read_one clear_mark
read_one-tables i w = ground arith

read_rounds-places : (n i : ℕ) (w : World) → (read_rounds n i w).places ≡ w.places
unfolding read_rounds
read_rounds-places zero i w = refl
read_rounds-places (suc n) i w = read_rounds-places n i (read_one i w) ∙ read_one-places i w

read_rounds-tables : (n i : ℕ) (w : World) → tables (read_rounds n i w) ≡ tables w
unfolding read_rounds
read_rounds-tables zero i w = refl
read_rounds-tables (suc n) i w = read_rounds-tables n i (read_one i w) ∙ read_one-tables i w

pub reset-places : (i : ℕ) (w : World) → (onvm_check_and_reset_back_pressure i w).places ≡ w.places
unfolding onvm_check_and_reset_back_pressure read_all_ft_frm_cl_bft reset_global
reset-places i w = grind (arith, read_rounds-places)

pub reset-tables : (i : ℕ) (w : World) → tables (onvm_check_and_reset_back_pressure i w) ≡ tables w
unfolding onvm_check_and_reset_back_pressure read_all_ft_frm_cl_bft reset_global
reset-tables i w = grind (arith, read_rounds-tables)

-- The wakeups.
wakeup_client-places :
    (i : ℕ) (info : WakeupInfo) (w : World) → (wakeup_client i (info, w)).1.places ≡ w.places
unfolding wakeup_client wakeup_client_internal
wakeup_client-places i info w = ground arith

wakeup_client-tables :
    (i : ℕ) (info : WakeupInfo) (w : World) → tables (wakeup_client i (info, w)).1 ≡ tables w
unfolding wakeup_client wakeup_client_internal
wakeup_client-tables i info w = ground arith

wakeup_from-places :
    (n i : ℕ) (info : WakeupInfo) (w : World) → (wakeup_from n i (info, w)).1.places ≡ w.places
unfolding wakeup_from
wakeup_from-places zero i info w = refl
wakeup_from-places (suc n) i info w =
    let (info1, w1) = wakeup_client i (info, w) in
    wakeup_from-places n (i + 1) info1 w1 ∙ wakeup_client-places i info w

wakeup_from-tables :
    (n i : ℕ) (info : WakeupInfo) (w : World) → tables (wakeup_from n i (info, w)).1 ≡ tables w
unfolding wakeup_from
wakeup_from-tables zero i info w = refl
wakeup_from-tables (suc n) i info w =
    let (info1, w1) = wakeup_client i (info, w) in
    wakeup_from-tables n (i + 1) info1 w1 ∙ wakeup_client-tables i info w

pub handle_wakeup-places :
    (info : WakeupInfo) (w : World) → (handle_wakeup info w).1.places ≡ w.places
unfolding handle_wakeup
handle_wakeup-places info w = wakeup_from-places _ _ info w

pub handle_wakeup-tables :
    (info : WakeupInfo) (w : World) → tables (handle_wakeup info w).1 ≡ tables w
unfolding handle_wakeup
handle_wakeup-tables info w = wakeup_from-tables _ _ info w
