-- ===== src/Args/Options.antt =====
-- Which command lines are accepted, and what they set.
use nfvnice_source.Args.Wishes.{
  Wishes, no_wishes, both, last_of, granted, granted-both, granted_numbers,
}
use nfvnice_source.Args.{
  Strtoul, Settings, is_empty, is_bad, parse_num_clients, parse_num_services, parse_default_service,
  parse_portmask, Opt, apply, parse_options, parse_app_args,
}
use nfvnice_source.Args.Ports.{InRange, chosen, chosen_none, parse_portmask_lem}
use nfvnice_source.Prelude.{
  ℕ, ◌%◌, ◌^◌, ◌<◌, ◌≡◌, List, [], ◌∷◌, some, none, Option, Bool, true, false, Bool-cases, inl, inr,
  refl, sym, ap, ◌∙◌, ◌==◌, ◌&&◌, ◌||◌, not, if◌then◌else◌, arith, ℤ, pos, negsuc, ==_iff,
}

-- Static identifiers with no number of clients.
abbrev pub lacks_clients : Settings → Bool
lacks_clients s = s.is_static_clients && (s.num_clients == 0)

abbrev pub verdict : Bool → ℤ
verdict ok = if ok then pos 0 else negsuc 0

module _ (strtoul : Strtoul) where
  -- An option is accepted for its text alone.
  pub is_accepted : Opt → Bool
  is_accepted (Opt.portmask text) = let r = strtoul 16 text in (r.0 == 0) || is_empty r.1
  is_accepted (Opt.num_clients text) = is_empty text || not (is_bad (strtoul 10 text))
  is_accepted (Opt.num_services text) = not (is_bad (strtoul 10 text))
  is_accepted (Opt.default_service text) = not (is_bad (strtoul 10 text))
  is_accepted (Opt.unknown opt) = false

  pub all_accepted : List Opt → Bool
  all_accepted [] = true
  all_accepted (o ∷ os) = is_accepted o && all_accepted os

  -- The options up to the first one that is refused.
  pub before_refused : List Opt → List Opt
  before_refused [] = []
  before_refused (o ∷ os) = let rest = before_refused os in if is_accepted o then o ∷ rest else []

  abbrev pub wish : ℕ → Opt → Wishes
  wish max_ports (Opt.portmask text) = record no_wishes {
    ports = chosen max_ports (strtoul 16 text).0 0 64;
  }
  wish max_ports (Opt.num_clients text) = record no_wishes {
    clients = if is_empty text then [] else (strtoul 10 text).0 % 2 ^ 16 ∷ [];
  }
  wish max_ports (Opt.num_services text) = record no_wishes {
    services = (strtoul 10 text).0 % 2 ^ 16 ∷ [];
  }
  wish max_ports (Opt.default_service text) = record no_wishes {
    defaults = (strtoul 10 text).0 % 2 ^ 16 ∷ [];
  }
  wish max_ports (Opt.unknown opt) = no_wishes

  pub wishes : ℕ → List Opt → Wishes
  wishes max_ports [] = no_wishes
  wishes max_ports (o ∷ os) = both (wish max_ports o) (wishes max_ports os)

  -- The settings at the end of the loop.
  abbrev pub final : ℕ → List Opt → Settings → Settings
  final max_ports os s = granted (wishes max_ports (before_refused os)) s

  module _ (range : InRange strtoul) where
    Answers : Opt → Settings → Option (ℤ × Settings) → ℕ → Type 0
    Answers o s answer max_ports =
        answer
        ≡ (if is_accepted o then some (pos 0, granted (wish max_ports o) s) else some (negsuc 0, s))

    apply_mask :
        (max_ports : ℕ) (text : List ℕ) (s : Settings)
        → s.num_ports < 256
        → Answers (Opt.portmask text) s (parse_portmask strtoul max_ports (some text) s) max_ports
    unfolding Answers is_accepted last_of
    apply_mask max_ports text s h =
        rw (parse_portmask_lem strtoul range max_ports text s h)
          (elim (Bool-cases ((strtoul 16 text).0 == 0)) [
            | inl e ↦
                rw (e, chosen_none max_ports (strtoul 16 text).0 64 ((==_iff _ 0).0 e))
                  (ap (λ x. some (pos 0, x)) (sym (granted_numbers [] [] [] s h)))
            | inr e ↦ rw e (elim (Bool-cases (is_empty (strtoul 16 text).1)) [
              | inl f ↦ rw f refl
              | inr f ↦ rw f refl
            ])
          ])

    apply_lem :
        (max_ports : ℕ) (o : Opt) (s : Settings)
        → s.num_ports < 256
        → Answers o s (apply strtoul max_ports o s) max_ports
    unfolding Answers apply is_accepted parse_num_clients parse_num_services parse_default_service
        last_of
    apply_lem max_ports (Opt.portmask text) s h = apply_mask max_ports text s h
    apply_lem max_ports (Opt.num_clients text) s h = elim (Bool-cases (is_empty text)) [
      | inl e ↦ rw e (ap (λ x. some (pos 0, x)) (sym (granted_numbers [] [] [] s h)))
      | inr e ↦ rw e (elim (Bool-cases (is_bad (strtoul 10 text))) [
        | inl f ↦ rw f refl
        | inr f ↦ rw f (
            ap (λ x. some (pos 0, x))
              (sym (granted_numbers ((strtoul 10 text).0 % 2 ^ 16 ∷ []) [] [] s h)))
      ])
    ]
    apply_lem max_ports (Opt.num_services text) s h = elim (Bool-cases (is_bad (strtoul 10 text))) [
      | inl f ↦ rw f refl
      | inr f ↦ rw f (
          ap (λ x. some (pos 0, x))
            (sym (granted_numbers [] ((strtoul 10 text).0 % 2 ^ 16 ∷ []) [] s h)))
    ]
    apply_lem max_ports (Opt.default_service text) s h =
        elim (Bool-cases (is_bad (strtoul 10 text))) [
          | inl f ↦ rw f refl
          | inr f ↦ rw f (
              ap (λ x. some (pos 0, x))
                (sym (granted_numbers [] [] ((strtoul 10 text).0 % 2 ^ 16 ∷ []) s h)))
        ]
    apply_lem max_ports (Opt.unknown opt) s h = refl

    parse_options_lem :
        (max_ports : ℕ) (os : List Opt) (s : Settings)
        → s.num_ports < 256
        → parse_options strtoul max_ports os s
          ≡ some (
            verdict (all_accepted os && not (lacks_clients (final max_ports os s))),
            final max_ports os s,
          )
    unfolding parse_options all_accepted before_refused wishes last_of Answers
    parse_options_lem max_ports [] s h =
        ground arith
        ∙ ap (λ x. some (verdict (not (lacks_clients x)), x)) (sym (granted_numbers [] [] [] s h))
    parse_options_lem max_ports (o ∷ os) s h =
        by_test (is_accepted o) refl (parse_options_lem max_ports os s1 (omega arith))
      where
        s1 : Settings
        s1 = granted (wish max_ports o) s

        Later : Type 0
        Later =
            parse_options strtoul max_ports os s1
            ≡ some (
              verdict (all_accepted os && not (lacks_clients (final max_ports os s1))),
              final max_ports os s1,
            )

        next : Option (ℤ × Settings) → Option (ℤ × Settings)
        next answer = elim answer [
          | none ↦ none
          | some (pos n, s') ↦
              if n == 0 then parse_options strtoul max_ports os s' else some (negsuc 0, s')
          | some (negsuc n, s') ↦ some (negsuc 0, s')
        ]

        answer_for : Bool → Option (ℤ × Settings)
        answer_for b = if b then some (pos 0, granted (wish max_ports o) s) else some (negsuc 0, s)

        settings : Bool → Settings
        settings b = granted (wishes max_ports (if b then o ∷ before_refused os else [])) s

        by_test :
            (b : Bool)
            → is_accepted o ≡ b
            → Later
            → parse_options strtoul max_ports (o ∷ os) s
              ≡ some
                  (verdict ((b && all_accepted os) && not (lacks_clients (settings b))), settings b)
        by_test true a later =
            ap next (apply_lem max_ports o s h ∙ ap answer_for a)
            ∙ later
            ∙ ap (λ x. some (verdict (all_accepted os && not (lacks_clients x)), x))
                (granted-both (wish max_ports o) (wishes max_ports (before_refused os)) s)
        by_test false a later =
            ap next (apply_lem max_ports o s h ∙ ap answer_for a)
            ∙ ap (λ x. some (negsuc 0, x)) (sym (granted_numbers [] [] [] s h))

    -- For a number of ports below 256 and a `strtoul` that gives values below 2 ^ 64: of the
    -- options up to the first one that is refused, the ports of the
    -- masks are appended in order, with their number, and the last number given stays of each kind;
    -- `is_static_clients` says whether a number of clients was given. These are the settings at the end,
    -- and the result is 0 exactly if every option is accepted and they have not static identifiers with 0
    -- clients, and -1 otherwise.
    pub parse_app_args_lem :
        (max_ports : ℕ) (os : List Opt) (s : Settings)
        → s.num_ports < 256
        → let s' = final max_ports os (record s { is_static_clients = false }) in
          parse_app_args strtoul max_ports os s
          ≡ some (verdict (all_accepted os && not (lacks_clients s')), s')
    unfolding parse_app_args
    parse_app_args_lem max_ports os s h =
        parse_options_lem max_ports os (record s { is_static_clients = false }) h
