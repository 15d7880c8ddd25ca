-- ===== src/Proxy/Invoke/Slots/Limit.antt =====
-- The limit on concurrent invocations, and what they return: Invoke of v3/proxy/invoke.go.
use rpc.Base.{
  ℕ, zero, suc, ◌+◌, ◌-◌, ◌≤◌, ◌≡◌, refl, sym, Text, false, Option, none, some, List, [], ◌∷◌, ltb,
  length, arith, All, Option-cases, Bool-cases, inl, inr,
}
use mathlib.Core.Path.{subst}
use rpc.Errors.{GoError}
use rpc.Proxy.Headers.{Header}
use rpc.Proxy.Invoke.{Invoker, payload_limit, invoke}
use rpc.Proxy.Invoke.Slots.{
  Arguments, awaited, Invocation, arriving, waiting, holding, answered, Turn, slot, context_end,
  Traffic, enter, leave, advance_invocation, step_traffic, run_traffic,
}

-- How many invocations are past the select.
unfoldable pub in_flight : List Invocation → ℕ
in_flight [] = 0
in_flight (holding a ∷ ks) = suc (in_flight ks)
in_flight (arriving a ∷ ks) = in_flight ks
in_flight (waiting a ∷ ks) = in_flight ks
in_flight (answered a w o ∷ ks) = in_flight ks

module _ (set : Header → Text → Text → Header) (values : Header → Text → List Text)
    (inv : Invoker) where
  -- Past the first checks of Invoke.
  pub record Admitted (a : Arguments) : Type 0 where
    pub live : a.environment.context_error ≡ none
    pub fits : ltb (payload_limit inv) (length a.payload) ≡ false

  -- What is known of an invocation: where it stands it has passed the checks before, and what it
  -- has returned is the outcome of Invoke.
  unfoldable pub IsInvocation : Invocation → Type 0
  IsInvocation (arriving a) = Unit
  IsInvocation (waiting a) = Admitted a
  IsInvocation (holding a) = Admitted a
  IsInvocation (answered a w o) =
      o ≡ invoke set values inv (awaited w a) a.target a.method a.payload a.metadata

  -- With `capacity` slots.
  pub record IsSound (capacity : ℕ) (t : Traffic) : Type 0 where
    pub counted : t.used ≡ in_flight t.invocations
    pub limited : t.used ≤ capacity
    pub each : All IsInvocation t.invocations

  enter-IsInvocation : (a : Arguments) → IsInvocation (enter set values inv a)
  unfolding enter IsInvocation invoke
  enter-IsInvocation a = elim (Option-cases a.environment.context_error) [
    | inr (e, p) ↦ rw (p, enter) (rw (p, invoke) refl)
    | inl p ↦ elim (Bool-cases (ltb (payload_limit inv) (length a.payload))) [
      | inl q ↦ rw (p, q, enter) (rw (p, q, invoke) refl)
      | inr q ↦
          let k : Admitted a = record { live = p; fits = q } in
          elim (Option-cases inv.slots) [
            | inl r ↦ let g : enter set values inv a ≡ holding a = ground (arith, p, q, r) in rw g k
            | inr (n, r) ↦
                let g : enter set values inv a ≡ waiting a = ground (arith, p, q, r) in rw g k
          ]
    ]
  ]

  leave-IsInvocation :
      (w : Option GoError) (a : Arguments) → Admitted a → IsInvocation (leave set values inv w a)
  unfolding IsInvocation invoke
  leave-IsInvocation w a k = rw (k.live, k.fits, invoke) refl

  flight : Invocation → ℕ
  flight k = in_flight (k ∷ [])

  -- With `capacity` slots, a step of one invocation that is counted in `used`.
  record Moved (capacity used used' : ℕ) (n n' : ℕ) : Type 0 where
    balance : used' + n ≡ used + n'
    limited : used ≤ capacity → used' ≤ capacity

  still : (capacity used n : ℕ) → Moved capacity used used n n
  still capacity used n = record { balance = refl; limited = λ l. l }

  enter_quiet :
      (a : Arguments) (capacity : ℕ)
      → inv.slots ≡ some capacity
      → flight (enter set values inv a) ≡ 0
  unfolding enter flight in_flight
  enter_quiet a capacity p = ground (
    arith,
    p,
    Option-cases a.environment.context_error,
    Bool-cases (ltb (payload_limit inv) (length a.payload)),
  )

  module _ (capacity : ℕ) (slots : inv.slots ≡ some capacity) where
    entered :
        (used : ℕ) (a : Arguments) → Moved capacity used used 0 (flight (enter set values inv a))
    entered used a =
        subst (λ n. Moved capacity used used 0 n) (sym (enter_quiet a capacity slots))
          (still capacity used 0)

    released :
        (used : ℕ) (turn : Turn) (a : Arguments)
        → 1 ≤ used
        → Moved capacity used
            (advance_invocation set values inv used turn (holding a)).0
            1
            (flight (advance_invocation set values inv used turn (holding a)).1)
    unfolding flight in_flight
    released used turn a l =
        let g : advance_invocation set values inv used turn (holding a)
            ≡ (used - 1, leave set values inv none a) =
          unfold advance_invocation in ground (arith, slots) in
        rw g (record { balance = omega (arith, l); limited = λ h. omega (arith, h) })

    taken :
        (used : ℕ) (a : Arguments)
        → Moved capacity used
            (advance_invocation set values inv used slot (waiting a)).0
            0
            (flight (advance_invocation set values inv used slot (waiting a)).1)
    unfolding flight in_flight
    taken used a = elim (Bool-cases (ltb used capacity)) [
      | inl q ↦
          let g : advance_invocation set values inv used slot (waiting a) ≡ (suc used, holding a) =
            unfold advance_invocation in ground (arith, slots, q) in
          rw g (record { balance = omega arith; limited = λ h. ground (arith, q) })
      | inr q ↦
          let g : advance_invocation set values inv used slot (waiting a) ≡ (used, waiting a) =
            unfold advance_invocation in ground (arith, slots, q) in
          rw g (still capacity used 0)
    ]

    advance-Moved :
        (used : ℕ) (turn : Turn) (k : Invocation)
        → flight k ≤ used
        → Moved capacity used
            (advance_invocation set values inv used turn k).0
            (flight k)
            (flight (advance_invocation set values inv used turn k).1)
    unfolding advance_invocation flight in_flight
    advance-Moved used turn (arriving a) l = entered used a
    advance-Moved used slot (waiting a) l = taken used a
    advance-Moved used (context_end e) (waiting a) l = still capacity used 0
    advance-Moved used turn (holding a) l = released used turn a l
    advance-Moved used turn (answered a w o) l = still capacity used 0

    advance-IsInvocation :
        (used : ℕ) (turn : Turn) (k : Invocation)
        → IsInvocation k
        → IsInvocation (advance_invocation set values inv used turn k).1
    unfolding advance_invocation IsInvocation
    advance-IsInvocation used turn (arriving a) h = enter-IsInvocation a
    advance-IsInvocation used slot (waiting a) h =
        ground (arith, slots, h, Bool-cases (ltb used capacity))
    advance-IsInvocation used (context_end e) (waiting a) h = leave-IsInvocation (some e) a h
    advance-IsInvocation used turn (holding a) h =
        let g : (advance_invocation set values inv used turn (holding a)).1
            ≡ leave set values inv none a =
          ground (arith, slots) in
        rw g (leave-IsInvocation none a h)
    advance-IsInvocation used turn (answered a w o) h = h

    in_flight_cons :
        (k : Invocation) (ks : List Invocation) → in_flight (k ∷ ks) ≡ flight k + in_flight ks
    unfolding flight in_flight
    in_flight_cons (arriving a) ks = omega arith
    in_flight_cons (waiting a) ks = omega arith
    in_flight_cons (holding a) ks = omega arith
    in_flight_cons (answered a w o) ks = omega arith

    step-Moved :
        (used : ℕ) (turn : Turn) (i : ℕ) (ks : List Invocation)
        → in_flight ks ≤ used
        → Moved capacity used
            (step_traffic set values inv used turn i ks).0
            (in_flight ks)
            (in_flight (step_traffic set values inv used turn i ks).1)
    unfolding step_traffic
    step-Moved used turn i [] l = still capacity used (in_flight [])
    step-Moved used turn zero (k ∷ ks) l =
        let x = advance_invocation set values inv used turn k in
        let c = in_flight_cons k ks in
        let c' = in_flight_cons x.1 ks in
        let m = advance-Moved used turn k (omega (arith, c, l)) in
        record { balance = omega (arith, c, c', m.balance); limited = m.limited }
    step-Moved used turn (suc i) (k ∷ ks) l =
        let y = step_traffic set values inv used turn i ks in
        let c = in_flight_cons k ks in
        let c' = in_flight_cons k y.1 in
        let m = step-Moved used turn i ks (omega (arith, c, l)) in
        record { balance = omega (arith, c, c', m.balance); limited = m.limited }

    step-IsInvocation :
        (used : ℕ) (turn : Turn) (i : ℕ) (ks : List Invocation)
        → All IsInvocation ks
        → All IsInvocation (step_traffic set values inv used turn i ks).1
    unfolding step_traffic
    step-IsInvocation used turn i [] h = tt
    step-IsInvocation used turn zero (k ∷ ks) h = (advance-IsInvocation used turn k h.0, h.1)
    step-IsInvocation used turn (suc i) (k ∷ ks) h = (h.0, step-IsInvocation used turn i ks h.1)

    -- With a channel of `capacity` slots, a schedule of any invocations keeps them sound: as many
    -- slots are in use as invocations are past their select and have not returned, at most
    -- `capacity`; and what an invocation has returned, with its effects, is the outcome of Invoke
    -- for the end of its select.
    pub run_traffic-IsSound :
        (turns : List (ℕ × Turn)) (t : Traffic)
        → IsSound capacity t
        → IsSound capacity (run_traffic set values inv turns t)
    unfolding run_traffic
    run_traffic-IsSound [] t h = h
    run_traffic-IsSound ((i, turn) ∷ turns) t h =
        let x = step_traffic set values inv t.used turn i t.invocations in
        let m = step-Moved t.used turn i t.invocations (omega (arith, h.counted)) in
        run_traffic-IsSound turns (record { used = x.0; invocations = x.1 })
          (record {
            counted = omega (arith, m.balance, h.counted);
            limited = m.limited h.limited;
            each = step-IsInvocation t.used turn i t.invocations h.each;
          })
