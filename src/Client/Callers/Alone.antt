-- ===== src/Client/Callers/Alone.antt =====
-- A caller that runs alone against Call of v3/client.go.
use rpc.Base.{
  ℕ, zero, suc, ◌≡◌, refl, sym, ap, ◌∙◌, true, Option, none, some, List, [], ◌∷◌, ◌++◌, arith,
  append_nil, Option-cases, Bool-cases, inl, inr,
}
use mathlib.Core.Path.{subst}
use rpc.Errors.{GoError}
use rpc.Client.Defs.{
  Connection, Client, Environment, Attempt, Event, closed, sent, Step, call, retry_call,
  after_error, is_conn_error,
}
use rpc.Client.Paths.{
  Attempted, opens, refuses, attempted, Opens, Refuses, dropped, marked, falls_back,
  invalidate_held,
}
use rpc.Client.Callers.{
  Caller, starting, getting, calling, failing, marking, regetting, recalling, refailing, finished,
  Advance, mark, stay, advance,
}

-- `n` steps of one caller with nobody else.
unfoldable run_alone : ℕ → Client → Caller → Caller × Client × List Event
run_alone zero c k = (k, c, [])
run_alone (suc n) c k =
    let a = advance c k in
    let (k', c', es) = run_alone n a.client a.caller in (k', c', a.events ++ es)

first_step :
    (n : ℕ) (c : Client) (k : Caller) (a : Advance) (k' : Caller) (c' : Client) (es : List Event)
    → advance c k ≡ a
    → run_alone n a.client a.caller ≡ (k', c', es)
    → run_alone (suc n) c k ≡ (k', c', a.events ++ es)
unfolding run_alone
first_step n c k a k' c' es p q = rw (p, run_alone) (rw (q, run_alone) refl)

at_rest :
    (n : ℕ) (c : Client) (r : Option GoError) → run_alone n c (finished r) ≡ (finished r, c, [])
unfolding run_alone advance
at_rest zero c r = refl
at_rest (suc n) c r = rw (at_rest n c r) refl

last_step :
    (n : ℕ) (c : Client) (k : Caller) (r : Option GoError) (c' : Client) (es : List Event)
    → advance c k ≡ stay c' es (finished r)
    → run_alone (suc n) c k ≡ (finished r, c', es)
last_step n c k r c' es p =
    first_step n c k (stay c' es (finished r)) (finished r) c' [] p (at_rest n c' r)
    ∙ ap (λ x. (finished r, c', x)) (append_nil es)

-- What a caller that runs alone ends with, for a step of the client.
abbrev Ends : ℕ → Client → Caller → Step → Type 0
Ends n c k s = run_alone n c k ≡ (finished s.0, s.1, s.2)

hang_up :
    (n : ℕ) (c : Client) (conn : Connection) (e : GoError)
    → c.cl ≡ some conn
    → Ends (suc n) c (refailing e) (some e, dropped c, closed conn ∷ [])
hang_up n c conn e h =
    last_step n c (refailing e) (some e) (dropped c) (closed conn ∷ [])
      (unfold advance in ground (arith, invalidate_held c conn h))

same_end : (n : ℕ) (c : Client) (k : Caller) (s t : Step) → t ≡ s → Ends n c k s → Ends n c k t
same_end n c k s t e = subst (Ends n c k) (sym e)

-- The retry of Call.
retried :
    (n : ℕ) (c : Client) (a : Attempt) → Ends (suc (suc (suc n))) c (regetting a) (retry_call c a)
retried n c a = from (attempted c a)
  where
    from : Attempted c a → Ends (suc (suc (suc n))) c (regetting a) (retry_call c a)
    from (refuses e c' es r) =
        same_end _ c (regetting a) (some e, c', es) (retry_call c a)
          (unfold retry_call in ground (arith, r.got))
          (last_step _ c (regetting a) (some e) c' es (unfold advance in ground (arith, r.got)))
    from (opens conn c' es o) =
        let got : advance c (regetting a) ≡ stay c' es (recalling conn a) =
          unfold advance in ground (arith, o.got) in
        elim (Option-cases a.reply) [
          | inl p ↦
              same_end _ c (regetting a) (a.done, c', es ++ (sent conn ∷ [])) (retry_call c a)
                (unfold retry_call in ground (arith, o.got, p))
                (first_step _ c (regetting a) (stay c' es (recalling conn a)) _ _ _ got (
                  last_step _ c' (recalling conn a) a.done c' (sent conn ∷ [])
                    (unfold advance in ground (arith, p))))
          | inr (e, p) ↦
              same_end _ c (regetting a) (some e, dropped c', es ++ (sent conn ∷ closed conn ∷ []))
                (retry_call c a)
                (unfold retry_call in ground (arith, o.got, p, invalidate_held c' conn o.held))
                (first_step _ c (regetting a) (stay c' es (recalling conn a)) _ _ _ got (
                  first_step _ c' (recalling conn a) (stay c' (sent conn ∷ []) (refailing e)) _ _ _
                    (unfold advance in ground (arith, p)) (hang_up n c' conn e o.held)))
        ]

-- From the failed remote call on.
failed_call :
    (c : Client) (conn : Connection) (e : GoError) (retry : Attempt)
    → c.cl ≡ some conn
    → Ends 5 c (failing e retry) (after_error c e retry)
failed_call c conn e retry h = elim (Bool-cases (is_conn_error e)) [
  | inr k ↦
      same_end 5 c (failing e retry) (some e, dropped c, closed conn ∷ []) (after_error c e retry)
        (unfold after_error in ground (arith, k, invalidate_held c conn h))
        (last_step 4 c (failing e retry) (some e) (dropped c) (closed conn ∷ [])
          (unfold advance in ground (arith, k, invalidate_held c conn h)))
  | inl k ↦
      let noted : advance c (failing e retry)
          ≡ stay (dropped c) (closed conn ∷ []) (marking e retry) =
        unfold advance in ground (arith, k, invalidate_held c conn h) in
      elim (Bool-cases (falls_back c)) [
        | inr f ↦
            same_end 5 c (failing e retry) (some e, marked c, closed conn ∷ [])
              (after_error c e retry)
              (unfold after_error in ground (arith, k, f, invalidate_held c conn h))
              (first_step 4 c (failing e retry) _ _ _ _ noted (
                last_step 3 (dropped c) (marking e retry) (some e) (marked c) []
                  (unfold advance in unfold mark in ground (arith, f))))
        | inl f ↦
            let again : advance (dropped c) (marking e retry) ≡ record {
              caller = regetting retry;
              client = marked c;
              events = [];
              falls_back = true;
            } =
              unfold advance in unfold mark in ground (arith, f) in
            let t = retry_call (marked c) retry in
            same_end 5 c (failing e retry) (t.0, t.1, closed conn ∷ t.2) (after_error c e retry)
              (unfold after_error in ground (arith, k, f, invalidate_held c conn h))
              (first_step 4 c (failing e retry) _ _ _ _ noted (
                first_step 3 (dropped c) (marking e retry) _ _ _ _ again
                  (retried 0 (marked c) retry)))
      ]
]

refused_call :
    (c : Client) (env : Environment) (e : GoError) (c' : Client) (es : List Event)
    → env.started ≡ none
    → Refuses c env.first e c' es
    → Ends 8 c (starting env) (call c env)
refused_call c env e c' es p r =
    same_end 8 c (starting env) (some e, c', es) (call c env)
      (unfold call in ground (arith, p, r.got))
      (first_step 7 c (starting env) (stay c [] (getting env)) _ _ _
        (unfold advance in ground (arith, p))
        (last_step 6 c (getting env) (some e) c' es (unfold advance in ground (arith, r.got))))

opened_call :
    (c : Client) (env : Environment) (conn : Connection) (c' : Client) (es : List Event)
    → env.started ≡ none
    → Opens c env.first conn c' es
    → Ends 8 c (starting env) (call c env)
opened_call c env conn c' es p o =
    let begun : advance c (starting env) ≡ stay c [] (getting env) =
      unfold advance in ground (arith, p) in
    let got : advance c (getting env) ≡ stay c' es (calling conn env) =
      unfold advance in ground (arith, o.got) in
    elim (Option-cases env.first.reply) [
      | inl q ↦
          same_end 8 c (starting env) (env.first.done, c', es ++ (sent conn ∷ [])) (call c env)
            (unfold call in ground (arith, p, o.got, q))
            (first_step 7 c (starting env) _ _ _ _ begun (
              first_step 6 c (getting env) _ _ _ _ got (
                last_step 5 c' (calling conn env) env.first.done c' (sent conn ∷ [])
                  (unfold advance in ground (arith, q)))))
      | inr (e, q) ↦
          let s = after_error c' e env.retry in
          let broke : advance c' (calling conn env)
              ≡ stay c' (sent conn ∷ []) (failing e env.retry) =
            unfold advance in ground (arith, q) in
          same_end 8 c (starting env) (s.0, s.1, es ++ (sent conn ∷ s.2)) (call c env)
            (unfold call in ground (arith, p, o.got, q))
            (first_step 7 c (starting env) _ _ _ _ begun (
              first_step 6 c (getting env) _ _ _ _ got (
                first_step 5 c' (calling conn env) _ _ _ _ broke
                  (failed_call c' conn e env.retry o.held))))
    ]

started_call :
    (c : Client) (env : Environment)
    → env.started ≡ none
    → Attempted c env.first
    → Ends 8 c (starting env) (call c env)
started_call c env p (refuses e c' es r) = refused_call c env e c' es p r
started_call c env p (opens conn c' es o) = opened_call c env conn c' es p o

-- Eight steps of a Call that nothing interrupts are what Call does in sequence: the same result,
-- the same client, and the same effects in the same order.
run_alone-call :
    (c : Client) (env : Environment)
    → run_alone 8 c (starting env) ≡ (finished (call c env).0, (call c env).1, (call c env).2)
run_alone-call c env = elim (Option-cases env.started) [
  | inr (e, p) ↦
      same_end 8 c (starting env) (some e, c, []) (call c env) (unfold call in ground (arith, p))
        (last_step 7 c (starting env) (some e) c [] (unfold advance in ground (arith, p)))
  | inl p ↦ started_call c env p (attempted c env.first)
]
