-- ===== src/Client/Callers/Shared.antt =====
-- Any number of concurrent callers of one client of v3/client.go, in any schedule.
use rpc.Base.{
  ℕ, zero, suc, ◌≤◌, ◌<◌, ◌≡◌, refl, ap, Bool, true, false, none, some, List, [], ◌∷◌, ◌++◌, arith,
  Option-cases, Bool-cases, inl, inr, ◌⊎◌,
}
use rpc.Errors.{GoError}
use rpc.Client.Defs.{
  Connection, Client, Attempt, Event, opened, closed, sent, Obtained, connected, failed, get_client,
  invalidate,
}
use rpc.Client.Paths.{
  Gets, reused, no_dial, no_codec, fresh, get_client-Gets, next_connection, invalidate_held,
}
use rpc.Client.Connections.{Run, stop, dial, hang_up, Run-append}
use rpc.Client.Callers.{
  Caller, starting, getting, calling, failing, marking, regetting, recalling, refailing, finished,
  mark, advance, System, step_callers, run_schedule,
}

-- The effects on connections alone.
unfoldable pub dials : List Event → List Event
dials [] = []
dials (opened conn ∷ es) = opened conn ∷ dials es
dials (closed conn ∷ es) = closed conn ∷ dials es
dials (sent conn ∷ es) = dials es

dials-append : (es fs : List Event) → dials (es ++ fs) ≡ dials es ++ dials fs
unfolding dials
dials-append [] fs = refl
dials-append (opened conn ∷ es) fs = ap (λ r. opened conn ∷ r) (dials-append es fs)
dials-append (closed conn ∷ es) fs = ap (λ r. closed conn ∷ r) (dials-append es fs)
dials-append (sent conn ∷ es) fs = dials-append es fs

-- What a step keeps: its effects lead from the client's open connection to the new one, and it
-- decides to fall back only where the flag was not set, and sets it.
pub record Keeps (c : Client) (c' : Client) (es : List Event) (again : Bool) : Type 0 where
  pub connections : Run c.cl (dials es) c'.cl
  pub flagged : c.json_fallback ≡ true → (c'.json_fallback ≡ true) × (again ≡ false)
  pub decided : again ≡ true → c'.json_fallback ≡ true

quiet : (c : Client) → Keeps c c [] false
unfolding dials
quiet c = record { connections = stop c.cl; flagged = λ f. (f, refl); decided = λ f. cc f }

called : (c : Client) (conn : Connection) → Keeps c c (sent conn ∷ []) false
unfolding dials
called c conn = record { connections = stop c.cl; flagged = λ f. (f, refl); decided = λ f. cc f }

get_client-Keeps : (c : Client) (a : Attempt) → Keeps c (get_client c a).1 (get_client c a).2 false
unfolding dials
get_client-Keeps c a = from (get_client-Gets c a)
  where
    from : Gets c a (get_client c a) → Keeps c (get_client c a).1 (get_client c a).2 false
    from (reused conn e g) = rw g (quiet c)
    from (no_dial x e d g) = rw g (quiet c)
    from (no_codec x e k g) = rw g (record {
      connections = rw e (dial (next_connection c) (hang_up (next_connection c) (stop none)));
      flagged = λ f. (f, refl);
      decided = λ f. cc f;
    })
    from (fresh e g) = rw g (record {
      connections = rw e (dial (next_connection c) (stop (some (next_connection c))));
      flagged = λ f. (f, refl);
      decided = λ f. cc f;
    })

invalidate-Keeps : (c : Client) → Keeps c (invalidate c).0 (invalidate c).1 false
invalidate-Keeps c = elim (Option-cases c.cl) [
  | inl e ↦
      let g : invalidate c ≡ (c, []) = unfold invalidate in ground (arith, e) in rw g (quiet c)
  | inr (conn, e) ↦ rw (invalidate_held c conn e) (record {
    connections = rw e (unfold dials in hang_up conn (stop none));
    flagged = λ f. (f, refl);
    decided = λ f. cc f;
  })
]

pub Obtained-cases :
    (got : Obtained)
    → ((e : GoError) × (got ≡ failed e)) ⊎ ((conn : Connection) × (got ≡ connected conn))
Obtained-cases (failed e) = inl (e, refl)
Obtained-cases (connected conn) = inr (conn, refl)

advance-Keeps :
    (c : Client) (k : Caller)
    → Keeps c (advance c k).client (advance c k).events (advance c k).falls_back
unfolding advance mark
advance-Keeps c (starting env) = elim (Option-cases env.started) [
  | inl p ↦ rw p (quiet c)
  | inr (e, p) ↦ rw p (quiet c)
]
advance-Keeps c (getting env) = elim (Obtained-cases (get_client c env.first).0) [
  | inl (e, p) ↦ rw (p, advance) (get_client-Keeps c env.first)
  | inr (conn, p) ↦ rw (p, advance) (get_client-Keeps c env.first)
]
advance-Keeps c (calling conn env) = elim (Option-cases env.first.reply) [
  | inl p ↦ rw p (called c conn)
  | inr (e, p) ↦ rw p (called c conn)
]
advance-Keeps c (failing e a) = invalidate-Keeps c
advance-Keeps c (marking e a) = record {
  connections = unfold dials in stop c.cl;
  flagged = λ f. (refl, ground (arith, f));
  decided = λ f. refl;
}
advance-Keeps c (regetting a) = elim (Obtained-cases (get_client c a).0) [
  | inl (e, p) ↦ rw (p, advance) (get_client-Keeps c a)
  | inr (conn, p) ↦ rw (p, advance) (get_client-Keeps c a)
]
advance-Keeps c (recalling conn a) = elim (Option-cases a.reply) [
  | inl p ↦ rw p (called c conn)
  | inr (e, p) ↦ rw p (called c conn)
]
advance-Keeps c (refailing e) = invalidate-Keeps c
advance-Keeps c (finished r) = quiet c

step_callers-Keeps :
    (c : Client) (i : ℕ) (ks : List Caller)
    → Keeps c (step_callers c i ks).1 (step_callers c i ks).2 (step_callers c i ks).3
unfolding step_callers
step_callers-Keeps c i [] = quiet c
step_callers-Keeps c zero (k ∷ ks) = advance-Keeps c k
step_callers-Keeps c (suc i) (k ∷ ks) = step_callers-Keeps c i ks

-- What a schedule keeps, and how many of its steps may decide to fall back.
pub record Scheduled (s : System) (r : System × List Event × ℕ) : Type 0 where
  pub connections : Run s.client.cl (dials r.1) r.0.client.cl
  pub decisions : r.2 ≤ 1
  pub flagged : s.client.json_fallback ≡ true → (r.2 ≡ 0) × (r.0.client.json_fallback ≡ true)
  pub decided : 0 < r.2 → r.0.client.json_fallback ≡ true

-- However the steps of any callers of one client interleave, there is at most one open connection
-- at a time, none is dialled over an open one, every one that was dialled is closed or is the
-- client's, and at most one step of all the calls decides to fall back; it sets the flag for good.
pub run_schedule-Scheduled : (is : List ℕ) (s : System) → Scheduled s (run_schedule is s)
unfolding run_schedule
run_schedule-Scheduled [] s = record {
  connections = unfold dials in stop s.client.cl;
  decisions = omega arith;
  flagged = λ f. (refl, f);
  decided = λ f. absurd (omega arith);
}
run_schedule-Scheduled (i ∷ is) s =
    let x = step_callers s.client i s.callers in
    let k = step_callers-Keeps s.client i s.callers in
    let r = run_schedule-Scheduled is (record { client = x.1; callers = x.0 }) in
    elim (Bool-cases x.3) [
      | inl again ↦
          let q = r.flagged (k.decided again) in
          rw again (record {
            connections = rw (dials-append x.2 _) (Run-append k.connections r.connections);
            decisions = omega (arith, q.0);
            flagged = λ f. absurd (cc ((k.flagged f).1, again));
            decided = λ f. q.1;
          })
      | inr other ↦ rw other (record {
        connections = rw (dials-append x.2 _) (Run-append k.connections r.connections);
        decisions = r.decisions;
        flagged = λ f. r.flagged (k.flagged f).0;
        decided = r.decided;
      })
    ]
