-- ===== src/Client/Callers/Requests.antt =====
-- How many requests the concurrent callers of one client of v3/client.go send.
use rpc.Base.{
  ℕ, zero, suc, ◌+◌, ◌≤◌, ◌≡◌, refl, ap, ◌∙◌, Bool, true, false, List, [], ◌∷◌, ◌++◌, length,
  length-append, map, arith, Option-cases, Bool-cases, inl, inr,
}
use rpc.Client.Defs.{Client, Environment, Attempt, Event, get_client, invalidate, is_conn_error}
use rpc.Client.Paths.{Gets, reused, no_dial, no_codec, fresh, get_client-Gets, invalidate_held}
use rpc.Client.Sends.{sent_kinds, sent_kinds-append}
use rpc.Client.Callers.{
  Caller, starting, getting, calling, failing, marking, regetting, recalling, refailing, finished,
  mark, advance, System, step_callers, run_schedule,
}
use rpc.Client.Callers.Shared.{Obtained-cases, run_schedule-Scheduled}

-- How many requests there are among the effects.
abbrev pub requests : List Event → ℕ
requests es = length (sent_kinds es)

requests-append : (es fs : List Event) → requests (es ++ fs) ≡ requests es + requests fs
requests-append es fs =
    ap length (sent_kinds-append es fs) ∙ length-append (sent_kinds es) (sent_kinds fs)

get_client-requests : (c : Client) (a : Attempt) → requests (get_client c a).2 ≡ 0
unfolding sent_kinds
get_client-requests c a = from (get_client-Gets c a)
  where
    from : Gets c a (get_client c a) → requests (get_client c a).2 ≡ 0
    from (reused conn e g) = rw g refl
    from (no_dial x e d g) = rw g refl
    from (no_codec x e k g) = rw g refl
    from (fresh e g) = rw g refl

invalidate-requests : (c : Client) → requests (invalidate c).1 ≡ 0
unfolding sent_kinds
invalidate-requests c = elim (Option-cases c.cl) [
  | inl e ↦ let g : invalidate c ≡ (c, []) = unfold invalidate in ground (arith, e) in rw g refl
  | inr (conn, e) ↦ rw (invalidate_held c conn e) refl
]

-- The requests that a caller can still send without another decision to fall back.
abbrev allowance : Caller → ℕ
allowance (starting env) = 1
allowance (getting env) = 1
allowance (calling conn env) = 1
allowance (failing e a) = 0
allowance (marking e a) = 0
allowance (regetting a) = 1
allowance (recalling conn a) = 1
allowance (refailing e) = 0
allowance (finished r) = 0

abbrev allowances : List Caller → ℕ
allowances [] = 0
allowances (k ∷ ks) = allowance k + allowances ks

abbrev decision : Bool → ℕ
decision true = 1
decision false = 0

advance-allowance :
    (c : Client) (k : Caller)
    → requests (advance c k).events + allowance (advance c k).caller
      ≤ allowance k + decision (advance c k).falls_back
unfolding advance mark sent_kinds
advance-allowance c (starting env) = ground (arith, Option-cases env.started)
advance-allowance c (getting env) =
    ground (arith, Obtained-cases (get_client c env.first).0, get_client-requests c env.first)
advance-allowance c (calling conn env) = ground (arith, Option-cases env.first.reply)
advance-allowance c (failing e a) =
    ground (arith, Bool-cases (is_conn_error e), invalidate-requests c)
advance-allowance c (marking e a) = ground (arith, Bool-cases (mark c).0)
advance-allowance c (regetting a) =
    ground (arith, Obtained-cases (get_client c a).0, get_client-requests c a)
advance-allowance c (recalling conn a) = ground (arith, Option-cases a.reply)
advance-allowance c (refailing e) = ground (arith, invalidate-requests c)
advance-allowance c (finished r) = ground arith

step_callers-allowances :
    (c : Client) (i : ℕ) (ks : List Caller)
    → requests (step_callers c i ks).2 + allowances (step_callers c i ks).0
      ≤ allowances ks + decision (step_callers c i ks).3
unfolding step_callers
step_callers-allowances c i [] = unfold sent_kinds in omega arith
step_callers-allowances c zero (k ∷ ks) = omega (arith, advance-allowance c k)
step_callers-allowances c (suc i) (k ∷ ks) = omega (arith, step_callers-allowances c i ks)

run_schedule-allowances :
    (is : List ℕ) (s : System)
    → requests (run_schedule is s).1 + allowances (run_schedule is s).0.callers
      ≤ allowances s.callers + (run_schedule is s).2
unfolding run_schedule
run_schedule-allowances [] s = unfold sent_kinds in omega arith
run_schedule-allowances (i ∷ is) s =
    let x = step_callers s.client i s.callers in
    let s' : System = record { client = x.1; callers = x.0 } in
    let d = step_callers-allowances s.client i s.callers in
    let ih = run_schedule-allowances is s' in
    let joined = requests-append x.2 (run_schedule is s').1 in
    elim (Bool-cases x.3) [
      | inl again ↦ rw again (omega (arith, rw again at d, ih, joined))
      | inr other ↦ rw other (omega (arith, rw other at d, ih, joined))
    ]

allowances_starting : (envs : List Environment) → allowances (map starting envs) ≡ length envs
allowances_starting [] = refl
allowances_starting (env ∷ envs) = omega (arith, allowances_starting envs)

-- However the steps of concurrent Calls on one client interleave, they send at most one request
-- more than there are Calls, and no more than there are Calls if the client had already fallen back.
pub run_schedule-requests :
    (is : List ℕ) (c : Client) (envs : List Environment)
    → let r = run_schedule is (record { client = c; callers = map starting envs }) in
      (requests r.1 ≤ length envs + 1) × (c.json_fallback ≡ true → requests r.1 ≤ length envs)
run_schedule-requests is c envs =
    let s : System = record { client = c; callers = map starting envs } in
    let total = run_schedule-allowances is s in
    let l = run_schedule-Scheduled is s in
    (
      omega (arith, total, l.decisions, allowances_starting envs),
      λ f. omega (arith, total, (l.flagged f).0, allowances_starting envs),
    )
