-- ===== src/Client/Callers.antt =====
-- Concurrent callers of one CustomRpcClient of v3/client.go. The mutex makes getClient, invalidate
-- and the update of the fallback flag in Call single steps; a remote call is a step of its own.
-- A caller is where its Call stands, and a schedule says who takes the next step.
pub mod Alone
pub mod Shared
pub mod Requests
use rpc.Base.{
  ℕ, zero, suc, Bool, true, false, not, ◌&&◌, Option, none, some, List, [], ◌∷◌, ◌++◌,
  if◌then◌else◌,
}
use rpc.Errors.{GoError}
use rpc.Client.Defs.{
  is_json, is_auto, Connection, Client, is_conn_error, Attempt, Environment, Event, sent, connected,
  failed, get_client, invalidate,
}

-- Where a Call stands, with what the rest of it meets.
pub data Caller : Type 0 where
  starting : Environment → Caller
  getting : Environment → Caller
  calling : Connection → Environment → Caller
  failing : GoError → Attempt → Caller
  marking : GoError → Attempt → Caller
  regetting : Attempt → Caller
  recalling : Connection → Attempt → Caller
  refailing : GoError → Caller
  finished : Option GoError → Caller

-- The section that reads activeTransport and jsonFallback and sets jsonFallback, and what Call
-- decides by it: whether to try again.
unfoldable pub mark : Client → Bool × Client
mark c = (
  is_auto c.transport && is_json c.active_transport && not c.json_fallback,
  record c { json_fallback = true },
)

-- One step of a caller: where it stands then, the client, the effects, and whether the step
-- decided to fall back.
pub record Advance : Type 0 where
  pub caller : Caller
  pub client : Client
  pub events : List Event
  pub falls_back : Bool

abbrev stay : Client → List Event → Caller → Advance
stay c es k = record { caller = k; client = c; events = es; falls_back = false }

unfoldable pub advance : Client → Caller → Advance
unfolding mark
advance c (starting env) = elim env.started [
  | some e ↦ stay c [] (finished (some e))
  | none ↦ stay c [] (getting env)
]
advance c (getting env) =
    let (got, c', es) = get_client c env.first in
    elim got [
      | failed e ↦ stay c' es (finished (some e))
      | connected conn ↦ stay c' es (calling conn env)
    ]
advance c (calling conn env) = elim env.first.reply [
  | none ↦ stay c (sent conn ∷ []) (finished env.first.done)
  | some e ↦ stay c (sent conn ∷ []) (failing e env.retry)
]
advance c (failing e retry) =
    let (c', es) = invalidate c in
    stay c' es (if is_conn_error e then marking e retry else finished (some e))
advance c (marking e retry) =
    let (again, c') = mark c in
    record {
      caller = if again then regetting retry else finished (some e);
      client = c';
      events = [];
      falls_back = again;
    }
advance c (regetting a) =
    let (got, c', es) = get_client c a in
    elim got [
      | failed e ↦ stay c' es (finished (some e))
      | connected conn ↦ stay c' es (recalling conn a)
    ]
advance c (recalling conn a) = elim a.reply [
  | none ↦ stay c (sent conn ∷ []) (finished a.done)
  | some e ↦ stay c (sent conn ∷ []) (refailing e)
]
advance c (refailing e) = let (c', es) = invalidate c in stay c' es (finished (some e))
advance c (finished r) = stay c [] (finished r)

-- The client and its callers.
pub record System : Type 0 where
  pub client : Client
  pub callers : List Caller

-- A step of the `i`-th caller, if there is one: the system, the effects, and the decision.
unfoldable pub step_callers : Client → ℕ → List Caller → List Caller × Client × List Event × Bool
step_callers c i [] = ([], c, [], false)
step_callers c zero (k ∷ ks) =
    let a = advance c k in (a.caller ∷ ks, a.client, a.events, a.falls_back)
step_callers c (suc i) (k ∷ ks) =
    let (ks', c', es, again) = step_callers c i ks in (k ∷ ks', c', es, again)

-- A schedule: the system it leaves, the effects in their order, and how often a caller decided to
-- fall back.
unfoldable pub run_schedule : List ℕ → System → System × List Event × ℕ
unfolding step_callers
run_schedule [] s = (s, [], 0)
run_schedule (i ∷ is) s =
    let (ks, c, es, again) = step_callers s.client i s.callers in
    let (s', fs, n) = run_schedule is (record { client = c; callers = ks }) in
    (s', es ++ fs, if again then suc n else n)
