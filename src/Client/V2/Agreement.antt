-- ===== src/Client/V2/Agreement.antt =====
-- v3/client.go with the transport "legacy" against v2/client.go.
use rpc.Base.{
  ℕ, ◌≡◌, ap, ◌∙◌, Option, List, [], ◌∷◌, ◌++◌, map, arith, Option-cases, Bool-cases, inl, inr,
}
use mathlib.Core.Path.{ap₂}
use mathlib.Core.List.{map-append}
use mathlib.Core.Option
use rpc.Errors.{GoError}
use rpc.Client.Defs.{
  transport_legacy, is_auto, Connection, Client, effective_transport, is_conn_error, Attempt,
  Environment, Event, Obtained, get_client, invalidate, after_error, call, close,
}
use rpc.Client.V2.{
  LegacyClient, LegacyEvent, dialled, closed, sent, LegacyObtained, connected, failed,
  get_legacy_client, invalidate_legacy, call_legacy, close_legacy,
}
use rpc.Client.Defs

-- A v3 client and its effects, without the transports.
abbrev pub number : Connection → ℕ
number conn = conn.id

abbrev pub legacy_view : Client → LegacyClient
legacy_view c = record {
  address = c.address;
  port = c.port;
  crypto_key = c.crypto_key;
  cl = Option.map number c.cl;
  dialed = c.dialed;
}

abbrev pub event_view : Event → LegacyEvent
event_view (Defs.opened conn) = dialled conn.id
event_view (Defs.closed conn) = closed conn.id
event_view (Defs.sent conn) = sent conn.id

abbrev obtained_view : Obtained → LegacyObtained
obtained_view (Defs.connected conn) = connected conn.id
obtained_view (Defs.failed e) = failed e

-- What a step of the two clients has in common.
pub record Agrees (a : Option GoError × Client × List Event)
    (b : Option GoError × LegacyClient × List LegacyEvent) : Type 0 where
  pub results : a.0 ≡ b.0
  pub clients : legacy_view a.1 ≡ b.1
  pub events : map event_view a.2 ≡ b.2
  pub pinned : a.1.transport ≡ transport_legacy

-- A v3 client whose transport is "legacy" calls like the v2 client: the same error, the same
-- connections dialled, used and closed in the same order, and again such a client.
pub call-Agrees :
    (c : Client) (env : Environment)
    → c.transport ≡ transport_legacy
    → Agrees (call c env) (call_legacy (legacy_view c) env)
unfolding call call_legacy get_client get_legacy_client invalidate invalidate_legacy after_error
    is_auto
call-Agrees c env t = elim (Option-cases env.started) [
  | inr (e, p) ↦ ground (arith, t, p)
  | inl p ↦ elim (Option-cases c.cl) [
    | inr (conn, k) ↦ elim (Option-cases env.first.reply) [
      | inl r ↦ ground (arith, t, p, k, r)
      | inr (e, r) ↦ ground (arith, t, p, k, r, Bool-cases (is_conn_error e))
    ]
    | inl k ↦ elim (Option-cases env.first.dial) [
      | inr (e, d) ↦ ground (arith, t, p, k, d)
      | inl d ↦ elim (Option-cases env.first.codec) [
        | inr (e, x) ↦ ground (arith, t, p, k, d, x)
        | inl x ↦ elim (Option-cases env.first.reply) [
          | inl r ↦ ground (arith, t, p, k, d, x, r)
          | inr (e, r) ↦ ground (arith, t, p, k, d, x, r, Bool-cases (is_conn_error e))
        ]
      ]
    ]
  ]
]

close-Agrees :
    (c : Client) (e : Option GoError)
    → c.transport ≡ transport_legacy
    → Agrees (close c e) (close_legacy (legacy_view c) e)
unfolding close close_legacy
close-Agrees c e t = ground (arith, t, Option-cases c.cl)

-- A sequence of calls with Close behind it: the results, and all effects.
abbrev pub session : Client → List Environment → Option GoError → List (Option GoError) × List Event
session c [] e = ((close c e).0 ∷ [], (close c e).2)
session c (env ∷ envs) e =
    let rest = session (call c env).1 envs e in ((call c env).0 ∷ rest.0, (call c env).2 ++ rest.1)

abbrev pub legacy_session :
    LegacyClient → List Environment → Option GoError → List (Option GoError) × List LegacyEvent
legacy_session c [] e = ((close_legacy c e).0 ∷ [], (close_legacy c e).2)
legacy_session c (env ∷ envs) e =
    let rest = legacy_session (call_legacy c env).1 envs e in
    ((call_legacy c env).0 ∷ rest.0, (call_legacy c env).2 ++ rest.1)

-- A v3 client whose transport is "legacy" behaves like the v2 client over any sequence of calls
-- that ends with Close: the same results, and the same connections dialled, used and closed in the
-- same order.
pub session-legacy_session :
    (c : Client) (envs : List Environment) (e : Option GoError)
    → c.transport ≡ transport_legacy
    → ((session c envs e).0 ≡ (legacy_session (legacy_view c) envs e).0)
      × (map event_view (session c envs e).1 ≡ (legacy_session (legacy_view c) envs e).1)
session-legacy_session c [] e t =
    let a = close-Agrees c e t in (ap (λ r. r ∷ []) a.results, a.events)
session-legacy_session c (env ∷ envs) e t =
    let a = call-Agrees c env t in
    let (p, q) = session-legacy_session (call c env).1 envs e a.pinned in
    let same = ap (λ x. legacy_session x envs e) a.clients in
    (
      ap₂ (λ r rs. r ∷ rs) a.results (p ∙ ap (λ x. x.0) same),
      map-append event_view (call c env).2 (session (call c env).1 envs e).1
          ∙ ap₂ (λ x y. x ++ y) a.events (q ∙ ap (λ x. x.1) same),
    )
