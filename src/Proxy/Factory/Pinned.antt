-- ===== src/Proxy/Factory/Pinned.antt =====
-- The transport of the clients that the proxy opens: defaultClientFactory of v3/proxy/invoke.go
-- over the routes of v3/proxy/router.go and the client of v3/client.go.
use rpc.Base.{
  ◌≡◌, refl, sym, ◌∙◌, ap, Text, List, [], ◌∷◌, ok, if◌then◌else◌, is_empty, text_eq, ltb, length,
  codes, arith, All, All-append, Bool-cases, inl, inr, ◌⊎◌, none,
}
use rpc.Base.Map.{Map}
use rpc.Proxy.Types.{Target}
use rpc.Proxy.Router.{StaticRouter, new_static_router, resolve}
use rpc.Proxy.Router.Laws.{IsGoMap, IsTransport, resolve-IsRoute}
use rpc.Proxy.Factory.{normal_transport, default_client_factory}
use rpc.Client.Defs.{
  TransportKind, transport_json, transport_legacy, Client, Environment, transport_of,
  effective_transport, apply_options, apply_option, new_rpc_client, call,
}
use rpc.Client.Connections.{run}
use rpc.Client.Fallback.{IsConsistent, unconnected, call-Left}
use rpc.Client.Sends.{sent_kinds, sent_kinds-append, Sends, silent, single, fallback, call-Sends}

-- The transport that a target's route asks for.
abbrev pub wire : Target → TransportKind
wire tgt = if text_eq tgt.transport (codes "legacy") then transport_legacy else transport_json

-- A client that is not connected yet and has the given transport.
record Fresh (c : Client) (kind : TransportKind) : Type 0 where
  transport : c.transport ≡ kind
  idle : c.cl ≡ none

factory-Fresh :
    (tgt : Target)
    → Fresh (default_client_factory tgt) (transport_of (normal_transport tgt.transport))
unfolding default_client_factory new_rpc_client apply_options apply_option
factory-Fresh tgt = elim (Bool-cases (ltb 0 (length tgt.secret))) [
  | inl p ↦ record { transport = rw p refl; idle = rw p refl }
  | inr p ↦ record { transport = rw p refl; idle = rw p refl }
]

wired :
    (t : Text)
    → IsTransport t
    → transport_of (normal_transport t)
      ≡ (if text_eq t (codes "legacy") then transport_legacy else transport_json)
unfolding transport_of normal_transport text_eq is_empty
wired t h = elim h [
  | inl p ↦ rw p refl
  | inr (inl p) ↦ rw p refl
  | inr (inr (inl p)) ↦ rw p refl
  | inr (inr (inr p)) ↦ rw p refl
]

wire_cases : (tgt : Target) → (wire tgt ≡ transport_legacy) ⊎ (wire tgt ≡ transport_json)
wire_cases tgt = ground (arith, Bool-cases (text_eq tgt.transport (codes "legacy")))

Sends-kind :
    (c d : Client) (kind : TransportKind) (ks : List TransportKind)
    → (kind ≡ transport_legacy) ⊎ (kind ≡ transport_json)
    → c.transport ≡ kind
    → Sends c d ks
    → All (λ k. k ≡ kind) ks
unfolding effective_transport
Sends-kind c d kind ks k t (silent p) = rw p tt
Sends-kind c d kind ks (inl k) t (single p) =
    rw p (ap (λ m. effective_transport m c.json_fallback) (t ∙ k) ∙ sym k, tt)
Sends-kind c d kind ks (inr k) t (single p) =
    rw p (ap (λ m. effective_transport m c.json_fallback) (t ∙ k) ∙ sym k, tt)
Sends-kind c d kind ks (inl k) t (fallback a f m p) = absurd (cc (k, t, a))
Sends-kind c d kind ks (inr k) t (fallback a f m p) = absurd (cc (k, t, a))

pinned :
    (c : Client) (kind : TransportKind) (envs : List Environment)
    → (kind ≡ transport_legacy) ⊎ (kind ≡ transport_json)
    → IsConsistent c
    → c.transport ≡ kind
    → All (λ k. k ≡ kind) (sent_kinds (run c envs).1)
unfolding run sent_kinds
pinned c kind [] k h t = tt
pinned c kind (env ∷ envs) k h t =
    let d = (call c env).1 in
    let l = call-Left c env h in
    rw (sent_kinds-append (call c env).2 (run d envs).1) (
      All-append (λ x. x ≡ kind) (sent_kinds (call c env).2) (sent_kinds (run d envs).1)
        (Sends-kind c d kind _ k t (call-Sends c env h))
        (pinned d kind envs k l.consistent (l.keeps.transport ∙ t)))

-- A client that the default factory makes for a target of a built router (its table with distinct
-- keys) sends every request of every call over one transport: the legacy one if the route says so,
-- and JSON otherwise. It never falls back.
pub default_client_factory-wire :
    (targets : Map Target) (router : StaticRouter) (service : Text) (tgt : Target)
    (envs : List Environment)
    → IsGoMap targets
    → new_static_router targets ≡ ok router
    → resolve router service ≡ ok tgt
    → All (λ k. k ≡ wire tgt) (sent_kinds (run (default_client_factory tgt) envs).1)
default_client_factory-wire targets router service tgt envs distinct built found =
    let route = resolve-IsRoute targets router service tgt distinct built found in
    let f = factory-Fresh tgt in
    pinned (default_client_factory tgt) (wire tgt) envs (wire_cases tgt)
      (unconnected (default_client_factory tgt) f.idle)
      (f.transport ∙ wired tgt.transport route.transport)
