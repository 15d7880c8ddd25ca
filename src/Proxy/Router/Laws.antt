-- ===== src/Proxy/Router/Laws.antt =====
-- The table of a StaticRouter of v3/proxy/router.go.
use rpc.Base.{
  Bool-cases, ◌≤◌, ◌⊎◌, codes, Text, ◌≡◌, refl, ◌≢◌, ◌↔◌, true, false, Option, none, some, [], ◌∷◌,
  arith, inl, inr, Option-cases, Result-cases, is_empty_iff, text_eq, text_eq_iff, ok, err, All,
}
use rpc.Base.Int.{ℤ, pos, negsuc}
use rpc.Base.Map.{Map, lookup, insert, lookup-insert}
use rpc.Errors.{failure, no_route}
use rpc.Proxy.Types.{Target}
use rpc.Proxy.Router.{
  StaticRouter, is_bad_port, is_transport, validate, validate_all, new_static_router, resolve,
  copy_into, targets_of,
}

-- A port of the table, 0..65535.
abbrev pub InPortRange : ℤ → Type 0
InPortRange (pos n) = n ≤ 65535
InPortRange (negsuc n) = ⊥

-- A transport that a route can name.
abbrev pub IsTransport : Text → Type 0
IsTransport t = (t ≡ []) ⊎ ((t ≡ codes "auto") ⊎ ((t ≡ codes "json") ⊎ (t ≡ codes "legacy")))

is_transport_iff : (t : Text) → (is_transport t ≡ true) ↔ IsTransport t
unfolding is_transport
is_transport_iff t = ground (
  arith,
  text_eq_iff t [],
  text_eq_iff t (codes "auto"),
  text_eq_iff t (codes "json"),
  text_eq_iff t (codes "legacy"),
)

pub record IsRoute (route : Text × Target) : Type 0 where
  pub named : route.0 ≢ []
  pub has_addr : route.1.addr ≢ []
  pub in_range : InPortRange route.1.port
  pub transport : IsTransport route.1.transport

validate-IsRoute : (name : Text) (tgt : Target) → validate name tgt ≡ none → IsRoute (name, tgt)
unfolding validate
validate-IsRoute name tgt h = record {
  named = ground (arith, is_empty_iff name);
  has_addr = ground (arith, is_empty_iff tgt.addr);
  in_range = port_range tgt.port (ground arith);
  transport = (is_transport_iff tgt.transport).0 (ground arith);
}
  where
    port_range : (p : ℤ) → is_bad_port p ≡ false → InPortRange p
    port_range (pos n) e = unfold is_bad_port in ground arith
    port_range (negsuc n) e = unfold is_bad_port in ground arith

validate_of_IsRoute : (name : Text) (tgt : Target) → IsRoute (name, tgt) → validate name tgt ≡ none
unfolding validate
validate_of_IsRoute name tgt r = ground (
  arith,
  r.named,
  r.has_addr,
  (is_transport_iff tgt.transport).1 r.transport,
  is_empty_iff name,
  is_empty_iff tgt.addr,
  port_test tgt.port r.in_range,
)
  where
    port_test : (p : ℤ) → InPortRange p → is_bad_port p ≡ false
    port_test (pos n) e = unfold is_bad_port in ground arith
    port_test (negsuc n) e = absurd e

-- Keys of a Go map are distinct.
abbrev pub IsGoMap {ℓ} : {V : Type ℓ} → Map V → Type ℓ
IsGoMap [] = Unit
IsGoMap ((k, v) ∷ m) = (lookup k m ≡ none) × IsGoMap m

lookup_nil : (s : Text) → lookup {V = Target} s [] ≡ none
unfolding lookup
lookup_nil s = refl

abbrev or_else {ℓ} : {A : Type ℓ} → Option A → Option A → Option A
or_else none b = b
or_else (some a) b = some a

lookup_absent :
    (s k : Text) (m : Map Target) → lookup k m ≡ none → text_eq k s ≡ true → lookup s m ≡ none
lookup_absent s k m h e = cc (h, (text_eq_iff k s).0 e)

validate_all-lookup :
    (s : Text) (acc targets out : Map Target)
    → IsGoMap targets
    → validate_all acc targets ≡ ok out
    → lookup s out ≡ or_else (lookup s targets) (lookup s acc)
unfolding validate_all lookup
validate_all-lookup s acc [] out d h = ground arith
validate_all-lookup s acc ((name, tgt) ∷ targets) out d h = ground (
  arith,
  validate_all-lookup s (insert name tgt acc) targets out d.1,
  lookup-insert name s tgt acc,
  lookup_absent s name targets d.0,
)

validate_all-IsRoute :
    (acc targets out : Map Target) → validate_all acc targets ≡ ok out → All IsRoute targets
unfolding validate_all
validate_all-IsRoute acc [] out h = tt
validate_all-IsRoute acc ((name, tgt) ∷ targets) out h = elim (Option-cases (validate name tgt)) [
  | inl e ↦ (
    validate-IsRoute name tgt e,
    validate_all-IsRoute (insert name tgt acc) targets out (ground (arith, e, h)),
  )
  | inr (x, e) ↦ absurd (ground (arith, e, h))
]

validate_all_total :
    (acc targets : Map Target)
    → All IsRoute targets
    → (out : Map Target) × (validate_all acc targets ≡ ok out)
unfolding validate_all
validate_all_total acc [] h = (acc, refl)
validate_all_total acc ((name, tgt) ∷ targets) h =
    let (out, e) = validate_all_total (insert name tgt acc) targets h.1 in
    (out, ground (arith, e, validate_of_IsRoute name tgt h.0))

-- NewStaticRouter accepts a table exactly when every route has a name, an address, a port in
-- 0..65535 and one of the transports "", "auto", "json" and "legacy"; so the order in which the
-- map is visited cannot matter.
pub new_static_router_iff :
    (targets : Map Target)
    → ((r : StaticRouter) × (new_static_router targets ≡ ok r)) ↔ All IsRoute targets
unfolding new_static_router
new_static_router_iff targets = (
  λ built. elim (Result-cases (validate_all [] targets)) [
    | inl (out, e) ↦ validate_all-IsRoute [] targets out e
    | inr (x, e) ↦ absurd (ground (arith, e, built.1))
  ],
  λ routes.
      let (out, e) = validate_all_total [] targets routes in
      (record { targets = out }, ground (arith, e)),
)

-- Resolve on a built router answers from the given table: the target of the service, or the
-- missing-route error that names it.
pub resolve-new_static_router :
    (targets : Map Target) (r : StaticRouter) (service : Text)
    → IsGoMap targets
    → new_static_router targets ≡ ok r
    → resolve r service ≡ elim (lookup service targets) [
      | none ↦ err (failure (no_route service))
      | some tgt ↦ ok tgt
    ]
unfolding new_static_router resolve
resolve-new_static_router targets r service d h = elim (Result-cases (validate_all [] targets)) [
  | inl (out, e) ↦
      ground (arith, e, h, validate_all-lookup service [] targets out d e, lookup_nil service)
  | inr (x, e) ↦ absurd (ground (arith, e, h))
]

All-lookup :
    (targets : Map Target) (service : Text) (tgt : Target)
    → All IsRoute targets
    → lookup service targets ≡ some tgt
    → IsRoute (service, tgt)
unfolding lookup
All-lookup [] service tgt h e = absurd (ground (arith, e))
All-lookup ((name, t) ∷ targets) service tgt h e = elim (Bool-cases (text_eq name service)) [
  | inl same ↦
      let p : name ≡ service = (text_eq_iff name service).0 same in
      let q : t ≡ tgt = ground (arith, e, same) in rw (← p, ← q) h.0
  | inr other ↦ All-lookup targets service tgt h.1 (ground (arith, e, other))
]

-- Every target that a built router resolves is a valid route under the name asked for.
pub resolve-IsRoute :
    (targets : Map Target) (r : StaticRouter) (service : Text) (tgt : Target)
    → IsGoMap targets
    → new_static_router targets ≡ ok r
    → resolve r service ≡ ok tgt
    → IsRoute (service, tgt)
resolve-IsRoute targets r service tgt d h e =
    All-lookup targets service tgt ((new_static_router_iff targets).0 (r, h))
      (ground (arith, e, resolve-new_static_router targets r service d h))

copy_into-lookup :
    (s : Text) (out targets : Map Target)
    → IsGoMap targets
    → lookup s (copy_into out targets) ≡ or_else (lookup s targets) (lookup s out)
unfolding copy_into lookup
copy_into-lookup s out [] d = refl
copy_into-lookup s out ((name, tgt) ∷ targets) d = ground (
  arith,
  copy_into-lookup s (insert name tgt out) targets d.1,
  lookup-insert name s tgt out,
  lookup_absent s name targets d.0,
)

-- Targets returns a table with the same answer for every service.
pub lookup-targets_of :
    (r : StaticRouter) (service : Text)
    → IsGoMap r.targets
    → lookup service (targets_of r) ≡ lookup service r.targets
unfolding targets_of
lookup-targets_of r service d =
    ground (arith, copy_into-lookup service [] r.targets d, lookup_nil service)
