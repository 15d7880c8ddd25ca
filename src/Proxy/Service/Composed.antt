-- ===== src/Proxy/Service/Composed.antt =====
-- Service.Call of v3/proxy/service.go with RPCInvoker (invoke.go) as its invoker, over the
-- repository's own router and allowlist: what a call does outside, and what it returns.
use rpc.Base.{
  ℕ, Text, Bytes, ◌≡◌, refl, sym, true, ◌||◌, Option, none, some, List, [], arith, Result, ok, err,
  ◌⊎◌, inl, inr,
}
use mathlib.Core.Path.{subst}
use rpc.Base.Map.{Map, lookup}
use rpc.Errors.{GoError}
use rpc.Proxy.Types.{Target, CallError, GenericRequest, GenericResponse}
use rpc.Proxy.Method.{split_method}
use rpc.Proxy.Allowlist.{policy_default, Allowlist, new_allowlist, allowed}
use rpc.Proxy.Allowlist.Permits.{permits, all_blank}
use rpc.Proxy.Allowlist.Decision.{allowed_default}
use rpc.Proxy.Router.{StaticRouter, new_static_router, resolve}
use rpc.Proxy.Router.Laws.{IsGoMap, IsRoute, resolve-new_static_router, resolve-IsRoute}
use rpc.Proxy.Headers.{Header}
use rpc.Proxy.Invoke.{Invoker, Environment, Event, called, invoke}
use rpc.Proxy.Invoke.Effects.{Lifecycle, context_of, invoke-Lifecycle}
use rpc.Proxy.Service.{denied, call}
use rpc.Proxy.Service.Laws.{
  Invocation, Passage, malformed, refused, unrouted, reached, response_of, call-IsAnswered,
}
use rpc.Proxy.Service.EndToEnd.{fresh, proxy}

-- The effects of Call, for those of its invoker: the early returns have none.
unfoldable pub call_effects :
    Option (Text → Option GoError)
    → (Text → Result GoError Target)
    → (Target → Text → Bytes → Map Text → List Event)
    → GenericRequest
    → List Event
unfolding denied
call_effects allow router effects req = elim (split_method req.method) [
  | none ↦ []
  | some service ↦ elim (denied allow req.method) [
    | some e ↦ []
    | none ↦ elim (router service) [
      | err e ↦ []
      | ok target ↦ effects target req.method req.payload req.metadata
    ]
  ]
]

module _ (set : Header → Text → Text → Header) (values : Header → Text → List Text) (inv : Invoker)
    (env : Environment) where
  -- RPCInvoker.Invoke in an environment: its result, and its effects.
  abbrev pub rpc_result : Invocation
  rpc_result target method payload md = (invoke set values inv env target method payload md).0

  abbrev pub rpc_effects : Target → Text → Bytes → Map Text → List Event
  rpc_effects target method payload md = (invoke set values inv env target method payload md).1

  -- A request that reached no target: an error, and no effect.
  pub record IsStopped (response : Option GenericResponse) (events : List Event) : Type 0 where
    pub error : CallError
    pub answered : response ≡ some (record fresh { error = some error })
    pub nothing_done : events ≡ []

  -- A request of a permitted method, at the validated route that the table has for its service.
  pub record IsForwarded (entries : List Text) (targets : Map Target) (req : GenericRequest)
      (response : Option GenericResponse) (events : List Event) : Type 0 where
    pub service : Text
    pub target : Target
    pub split : split_method req.method ≡ some service
    pub permitted : (all_blank entries || permits entries req.method) ≡ true
    pub routed : lookup service targets ≡ some target
    pub valid : IsRoute (service, target)
    pub answered :
        response
        ≡ some (elim (rpc_result target req.method req.payload req.metadata) [
          | err e ↦ record fresh { error = some e }
          | ok payload ↦ record fresh { payload = payload }
        ])
    pub done :
        Lifecycle inv.slots target
          (called
            (context_of set values inv env target req.method req.payload req.metadata)
            req.method
            req.payload)
          events

  abbrev pub Guarded :
      List Text → Map Target → GenericRequest → Option GenericResponse → List Event → Type 0
  Guarded entries targets req response es =
      IsStopped response es ⊎ IsForwarded entries targets req response es

  module _ (entries : List Text) (a : Allowlist) (targets : Map Target) (r : StaticRouter)
      (listed : new_allowlist entries policy_default ≡ ok a) (distinct : IsGoMap targets)
      (routes : new_static_router targets ≡ ok r) (req : GenericRequest) where
    abbrev allow : Option (Text → Option GoError)
    allow = some (allowed (some a))

    abbrev events : List Event
    events = call_effects (some (allowed (some a))) (resolve r) rpc_effects req

    guarded :
        (p : Passage allow (resolve r) req)
        → Guarded entries targets req (some (response_of rpc_result fresh p)) events
    unfolding call_effects denied
    guarded (malformed m) =
        inl (record { error = _; answered = refl; nothing_done = ground (arith, m) })
    guarded (refused service e m d) =
        inl (record { error = _; answered = refl; nothing_done = ground (arith, m, d) })
    guarded (unrouted service e m d x) =
        inl (record { error = _; answered = refl; nothing_done = ground (arith, m, d, x) })
    guarded (reached service target m d x) =
        let e : events ≡ rpc_effects target req.method req.payload req.metadata =
          ground (arith, m, d, x) in
        inr (record {
          service = service;
          target = target;
          split = m;
          permitted = ground (arith, d, allowed_default entries a req.method listed);
          routed = ground (arith, x, resolve-new_static_router targets r service distinct routes);
          valid = resolve-IsRoute targets r service target distinct routes x;
          answered = refl;
          done =
              rw e (invoke-Lifecycle set values inv env target req.method req.payload req.metadata);
        })

    -- Whatever the environment does, a request on a fresh response either gets an error and touches
    -- nothing outside, or is of a method that the entries permit (any method, if they are all
    -- blank) and gets what Invoke returns for the validated route of its service; then its effects
    -- are none, or a slot (where the invoker has slots) taken first and released last around nothing
    -- or one client, which is opened for that route, called once with the request's method and
    -- payload and the identity headers, and closed.
    pub call-Guarded :
        (latency : ℕ)
        → Guarded entries targets req
            (call (proxy a r rpc_result) req (some fresh) latency).response
            (call_effects (some (allowed (some a))) (resolve r) rpc_effects req)
    call-Guarded latency =
        let c =
          call-IsAnswered (some (allowed (some a))) (resolve r) rpc_result req fresh latency in
        subst (λ x. Guarded entries targets req x events) (sym c.response) (guarded c.passage)
