-- ===== src/Proxy/Service/EndToEnd.antt =====
-- Service.Call of v3/proxy/service.go over the repository's own router and allowlist.
use rpc.Base.{ℕ, Text, Bytes, ◌≡◌, true, false, ◌||◌, none, some, List, [], arith, ap, ◌∙◌, ok}
use rpc.Base.Map.{Map, lookup}
use rpc.Errors.{failure, method_not_allowed}
use rpc.Proxy.Types.{Target, GenericRequest, GenericResponse, allowlist_denied, error_text}
use rpc.Proxy.Method.{split_method}
use rpc.Proxy.Allowlist.{policy_default, Allowlist, new_allowlist, allowed}
use rpc.Proxy.Allowlist.Permits.{permits, all_blank}
use rpc.Proxy.Allowlist.Decision.{allowed_default}
use rpc.Proxy.Router.{StaticRouter, new_static_router, resolve}
use rpc.Proxy.Router.Laws.{IsGoMap, IsRoute, resolve-new_static_router, resolve-IsRoute}
use rpc.Proxy.Service.{Service, denied, call}
use rpc.Proxy.Service.Laws.{
  Invocation, Passage, malformed, refused, unrouted, reached, response_of, configured,
  call-IsAnswered,
}

-- A response before Call fills it.
abbrev pub fresh : GenericResponse
fresh = record { payload = []; error = none }

abbrev pub proxy : Allowlist → StaticRouter → Invocation → Service
proxy a r invoker = configured (some (allowed (some a))) (resolve r) invoker

-- The request was invoked on the target that the table has for its service, which the entries
-- permit, and `out` is the reply.
pub record IsServed (entries : List Text) (targets : Map Target) (invoker : Invocation)
    (req : GenericRequest) (out : Bytes) : Type 0 where
  pub service : Text
  pub target : Target
  pub split : split_method req.method ≡ some service
  pub permitted : (all_blank entries || permits entries req.method) ≡ true
  pub routed : lookup service targets ≡ some target
  pub valid : IsRoute (service, target)
  pub invoked : invoker target req.method req.payload req.metadata ≡ ok out

-- The allowlist's denial of a method.
abbrev pub denial : Text → GenericResponse
denial method = record {
  payload = [];
  error = some (record {
    code = allowlist_denied;
    message = error_text (failure (method_not_allowed method));
    target = [];
  });
}

module _ (entries : List Text) (a : Allowlist) (targets : Map Target) (r : StaticRouter)
    (listed : new_allowlist entries policy_default ≡ ok a) (distinct : IsGoMap targets)
    (routes : new_static_router targets ≡ ok r) (invoker : Invocation) (req : GenericRequest) where
  served :
      (out : Bytes) (p : Passage (some (allowed (some a))) (resolve r) req)
      → response_of invoker fresh p ≡ record { payload = out; error = none }
      → IsServed entries targets invoker req out
  unfolding denied
  served out (malformed m) h = absurd (cc h)
  served out (refused service e m d) h = absurd (cc h)
  served out (unrouted service e m d x) h = absurd (cc h)
  served out (reached service target m d x) h = record {
    service = service;
    target = target;
    split = m;
    permitted = ground (arith, d, allowed_default entries a req.method listed);
    routed = ground (arith, x, resolve-new_static_router targets r service distinct routes);
    valid = resolve-IsRoute targets r service target distinct routes x;
    invoked = ground (arith, h);
  }

  -- A reply without an error comes from the invoker, at the validated route of the method's
  -- service, for a method that the entries permit (any method, if the entries are all blank).
  pub call-IsServed :
      (out : Bytes) (latency : ℕ)
      → (call (proxy a r invoker) req (some fresh) latency).response
        ≡ some (record { payload = out; error = none })
      → IsServed entries targets invoker req out
  call-IsServed out latency h =
      let c = call-IsAnswered (some (allowed (some a))) (resolve r) invoker req fresh latency in
      served out c.passage (cc (h, c.response))

  stopped :
      (service : Text) (p : Passage (some (allowed (some a))) (resolve r) req)
      → split_method req.method ≡ some service
      → (all_blank entries || permits entries req.method) ≡ false
      → response_of invoker fresh p ≡ denial req.method
  unfolding denied
  stopped service (malformed m) e n = absurd (cc (m, e))
  stopped service (refused s x m d) e n =
      ground (arith, n, d, allowed_default entries a req.method listed)
  stopped service (unrouted s x m d y) e n =
      absurd (ground (arith, n, d, allowed_default entries a req.method listed))
  stopped service (reached s t m d y) e n =
      absurd (ground (arith, n, d, allowed_default entries a req.method listed))

  -- A well-formed method that no entry permits, while some entry is not blank, gets the
  -- allowlist's denial whatever the invoker is.
  pub call_denied :
      (service : Text) (latency : ℕ)
      → split_method req.method ≡ some service
      → (all_blank entries || permits entries req.method) ≡ false
      → (call (proxy a r invoker) req (some fresh) latency).response ≡ some (denial req.method)
  call_denied service latency e n =
      let c = call-IsAnswered (some (allowed (some a))) (resolve r) invoker req fresh latency in
      c.response ∙ ap some (stopped service c.passage e n)
