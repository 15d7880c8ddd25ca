-- ===== src/Proxy/Service/Laws.antt =====
-- The gates of Call, in their order, and what the metrics see.
use rpc.Base.{
  ℕ, Text, Bytes, ◌≡◌, refl, ap, ◌↔◌, Option, none, some, [], ◌∷◌, arith, length, if◌then◌else◌,
  is_empty, Result, ok, err, Option-cases, Result-cases, inl, inr,
}
use mathlib.Core.Option
use rpc.Base.Map.{Map}
use rpc.Errors.{GoError}
use rpc.Proxy.Types.{
  Target, CallError, GenericRequest, GenericResponse, bad_request, route_error, allowlist_denied,
  method_format, error_text,
}
use rpc.Proxy.Address.{target_string}
use rpc.Proxy.Method.{split_method}
use rpc.Proxy.Service.{
  Service, outcome_ok, CallStats, failed, invoke_target, route, denied, answer, observe, Returned,
  call_configured, call,
}

abbrev pub Invocation : Type 0
Invocation = Target → Text → Bytes → Map Text → Result CallError Bytes

-- How far a request gets through the gates of a service.
pub data Passage (allow : Option (Text → Option GoError)) (router : Text → Result GoError Target)
    (req : GenericRequest) : Type 0 where
  malformed : split_method req.method ≡ none → Passage allow router req
  refused :
      (service : Text) (e : GoError)
      → split_method req.method ≡ some service
      → denied allow req.method ≡ some e
      → Passage allow router req
  unrouted :
      (service : Text) (e : GoError)
      → split_method req.method ≡ some service
      → denied allow req.method ≡ none
      → router service ≡ err e
      → Passage allow router req
  reached :
      (service : Text) (target : Target)
      → split_method req.method ≡ some service
      → denied allow req.method ≡ none
      → router service ≡ ok target
      → Passage allow router req

-- The response that belongs to a passage. Only the last one depends on the invoker.
abbrev pub response_of :
    {allow : Option (Text → Option GoError)} {router : Text → Result GoError Target}
    {req : GenericRequest}
    → Invocation
    → GenericResponse
    → Passage allow router req
    → GenericResponse
response_of {req} invoker res (malformed _) =
    failed res (record { code = bad_request; message = method_format req.method; target = [] })
response_of invoker res (refused _ e _ _) =
    failed res (record { code = allowlist_denied; message = error_text e; target = [] })
response_of invoker res (unrouted _ e _ _ _) =
    failed res (record { code = route_error; message = error_text e; target = [] })
response_of {req} invoker res (reached _ target _ _ _) =
    elim (invoker target req.method req.payload req.metadata) [
      | err e ↦ failed res e
      | ok payload ↦ record res { payload = payload }
    ]

-- The address that a passage reaches; the empty text where it ends before a target.
abbrev pub address_of :
    {allow : Option (Text → Option GoError)} {router : Text → Result GoError Target}
    {req : GenericRequest}
    → Passage allow router req
    → Text
address_of (reached _ target _ _ _) = target_string target
address_of _ = []

module _ (allow : Option (Text → Option GoError)) (router : Text → Result GoError Target)
    (req : GenericRequest) where
  passage : Passage allow router req
  passage = elim (Option-cases (split_method req.method)) [
    | inl m ↦ malformed m
    | inr (service, m) ↦ elim (Option-cases (denied allow req.method)) [
      | inr (e, d) ↦ refused service e m d
      | inl d ↦ elim (Result-cases (router service)) [
        | inr (e, r) ↦ unrouted service e m d r
        | inl (target, r) ↦ reached service target m d r
      ]
    ]
  ]

  answer_passage :
      (invoker : Invocation) (res : GenericResponse) (p : Passage allow router req)
      → (answer allow router invoker req res).0 ≡ response_of invoker res p
  unfolding answer route invoke_target
  answer_passage invoker res (malformed m) = rw (m, answer)
  answer_passage invoker res (refused service e m d) = ground (arith, m, d)
  answer_passage invoker res (unrouted service e m d r) = ground (arith, m, d, r)
  answer_passage invoker res (reached service target m d r) = ground (arith, m, d, r)

  answer_passage_address :
      (invoker : Invocation) (res : GenericResponse) (p : Passage allow router req)
      → (answer allow router invoker req res).1 ≡ address_of p
  unfolding answer route invoke_target
  answer_passage_address invoker res (malformed m) = ground (arith, m)
  answer_passage_address invoker res (refused service e m d) = ground (arith, m, d)
  answer_passage_address invoker res (unrouted service e m d r) = ground (arith, m, d, r)
  answer_passage_address invoker res (reached service target m d r) = ground (arith, m, d, r)

abbrev pub configured :
    Option (Text → Option GoError) → (Text → Result GoError Target) → Invocation → Service
configured allow router invoker = record {
  router = some router;
  allow = allow;
  invoker = some invoker;
}

-- The address, or where there is none that of the error.
abbrev pub reported : Text → Option CallError → Text
reported address none = address
reported address (some e) = if is_empty address then e.target else address

-- The observed stats tell the response: the outcome and the code of its error, the target, and
-- both sizes.
pub record IsObserved (req : GenericRequest) (res : GenericResponse) (address : Text) (latency : ℕ)
    (st : CallStats) : Type 0 where
  pub method : st.method ≡ req.method
  pub ok_iff : (st.outcome ≡ outcome_ok) ↔ (res.error ≡ none)
  pub code : st.code ≡ Option.map (λ (e : CallError). e.code) res.error
  pub target : st.target ≡ reported address res.error
  pub latency_kept : st.latency ≡ latency
  pub req_bytes : st.req_bytes ≡ length req.payload
  pub res_bytes : st.res_bytes ≡ length res.payload

observe-IsObserved :
    (req : GenericRequest) (res : GenericResponse) (target_str : Text) (latency : ℕ)
    → IsObserved req res target_str latency
        (observe req res target_str (length req.payload) latency)
unfolding observe
observe-IsObserved req res target_str latency = record {
  method = ground arith;
  ok_iff = ground arith;
  code = ground arith;
  target = ground arith;
  latency_kept = ground arith;
  req_bytes = ground arith;
  res_bytes = ground arith;
}

-- What Call returns after a passage: no error, the passage's response, one observation of it.
pub record IsAnswered (allow : Option (Text → Option GoError))
    (router : Text → Result GoError Target) (invoker : Invocation) (req : GenericRequest)
    (res : GenericResponse) (latency : ℕ) (r : Returned) : Type 0 where
  pub passage : Passage allow router req
  pub stats : CallStats
  pub no_error : r.error ≡ none
  pub response : r.response ≡ some (response_of invoker res passage)
  pub once : r.observed ≡ stats ∷ []
  pub told : IsObserved req (response_of invoker res passage) (address_of passage) latency stats

-- A configured service passes every request through the gates in the order format, allowlist,
-- route, invoker; each failure is the structured error of its gate, the returned Go error is nil,
-- and the metrics observe the call once, as it ended.
pub call-IsAnswered :
    (allow : Option (Text → Option GoError)) (router : Text → Result GoError Target)
    (invoker : Invocation) (req : GenericRequest) (res : GenericResponse) (latency : ℕ)
    → IsAnswered allow router invoker req res latency
        (call (configured allow router invoker) req (some res) latency)
unfolding call call_configured
call-IsAnswered allow router invoker req res latency =
    let p = passage allow router req in
    let (filled, target_str) = answer allow router invoker req res in
    let same = answer_passage allow router req invoker res p in
    record {
      passage = p;
      stats = observe req filled target_str (length req.payload) latency;
      no_error = refl;
      response = ap some same;
      once = refl;
      told =
          rw (← same, ← answer_passage_address allow router req invoker res p)
            (observe-IsObserved req filled target_str latency);
    }
