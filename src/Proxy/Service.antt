-- ===== src/Proxy/Service.antt =====
-- Service of v3/proxy/service.go and CallStats of v3/proxy/metrics.go. The interfaces Router,
-- Allowlister and Invoker are their methods, `none` for a nil interface; the metrics are the list
-- of the observed stats. Logging is left out, and the latency is given.
pub mod Laws
pub mod EndToEnd
pub mod Composed
use rpc.Base.{
  ℕ, Text, Bytes, Bool, ◌||◌, Option, none, some, List, [], ◌∷◌, if◌then◌else◌, length, is_empty,
  is_some, not, Result, ok, err,
}
use rpc.Base.Map.{Map}
use rpc.Errors.{GoError, failure, nil_response, not_configured}
use rpc.Proxy.Types.{
  Code, Target, CallError, GenericRequest, GenericResponse, bad_request, route_error,
  allowlist_denied, method_format, error_text,
}
use rpc.Proxy.Method.{split_method}
use rpc.Proxy.Address.{target_string}

-- `invoker` is Invoke in the context of the call.
pub record Service : Type 0 where
  pub router : Option (Text → Result GoError Target)
  pub allow : Option (Text → Option GoError)
  pub invoker : Option (Target → Text → Bytes → Map Text → Result CallError Bytes)

pub data Outcome : Type 0 where
  outcome_ok outcome_error : Outcome

pub record CallStats : Type 0 where
  pub method : Text
  pub target : Text
  pub outcome : Outcome
  pub code : Option Code
  pub latency : ℕ
  pub req_bytes : ℕ
  pub res_bytes : ℕ

-- The response, and the target text for the observer.
abbrev pub Answer : Type 0
Answer = GenericResponse × Text

abbrev pub failed : GenericResponse → CallError → GenericResponse
failed res e = record res { error = some e }

-- The tail of Call: the resolved target, and the invoker.
unfoldable pub invoke_target :
    (Target → Text → Bytes → Map Text → Result CallError Bytes)
    → GenericRequest
    → GenericResponse
    → Target
    → Answer
invoke_target invoker req res target = elim (invoker target req.method req.payload req.metadata) [
  | err e ↦ (failed res e, target_string target)
  | ok payload ↦ (record res { payload = payload }, target_string target)
]

-- From Resolve on.
unfoldable pub route :
    (Text → Result GoError Target)
    → (Target → Text → Bytes → Map Text → Result CallError Bytes)
    → GenericRequest
    → GenericResponse
    → Text
    → Answer
unfolding invoke_target
route router invoker req res service = elim (router service) [
  | err e ↦ (failed res (record { code = route_error; message = error_text e; target = [] }), [])
  | ok target ↦ invoke_target invoker req res target
]

-- s.allow.Allowed, where there is an allowlist.
unfoldable pub denied : Option (Text → Option GoError) → Text → Option GoError
denied none method = none
denied (some allow) method = allow method

-- The body of Call between the two deferred lines.
unfoldable pub answer :
    Option (Text → Option GoError)
    → (Text → Result GoError Target)
    → (Target → Text → Bytes → Map Text → Result CallError Bytes)
    → GenericRequest
    → GenericResponse
    → Answer
unfolding route denied
answer allow router invoker req res = elim (split_method req.method) [
  | none ↦ (
    failed res (record { code = bad_request; message = method_format req.method; target = [] }),
    [],
  )
  | some service ↦ elim (denied allow req.method) [
    | some e ↦
        (failed res (record { code = allowlist_denied; message = error_text e; target = [] }), [])
    | none ↦ route router invoker req res service
  ]
]

-- observe: the stats of a finished call.
unfoldable pub observe : GenericRequest → GenericResponse → Text → ℕ → ℕ → CallStats
observe req res target_str req_bytes latency = elim res.error [
  | some e ↦ record {
    method = req.method;
    target = if is_empty target_str then e.target else target_str;
    outcome = outcome_error;
    code = some e.code;
    latency = latency;
    req_bytes = req_bytes;
    res_bytes = length res.payload;
  }
  | none ↦ record {
    method = req.method;
    target = target_str;
    outcome = outcome_ok;
    code = none;
    latency = latency;
    req_bytes = req_bytes;
    res_bytes = length res.payload;
  }
]

-- What Call returns: its error, the response as it leaves it, and what the metrics observed.
pub record Returned : Type 0 where
  pub error : Option GoError
  pub response : Option GenericResponse
  pub observed : List CallStats

-- The call of a configured service with a response to fill.
unfoldable pub call_configured :
    Option (Text → Option GoError)
    → (Text → Result GoError Target)
    → (Target → Text → Bytes → Map Text → Result CallError Bytes)
    → GenericRequest
    → GenericResponse
    → ℕ
    → Returned
call_configured allow router invoker req res latency =
    let (filled, target_str) = answer allow router invoker req res in
    record {
      error = none;
      response = some filled;
      observed = observe req filled target_str (length req.payload) latency ∷ [];
    }

-- Call
unfoldable pub call : Service → GenericRequest → Option GenericResponse → ℕ → Returned
call s req none latency = record {
  error = some (failure nil_response);
  response = none;
  observed = [];
}
call s req (some res) latency =
    let unconfigured : Returned = record {
      error = some (failure not_configured);
      response = some res;
      observed = [];
    } in
    elim s.router [
      | none ↦ unconfigured
      | some router ↦ elim s.invoker [
        | none ↦ unconfigured
        | some invoker ↦ call_configured s.allow router invoker req res latency
      ]
    ]
