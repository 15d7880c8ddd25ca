-- ===== src/Tests/Invoking.antt =====
-- The identity headers and Invoke, after v3/proxy/invoke_test.go.
use rpc.Base.{
  ◌≢◌, err, arith, Text, ◌≡◌, refl, none, some, List, [], ◌∷◌, codes, ok, Result, All, is_empty,
  text_eq, contains_byte, if◌then◌else◌,
}
use rpc.Base.Int.{pos, is_positive}
use rpc.Base.Map.{Map, lookup, insert, lookup-insert}
use mathlib.Core.Path.{subst}
use rpc.Errors.{GoError, sentinel, deadline_exceeded}
use rpc.Proxy.Types.{Target}
use rpc.Proxy.Address.{target_string, join_host_port, itoa}
use rpc.Proxy.Headers.{Header, identity_header_keys, identity_headers, metadata_at}
use rpc.Proxy.Headers.Laws.{SetsKey, member, from_either, lookup-identity_headers}
use rpc.Proxy.Invoke.{
  Invoker, RpcClient, CallContext, Environment, slot_acquired, slot_released, client_opened,
  client_closed, called, with_max_payload, with_call_timeout, with_max_concurrent, new_rpc_invoker,
  payload_limit, invoke,
}
use rpc.Proxy.Invoke.Timeout.{HeedsDeadline, invoke-with_call_timeout}
use rpc.Proxy.Invoke.Effects.{Lifecycle, context_of, invoke-Lifecycle, IsReply, invoke-IsReply}

-- A header type whose `Set` and `Values` use the key as it is.
abbrev pub set : Header → Text → Text → Header
set h k v = insert k (v ∷ []) h

abbrev pub values : Header → Text → List Text
values h k = elim (lookup k h) [ none ↦ [] | some vs ↦ vs ]

sets_key : (k : Text) → SetsKey set k
sets_key k h j v = lookup-insert k j (v ∷ []) h

laws : All (SetsKey set) identity_header_keys
laws = (sets_key _, (sets_key _, (sets_key _, (sets_key _, tt))))

abbrev inbound : Header
inbound = (codes "X-User-Id", codes "u1" ∷ []) ∷ (codes "Cookie", codes "c" ∷ []) ∷ []

abbrev pub metadata : Map Text
metadata = (codes "X-User-Id", codes "evil") ∷ (codes "X-Tenant-Id", codes "t1") ∷ []

sent_headers :
    identity_headers set values inbound metadata
    ≡ (codes "X-User-Id", codes "u1" ∷ []) ∷ (codes "X-Tenant-Id", codes "t1" ∷ []) ∷ []
unfolding identity_headers metadata_at insert lookup text_eq is_empty
sent_headers = refl

lookup-identity_headers_example :
    lookup (codes "X-User-Id") (identity_headers set values inbound metadata) ≡ (
      if member (codes "X-User-Id") identity_header_keys
      then from_either
          (values inbound (codes "X-User-Id"))
          (metadata_at metadata (codes "X-User-Id"))
      else none)
lookup-identity_headers_example =
    lookup-identity_headers set values inbound metadata (codes "X-User-Id") laws

abbrev pub target : Target
target = record { addr = codes "h"; port = pos 7; secret = []; transport = codes "json" }

target_text : target_string target ≡ codes "h:7"
unfolding target_string join_host_port itoa contains_byte
target_text = refl

-- A client that answers with the payload.
abbrev pub echo : Target → Result GoError RpcClient
echo t = ok (record { call = λ ctx method payload. ok payload })

abbrev pub invoker : Invoker
invoker = record {
  max_payload = pos 3;
  call_timeout = pos 30_000_000_000;
  slots = some 2;
  new_client = echo;
}

configured :
    new_rpc_invoker echo (with_max_payload (pos 3) ∷ with_max_concurrent (pos 2) ∷ []) ≡ invoker
unfolding new_rpc_invoker is_positive
configured = refl

abbrev pub env : Environment
env = record { context_error = none; inbound = inbound; slot_wait = none }

abbrev ctx : CallContext
ctx = context_of set values invoker env target (codes "s.M") (1 ∷ 2 ∷ []) metadata

invoked : invoke set values invoker env target (codes "s.M") (1 ∷ 2 ∷ []) metadata ≡ (
  ok (1 ∷ 2 ∷ []),
  slot_acquired
      ∷ client_opened target
      ∷ called ctx (codes "s.M") (1 ∷ 2 ∷ [])
      ∷ client_closed
      ∷ slot_released
      ∷ [],
)
unfolding invoke payload_limit is_positive
invoked = refl

invoke-Lifecycle_example :
    Lifecycle
      (some 2)
      target
      (called ctx (codes "s.M") (1 ∷ 2 ∷ []))
      (invoke set values invoker env target (codes "s.M") (1 ∷ 2 ∷ []) metadata).1
invoke-Lifecycle_example =
    invoke-Lifecycle set values invoker env target (codes "s.M") (1 ∷ 2 ∷ []) metadata

replied :
    (invoke set values invoker env target (codes "s.M") (1 ∷ 2 ∷ []) metadata).0 ≡ ok (1 ∷ 2 ∷ [])
unfolding invoke payload_limit is_positive
replied = refl

invoke-IsReply_example :
    IsReply set values invoker env target (codes "s.M") (1 ∷ 2 ∷ []) metadata (1 ∷ 2 ∷ [])
invoke-IsReply_example =
    invoke-IsReply set values invoker env target (codes "s.M") (1 ∷ 2 ∷ []) metadata (1 ∷ 2 ∷ [])
      replied

-- A client that heeds the deadline, and otherwise answers with the payload.
abbrev punctual : RpcClient
punctual = record {
  call = λ ctx method payload. if ctx.expired then err (sentinel deadline_exceeded) else ok payload;
}

abbrev accepts : Target → Result GoError RpcClient
accepts t = ok punctual

punctual-HeedsDeadline : HeedsDeadline punctual
punctual-HeedsDeadline ctx method payload reply e h = ground (arith, e, h)

made-HeedsDeadline : (client : RpcClient) → accepts target ≡ ok client → HeedsDeadline client
made-HeedsDeadline client made =
    let same : punctual ≡ client = cc made in subst HeedsDeadline same punctual-HeedsDeadline

invoke-with_call_timeout_example :
    (invoke set values
      (new_rpc_invoker accepts (with_call_timeout (pos 0) ∷ []))
      env
      target
      (codes "s.M")
      (1 ∷ [])
      metadata).0
    ≢ ok (1 ∷ [])
invoke-with_call_timeout_example =
    invoke-with_call_timeout set values accepts (pos 0) env target (codes "s.M") (1 ∷ []) (1 ∷ [])
      metadata made-HeedsDeadline (unfold is_positive in refl)
