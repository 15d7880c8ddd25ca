-- ===== src/Proxy/Invoke.antt =====
-- RPCInvoker of v3/proxy/invoke.go. What a call meets outside is an `Environment`: the context,
-- the outcome of the select on the slot channel, and the clients that the factory makes. The
-- effects come back as a trace, the deferred ones last and in reverse order.

pub mod Effects
pub mod Timeout
pub mod Slots
use rpc.Base.{
  ℕ, Text, Bytes, Bool, true, false, not, Option, none, some, List, [], ◌∷◌, ◌++◌, ltb,
  if◌then◌else◌, length, Result, ok, err, ◌^◌, ◌*◌,
}
use rpc.Base.Int.{ℤ, pos, is_positive, magnitude}
use rpc.Base.Map.{Map}
use rpc.Errors.{GoError}
use rpc.Proxy.Types.{
  Target, CallError, transport_error, payload_too_large, error_text, request_exceeds,
  response_exceeds, concurrency_limit, client_init,
}
use rpc.Codec.Stream.{default_max_json_body}
use rpc.Proxy.Address.{target_string}
use rpc.Proxy.CallErrors.{map_call_error}
use rpc.Proxy.Headers.{Header, identity_headers}

-- defaultCallTimeout, in nanoseconds.
abbrev pub default_call_timeout : ℤ
default_call_timeout = pos 30_000_000_000

-- The context of the client's call: whether its deadline has passed at the start, and its header.
pub record CallContext : Type 0 where
  pub expired : Bool
  pub headers : Header

-- rpcClient: the reply, or the error, of Call.
pub record RpcClient : Type 0 where
  pub call : CallContext → Text → Bytes → Result GoError Bytes

-- RPCInvoker. `slots` is the capacity of limitCh, `none` for a nil channel.
pub record Invoker : Type 0 where
  pub max_payload : ℤ
  pub call_timeout : ℤ
  pub slots : Option ℕ
  pub new_client : Target → Result GoError RpcClient

-- InvokerOption, without the logger.
pub data InvokerOption : Type 0 where
  with_max_payload with_call_timeout with_max_concurrent : ℤ → InvokerOption
  with_client_factory : (Target → Result GoError RpcClient) → InvokerOption

unfoldable pub apply_option : Invoker → InvokerOption → Invoker
apply_option i (with_max_payload value) = record i { max_payload = value }
apply_option i (with_call_timeout value) = record i { call_timeout = value }
apply_option i (with_max_concurrent value) =
    if is_positive value then record i { slots = some (magnitude value) } else i
apply_option i (with_client_factory value) = record i { new_client = value }

apply_options : Invoker → List InvokerOption → Invoker
apply_options i [] = i
apply_options i (o ∷ opts) = apply_options (apply_option i o) opts

-- NewRPCInvoker, for a default client factory.
unfoldable pub new_rpc_invoker : (Target → Result GoError RpcClient) → List InvokerOption → Invoker
unfolding apply_options apply_option
new_rpc_invoker default_client_factory opts =
    apply_options
      (record {
        max_payload = pos 0;
        call_timeout = default_call_timeout;
        slots = none;
        new_client = default_client_factory;
      })
      opts

-- payloadLimit
unfoldable pub payload_limit : Invoker → ℕ
payload_limit inv =
    if is_positive inv.max_payload then magnitude inv.max_payload else default_max_json_body

-- `context_error` is ctx.Err() at the start, `slot_wait` the outcome of the select: the slot, or
-- callCtx.Err() where the call's context ended first.
pub record Environment : Type 0 where
  pub context_error : Option GoError
  pub inbound : Header
  pub slot_wait : Option GoError

pub data Event : Type 0 where
  slot_acquired slot_released client_closed : Event
  client_opened : Target → Event
  called : CallContext → Text → Bytes → Event

abbrev pub Outcome : Type 0
Outcome = Result CallError Bytes × List Event

-- From the client's call to the check of the reply.
unfoldable pub call_client : Invoker → CallContext → RpcClient → Target → Text → Bytes → Outcome
call_client inv ctx client target method payload = elim (client.call ctx method payload) [
  | err e ↦ (
    err (map_call_error e (target_string target)),
    called ctx method payload ∷ client_closed ∷ [],
  )
  | ok reply ↦ (
    (if ltb (payload_limit inv) (length reply)
        then err (record {
          code = payload_too_large;
          message = response_exceeds (length reply) (payload_limit inv);
          target = target_string target;
        })
        else ok reply),
    called ctx method payload ∷ client_closed ∷ [],
  )
]

-- The select on limitCh, and the deferred release.
unfoldable pub with_slot : Invoker → Environment → Target → Outcome → Outcome
with_slot inv env target (result, events) = elim inv.slots [
  | none ↦ (result, events)
  | some capacity ↦ elim env.slot_wait [
    | some e ↦ (
      err (record {
        code = transport_error;
        message = concurrency_limit e;
        target = target_string target;
      }),
      [],
    )
    | none ↦ (result, slot_acquired ∷ (events ++ slot_released ∷ []))
  ]
]

module _ (set : Header → Text → Text → Header) (values : Header → Text → List Text) where
  -- From the client factory on.
  unfoldable pub open_client : Invoker → Environment → Target → Text → Bytes → Map Text → Outcome
  unfolding call_client
  open_client inv env target method payload md = elim (inv.new_client target) [
    | err e ↦ (
      err (record {
        code = transport_error;
        message = client_init e;
        target = target_string target;
      }),
      [],
    )
    | ok client ↦
        let (result, events) =
          call_client inv
            (record {
              expired = not (is_positive inv.call_timeout);
              headers = identity_headers set values env.inbound md;
            })
            client target method payload in
        (result, client_opened target ∷ events)
  ]

  -- Invoke
  unfoldable pub invoke : Invoker → Environment → Target → Text → Bytes → Map Text → Outcome
  unfolding open_client with_slot
  invoke inv env target method payload md = elim env.context_error [
    | some e ↦ (
      err (record {
        code = transport_error;
        message = error_text e;
        target = target_string target;
      }),
      [],
    )
    | none ↦
        if ltb (payload_limit inv) (length payload)
        then (
          err (record {
            code = payload_too_large;
            message = request_exceeds (length payload) (payload_limit inv);
            target = target_string target;
          }),
          [],
        )
        else with_slot inv env target (open_client inv env target method payload md)
  ]
