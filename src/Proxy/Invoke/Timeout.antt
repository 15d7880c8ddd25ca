-- ===== src/Proxy/Invoke/Timeout.antt =====
-- InvokerWithCallTimeout of v3/proxy/invoke.go for a value that is not positive.
use rpc.Base.{Text, Bytes, ◌≡◌, ◌≢◌, not, true, false, List, [], ◌∷◌, Result, ok, ap}
use rpc.Base.Int.{ℤ, is_positive}
use rpc.Base.Map.{Map}
use rpc.Errors.{GoError}
use rpc.Proxy.Types.{Target}
use rpc.Proxy.Headers.{Header}
use rpc.Proxy.Invoke.{
  CallContext, RpcClient, Invoker, with_call_timeout, apply_option, new_rpc_invoker, Environment,
  invoke,
}
use rpc.Proxy.Invoke.Effects.{context_of, invoke-IsReply}

-- The documented behaviour of a client's Call: no reply once the context's deadline has passed.
abbrev pub HeedsDeadline : RpcClient → Type 0
HeedsDeadline client =
    (ctx : CallContext) (method : Text) (payload reply : Bytes)
    → ctx.expired ≡ true
    → client.call ctx method payload ≢ ok reply

module _ (set : Header → Text → Text → Header) (values : Header → Text → List Text) where
  expired_lem :
      (inv : Invoker) (env : Environment) (target : Target) (method : Text) (payload reply : Bytes)
      (md : Map Text)
      → ((client : RpcClient) → inv.new_client target ≡ ok client → HeedsDeadline client)
      → is_positive inv.call_timeout ≡ false
      → (invoke set values inv env target method payload md).0 ≢ ok reply
  expired_lem inv env target method payload reply md heeds p h =
      let k = invoke-IsReply set values inv env target method payload md reply h in
      heeds k.client k.made (context_of set values inv env target method payload md) method payload
        reply (ap not p) k.answered

  -- If the clients give no reply once their context's deadline has passed, an invoker whose only
  -- option is a call timeout of zero or less never replies, whatever the target, the request and
  -- the environment are.
  pub invoke-with_call_timeout :
      (factory : Target → Result GoError RpcClient) (value : ℤ) (env : Environment)
      (target : Target) (method : Text) (payload reply : Bytes) (md : Map Text)
      → ((client : RpcClient) → factory target ≡ ok client → HeedsDeadline client)
      → is_positive value ≡ false
      → (invoke set values
          (new_rpc_invoker factory (with_call_timeout value ∷ []))
          env
          target
          method
          payload
          md).0
        ≢ ok reply
  unfolding new_rpc_invoker apply_option
  invoke-with_call_timeout factory value env target method payload reply md heeds p =
      expired_lem (new_rpc_invoker factory (with_call_timeout value ∷ [])) env target method payload
        reply md heeds p
