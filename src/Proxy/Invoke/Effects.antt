-- ===== src/Proxy/Invoke/Effects.antt =====
-- The effects of one Invoke of v3/proxy/invoke.go: slots, clients, calls.
use rpc.Base.{
  ℕ, ◌≤◌, Text, Bytes, ◌≡◌, refl, not, Option, none, some, List, [], ◌∷◌, ◌++◌, arith, ltb, length,
  ok, Option-cases, Result-cases, Bool-cases, inl, inr,
}
use rpc.Base.Int.{is_positive}
use rpc.Base.Map.{Map}
use rpc.Proxy.Types.{Target}
use rpc.Proxy.Headers.{Header, identity_headers}
use rpc.Proxy.Invoke.{
  CallContext, RpcClient, Invoker, payload_limit, Environment, Event, slot_acquired, slot_released,
  client_opened, client_closed, called, Outcome, call_client, with_slot, open_client, invoke,
}

-- One use of a client: none, or one call between its opening and its closing.
pub data Session (target : Target) (call : Event) : List Event → Type 0 where
  idle : Session target call []
  one_call : Session target call (client_opened target ∷ call ∷ client_closed ∷ [])

-- A session inside a slot where the invoker has slots.
pub data Lifecycle (slots : Option ℕ) (target : Target) (call : Event) : List Event → Type 0 where
  refused : Lifecycle slots target call []
  unlimited :
      {es : List Event} → slots ≡ none → Session target call es → Lifecycle slots target call es
  in_slot :
      {es : List Event} (capacity : ℕ)
      → slots ≡ some capacity
      → Session target call es
      → Lifecycle slots target call (slot_acquired ∷ (es ++ slot_released ∷ []))

call_client-events :
    (inv : Invoker) (ctx : CallContext) (client : RpcClient) (target : Target) (method : Text)
    (payload : Bytes)
    → (call_client inv ctx client target method payload).1
      ≡ called ctx method payload ∷ client_closed ∷ []
unfolding call_client
call_client-events inv ctx client target method payload = ground arith

module _ (set : Header → Text → Text → Header) (values : Header → Text → List Text) (inv : Invoker)
    (env : Environment) (target : Target) (method : Text) (payload : Bytes) (md : Map Text) where
  -- The context of the only call: the call's timeout and the identity headers.
  abbrev pub context_of : CallContext
  context_of = record {
    expired = not (is_positive inv.call_timeout);
    headers = identity_headers set values env.inbound md;
  }

  open_client-Session :
      Session target
        (called context_of method payload)
        (open_client set values inv env target method payload md).1
  unfolding open_client
  open_client-Session = elim (Result-cases (inv.new_client target)) [
    | inr (e, p) ↦ rw (p, open_client) idle
    | inl (client, p) ↦
        rw (p, open_client, call_client-events inv context_of client target method payload) one_call
  ]

  with_slot-Lifecycle :
      (o : Outcome)
      → Session target (called context_of method payload) o.1
      → Lifecycle inv.slots target (called context_of method payload) (with_slot inv env target o).1
  unfolding with_slot
  with_slot-Lifecycle (result, events) s = elim (Option-cases inv.slots) [
    | inl e ↦ rw (e, with_slot) (unlimited refl s)
    | inr (capacity, e) ↦ elim (Option-cases env.slot_wait) [
      | inr (x, w) ↦ rw (e, w, with_slot) refused
      | inl w ↦ rw (e, w, with_slot) (in_slot capacity refl s)
    ]
  ]

  -- Whatever the environment does, the effects of Invoke are none, or a slot (where the invoker
  -- has slots) taken first and released last around nothing or one client, which is opened for
  -- the target, called once with the method, the unchanged payload and the identity headers, and
  -- closed.
  pub invoke-Lifecycle :
      Lifecycle inv.slots target
        (called context_of method payload)
        (invoke set values inv env target method payload md).1
  unfolding invoke
  invoke-Lifecycle = elim (Option-cases env.context_error) [
    | inr (e, p) ↦ rw (p, invoke) refused
    | inl p ↦ elim (Bool-cases (ltb (payload_limit inv) (length payload))) [
      | inl large ↦ rw (p, large, invoke) refused
      | inr fits ↦
          rw (p, fits, invoke)
            (with_slot-Lifecycle (open_client set values inv env target method payload md)
              open_client-Session)
    ]
  ]

  -- A reply comes from one call of the target's client within both limits, and is that call's
  -- reply, byte for byte.
  pub record IsReply (reply : Bytes) : Type 0 where
    pub client : RpcClient
    pub made : inv.new_client target ≡ ok client
    pub answered : client.call context_of method payload ≡ ok reply
    pub request_fits : length payload ≤ payload_limit inv
    pub response_fits : length reply ≤ payload_limit inv
    pub live : env.context_error ≡ none

  pub invoke-IsReply :
      (reply : Bytes)
      → (invoke set values inv env target method payload md).0 ≡ ok reply
      → IsReply reply
  unfolding invoke open_client call_client with_slot
  invoke-IsReply reply h = elim (Result-cases (inv.new_client target)) [
    | inr (e, p) ↦ absurd (ground (arith, h, p))
    | inl (client, p) ↦ record {
      client = client;
      made = p;
      answered = ground (arith, h, p);
      request_fits = ground (arith, h, p);
      response_fits = ground (arith, h, p);
      live = ground (arith, h, p);
    }
  ]
