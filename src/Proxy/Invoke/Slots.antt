-- ===== src/Proxy/Invoke/Slots.antt =====
-- Concurrent invocations of one RPCInvoker of v3/proxy/invoke.go, which share the channel of slots.
-- An invocation stands before the select on that channel, in it, or behind it with a slot (or with
-- none, if the channel is nil), or it has returned. A schedule says which one is next, and how its
-- select ends if both of its cases are ready.
pub mod Limit
use rpc.Base.{
  ℕ, zero, suc, ◌-◌, Text, Bytes, Bool, true, false, Option, none, some, List, [], ◌∷◌, ltb,
  if◌then◌else◌, length, err,
}
use rpc.Base.Map.{Map}
use rpc.Errors.{GoError}
use rpc.Proxy.Types.{Target, transport_error, payload_too_large, error_text, request_exceeds}
use rpc.Proxy.Address.{target_string}
use rpc.Proxy.Headers.{Header}
use rpc.Proxy.Invoke.{Invoker, payload_limit, Environment, Outcome, with_slot, open_client}

-- The arguments of Invoke, with what it meets outside of the channel.
pub record Arguments : Type 0 where
  pub environment : Environment
  pub target : Target
  pub method : Text
  pub payload : Bytes
  pub metadata : Map Text

-- The same with the end of the select.
abbrev pub awaited : Option GoError → Arguments → Environment
awaited w a = record a.environment { slot_wait = w }

-- An invocation that has returned has the end of its select, if it came so far, and the outcome.
pub data Invocation : Type 0 where
  arriving waiting holding : Arguments → Invocation
  answered : Arguments → Option GoError → Outcome → Invocation

-- The case of the select: the slot, or the end of the call's context.
pub data Turn : Type 0 where
  slot : Turn
  context_end : GoError → Turn

-- The slots in use, and the invocations.
pub record Traffic : Type 0 where
  pub used : ℕ
  pub invocations : List Invocation

module _ (set : Header → Text → Text → Header) (values : Header → Text → List Text)
    (inv : Invoker) where
  -- Up to the select.
  unfoldable pub enter : Arguments → Invocation
  enter a = elim a.environment.context_error [
    | some e ↦ answered a none (
      err (record {
        code = transport_error;
        message = error_text e;
        target = target_string a.target;
      }),
      [],
    )
    | none ↦
        if ltb (payload_limit inv) (length a.payload)
        then answered a none (
          err (record {
            code = payload_too_large;
            message = request_exceeds (length a.payload) (payload_limit inv);
            target = target_string a.target;
          }),
          [],
        )
        else elim inv.slots [ none ↦ holding a | some capacity ↦ waiting a ]
  ]

  -- From the select on, for its end.
  abbrev pub leave : Option GoError → Arguments → Invocation
  leave w a = answered a w (
      with_slot inv (awaited w a) a.target
        (open_client set values inv (awaited w a) a.target a.method a.payload a.metadata))

  -- A step of an invocation, with the slots in use after it. Without a free slot the select waits.
  unfoldable pub advance_invocation : ℕ → Turn → Invocation → ℕ × Invocation
  unfolding enter
  advance_invocation used turn (arriving a) = (used, enter a)
  advance_invocation used slot (waiting a) = elim inv.slots [
    | none ↦ (used, waiting a)
    | some capacity ↦ if ltb used capacity then (suc used, holding a) else (used, waiting a)
  ]
  advance_invocation used (context_end e) (waiting a) = (used, leave (some e) a)
  advance_invocation used turn (holding a) = elim inv.slots [
    | none ↦ (used, leave none a)
    | some capacity ↦ (used - 1, leave none a)
  ]
  advance_invocation used turn (answered a w o) = (used, answered a w o)

  unfoldable pub step_traffic : ℕ → Turn → ℕ → List Invocation → ℕ × List Invocation
  unfolding advance_invocation
  step_traffic used turn i [] = (used, [])
  step_traffic used turn zero (k ∷ ks) =
      let (used', k') = advance_invocation used turn k in (used', k' ∷ ks)
  step_traffic used turn (suc i) (k ∷ ks) =
      let (used', ks') = step_traffic used turn i ks in (used', k ∷ ks')

  unfoldable pub run_traffic : List (ℕ × Turn) → Traffic → Traffic
  unfolding step_traffic
  run_traffic [] t = t
  run_traffic ((i, turn) ∷ turns) t =
      let (used, ks) = step_traffic t.used turn i t.invocations in
      run_traffic turns (record { used = used; invocations = ks })
