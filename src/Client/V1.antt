-- ===== src/Client/V1.antt =====
-- CustomRpcClient of client.go (v1): every Call dials a connection of its own, which is number 0
-- here. GetClientCodec panics on an error, before the deferred function is there.
use rpc.Base.{Option, none, some, List, [], ◌∷◌}
use rpc.Errors.{GoError}
use rpc.Client.Defs.{Attempt}
use rpc.Client.V2.{LegacyEvent, dialled, closed, sent}

pub data CallEnd : Type 0 where
  returns : Option GoError → CallEnd
  panics : GoError → CallEnd

-- Call. The deferred function closes the codec, and with it the connection, and then the
-- connection again.
unfoldable pub call_v1 : Attempt → CallEnd × List LegacyEvent
call_v1 a = elim a.dial [
  | some e ↦ (returns (some e), [])
  | none ↦ elim a.codec [
    | some e ↦ (panics e, dialled 0 ∷ [])
    | none ↦ (returns a.reply, dialled 0 ∷ sent 0 ∷ closed 0 ∷ closed 0 ∷ [])
  ]
]
