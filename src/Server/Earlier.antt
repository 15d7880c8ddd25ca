-- ===== src/Server/Earlier.antt =====
-- The servers of server.go (v1) and v2/server.go. Their connections are served in goroutines of
-- their own; the effects are listed connection by connection, in the order of acceptance. A panic
-- that no function recovers ends the process, and the list with it.
pub mod Survival
use rpc.Base.{
  ℕ, Text, Bytes, Bool, true, false, Option, none, some, List, [], ◌∷◌, ◌++◌, codes, Result, ok,
  err, if◌then◌else◌,
}
use rpc.Base.Int.{ℤ, pos}
use rpc.Errors.{GoError, net_closed, is_error}
use rpc.Codec.Stream.{Conn}
use rpc.Codec.Crypto.{Primitives}
use rpc.Codec.Negotiate.{Codec, new_codec_v2, Got, panics, returns, get_codec_v1}
use rpc.Server.{Ending, returned, panicked}

-- CustomRpcServer, less the handler and the logger.
pub record EarlierServer : Type 0 where
  pub address : Text
  pub port : ℤ
  pub crypto_key : Bytes

pub data EarlierOption : Type 0 where
  key_of : Bytes → EarlierOption
  address_of : Text → EarlierOption
  port_of : ℤ → EarlierOption

unfoldable pub apply_earlier_option : EarlierServer → EarlierOption → EarlierServer
apply_earlier_option s (key_of value) = record s { crypto_key = value }
apply_earlier_option s (address_of value) = record s { address = value }
apply_earlier_option s (port_of value) = record s { port = value }

-- NewRpcServer
unfoldable pub new_earlier_server : List EarlierOption → EarlierServer
unfolding apply_earlier_option
new_earlier_server opts = from_defaults opts
  where
    apply : EarlierServer → List EarlierOption → EarlierServer
    apply s [] = s
    apply s (o ∷ os) = apply (apply_earlier_option s o) os

    from_defaults : List EarlierOption → EarlierServer
    from_defaults = apply (record { address = codes "0.0.0.0"; port = pos 2233; crypto_key = [] })

-- The effects of serving a connection. `handled` has the codec, the connection, and the address
-- that the context carries, if any.
pub data EarlierEvent : Type 0 where
  codec_refused : GoError → EarlierEvent
  handled : Codec → Conn → Option Text → EarlierEvent
  codec_closed panic_recovered connection_closed process_crashed : EarlierEvent

-- What the loop of Accept meets: a connection, with its remote TCP address if it has one; an error
-- of the listener; the end of the context, at which v2's goroutine closes the listener, so that
-- AcceptTCP returns net.ErrClosed.
pub data Arrival : Type 0 where
  arrived : Conn → Option Text → Arrival
  failed : GoError → Arrival
  cancelled : Arrival

abbrev pub Handler : Type 0
Handler = Codec → Conn → Option Text → Ending

module _ {Block : Type 0} (p : Primitives Block) (s : EarlierServer) (handle : Handler) where
  -- The deferred function of v2's ServeConn
  unfoldable pub deferred_v2 : Ending → List EarlierEvent
  deferred_v2 returned = connection_closed ∷ []
  deferred_v2 panicked = panic_recovered ∷ connection_closed ∷ []

  -- v2's ServeConn
  unfoldable pub serve_conn_v2 : Conn → Option Text → List EarlierEvent
  unfolding deferred_v2
  serve_conn_v2 conn remote = elim (new_codec_v2 p s.crypto_key) [
    | err e ↦ codec_refused e ∷ deferred_v2 returned
    | ok codec ↦ handled codec conn remote ∷ codec_closed ∷ deferred_v2 (handle codec conn remote)
  ]

  -- v2's Accept after it listens
  unfoldable pub accept_v2 : List Arrival → List EarlierEvent
  unfolding serve_conn_v2
  accept_v2 [] = []
  accept_v2 (arrived conn remote ∷ rest) = serve_conn_v2 conn remote ++ accept_v2 rest
  accept_v2 (failed e ∷ rest) =
      let more = accept_v2 rest in if is_error e net_closed then [] else more
  accept_v2 (cancelled ∷ rest) = []

  -- v1's ServeConn, with whether the process goes on. GetServerCodec panics on an error; a nil
  -- connection panics at RemoteAddr, and so does a connection that is not of TCP.
  unfoldable pub serve_conn_v1 : Option Conn → Option Text → List EarlierEvent × Bool
  serve_conn_v1 conn remote = elim (get_codec_v1 p s.crypto_key) [
    | panics e ↦ (process_crashed ∷ [], false)
    | returns codec ↦ elim conn [
      | none ↦ (process_crashed ∷ [], false)
      | some c ↦ elim remote [
        | none ↦ (codec_closed ∷ process_crashed ∷ [], false)
        | some address ↦ elim (handle codec c (some address)) [
          | returned ↦ (handled codec c (some address) ∷ codec_closed ∷ [], true)
          | panicked ↦ (handled codec c (some address) ∷ codec_closed ∷ process_crashed ∷ [], false)
        ]
      ]
    ]
  ]

  -- waitForClient: what Accept receives. An error closes the channel, and Accept receives nil.
  unfoldable pub wait_for_client : Arrival → Option (Option Conn × Option Text)
  wait_for_client (arrived conn remote) = some (some conn, remote)
  wait_for_client (failed e) = some (none, none)
  wait_for_client cancelled = none

  -- v1's Accept after it listens
  unfoldable pub accept_v1 : List Arrival → List EarlierEvent × Bool
  unfolding serve_conn_v1 wait_for_client
  accept_v1 [] = ([], true)
  accept_v1 (a ∷ rest) =
      let more = accept_v1 rest in
      elim (wait_for_client a) [
        | none ↦ ([], true)
        | some (conn, remote) ↦
            let (es, alive) = serve_conn_v1 conn remote in
            if alive then (es ++ more.0, more.1) else (es, false)
      ]
