-- ===== src/Server.antt =====
-- CustomRpcServer of v3/server.go and v3/server_option.go: the options, Accept's loop and
-- ServeConn. The rpc.Server behind the handler is what its Handle does: it returns or panics.
pub mod Laws
pub mod Earlier
use rpc.Base.{
  ℕ, Text, Bytes, Bool, true, false, Option, none, some, List, [], ◌∷◌, ◌++◌, codes, Result, ok,
  err, if◌then◌else◌,
}
use rpc.Base.Int.{ℤ, pos}
use rpc.Errors.{GoError, net_closed, is_error}
use rpc.Codec.Stream.{Conn}
use rpc.Codec.Crypto.{Primitives}
use rpc.Codec.Negotiate.{PrefixConn, Codec, new_server_codec_v3}

-- CustomRpcServer, less the handler and the logger.
pub record Server : Type 0 where
  pub address : Text
  pub port : ℤ
  pub crypto_key : Bytes
  pub max_json_body : ℤ

pub data ServerOption : Type 0 where
  server_with_crypto_key : Bytes → ServerOption
  server_with_address : Text → ServerOption
  server_with_port server_with_max_json_body : ℤ → ServerOption

unfoldable pub apply_server_option : Server → ServerOption → Server
apply_server_option s (server_with_crypto_key value) = record s { crypto_key = value }
apply_server_option s (server_with_address value) = record s { address = value }
apply_server_option s (server_with_port value) = record s { port = value }
apply_server_option s (server_with_max_json_body value) = record s { max_json_body = value }

unfoldable pub apply_server_options : Server → List ServerOption → Server
unfolding apply_server_option
apply_server_options s [] = s
apply_server_options s (o ∷ opts) = apply_server_options (apply_server_option s o) opts

-- NewRpcServer
unfoldable pub new_rpc_server : List ServerOption → Server
unfolding apply_server_options
new_rpc_server opts =
    apply_server_options
      (record {
        address = codes "0.0.0.0";
        port = pos 2233;
        crypto_key = [];
        max_json_body = pos 0;
      })
      opts

-- How a Handle ends.
pub data Ending : Type 0 where
  returned panicked : Ending

-- The effects of ServeConn. `handled` has the codec, the connection that it reads from, and the
-- address that the context carries, if the connection has one.
pub data ServeEvent : Type 0 where
  codec_refused : GoError → ServeEvent
  handled : Codec → PrefixConn → Option Text → ServeEvent
  codec_closed panic_recovered connection_closed : ServeEvent

-- The deferred function of ServeConn
unfoldable pub deferred : Ending → List ServeEvent
deferred returned = connection_closed ∷ []
deferred panicked = panic_recovered ∷ connection_closed ∷ []

-- ServeConn, for the connection's bytes and its remote TCP address
unfoldable pub serve_conn :
    {Block : Type 0}
    → Primitives Block
    → Server
    → (Codec → PrefixConn → Option Text → Ending)
    → Conn
    → Option Text
    → List ServeEvent
unfolding deferred
serve_conn p s handle conn remote = elim (new_server_codec_v3 p conn s.crypto_key s.max_json_body) [
  | err e ↦ codec_refused e ∷ deferred returned
  | ok (sniffed, codec) ↦
      handled codec sniffed remote ∷ codec_closed ∷ deferred (handle codec sniffed remote)
]

-- The outcomes of AcceptTCP.
pub data Accepted : Type 0 where
  accepted : Conn → Option Text → Accepted
  accept_failed : GoError → Accepted

-- The loop of Accept over the outcomes so far: the connections that it serves, each in a
-- goroutine of its own, and whether it has returned.
unfoldable pub accept_loop : List Accepted → List (Conn × Option Text) × Bool
accept_loop [] = ([], false)
accept_loop (accepted conn remote ∷ rest) =
    let (served, done) = accept_loop rest in ((conn, remote) ∷ served, done)
accept_loop (accept_failed e ∷ rest) =
    let more = accept_loop rest in if is_error e net_closed then ([], true) else more

-- Accept, for the ends of resolving the address and of listening, ctx.Err() when the listener is
-- closed, and the outcomes of AcceptTCP so far: the connections that it serves, and what it has
-- returned, if it has.
unfoldable pub accept :
    Option GoError
    → Option GoError
    → Option GoError
    → List Accepted
    → List (Conn × Option Text) × Option (Option GoError)
unfolding accept_loop
accept resolving listening context_error outcomes = elim resolving [
  | some e ↦ ([], some (some e))
  | none ↦ elim listening [
    | some e ↦ ([], some (some e))
    | none ↦
        let (served, done) = accept_loop outcomes in
        (served, if done then some context_error else none)
  ]
]
