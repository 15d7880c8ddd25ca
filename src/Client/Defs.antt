-- ===== src/Client/Defs.antt =====
-- CustomRpcClient of v3/client.go: state, getClient, invalidate, Call and Close.
use rpc.Base.{
  ℕ, suc, Text, Bytes, Bool, true, false, not, ◌&&◌, ◌||◌, Option, none, some, List, [], ◌∷◌, ◌++◌,
  is_some, if◌then◌else◌, text_eq, codes,
}
use rpc.Base.Int.{ℤ, pos}
use rpc.Errors.{GoError, eof, unexpected_eof, shutdown, is_error, as_server_error, is_net_error}

-- transportKind
pub data TransportKind : Type 0 where
  transport_auto transport_json transport_legacy : TransportKind

unfoldable pub is_json : TransportKind → Bool
is_json transport_json = true
is_json _ = false

unfoldable pub is_auto : TransportKind → Bool
is_auto transport_auto = true
is_auto _ = false

-- An `*rpc.Client` with the transport of its codec; `id` tells connections apart.
pub record Connection : Type 0 where
  pub id : ℕ
  pub kind : TransportKind

-- CustomRpcClient. `dialed` counts the connections so far.
pub record Client : Type 0 where
  pub address : Text
  pub port : ℤ
  pub crypto_key : Bytes
  pub max_json_body : ℤ
  pub transport : TransportKind
  pub cl : Option Connection
  pub active_transport : TransportKind
  pub json_fallback : Bool
  pub dialed : ℕ

-- ClientOption, without the logger and the middlewares.
pub data ClientOption : Type 0 where
  with_crypto_key : Bytes → ClientOption
  with_address with_transport : Text → ClientOption
  with_port with_max_json_body : ℤ → ClientOption

-- The switch of ClientWithTransport.
unfoldable pub transport_of : Text → TransportKind
transport_of value =
    if text_eq value (codes "json")
    then transport_json
    else if text_eq value (codes "legacy")
    then transport_legacy
    else transport_auto

unfoldable pub apply_option : Client → ClientOption → Client
unfolding transport_of
apply_option c (with_crypto_key value) = record c { crypto_key = value }
apply_option c (with_address value) = record c { address = value }
apply_option c (with_transport value) = record c { transport = transport_of value }
apply_option c (with_port value) = record c { port = value }
apply_option c (with_max_json_body value) = record c { max_json_body = value }

unfoldable pub apply_options : Client → List ClientOption → Client
unfolding apply_option
apply_options c [] = c
apply_options c (o ∷ opts) = apply_options (apply_option c o) opts

-- NewRpcClient
unfoldable pub new_rpc_client : List ClientOption → Client
unfolding apply_options
new_rpc_client opts =
    apply_options
      (record {
        address = codes "127.0.0.1";
        port = pos 2233;
        crypto_key = [];
        max_json_body = pos 0;
        transport = transport_auto;
        cl = none;
        active_transport = transport_auto;
        json_fallback = false;
        dialed = 0;
      })
      opts

-- effectiveTransport
unfoldable pub effective_transport : TransportKind → Bool → TransportKind
effective_transport transport_json fallback = transport_json
effective_transport transport_legacy fallback = transport_legacy
effective_transport transport_auto fallback = if fallback then transport_legacy else transport_json

-- isConnError, for an error that is not nil
unfoldable pub is_conn_error : GoError → Bool
is_conn_error e =
    if is_some (as_server_error e)
    then false
    else if is_net_error e
    then true
    else is_error e shutdown || is_error e eof || is_error e unexpected_eof

-- What one attempt meets: the errors of the dial, of the codec's construction and of the remote
-- call, and ctx.Err() after a call without an error; `none` is nil.
pub record Attempt : Type 0 where
  pub dial : Option GoError
  pub codec : Option GoError
  pub reply : Option GoError
  pub done : Option GoError

-- ctx.Err() after the middlewares, and the attempts of one Call.
pub record Environment : Type 0 where
  pub started : Option GoError
  pub first : Attempt
  pub retry : Attempt

pub data Event : Type 0 where
  opened closed sent : Connection → Event

-- A method: its error, the client that it leaves, and its effects.
abbrev pub Step : Type 0
Step = Option GoError × Client × List Event

-- What getClient returns: the connection or the error.
pub data Obtained : Type 0 where
  connected : Connection → Obtained
  failed : GoError → Obtained

-- getClient
unfoldable pub get_client : Client → Attempt → Obtained × Client × List Event
get_client c a = elim c.cl [
  | some conn ↦ (connected conn, c, [])
  | none ↦ elim a.dial [
    | some e ↦ (failed e, c, [])
    | none ↦
        let kind = effective_transport c.transport c.json_fallback in
        let conn : Connection = record { id = c.dialed; kind = kind } in
        elim a.codec [
          | some e ↦ (failed e, record c { dialed = suc c.dialed }, opened conn ∷ closed conn ∷ [])
          | none ↦ (
            connected conn,
            record c { cl = some conn; active_transport = kind; dialed = suc c.dialed },
            opened conn ∷ [],
          )
        ]
  ]
]

-- invalidate
unfoldable pub invalidate : Client → Client × List Event
invalidate c = elim c.cl [ none ↦ (c, []) | some conn ↦ (record c { cl = none }, closed conn ∷ []) ]

-- The retry of Call on a legacy connection.
unfoldable pub retry_call : Client → Attempt → Step
retry_call c a =
    let (got, c', es) = get_client c a in
    elim got [
      | failed e ↦ (some e, c', es)
      | connected conn ↦ elim a.reply [
        | none ↦ (a.done, c', es ++ sent conn ∷ [])
        | some e ↦ let (c'', fs) = invalidate c' in (some e, c'', es ++ sent conn ∷ fs)
      ]
    ]

-- The rest of Call after a remote call failed with `e`.
unfoldable pub after_error : Client → GoError → Attempt → Step
after_error c e retry =
    let (c', es) = invalidate c in
    if not (is_conn_error e)
    then (some e, c', es)
    else let marked : Client = record c' { json_fallback = true } in
      if is_auto c'.transport && is_json c'.active_transport && not c'.json_fallback
      then (let (r, c'', fs) = retry_call marked retry in (r, c'', es ++ fs))
      else (some e, marked, es)

-- Call, after the middlewares
unfoldable pub call : Client → Environment → Step
call c env = elim env.started [
  | some e ↦ (some e, c, [])
  | none ↦
      let (got, c', es) = get_client c env.first in
      elim got [
        | failed e ↦ (some e, c', es)
        | connected conn ↦ elim env.first.reply [
          | none ↦ (env.first.done, c', es ++ sent conn ∷ [])
          | some e ↦ let (r, c'', fs) = after_error c' e env.retry in (r, c'', es ++ sent conn ∷ fs)
        ]
      ]
]

-- Close, for the error of closing the connection
unfoldable pub close : Client → Option GoError → Step
close c e = elim c.cl [
  | none ↦ (none, c, [])
  | some conn ↦ (e, record c { cl = none }, closed conn ∷ [])
]
