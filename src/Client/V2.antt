-- ===== src/Client/V2.antt =====
-- CustomRpcClient of v2/client.go and v2/client_option.go. It has one transport, so a connection is its
-- number; what a call meets outside is the same as for v3.
pub mod Agreement
use rpc.Base.{ℕ, suc, Text, Bytes, Option, none, some, List, [], ◌∷◌, ◌++◌, codes}
use rpc.Base.Int.{ℤ, pos}
use rpc.Errors.{GoError}
use rpc.Client.Defs.{Attempt, Environment}

pub record LegacyClient : Type 0 where
  pub address : Text
  pub port : ℤ
  pub crypto_key : Bytes
  pub cl : Option ℕ
  pub dialed : ℕ

-- ClientOption, without the logger and the middlewares.
pub data LegacyOption : Type 0 where
  key : Bytes → LegacyOption
  address_of : Text → LegacyOption
  port_of : ℤ → LegacyOption

unfoldable pub apply_legacy_option : LegacyClient → LegacyOption → LegacyClient
apply_legacy_option c (key value) = record c { crypto_key = value }
apply_legacy_option c (address_of value) = record c { address = value }
apply_legacy_option c (port_of value) = record c { port = value }

unfoldable pub apply_legacy_options : LegacyClient → List LegacyOption → LegacyClient
unfolding apply_legacy_option
apply_legacy_options c [] = c
apply_legacy_options c (o ∷ opts) = apply_legacy_options (apply_legacy_option c o) opts

-- NewRpcClient
unfoldable pub new_legacy_client : List LegacyOption → LegacyClient
unfolding apply_legacy_options
new_legacy_client opts =
    apply_legacy_options
      (record {
        address = codes "127.0.0.1";
        port = pos 2233;
        crypto_key = [];
        cl = none;
        dialed = 0;
      })
      opts

pub data LegacyEvent : Type 0 where
  dialled closed sent : ℕ → LegacyEvent

pub data LegacyObtained : Type 0 where
  connected : ℕ → LegacyObtained
  failed : GoError → LegacyObtained

abbrev pub LegacyStep : Type 0
LegacyStep = Option GoError × LegacyClient × List LegacyEvent

-- getClient
unfoldable pub get_legacy_client :
    LegacyClient → Attempt → LegacyObtained × LegacyClient × List LegacyEvent
get_legacy_client c a = elim c.cl [
  | some conn ↦ (connected conn, c, [])
  | none ↦ elim a.dial [
    | some e ↦ (failed e, c, [])
    | none ↦
        let taken : LegacyClient = record c { dialed = suc c.dialed } in
        elim a.codec [
          | some e ↦ (failed e, taken, dialled c.dialed ∷ closed c.dialed ∷ [])
          | none ↦ (connected c.dialed, record taken { cl = some c.dialed }, dialled c.dialed ∷ [])
        ]
  ]
]

-- invalidate
unfoldable pub invalidate_legacy : LegacyClient → LegacyClient × List LegacyEvent
invalidate_legacy c = elim c.cl [
  | none ↦ (c, [])
  | some conn ↦ (record c { cl = none }, closed conn ∷ [])
]

-- Call, after the middlewares
unfoldable pub call_legacy : LegacyClient → Environment → LegacyStep
unfolding get_legacy_client invalidate_legacy
call_legacy c env = elim env.started [
  | some e ↦ (some e, c, [])
  | none ↦
      let (got, c', es) = get_legacy_client c env.first in
      elim got [
        | failed e ↦ (some e, c', es)
        | connected conn ↦ elim env.first.reply [
          | none ↦ (env.first.done, c', es ++ sent conn ∷ [])
          | some e ↦ let (c'', fs) = invalidate_legacy c' in (some e, c'', es ++ sent conn ∷ fs)
        ]
      ]
]

-- Close, for the error of closing the connection
unfoldable pub close_legacy : LegacyClient → Option GoError → LegacyStep
close_legacy c e = elim c.cl [
  | none ↦ (none, c, [])
  | some conn ↦ (e, record c { cl = none }, closed conn ∷ [])
]
