-- ===== src/Codec/Legacy/Exchange.antt =====
-- Calls over one connection with the codecs of v2/codec: a client codec writes requests in a row, a
-- server codec reads them, and writes as many responses, in the order of the requests, which the
-- client reads; one such round after the other. What go.slink.ws/rpc does with the requests is
-- `answer`.
pub mod Rounds
pub mod Crypto
use rpc.Base.{
  ◌≡◌, Bytes, Option, none, some, List, [], ◌∷◌, ◌++◌, map, length, drop, Result, ok, err,
}
use rpc.Errors.{GoError}
use rpc.Codec.Legacy.{LegacyCodec}
use rpc.Codec.Legacy.Channel.{Message, Channel, write_requests, read_requests}

-- Why a round ends before its end.
pub data Stopped : Type 0 where
  not_written not_read : GoError → Stopped

-- The connection: what a codec has sent from `before` to `after` is to come at the other end.
abbrev pub deliver :
    {E D : Type 0} → LegacyCodec E D → LegacyCodec E D → LegacyCodec E D → LegacyCodec E D
deliver before after other = record other {
  incoming = other.incoming ++ drop (length before.output.sent) after.output.sent;
}

-- Messages in a row, in one direction.
unfoldable pub pass :
    {E D H V : Type 0}
    → Channel E D H V
    → List (Message H V)
    → LegacyCodec E D
    → LegacyCodec E D
    → Result Stopped (List (H × V)) × LegacyCodec E D × LegacyCodec E D
pass ch msgs a b =
    let (failed, a') = write_requests ch msgs a in
    let (got, b') = read_requests ch (length msgs) (deliver a a' b) in
    elim failed [
      | some e ↦ (err (not_written e), a', deliver a a' b)
      | none ↦ elim got [ err e ↦ (err (not_read e), a', b') | ok contents ↦ (ok contents, a', b') ]
    ]

-- The two ends of a connection.
pub record Link (E D : Type 0) : Type 0 where
  pub client : LegacyCodec E D
  pub server : LegacyCodec E D

module _ {E D H V K W : Type 0} (requests : Channel E D H V) (responses : Channel E D K W)
    (answer : H × V → Message K W) where
  -- A round
  unfoldable pub exchange : List (Message H V) → Link E D → Result Stopped (List (K × W)) × Link E D
  unfolding pass
  exchange msgs l =
      let (got, c, s) = pass requests msgs l.client l.server in
      elim got [
        | err e ↦ (err e, record { client = c; server = s })
        | ok contents ↦
            let (replies, s', c') = pass responses (map answer contents) s c in
            (replies, record { client = c'; server = s' })
      ]

  -- Round after round, up to the first that stops.
  unfoldable pub session :
      List (List (Message H V)) → Link E D → Result Stopped (List (List (K × W))) × Link E D
  unfolding exchange
  session [] l = (ok [], l)
  session (msgs ∷ rounds) l =
      let (got, l') = exchange msgs l in
      let (more, l'') = session rounds l' in
      elim got [
        | err e ↦ (err e, l')
        | ok replies ↦ elim more [ err e ↦ (err e, l'') | ok rest ↦ (ok (replies ∷ rest), l'') ]
      ]
