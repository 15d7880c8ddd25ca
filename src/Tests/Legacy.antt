-- ===== src/Tests/Legacy.antt =====
-- The legacy codecs of v2/codec on a toy gob, which puts the number of the value before it.
use rpc.Base.{
  ℕ, suc, ◌+◌, Bytes, ◌≡◌, refl, sym, ap, none, List, [], ◌∷◌, ◌++◌, ◌==◌, leb, ◌&&◌, if◌then◌else◌,
  length, take, drop, codes, Result, ok, err, arith, length-append, take-append_length,
  drop-append_length,
}
use rpc.Errors.{GoError, sentinel, eof}
use rpc.Codec.Crypto.{decrypt}
use rpc.Codec.Output.{Written, fresh_codec, flush, write_request}
use rpc.Codec.Legacy.{
  write_gob_request, Gob, Marshaller, LegacyCodec, write_sealed, write_sealed_response,
  read_sealed_request, read_sealed_response, read_header,
}
use rpc.Codec.Legacy.Frames.{sealed_channel, Unmarshals, WritesAll}
use rpc.Codec.Legacy.Channel.{Message, Channel, write_requests, read_requests}
use rpc.Codec.Legacy.Open.{IsGob, open_channel}
use rpc.Codec.Legacy.Responses.{sealed_responses}
use rpc.Codec.Legacy.Exchange.{Link, session}
use rpc.Codec.Legacy.Exchange.Rounds.{Ready, Serves}
use rpc.Codec.Legacy.Versions.{
  v1, v2, crypto_requests, crypto_responses, gob_requests, gob_responses,
}
use rpc.Codec.Legacy.Versions.Calls.{crypto_calls-Serves, gob_calls-Serves}
use rpc.Tests.Ciphering.{toy_gcm, toy-Opens}

abbrev read_number : ℕ → Bytes → Result GoError ℕ × ℕ × Bytes
read_number d (x ∷ h ∷ rest) = if x == d then (ok h, suc d, rest) else (err (sentinel eof), d, rest)
read_number d bytes = (err (sentinel eof), d, [])

abbrev read_blob : ℕ → Bytes → Result GoError Bytes × ℕ × Bytes
read_blob d (x ∷ n ∷ rest) =
    if (x == d) && leb n (length rest)
    then (ok (take n rest), suc d, drop n rest)
    else (err (sentinel eof), d, rest)
read_blob d bytes = (err (sentinel eof), d, [])

abbrev toy_gob : Gob ℕ ℕ ℕ Bytes
toy_gob = record {
  encode_header = λ e h. ((e ∷ h ∷ [], none), suc e);
  encode_body = λ e b. ((e ∷ length b ∷ b, none), suc e);
  decode_header = λ d bytes. read_number d bytes;
  decode_body = λ d bytes. read_blob d bytes;
}

abbrev Same : ℕ → ℕ → Type 0
Same e d = e ≡ d

blob_read :
    (d : ℕ) (b rest : Bytes) → read_blob d (d ∷ length b ∷ (b ++ rest)) ≡ (ok b, suc d, rest)
blob_read d b rest =
    ground (arith, length-append b rest, take-append_length b rest, drop-append_length b rest)

toy_gob-IsGob : IsGob toy_gob Same
toy_gob-IsGob = record {
  header = λ e e' d h bytes rest s w.
      let p : e ∷ h ∷ [] ≡ bytes = ap (λ o. o.0.0) w in
      let q : suc e ≡ e' = ap (λ o. o.1) w in (e', rw (← p, ← s, ← q) (ground arith), refl);
  body = λ e e' d b bytes rest s w.
      let p : e ∷ length b ∷ b ≡ bytes = ap (λ o. o.0.0) w in
      let q : suc e ≡ e' = ap (λ o. o.1) w in (e', rw (← p, ← s, ← q) (blob_read e b rest), refl);
}

abbrev plain : Marshaller Bytes
plain = record { marshal = λ v. ok v; unmarshal = λ bytes. ok bytes }

plain-Unmarshals : Unmarshals plain
plain-Unmarshals v bytes e = sym e

abbrev to_buffer : Bytes → Written
to_buffer bytes = (bytes, none)

to_buffer-WritesAll : WritesAll to_buffer
to_buffer-WritesAll bytes written e = sym (ap (λ o. o.0) e)

abbrev fresh : LegacyCodec ℕ ℕ
fresh = record {
  output = fresh_codec;
  encoder = 0;
  decoder = 0;
  incoming = [];
  ends = sentinel eof;
}

abbrev requests : List (Message ℕ Bytes)
requests =
    record { header = 11; body = codes "one"; nonce = 1 ∷ 2 ∷ 3 ∷ []; flushing = none }
    ∷ record { header = 12; body = []; nonce = 4 ∷ 5 ∷ 6 ∷ []; flushing = none }
    ∷ []

abbrev crypto_codecs : Channel ℕ ℕ ℕ Bytes
crypto_codecs = sealed_channel toy_gob plain toy_gcm to_buffer

abbrev sealed_out : LegacyCodec ℕ ℕ
sealed_out = (write_requests crypto_codecs requests fresh).1

all_sealed : write_requests crypto_codecs requests fresh ≡ (none, sealed_out)
unfolding write_requests write_sealed flush
all_sealed = refl

abbrev open_out : LegacyCodec ℕ ℕ
open_out = (write_requests (open_channel toy_gob) requests fresh).1

all_open : write_requests (open_channel toy_gob) requests fresh ≡ (none, open_out)
unfolding write_requests write_gob_request write_request flush
all_open = refl

-- A server with a body that is not encrypted before it leaves it unread.
open_body :
    (read_sealed_request toy_gob plain toy_gcm
      (record fresh { incoming = codes "plain" })).1.incoming
    ≡ codes "plain"
unfolding read_sealed_request
open_body = refl

-- The server answers a request with its header plus 100 and a prefix to its body: a round of two
-- requests and a round of one.
abbrev answer : ℕ × Bytes → Message ℕ Bytes
answer (h, v) = record {
  header = h + 100;
  body = codes "re: " ++ v;
  nonce = 7 ∷ 8 ∷ 9 ∷ [];
  flushing = none;
}

abbrev two_rounds : List (List (Message ℕ Bytes))
two_rounds =
    requests
    ∷ (record { header = 13; body = codes "three"; nonce = 0 ∷ 0 ∷ 0 ∷ []; flushing = none } ∷ [])
    ∷ []

abbrev link : Link ℕ ℕ
link = record { client = fresh; server = fresh }

abbrev answered_crypto : Channel ℕ ℕ ℕ Bytes
answered_crypto = sealed_responses toy_gob plain toy_gcm to_buffer none

abbrev ready : Ready Same Same link
ready = record {
  to_server = record { emptied = refl; all_read = refl; synced = refl };
  to_client = record { emptied = refl; all_read = refl; synced = refl };
}

crypto_calls-Serves_example :
    Serves Same Same
      (crypto_requests toy_gob plain toy_gcm v1 v2 to_buffer)
      (crypto_responses toy_gob plain toy_gcm v2 v1 to_buffer none)
      answer
      two_rounds
      link
crypto_calls-Serves_example =
    crypto_calls-Serves v1 v2 toy_gcm toy_gob toy_gob plain plain to_buffer to_buffer none answer
      toy_gob-IsGob toy_gob-IsGob plain-Unmarshals plain-Unmarshals toy-Opens to_buffer-WritesAll
      to_buffer-WritesAll two_rounds link ready
      (((refl, refl), ((refl, refl), _)), (((refl, refl), _), _))

gob_calls-Serves_example :
    Serves Same Same
      (gob_requests toy_gob v2 v1)
      (gob_responses toy_gob v1 v2 none)
      answer
      two_rounds
      link
gob_calls-Serves_example =
    gob_calls-Serves v2 v1 toy_gob toy_gob none answer toy_gob-IsGob toy_gob-IsGob two_rounds link
      ready

three_replies :
    (session crypto_codecs answered_crypto answer two_rounds link).0
    ≡ ok
        (((111, codes "re: one") ∷ (112, codes "re: ") ∷ []) ∷ ((113, codes "re: three") ∷ []) ∷ [])
unfolding session write_requests read_requests write_sealed write_sealed_response
    read_sealed_request read_sealed_response flush read_header decrypt
three_replies = refl
