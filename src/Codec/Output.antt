-- ===== src/Codec/Output.antt =====
-- The writing side and Close of the JSON codecs of v3/codec. What an encoder does to the
-- bufio.Writer is an argument: the bytes it wrote, and its error. Bytes accepted by the
-- bufio.Writer are `pending` until a Flush succeeds; how much of them a failed Flush has sent is
-- not modelled.
pub mod Laws
use rpc.Base.{
  ℕ, suc, Text, Bytes, Bool, true, false, Option, none, some, List, [], ◌∷◌, ◌++◌, if◌then◌else◌,
  codes, Result, ok, err,
}
use rpc.Errors.{GoError, wrap}
use rpc.Codec.Crypto.{Aead, encrypt}

-- What a writer wrote before it returned, and its error.
abbrev pub Written : Type 0
Written = Bytes × Option GoError

pub record OutputCodec : Type 0 where
  pub closed : Bool
  pub pending : Bytes
  pub sent : Bytes
  pub closes : ℕ

-- A codec on a new connection.
abbrev pub fresh_codec : OutputCodec
fresh_codec = record { closed = false; pending = []; sent = []; closes = 0 }

unfoldable pub put : Bytes → OutputCodec → OutputCodec
put bytes c = record c { pending = c.pending ++ bytes }

-- encBuf.Flush
unfoldable pub flush : Option GoError → OutputCodec → Option GoError × OutputCodec
flush (some e) c = (some e, c)
flush none c = (none, record c { pending = []; sent = c.sent ++ c.pending })

-- Close, for the outcome of rwc.Close
unfoldable pub close_codec : Option GoError → OutputCodec → Option GoError × OutputCodec
close_codec closing c =
    if c.closed then (none, c) else (closing, record c { closed = true; closes = suc c.closes })

-- A failed encoding of a response: where the Flush succeeds, the codec is closed.
unfoldable pub give_up :
    GoError → Option GoError → Option GoError → OutputCodec → Option GoError × OutputCodec
unfolding flush close_codec
give_up e flushing closing c =
    let (failed, c') = flush flushing c in
    elim failed [ none ↦ (some e, (close_codec closing c').1) | some f ↦ (some e, c') ]

-- WriteResponse of the server codecs: header, body, Flush
unfoldable pub write_response :
    Written → Written → Option GoError → Option GoError → OutputCodec → Option GoError × OutputCodec
unfolding put
write_response header body flushing closing c = elim header.1 [
  | some e ↦ give_up e flushing closing (put header.0 c)
  | none ↦ elim body.1 [
    | some e ↦ give_up e flushing closing (put body.0 (put header.0 c))
    | none ↦ flush flushing (put body.0 (put header.0 c))
  ]
]

-- WriteRequest of the client codecs
unfoldable pub write_request :
    Written → Written → Option GoError → OutputCodec → Option GoError × OutputCodec
unfolding put
write_request header body flushing c = elim header.1 [
  | some e ↦ (some e, put header.0 c)
  | none ↦ elim body.1 [
    | some e ↦ (some e, put body.0 (put header.0 c))
    | none ↦ flush flushing (put body.0 (put header.0 c))
  ]
]

-- magicPrefix
abbrev pub magic_prefix : Bytes
magic_prefix = codes "CRYPT"

-- encBuf.Write and gob.Encoder.Encode of a byte slice.
pub record BlobWriter : Type 0 where
  pub write : Bytes → Written
  pub encode : Bytes → Written

-- writeCryptoBody, for the outcomes of json.Marshal and rand.Read
unfoldable pub write_crypto_body :
    BlobWriter → Aead → Result GoError Bytes → Result GoError Bytes → Written
write_crypto_body w crypto nonce (err e) = ([], some (wrap (codes "rpc: json body marshal: ") e))
write_crypto_body w crypto nonce (ok plaintext) = elim (encrypt crypto nonce plaintext) [
  | err e ↦ ([], some e)
  | ok encrypted ↦
      let (prefix, failed) = w.write magic_prefix in
      elim failed [
        | some e ↦ (prefix, some (wrap (codes "rpc: crypto prefix write: ") e))
        | none ↦
            let (blob, broken) = w.encode encrypted in
            elim broken [
              | some e ↦ (prefix ++ blob, some (wrap (codes "rpc: crypto blob encode: ") e))
              | none ↦ (prefix ++ blob, none)
            ]
      ]
]

-- The operations of a codec that write or close, with their outcomes.
pub data Operation : Type 0 where
  write_request_with : Written → Written → Option GoError → Operation
  write_response_with : Written → Written → Option GoError → Option GoError → Operation
  close_with : Option GoError → Operation

unfoldable pub operate : Operation → OutputCodec → Option GoError × OutputCodec
operate (write_request_with header body flushing) c = write_request header body flushing c
operate (write_response_with header body flushing e) c = write_response header body flushing e c
operate (close_with e) c = close_codec e c

unfoldable pub run_operations : List Operation → OutputCodec → OutputCodec
run_operations [] c = c
run_operations (o ∷ os) c = run_operations os (operate o c).1
