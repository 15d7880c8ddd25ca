-- ===== src/Tests/Reading.antt =====
-- Headers and bodies read through a toy json.Decoder: a value is its length and its bytes, and a
-- Read asks for four bytes more than the decoder has buffered.
use rpc.Base.{
  ℕ, ◌+◌, ◌-◌, ◌*◌, ◌≡◌, refl, Bytes, Option, none, some, List, [], ◌∷◌, ◌++◌, leb, if◌then◌else◌,
  length, take, drop, codes, Result, ok, err,
}
use rpc.Base.Int.{pos, is_positive}
use rpc.Errors.{GoError, sentinel, eof, body_too_large, wrap}
use rpc.Codec.Stream.{Conn, effective_max_body, reset_budget, budget_read, clip, read_chunks}
use rpc.Codec.Crypto.{decrypt}
use rpc.Codec.Body.{
  BlobStep, more, decoded, BlobReader, read_body, read_crypto_body, read_magic, match_byte,
  is_separator, source_read, decode_blob, decode_crypto_body,
}
use rpc.Codec.Json.{
  JsonStep, reads, returns, JsonDecoder, JsonCodec, new_json_reader, multi_read, decode, read_json,
  read_json_header, read_json_body, read_crypto_message, Framing, plain, sealed, Reading, header,
  body, read_message, read_messages,
}
use rpc.Codec.Json.Decoding.{Stops}
use rpc.Codec.Json.Session.{Limited, read_messages-Limited}
use rpc.Tests.Ciphering.{toy_gcm}

pub record ToyState : Type 0 where
  pub held : Bytes
  pub broken : Option GoError

abbrev pub value : Bytes → JsonStep ToyState Bytes
value [] = reads 3
value (n ∷ bytes) =
    if leb n (length bytes)
    then returns (ok (take n bytes)) (record { held = drop n bytes; broken = none })
    else reads (length bytes + 4)

abbrev next : ToyState → JsonStep ToyState Bytes
next s = elim s.broken [ some e ↦ returns (err e) s | none ↦ value s.held ]

abbrev pub fed : ToyState → Result GoError Bytes → ToyState
fed s (ok bytes) = record s { held = s.held ++ bytes }
fed s (err e) = record s { broken = some e }

abbrev toy_json : JsonDecoder ToyState ℕ Bytes
toy_json = record {
  fresh = record { held = []; broken = none };
  step = λ t s. next s;
  feed = λ s r. fed s r;
  buffered = λ s. s.held;
}

toy_json-Stops : Stops toy_json
toy_json-Stops t s e = (err e, record s { broken = some e }, refl)

abbrev one_chunk : Bytes → Conn
one_chunk bytes = record { chunks = bytes ∷ []; ends = sentinel eof }

abbrev small : JsonCodec ToyState
small = new_json_reader toy_json (one_chunk (2 ∷ 7 ∷ 8 ∷ 1 ∷ 9 ∷ 99 ∷ codes "far too long")) (pos 6)

abbrev order : List (Reading ℕ)
order = header ∷ body (some 0) ∷ header ∷ header ∷ []

read_messages-Limited_example :
    Limited (length order * small.max_body) small (read_messages toy_json plain order small)
read_messages-Limited_example = read_messages-Limited toy_json toy_json-Stops plain order small

abbrev outcomes :
    Option (List (Result GoError Bytes) × JsonCodec ToyState) → List (Result GoError Bytes)
outcomes none = []
outcomes (some (rs, c)) = rs

-- A value that is longer than the limit ends the session, since the error stays.
too_long :
    outcomes (read_messages toy_json plain order small)
    ≡ ok (7 ∷ 8 ∷ [])
      ∷ ok (9 ∷ [])
      ∷ err (sentinel body_too_large)
      ∷ err (sentinel body_too_large)
      ∷ []
unfolding read_messages new_json_reader effective_max_body read_message read_json_header
    read_json_body read_json decode multi_read reset_budget budget_read clip read_chunks is_positive
too_long = refl

abbrev pub exact_step : Bytes → BlobStep
exact_step [] = more 0
exact_step (n ∷ bytes) =
    if leb n (length bytes) then decoded (take n bytes) else more (n - length bytes - 1)

abbrev pub exact : BlobReader
exact = record { step = exact_step; cut = λ got e. e }

abbrev encrypted : Framing ℕ Bytes
encrypted = sealed exact toy_gcm (λ b bytes. ok bytes)

abbrev long_header : Bytes
long_header = codes "twenty-nine bytes of a header"

abbrev sealed_body : Bytes
sealed_body = codes "CRYPT" ++ (5 ∷ 1 ∷ 2 ∷ 3 ∷ 0 ∷ 42 ∷ [])

abbrev pipeline : Bytes
pipeline = (29 ∷ long_header) ++ (sealed_body ++ ((1 ∷ 8 ∷ []) ++ sealed_body))

abbrev calls : List (Reading ℕ)
calls = header ∷ body (some 0) ∷ header ∷ body (some 0) ∷ []

-- The second body is lost with the old decoder, which had it before it to Read, though this gob
-- decoder takes no byte too many.
stranded :
    outcomes (
      read_messages toy_json encrypted calls
        (new_json_reader toy_json (one_chunk pipeline) (pos 99)))
    ≡ ok long_header
      ∷ ok (42 ∷ [])
      ∷ ok (8 ∷ [])
      ∷ err (wrap (codes "rpc: crypto prefix read: ") (sentinel eof))
      ∷ []
unfolding read_messages new_json_reader effective_max_body read_message read_json_header
    read_crypto_message read_body read_crypto_body read_magic match_byte is_separator source_read
    decode_blob decode_crypto_body decrypt read_json decode multi_read reset_budget budget_read clip
    read_chunks is_positive
stranded = refl
