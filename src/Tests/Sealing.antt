-- ===== src/Tests/Sealing.antt =====
-- A response over the crypto JSON codecs, through toy encoders and decoders: a header is its length
-- and its bytes with a newline behind them, a blob its length and its bytes.
use rpc.Base.{
  ℕ, ◌-◌, codes, ◌≤◌, ◌<◌, ◌≡◌, refl, ap, Bytes, Option, none, some, [], ◌∷◌, ◌++◌, leb, length,
  Result, ok, arith, ◌⊎◌, inl, inr, Bool-cases,
}
use rpc.Base.Int.{pos, is_positive}
use rpc.Errors.{GoError, sentinel, eof}
use rpc.Codec.Stream.{Conn, flatten, effective_max_body}
use rpc.Codec.Crypto.{encrypt}
use rpc.Codec.Output.{OutputCodec, fresh_codec, write_response, write_crypto_body, put, flush}
use rpc.Codec.Body.{more, decoded}
use rpc.Codec.Body.Chunks.{IsBlob}
use rpc.Codec.Json.{new_json_reader}
use rpc.Codec.Json.Values.{line}
use rpc.Codec.Json.Requests.{server}
use rpc.Codec.Json.Sealed.{Buffers, Received, read_messages-write_message}
use rpc.Tests.Ciphering.{toy_gcm, toy-Opens, toy_writer, frame}
use rpc.Tests.Reading.{exact, exact_step}
use rpc.Tests.Exchanging.{toy_lines, Holds, toy_lines-IsJson, front_of}

toy_lines-Buffers : Buffers toy_lines Holds
toy_lines-Buffers s buf h = ap (λ z. z.held) h

exact-IsBlob : IsBlob frame toy_writer exact
exact-IsBlob = record { writes = λ bytes. refl; encodes = λ blob. refl; steps = exact_steps }
  where
    exact_steps :
        (blob got left rest : Bytes)
        → got ++ left ≡ frame blob ++ rest
        → ((n : ℕ) × (exact_step got ≡ more n) × (length got < length (frame blob)))
          ⊎ ((exact_step got ≡ decoded blob) × (length (frame blob) ≤ length got))
    exact_steps blob [] left rest q = inl (0, refl, omega arith)
    exact_steps blob (n ∷ bytes) left rest q =
        let e : n ≡ length blob = cc q in
        let b : bytes ++ left ≡ blob ++ rest = cc q in
        elim (Bool-cases (leb n (length bytes))) [
          | inl t ↦
              let (f, l) = front_of blob bytes left rest b (ground (arith, t, e)) in
              inr (ground (arith, t, e, f), ground (arith, t, e))
          | inr t ↦ inl (n - length bytes - 1, ground (arith, t), ground (arith, t, e))
        ]

-- A body of one byte, in chunks that cut the prefix and the blob.
abbrev sealed_bytes : Bytes
sealed_bytes = codes "CRYPT" ++ (5 ∷ 1 ∷ 2 ∷ 3 ∷ 0 ∷ 42 ∷ [])

sealed_bytes_lem :
    write_crypto_body toy_writer toy_gcm (ok (1 ∷ 2 ∷ 3 ∷ [])) (ok (42 ∷ [])) ≡ (sealed_bytes, none)
unfolding write_crypto_body encrypt
sealed_bytes_lem = refl

abbrev response_out : OutputCodec
response_out = record fresh_codec { sent = 2 ∷ 7 ∷ 8 ∷ 10 ∷ sealed_bytes }

response_sent :
    write_response (line (2 ∷ 7 ∷ 8 ∷ []), none) (sealed_bytes, none) none none fresh_codec
    ≡ (none, response_out)
unfolding write_response put flush
response_sent = refl

abbrev in_pieces : Conn
in_pieces = record {
  chunks =
      (2 ∷ 7 ∷ [])
      ∷ (8 ∷ 10 ∷ codes "CR")
      ∷ codes "YPT"
      ∷ (5 ∷ 1 ∷ 2 ∷ [])
      ∷ []
      ∷ (3 ∷ 0 ∷ 42 ∷ [])
      ∷ [];
  ends = sentinel eof;
}

abbrev unmarshal : Option ℕ → Bytes → Result GoError Bytes
unmarshal b bytes = ok bytes

read_messages-write_message_example :
    Received toy_lines-IsJson toy_lines-Buffers exact-IsBlob toy_gcm toy-Opens unmarshal
      (some 0)
      (7 ∷ 8 ∷ [])
      (42 ∷ [])
      (new_json_reader toy_lines in_pieces (pos 12))
      []
unfolding effective_max_body is_positive flatten
read_messages-write_message_example =
    read_messages-write_message toy_lines-IsJson toy_lines-Buffers exact-IsBlob toy_gcm toy-Opens
      unmarshal (1 ∷ 2 ∷ 3 ∷ []) (42 ∷ []) refl (server none) (some 0) (7 ∷ 8 ∷ []) (42 ∷ [])
      (2 ∷ 7 ∷ 8 ∷ []) sealed_bytes none response_out in_pieces (pos 12) [] (refl, omega arith) refl
      sealed_bytes_lem response_sent refl (omega arith) (omega arith)
