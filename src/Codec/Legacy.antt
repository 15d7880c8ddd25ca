-- ===== src/Codec/Legacy.antt =====
-- The legacy codecs of v2/codec: gob (server_gob_codec.go, client_gob_codec.go) and gob with an
-- encrypted body (server_crypto_codec.go, client_crypto_codec.go). encoding/gob is a parameter. A
-- codec here keeps the bytes still to come in one list; Streams has the crypto codecs over the
-- chunks of a connection. crypto/rand.Read does not fail in the Go version that the modules name.
pub mod Channel
pub mod Open
pub mod Frames
pub mod Pipeline
pub mod Streams
pub mod Responses
pub mod Exchange
pub mod Versions
use rpc.Base.{
  ℕ, suc, Text, Bytes, Bool, true, false, ◌&&◌, not, Option, none, some, List, [], ◌∷◌, ◌++◌, ◌==◌,
  ltb, if◌then◌else◌, length, take, drop, codes, Result, ok, err,
}
use rpc.Errors.{GoError, sentinel, invalid_prefix, wrap}
use rpc.Codec.Crypto.{Aead, encrypt, decrypt}
use rpc.Codec.Output.{
  Written, OutputCodec, put, flush, close_codec, write_response, write_request, magic_prefix,
}

-- slicesEqual
unfoldable pub slices_equal : Bytes → Bytes → Bool
slices_equal [] [] = true
slices_equal (x ∷ xs) (y ∷ ys) = (x == y) && slices_equal xs ys
slices_equal _ _ = false

-- gob.Encoder and gob.Decoder with their states: headers and bodies of one stream. A decoder
-- returns what is left of the bytes.
pub record Gob (E D H B : Type 0) : Type 0 where
  pub encode_header : E → H → Written × E
  pub encode_body : E → B → Written × E
  pub decode_header : D → Bytes → Result GoError H × D × Bytes
  pub decode_body : D → Bytes → Result GoError B × D × Bytes

-- gob.NewEncoder(&buffer).Encode and gob.NewDecoder(buffer).Decode of one value.
pub record Marshaller (V : Type 0) : Type 0 where
  pub marshal : V → Result GoError Bytes
  pub unmarshal : Bytes → Result GoError V

-- A codec: the encoder with what it writes to, the decoder, and the bytes to come with the error
-- behind them.
pub record LegacyCodec (E D : Type 0) : Type 0 where
  pub output : OutputCodec
  pub encoder : E
  pub decoder : D
  pub incoming : Bytes
  pub ends : GoError

module _ {E D H B : Type 0} (g : Gob E D H B) where
  abbrev Codec : Type 0
  Codec = LegacyCodec E D

  -- ReadRequestHeader of the gob and of the crypto server codec
  unfoldable pub read_header : Codec → Result GoError H × Codec
  read_header c =
      let (r, d, rest) = g.decode_header c.decoder c.incoming in
      (r, record c { decoder = d; incoming = rest })

  -- gobServerCodec.ReadRequestBody
  unfoldable pub read_gob_body : Codec → Result GoError B × Codec
  read_gob_body c =
      let (r, d, rest) = g.decode_body c.decoder c.incoming in
      (r, record c { decoder = d; incoming = rest })

  -- The encoder after a header and, if that was encoded, a body.
  encoder_after : E → H → B → E
  encoder_after e h b =
      let (w, e') = g.encode_header e h in elim w.1 [ some x ↦ e' | none ↦ (g.encode_body e' b).1 ]

  -- gobServerCodec.WriteResponse
  unfoldable pub write_gob_response :
      H → B → Option GoError → Option GoError → Codec → Option GoError × Codec
  unfolding encoder_after
  write_gob_response h b flushing closing c =
      let (w, e') = g.encode_header c.encoder h in
      let (r, out) = write_response w (g.encode_body e' b).0 flushing closing c.output in
      (r, record c { output = out; encoder = encoder_after c.encoder h b })

  -- gobClientCodec.WriteRequest
  unfoldable pub write_gob_request : H → B → Option GoError → Codec → Option GoError × Codec
  unfolding encoder_after
  write_gob_request h b flushing c =
      let (w, e') = g.encode_header c.encoder h in
      let (r, out) = write_request w (g.encode_body e' b).0 flushing c.output in
      (r, record c { output = out; encoder = encoder_after c.encoder h b })

-- Encrypt, for the nonce that randBytes returns
unfoldable pub encrypt_with : Aead → Bytes → Bytes → Bytes
encrypt_with crypto nonce plaintext = nonce ++ crypto.seal nonce plaintext

module _ {V : Type 0} (m : Marshaller V) (crypto : Aead) where
  -- ReadRequestBody and ReadResponseBody of the crypto codecs from the decoded bytes on. The two
  -- differ in the texts `decoding` and `decrypting` of their errors.
  unseal_body : Text → Text → Result GoError Bytes → Result GoError V
  unseal_body decoding decrypting (err e) = err (wrap decoding e)
  unseal_body decoding decrypting (ok bytes) = elim (decrypt crypto bytes) [
    | err e ↦ err (wrap decrypting e)
    | ok plaintext ↦ elim (m.unmarshal plaintext) [
      | err e ↦ err (wrap (codes "decrypted body decoding error") e)
      | ok v ↦ ok v
    ]
  ]

module _ {E D H V : Type 0} (g : Gob E D H Bytes) (m : Marshaller V) (crypto : Aead) where
  -- From the encoded body on: header, prefix, encrypted body, Flush. `write` is bufio.Writer's
  -- Write.
  write_frames :
      (Bytes → Written)
      → H
      → Bytes
      → Option GoError
      → LegacyCodec E D
      → Option GoError × LegacyCodec E D
  unfolding put
  write_frames write h blob flushing c =
      let (head, e₁) = g.encode_header c.encoder h in
      let (body, e₂) = g.encode_body e₁ blob in
      let prefix = write magic_prefix in
      let out₁ = put head.0 c.output in
      let out₂ = put prefix.0 out₁ in
      let out₃ = put body.0 out₂ in
      let (r, out₄) = flush flushing out₃ in
      elim head.1 [
        | some e ↦ (some e, record c { output = out₁; encoder = e₁ })
        | none ↦ elim prefix.1 [
          | some e ↦ (some e, record c { output = out₂; encoder = e₁ })
          | none ↦ elim body.1 [
            | some e ↦ (some e, record c { output = out₃; encoder = e₂ })
            | none ↦ (r, record c { output = out₄; encoder = e₂ })
          ]
        ]
      ]

  -- cryptoClientCodec.WriteRequest, and writeResponse of the server codec
  unfoldable pub write_sealed :
      (Bytes → Written)
      → H
      → V
      → Bytes
      → Option GoError
      → LegacyCodec E D
      → Option GoError × LegacyCodec E D
  unfolding write_frames encrypt_with
  write_sealed write h v nonce flushing c = elim (m.marshal v) [
    | err e ↦ (some e, c)
    | ok plaintext ↦ write_frames write h (encrypt_with crypto nonce plaintext) flushing c
  ]

  -- cryptoServerCodec.WriteResponse
  unfoldable pub write_sealed_response :
      (Bytes → Written)
      → H
      → V
      → Bytes
      → Option GoError
      → Option GoError
      → LegacyCodec E D
      → Option GoError × LegacyCodec E D
  unfolding write_sealed
  write_sealed_response write h v nonce flushing closing c =
      let (r, c') = write_sealed write h v nonce flushing c in
      elim r [
        | none ↦ (none, c')
        | some e ↦ (some e, record c' { output = (close_codec closing c'.output).1 })
      ]

  -- ReadRequestBody and ReadResponseBody of the crypto codecs
  read_sealed : Text → Text → LegacyCodec E D → Result GoError V × LegacyCodec E D
  unfolding unseal_body
  read_sealed decoding decrypting c =
      let n = length magic_prefix in
      let (blob, d, rest) = g.decode_body c.decoder (drop n c.incoming) in
      if ltb (length c.incoming) n
      then (err (wrap (codes "prefix peeking error") c.ends), c)
      else if not (slices_equal (take n c.incoming) magic_prefix)
      then (err (wrap (codes "invalid magic number") (sentinel invalid_prefix)), c)
      else (
        unseal_body m crypto decoding decrypting blob,
        record c { decoder = d; incoming = rest },
      )

  -- cryptoServerCodec.ReadRequestBody
  unfoldable pub read_sealed_request : LegacyCodec E D → Result GoError V × LegacyCodec E D
  unfolding read_sealed slices_equal
  read_sealed_request =
      read_sealed (codes "request body decoding error") (codes "request body decrypt error")

  -- cryptoClientCodec.ReadResponseBody
  unfoldable pub read_sealed_response : LegacyCodec E D → Result GoError V × LegacyCodec E D
  unfolding read_sealed slices_equal
  read_sealed_response =
      read_sealed (codes "response body decoding error") (codes "response body decrypt error")

-- gobClientCodec.Close, which keeps no account of earlier calls
unfoldable pub close_gob_client :
    {E D : Type 0} → Option GoError → LegacyCodec E D → Option GoError × LegacyCodec E D
close_gob_client closing c =
    (closing, record c { output = record c.output { closes = suc c.output.closes } })
