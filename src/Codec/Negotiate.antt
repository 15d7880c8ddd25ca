-- ===== src/Codec/Negotiate.antt =====
-- v3/codec/negotiate.go: the server chooses the codec of a connection by its first two bytes; and
-- the factories of v2/codec/codec_factory.go that it falls back on, with those of v1.
pub mod Laws
use rpc.Base.{
  ℕ, ◌-◌, Bytes, Bool, true, false, ◌||◌, Option, none, some, List, [], ◌∷◌, ◌++◌, ◌==◌, ltb, leb,
  if◌then◌else◌, length, take, drop, codes, Result, ok, err, ◌>>=◌,
}
use rpc.Base.Int.{ℤ}
use rpc.Errors.{GoError, wrap, eof, is_error}
use rpc.Codec.Stream.{Conn, effective_max_body}
use rpc.Codec.Crypto.{Aead, Primitives, new_crypto}

-- isJSONStream
unfoldable pub is_json_stream : Bytes → Bool
is_json_stream [] = false
is_json_stream (a ∷ []) = a == b'{'
is_json_stream (a ∷ b ∷ rest) =
    if a == b'{' then b == b'"' || b == b' ' || b == b'\t' || b == b'\n' || b == b'\r' else false

-- prefixConn: the bytes that the bufio.Reader holds, in front of the connection.
pub record PrefixConn : Type 0 where
  pub buffer : Bytes
  pub conn : Conn

-- The size of a bufio.Reader's buffer.
abbrev pub buffer_size : ℕ
buffer_size = 4096

-- bufio.Reader.Peek(n) for n up to the buffer's size, with the bytes buffered so far: one fill
-- after the other until there are n bytes, or the connection ends. A fill that still leaves too
-- few bytes has taken its chunk whole.
unfoldable pub peek : ℕ → Bytes → List Bytes → Bytes × List Bytes
peek n buffer [] = (buffer, [])
peek n buffer (c ∷ cs) =
    let room = buffer_size - length buffer in
    let filled = buffer ++ take room c in
    let more = peek n filled cs in
    if leb n (length buffer)
    then (buffer, c ∷ cs)
    else if leb n (length filled)
    then (filled, drop room c ∷ cs)
    else more

-- sniffServerConn
unfoldable pub sniff_server_conn : Conn → Result GoError (PrefixConn × Bool)
sniff_server_conn conn =
    let (buffer, cs) = peek 2 [] conn.chunks in
    let sniffed : PrefixConn = record {
      buffer = buffer;
      conn = record { chunks = cs; ends = conn.ends };
    } in
    elim buffer [
      | [] ↦
          if is_error conn.ends eof
          then ok (sniffed, false)
          else err (wrap (codes "rpc: sniff peek: ") conn.ends)
      | b ∷ bs ↦ ok (sniffed, is_json_stream (take 2 (b ∷ bs)))
    ]

-- The codecs, by what they are made of.
pub data Codec : Type 0 where
  gob : Codec
  gob_crypto : Aead → Codec
  json : ℕ → Codec
  json_crypto : Aead → ℕ → Codec

-- What a factory of v1 does.
pub data Got : Type 0 where
  panics : GoError → Got
  returns : Codec → Got

module _ {Block : Type 0} (p : Primitives Block) where
  -- NewServerCodec and NewClientCodec of v2
  unfoldable pub new_codec_v2 : Bytes → Result GoError Codec
  new_codec_v2 key =
      if ltb 0 (length key) then (new_crypto p key >>= λ c. ok (gob_crypto c)) else ok gob

  -- GetServerCodec and GetClientCodec of v1, which panic where there is no codec
  unfoldable pub get_codec_v1 : Bytes → Got
  unfolding new_codec_v2
  get_codec_v1 key = elim (new_codec_v2 key) [ err e ↦ panics e | ok codec ↦ returns codec ]

  -- newJSON*Codec and newJSONCrypto*Codec, by the key
  unfoldable pub new_json_codec : Bytes → ℤ → Result GoError Codec
  new_json_codec key max_body =
      if ltb 0 (length key)
      then (new_crypto p key >>= λ c. ok (json_crypto c (effective_max_body max_body)))
      else ok (json (effective_max_body max_body))

  -- NewServerCodecV3
  unfoldable pub new_server_codec_v3 : Conn → Bytes → ℤ → Result GoError (PrefixConn × Codec)
  new_server_codec_v3 conn key max_body = sniff_server_conn conn >>= λ s.
      (if s.1 then new_json_codec key max_body else new_codec_v2 key) >>= λ codec. ok (s.0, codec)

  -- NewClientCodecV3
  unfoldable pub new_client_codec_v3 : Bytes → ℤ → Bool → Result GoError Codec
  new_client_codec_v3 key max_body json_transport =
      if json_transport then new_json_codec key max_body else new_codec_v2 key
