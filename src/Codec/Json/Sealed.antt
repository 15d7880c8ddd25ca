-- ===== src/Codec/Json/Sealed.antt =====
-- A request or a response over the crypto JSON codecs of v3/codec (json_crypto_codec.go): a header
-- as a JSON line, and behind it an encrypted body.
use rpc.Base.{
  ◌+◌, ◌≤◌, ◌≡◌, refl, sym, ap, ◌∙◌, Bytes, [], ◌∷◌, ◌++◌, length, Result, ok, Option, none, some,
  is_some, arith, inl, append_assoc,
}
use mathlib.Core.Path.{ap₂}
use rpc.Base.Int.{ℤ}
use rpc.Errors.{GoError}
use rpc.Codec.Stream.{Conn, flatten, effective_max_body}
use rpc.Codec.Stream.Budget.{stream}
use rpc.Codec.Crypto.{Aead}
use rpc.Codec.Crypto.Laws.{Opens}
use rpc.Codec.Output.{OutputCodec, fresh_codec, BlobWriter, write_crypto_body}
use rpc.Codec.Body.{BlobReader}
use rpc.Codec.Body.Chunks.{IsBlob, read_body-IsRead}
use rpc.Codec.Json.{
  Target, to_header, JsonDecoder, JsonCodec, read_crypto_message, sealed, header, body,
  read_message, read_messages, new_json_reader,
}
use rpc.Codec.Json.Values.{line, IsJson}
use rpc.Codec.Json.Delivery.{Item, length-separator, Awaits, read_message-Gets}
use rpc.Codec.Json.Requests.{Side, write_message, write_message-IsDelivered}

-- Decoder.Buffered: what was read and not yet returned.
abbrev pub Buffers : {S B V : Type 0} → JsonDecoder S B V → (S → Bytes → Type 0) → Type 0
Buffers {S} d Holds = (s : S) (buf : Bytes) → Holds s buf → d.buffered s ≡ buf

module _ {S B V : Type 0} {d : JsonDecoder S B V} {Holds : S → Bytes → Type 0}
    {Encodes : Target B → V → Bytes → Type 0} (json : IsJson d Holds Encodes)
    (buffers : Buffers d Holds) {frame : Bytes → Bytes} {w : BlobWriter} {blobs : BlobReader}
    (gob : IsBlob frame w blobs) (crypto : Aead) (opens : Opens crypto)
    (unmarshal : Option B → Bytes → Result GoError V) where
  -- A header and a body that were read, with no more than what followed them left to read.
  pub record Received (b : Option B) (head value : V) (c : JsonCodec S) (rest : Bytes)
      : Type 0 where
    pub codec : JsonCodec S
    pub returned :
        read_messages d (sealed blobs crypto unmarshal) (header ∷ body b ∷ []) c
        ≡ some (ok head ∷ ok value ∷ [], codec)
    pub unread : length (codec.front ++ stream codec.budget) ≤ length rest

  module _ (nonce plaintext : Bytes) (sized : length nonce ≡ crypto.nonce_size) where
    received :
        (b : Option B) (head value : V) (text sent rest : Bytes) (c : JsonCodec S)
        → Encodes to_header head text
        → unmarshal b plaintext ≡ ok value
        → write_crypto_body w crypto (ok nonce) (ok plaintext) ≡ (sent, none)
        → c.front ≡ []
        → Awaits json c (line text ++ (sent ++ rest))
        → length text + 2 ≤ c.max_body
        → length sent + 1 ≤ c.max_body
        → Received b head value c rest
    unfolding read_messages read_message read_crypto_message
    received b head value text sent rest c e u h f a l l' =
        let i : Item B V = record { reading = header; value = head; text = text } in
        let k = read_message-Gets json i (sent ++ rest) c a (e, l) in
        let c₁ = k.codec in
        let whole : d.buffered c₁.decoder ++ stream c₁.budget ≡ k.awaits.sep ++ (sent ++ rest) =
          ap₂ (λ x y. x ++ (y ++ stream c₁.budget)) (buffers c₁.decoder k.awaits.buf k.awaits.holds)
            (sym (k.drained f))
          ∙ k.awaits.next in
        let r =
          read_body-IsRead gob crypto opens nonce plaintext sized (unmarshal b) (is_some b) value
            c₁.max_body sent k.awaits.sep (d.buffered c₁.decoder) rest c₁.budget u h
            k.awaits.separates whole
            (omega (arith, l', k.kept, length-separator k.awaits.sep k.awaits.separates)) in
        let c₂ : JsonCodec S = record c₁ {
          decoder = d.fresh;
          front = r.pending;
          budget = r.budget;
        } in
        let p : read_message d (sealed blobs crypto unmarshal) header c ≡ some (ok head, c₁) =
          k.returned in
        let q : read_message d (sealed blobs crypto unmarshal) (body b) c₁ ≡ some (ok value, c₂) =
          rw (r.returned, read_crypto_message) refl in
        record {
          codec = c₂;
          returned = rw (p, read_messages) (rw (q, read_messages) refl);
          unread = r.unread;
        }

    -- A request (or a response) that a new crypto codec wrote without an error is read by a new
    -- codec at the other end: the header's value and the body's, if each fits into the reader's
    -- limit with the newlines around it, however the connection cuts the stream; and nothing is
    -- left to read if nothing follows.
    pub read_messages-write_message :
        (side : Side) (b : Option B) (head value : V) (text sent : Bytes)
        (flushing : Option GoError) (c' : OutputCodec) (conn : Conn) (limit : ℤ) (rest : Bytes)
        → Encodes to_header head text
        → unmarshal b plaintext ≡ ok value
        → write_crypto_body w crypto (ok nonce) (ok plaintext) ≡ (sent, none)
        → write_message side (line text, none) (sent, none) flushing fresh_codec ≡ (none, c')
        → flatten conn.chunks ≡ c'.sent ++ rest
        → length text + 2 ≤ effective_max_body limit
        → length sent + 1 ≤ effective_max_body limit
        → Received b head value (new_json_reader d conn limit) rest
    unfolding new_json_reader
    read_messages-write_message side b head value text sent flushing c' conn limit rest e u h w e' l
          l' =
        let o =
          write_message-IsDelivered side (line text, none) (sent, none) flushing fresh_codec c' w in
        received b head value text sent rest (new_json_reader d conn limit) e u h refl
          (record {
            buf = [];
            sep = [];
            holds = json.starts;
            separates = inl refl;
            next = e' ∙ ap (λ x. x ++ rest) o.flushed ∙ append_assoc (line text) sent rest;
          })
          l l'
