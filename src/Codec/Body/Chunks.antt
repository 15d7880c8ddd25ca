-- ===== src/Codec/Body/Chunks.antt =====
-- ReadRequestBody of v3/codec/json_crypto_codec.go on an encrypted body that comes in any chunks.
use rpc.Base.{
  ℕ, zero, suc, ◌+◌, ◌≤◌, ◌<◌, ◌≡◌, refl, sym, ap, ◌∙◌, Bytes, [], ◌∷◌, ◌++◌, length, Result, ok,
  none, some, Option, arith, Bool, inl, inr, ◌⊎◌, append_assoc, length-append,
}
use rpc.Errors.{GoError}
use rpc.Codec.Stream.{BudgetReader, reset_budget}
use rpc.Codec.Stream.Budget.{stream}
use rpc.Codec.Crypto.{Aead, encrypt, decrypt}
use rpc.Codec.Crypto.Laws.{Opens, decrypt-encrypt}
use rpc.Codec.Output.{magic_prefix, BlobWriter, write_crypto_body}
use rpc.Codec.Body.{
  BodySource, source_read, more, decoded, BlobReader, decode_blob, decode_crypto_body, read_body,
}
use rpc.Codec.Body.RoundTrip.{read_steps}
use rpc.Codec.Body.Reads.{view, Sound, source_read-IsFed, separated-Behind}

-- What gob promises: Encode writes a frame; and a new Decoder, whatever it Reads at a time, asks for
-- more only while the frame of a blob is not there whole, and then returns the blob.
pub record IsBlob (frame : Bytes → Bytes) (w : BlobWriter) (d : BlobReader) : Type 0 where
  pub writes : (bytes : Bytes) → w.write bytes ≡ (bytes, none)
  pub encodes : (blob : Bytes) → w.encode blob ≡ (frame blob, none)
  pub steps :
      (blob got left rest : Bytes)
      → got ++ left ≡ frame blob ++ rest
      → ((n : ℕ) × (d.step got ≡ more n) × (length got < length (frame blob)))
        ⊎ ((d.step got ≡ decoded blob) × (length (frame blob) ≤ length got))

module _ {frame : Bytes → Bytes} {w : BlobWriter} {d : BlobReader} (gob : IsBlob frame w d) where
  record Decoded (blob rest : Bytes) (o : Option (Result GoError Bytes × BodySource)) : Type 0 where
    source : BodySource
    found : o ≡ some (ok blob, source)
    unread : length (view source) ≤ length rest

  decode_blob-Decoded :
      (fuel : ℕ) (blob got rest : Bytes) (s : BodySource)
      → Sound s
      → got ++ view s ≡ frame blob ++ rest
      → length (frame blob) ≤ length got + s.left
      → s.left ≤ fuel
      → Decoded blob rest (decode_blob d fuel got s)
  unfolding decode_blob
  decode_blob-Decoded zero blob got rest s k q l f = elim (gob.steps blob got (view s) rest q) [
    | inl (n, p, short) ↦ absurd (omega (arith, l, f, short))
    | inr (p, long) ↦ record {
      source = s;
      found = rw (p, decode_blob) refl;
      unread =
          omega
            (arith, ap length q, length-append got (view s), length-append (frame blob) rest, long);
    }
  ]
  decode_blob-Decoded (suc fuel) blob got rest s k q l f =
      elim (gob.steps blob got (view s) rest q) [
        | inr (p, long) ↦ record {
          source = s;
          found = rw (p, decode_blob) refl;
          unread = omega (
            arith,
            ap length q,
            length-append got (view s),
            length-append (frame blob) rest,
            long,
          );
        }
        | inl (n, p, short) ↦
            let r = source_read-IsFed n s k (omega (arith, l, short)) (
              omega (
                arith,
                ap length q,
                length-append got (view s),
                length-append (frame blob) rest,
                short,
              )) in
            let s' = (source_read (suc n) s).1 in
            let ih =
              decode_blob-Decoded fuel blob (got ++ r.got) rest s' r.sound
                (append_assoc got r.got (view s') ∙ ap (λ x. got ++ x) r.split ∙ q)
                (omega (arith, l, r.charged, length-append got r.got))
                (omega (arith, f, r.charged, r.some_read)) in
            record {
              source = ih.source;
              found = rw (p, r.read, decode_blob) ih.found;
              unread = ih.unread;
            }
      ]

  -- A body that was read, with no more than what followed it left to read.
  pub record IsRead {V : Type 0} (a : V) (rest : Bytes)
      (o : Option (Result GoError V × (Bytes × BudgetReader))) : Type 0 where
    pub pending : Bytes
    pub budget : BudgetReader
    pub returned : o ≡ some (ok a, (pending, budget))
    pub unread : length (pending ++ stream budget) ≤ length rest

  module _ (crypto : Aead) (opens : Opens crypto) (nonce plaintext : Bytes)
      (sized : length nonce ≡ crypto.nonce_size) where
    abbrev sealed_text : Bytes
    sealed_text = nonce ++ crypto.seal nonce plaintext

    written :
        write_crypto_body w crypto (ok nonce) (ok plaintext)
        ≡ (magic_prefix ++ frame sealed_text, none)
    unfolding write_crypto_body encrypt
    written = ground (arith, gob.writes magic_prefix, gob.encodes sealed_text)

    decrypts : decrypt crypto sealed_text ≡ ok plaintext
    decrypts =
        decrypt-encrypt crypto nonce plaintext sealed_text opens sized
          (unfold encrypt in ground arith)

    -- A body that a codec wrote is read as the plaintext's value, behind a newline or not, however
    -- what the JSON decoder has buffered and the connection's chunks cut it, if it fits into the
    -- limit.
    pub read_body-IsRead :
        {V : Type 0} (unmarshal : Bytes → Result GoError V) (has_body : Bool) (a : V) (max_body : ℕ)
        (sent sep buffered rest : Bytes) (budget : BudgetReader)
        → unmarshal plaintext ≡ ok a
        → write_crypto_body w crypto (ok nonce) (ok plaintext) ≡ (sent, none)
        → (sep ≡ []) ⊎ (sep ≡ b'\n' ∷ [])
        → buffered ++ stream budget ≡ sep ++ (sent ++ rest)
        → length sep + length sent ≤ max_body
        → IsRead a rest (read_body d crypto max_body unmarshal has_body buffered budget)
    unfolding read_body reset_budget decode_crypto_body
    read_body-IsRead unmarshal has_body a max_body sent sep buffered rest budget u h o q l =
        let e : magic_prefix ++ frame sealed_text ≡ sent = cc (written, h) in
        let s : BodySource = record {
          pending = buffered;
          inner = reset_budget max_body budget;
          left = max_body;
        } in
        let size : length sent ≡ 5 + length (frame sealed_text) =
          omega (arith, ap length e, length-append magic_prefix (frame sealed_text)) in
        let whole : view s ≡ sep ++ (magic_prefix ++ (frame sealed_text ++ rest)) =
          q
          ∙ ap (λ x. sep ++ (x ++ rest)) (sym e)
          ∙ ap (λ x. sep ++ x) (append_assoc magic_prefix (frame sealed_text) rest) in
        let m =
          separated-Behind (suc max_body) sep (frame sealed_text ++ rest) s (omega arith) o whole
            (omega (arith, l, size)) (omega (arith, l, size)) in
        let b =
          decode_blob-Decoded (suc max_body) sealed_text [] rest m.source m.sound m.next
            (omega (arith, l, size, m.charged)) (omega (arith, m.charged)) in
        let c =
          read_steps d crypto max_body buffered (reset_budget max_body budget) m.source b.source
            sealed_text plaintext m.found b.found decrypts in
        let r : read_body d crypto max_body unmarshal has_body buffered budget
            ≡ some (ok a, (b.source.pending, b.source.inner)) =
          ground (arith, c, u) in
        record {
          pending = b.source.pending;
          budget = b.source.inner;
          returned = r;
          unread = b.unread;
        }
