-- ===== src/Codec/Body/RoundTrip.antt =====
-- writeCryptoBody against ReadRequestBody of v3/codec/json_crypto_codec.go, for a body that lies
-- in the JSON decoder's buffer whole.
use rpc.Base.{
  ℕ, zero, suc, ◌-◌, ◌+◌, ◌≤◌, ◌≡◌, refl, ap, ◌∙◌, Bytes, [], ◌∷◌, ◌++◌, length, take, drop, Result,
  ok, none, some, arith, Bool, min, All, List-cases, inl, inr,
}
use mathlib.Core.Path.{subst}
use rpc.Errors.{GoError}
use rpc.Codec.Stream.{BudgetReader, clip, reset_budget}
use rpc.Codec.Crypto.{Aead, encrypt, decrypt}
use rpc.Codec.Crypto.Laws.{Opens, decrypt-encrypt}
use rpc.Codec.Output.{magic_prefix, BlobWriter, write_crypto_body}
use rpc.Codec.Body.Prefix.{IsSpace, read_magic_spaces}
use rpc.Codec.Body.{
  BodySource, source_read, read_magic, more, decoded, BlobReader, decode_blob, read_crypto_body,
  decode_crypto_body, read_body,
}

-- What gob promises: Encode writes a frame; a new Decoder begins with a Read into bufio's buffer
-- of 4096 bytes; bytes that begin with a frame decode, whatever follows.
pub record IsGob (frame : Bytes → Bytes) (w : BlobWriter) (d : BlobReader) : Type 0 where
  pub writes : (bytes : Bytes) → w.write bytes ≡ (bytes, none)
  pub encodes : (blob : Bytes) → w.encode blob ≡ (frame blob, none)
  pub starts : d.step [] ≡ more 4095
  pub completes : (blob rest : Bytes) → d.step (frame blob ++ rest) ≡ decoded blob

take-append_ge :
    (n : ℕ) (xs ys : Bytes) → length xs ≤ n → take n (xs ++ ys) ≡ xs ++ take (n - length xs) ys
take-append_ge n [] ys h = ap (λ k. take k ys) (omega arith)
take-append_ge zero (x ∷ xs) ys h = absurd (omega arith)
take-append_ge (suc n) (x ∷ xs) ys h =
    ap (λ r. x ∷ r) (take-append_ge n xs ys (omega arith) ∙ ap (λ k. xs ++ take k ys) (omega arith))

drop-append_ge :
    (n : ℕ) (xs ys : Bytes) → length xs ≤ n → drop n (xs ++ ys) ≡ drop (n - length xs) ys
drop-append_ge n [] ys h = ap (λ k. drop k ys) (omega arith)
drop-append_ge zero (x ∷ xs) ys h = absurd (omega arith)
drop-append_ge (suc n) (x ∷ xs) ys h =
    drop-append_ge n xs ys (omega arith) ∙ ap (λ k. drop k ys) (omega arith)

first_read :
    (xs next : Bytes) (inner : BudgetReader) (left b : ℕ) (bs : Bytes)
    → xs ≡ b ∷ bs
    → length xs ≤ clip 4096 left
    → source_read 4096 (record { pending = xs ++ next; inner = inner; left = left }) ≡ (
      ok (take (clip 4096 left) (xs ++ next)),
      record {
        pending = drop (clip 4096 left) (xs ++ next);
        inner = inner;
        left = left - length (take (clip 4096 left) (xs ++ next));
      },
    )
unfolding source_read
first_read xs next inner zero b bs p h = absurd (unfold clip in ground (arith, p, h))
first_read xs next inner (suc left) b bs p h = ground (arith, p)

decoding :
    (d : BlobReader) (fuel : ℕ) (got blob : Bytes) (s : BodySource)
    → d.step got ≡ decoded blob
    → decode_blob d fuel got s ≡ some (ok blob, s)
unfolding decode_blob
decoding d zero got blob s e = rw (e, decode_blob) refl
decoding d (suc fuel) got blob s e = rw (e, decode_blob) refl

pub read_steps :
    (d : BlobReader) (crypto : Aead) (max_body : ℕ) (pending : Bytes) (inner : BudgetReader)
    (s s' : BodySource) (blob plaintext : Bytes)
    → read_magic
        (suc max_body)
        magic_prefix
        (record { pending = pending; inner = inner; left = max_body })
      ≡ some (none, s)
    → decode_blob d (suc max_body) [] s ≡ some (ok blob, s')
    → decrypt crypto blob ≡ ok plaintext
    → read_crypto_body d crypto max_body pending inner ≡ some (ok plaintext, s')
unfolding read_crypto_body
read_steps d crypto max_body pending inner s s' blob plaintext e f g = ground (arith, e, f, g)

body_steps {ℓ} :
    {A : Type ℓ} (d : BlobReader) (crypto : Aead) (max_body : ℕ)
    (unmarshal : Bytes → Result GoError A) (has_body : Bool) (buffered : Bytes)
    (budget : BudgetReader) (plaintext : Bytes) (a : A) (s : BodySource) (rest : Bytes)
    → read_crypto_body d crypto max_body buffered (reset_budget max_body budget)
      ≡ some (ok plaintext, s)
    → unmarshal plaintext ≡ ok a
    → s.pending ≡ rest
    → s.inner ≡ reset_budget max_body budget
    → read_body d crypto max_body unmarshal has_body buffered budget
      ≡ some (ok a, (rest, reset_budget max_body budget))
unfolding read_body decode_crypto_body
body_steps d crypto max_body unmarshal has_body buffered budget plaintext a s rest e u p i =
    ground (arith, e, u, p, i)

module _ {frame : Bytes → Bytes} {w : BlobWriter} {d : BlobReader} (gob : IsGob frame w d)
    (crypto : Aead) (opens : Opens crypto) (nonce plaintext : Bytes)
    (sized : length nonce ≡ crypto.nonce_size) where
  -- The text that write_crypto_body encrypts to.
  abbrev sealed_text : Bytes
  sealed_text = nonce ++ crypto.seal nonce plaintext

  written :
      write_crypto_body w crypto (ok nonce) (ok plaintext)
      ≡ (magic_prefix ++ frame sealed_text, none)
  unfolding write_crypto_body encrypt
  written = ground (arith, gob.writes magic_prefix, gob.encodes sealed_text)

  -- The decoder is done after its first Read, which takes all that the buffer of 4096 bytes holds.
  decode_blob_pending :
      (fuel : ℕ) (blob next : Bytes) (inner : BudgetReader) (left : ℕ)
      → length (frame blob) ≤ clip 4096 left
      → (s : BodySource) × (decode_blob d
            (suc fuel)
            []
            (record { pending = frame blob ++ next; inner = inner; left = left })
          ≡ some (ok blob, s))
        × (s.pending ≡ drop (clip 4096 left - length (frame blob)) next)
        × (s.inner ≡ inner)
  unfolding decode_blob clip
  decode_blob_pending fuel blob next inner left h =
      let size = clip 4096 left in
      let whole = frame blob ++ next in
      let s : BodySource = record {
        pending = drop size whole;
        inner = inner;
        left = left - length (take size whole);
      } in
      let done : d.step (take size whole) ≡ decoded blob =
        ap d.step (take-append_ge size (frame blob) next h)
        ∙ gob.completes blob (take (size - length (frame blob)) next) in
      let e : source_read 4096 (record { pending = whole; inner = inner; left = left })
          ≡ (ok (take size whole), s) =
        elim (List-cases (frame blob)) [
          | inl p ↦ absurd (cc (gob.starts, gob.completes blob [], p))
          | inr (b, bs, p) ↦ first_read (frame blob) next inner left b bs p h
        ] in
      (
        s,
        rw (gob.starts, ap (λ r. r.0) e, ap (λ r. r.1) e, decode_blob)
            (decoding d fuel (take size whole) blob s done),
        drop-append_ge size (frame blob) next h,
        refl,
      )

  decrypts : decrypt crypto sealed_text ≡ ok plaintext
  decrypts =
      decrypt-encrypt crypto nonce plaintext sealed_text opens sized
        (unfold encrypt in ground arith)

  read_written :
      (max_body : ℕ) (spaces next : Bytes) (inner : BudgetReader)
      → All IsSpace spaces
      → length (magic_prefix ++ frame sealed_text) ≤ 4101
      → length spaces + length (magic_prefix ++ frame sealed_text) ≤ max_body
      → (s : BodySource) × (read_crypto_body d crypto max_body
            (spaces ++ (magic_prefix ++ (frame sealed_text ++ next)))
            inner
          ≡ some (ok plaintext, s))
        × (s.pending
            ≡ drop
                (min 4101 (max_body - length spaces) - length (magic_prefix ++ frame sealed_text))
                next)
        × (s.inner ≡ inner)
  read_written max_body spaces next inner a short fits =
      let left = max_body - length spaces - 5 in
      let e =
        read_magic_spaces (suc max_body) spaces (frame sealed_text ++ next) inner max_body left a
          (omega (arith, fits)) (omega (arith, fits)) in
      let (s, f, p, i) =
        decode_blob_pending max_body sealed_text next inner left
          (unfold clip in ground (arith, short, fits)) in
      let c : clip 4096 left - length (frame sealed_text)
          ≡ min 4101 (max_body - length spaces) - length (magic_prefix ++ frame sealed_text) =
        unfold clip in ground (arith, fits) in
      (
        s,
        read_steps d crypto max_body _ inner _ s sealed_text plaintext e f decrypts,
        p ∙ ap (λ k. drop k next) c,
        i,
      )

  -- If GCM opens what it sealed and gob decodes the frames that it encodes, a body of at most 4101
  -- bytes (5 of prefix and a frame of at most 4096) that writeCryptoBody wrote with a nonce of the
  -- cipher's size, and that the JSON decoder has buffered whole behind spaces and ends of line,
  -- such as the one that json.Encoder writes after a header, reads back as the plaintext's value
  -- if it is within the limit together with those. The reader takes them, and within the limit up
  -- to 4101 bytes behind them: of what follows the body in the buffer, the next header's decoder
  -- gets only the rest.
  pub read_body-write_crypto_body {ℓ} :
      {A : Type ℓ} (unmarshal : Bytes → Result GoError A) (has_body : Bool) (a : A) (max_body : ℕ)
      (spaces sent next : Bytes) (budget : BudgetReader)
      → unmarshal plaintext ≡ ok a
      → write_crypto_body w crypto (ok nonce) (ok plaintext) ≡ (sent, none)
      → All IsSpace spaces
      → length sent ≤ 4101
      → length spaces + length sent ≤ max_body
      → read_body d crypto max_body unmarshal has_body (spaces ++ (sent ++ next)) budget
        ≡ some (
          ok a,
          (
            drop (min 4101 (max_body - length spaces) - length sent) next,
            reset_budget max_body budget,
          ),
        )
  read_body-write_crypto_body unmarshal has_body a max_body spaces sent next budget u h blank short
        fits =
      let q : magic_prefix ++ frame sealed_text ≡ sent = cc (written, h) in
      subst
        (λ x.
          length x ≤ 4101
          → length spaces + length x ≤ max_body
          → read_body d crypto max_body unmarshal has_body (spaces ++ (x ++ next)) budget
            ≡ some (
              ok a,
              (
                drop (min 4101 (max_body - length spaces) - length x) next,
                reset_budget max_body budget,
              ),
            ))
        q
        (λ short' fits'.
          let (s, e, p, i) =
            read_written max_body spaces next (reset_budget max_body budget) blank short' fits' in
          body_steps d crypto max_body unmarshal has_body _ budget plaintext a s _ e u p i)
        short fits
