-- ===== src/Codec/Legacy/Streams.antt =====
-- The reading side of the crypto codecs of v2/codec over BufferedReadWriteCloser, and the same
-- codecs over one list of bytes. encoding/gob is a parameter, for any source of bytes.
pub mod Flat
use rpc.Base.{
  ℕ, Text, Bytes, Bool, true, false, not, Option, none, some, List, [], ◌∷◌, ◌≡◌, refl, sym, ap,
  ◌∙◌, if◌then◌else◌, ltb, length, take, drop, codes, Result, ok, err, arith, Bool-cases,
  Option-cases, inl, inr,
}
use mathlib.Core.Path.{subst, ap₂}
use rpc.Errors.{GoError, sentinel, invalid_prefix, wrap}
use rpc.Codec.Crypto.{Aead}
use rpc.Codec.Output.{Written, magic_prefix}
use rpc.Codec.Buffered.{BufferedReadWriteCloser, read_full, peek_buffered, discard}
use rpc.Codec.Buffered.Flat.{view, flat_full, Flattens, read_full-Flattens}
use rpc.Codec.Buffered.Skips.{Peeked, peek_buffered-Peeked, Discarded, discard-Discarded}
use rpc.Codec.Legacy.{
  slices_equal, Gob, Marshaller, LegacyCodec, unseal_body, read_header, read_sealed,
  read_sealed_request,
}

-- io.ReadFull over a source
abbrev pub Full : Type 0 → Type 0
Full S = ℕ → S → Result GoError Bytes × S

-- gob.Encoder, and gob.Decoder over an io.ByteReader, which it takes bytes from by io.ReadFull.
pub record StreamGob (E D H B : Type 0) : Type 1 where
  pub encode_header : E → H → Written × E
  pub encode_body : E → B → Written × E
  pub decode_header : {S : Type 0} → Full S → D → S → Result GoError H × D × S
  pub decode_body : {S : Type 0} → Full S → D → S → Result GoError B × D × S

-- Sources that give the same bytes and errors.
abbrev pub Simulates : {S S' : Type 0} → (S → S' → Type 0) → Full S → Full S' → Type 0
Simulates {S} {S'} R full full' =
    (n : ℕ) (s : S) (s' : S')
    → R s s'
    → ((full n s).0 ≡ (full' n s').0) × R (full n s).1 (full' n s').1

abbrev pub Same :
    {D S S' V : Type 0}
    → (S → S' → Type 0)
    → Result GoError V × D × S
    → Result GoError V × D × S'
    → Type 0
Same R o o' = (o.0 ≡ o'.0) × (o.1 ≡ o'.1) × R o.2 o'.2

-- What a decoder does depends on its source by what io.ReadFull returns only.
pub record ReadsOnly {E D H B : Type 0} (g : StreamGob E D H B) : Type 1 where
  pub headers :
      {S S' : Type 0} (R : S → S' → Type 0) (full : Full S) (full' : Full S')
      → Simulates R full full'
      → (d : D) (s : S) (s' : S') → R s s'
      → Same R (g.decode_header full d s) (g.decode_header full' d s')
  pub bodies :
      {S S' : Type 0} (R : S → S' → Type 0) (full : Full S) (full' : Full S')
      → Simulates R full full'
      → (d : D) (s : S) (s' : S') → R s s'
      → Same R (g.decode_body full d s) (g.decode_body full' d s')

-- gob over a list of bytes with the error `ends` behind it.
abbrev pub flat_gob : {E D H B : Type 0} → StreamGob E D H B → GoError → Gob E D H B
flat_gob g ends = record {
  encode_header = g.encode_header;
  encode_body = g.encode_body;
  decode_header = g.decode_header (flat_full ends);
  decode_body = g.decode_body (flat_full ends);
}

-- cryptoServerCodec and cryptoClientCodec, the reading side
pub record StreamCodec (D : Type 0) : Type 0 where
  pub decoder : D
  pub rwc : BufferedReadWriteCloser

-- What is read: a header, or a body that is encrypted.
pub data Got (H V : Type 0) : Type 0 where
  header : Result GoError H → Got H V
  body : Result GoError V → Got H V

module _ {E D H V : Type 0} (g : StreamGob E D H Bytes) (m : Marshaller V) (crypto : Aead) where
  -- ReadRequestHeader of the server codec
  unfoldable pub read_stream_header : StreamCodec D → Result GoError H × StreamCodec D
  read_stream_header c =
      let (r, d, rwc) = g.decode_header read_full c.decoder c.rwc in
      (r, record { decoder = d; rwc = rwc })

  -- cryptoServerCodec.ReadRequestBody
  unfoldable pub read_stream_body : StreamCodec D → Result GoError V × StreamCodec D
  unfolding unseal_body slices_equal
  read_stream_body c =
      let n = length magic_prefix in
      let (magic_read, peeking, peeked) = peek_buffered n c.rwc in
      let (discarding, discarded) = discard n peeked in
      let (blob, d, rwc) = g.decode_body read_full c.decoder discarded in
      elim peeking [
        | some e ↦ (err (wrap (codes "prefix peeking error") e), record c { rwc = peeked })
        | none ↦
            if not (slices_equal magic_read magic_prefix)
            then (
              err (wrap (codes "invalid magic number") (sentinel invalid_prefix)),
              record c { rwc = peeked },
            )
            else elim discarding [
              | some e ↦
                  (err (wrap (codes "prefix discarding error") e), record c { rwc = discarded })
              | none ↦ (
                unseal_body m crypto (codes "request body decoding error")
                    (codes "request body decrypt error") blob,
                record { decoder = d; rwc = rwc },
              )
            ]
      ]

  -- Headers (true) and bodies (false) one after the other, over the connection.
  unfoldable pub read_stream : List Bool → StreamCodec D → List (Got H V) × StreamCodec D
  unfolding read_stream_header read_stream_body
  read_stream [] c = ([], c)
  read_stream (true ∷ kinds) c =
      let (r, c') = read_stream_header c in
      let (rs, c'') = read_stream kinds c' in (header r ∷ rs, c'')
  read_stream (false ∷ kinds) c =
      let (r, c') = read_stream_body c in let (rs, c'') = read_stream kinds c' in (body r ∷ rs, c'')

  -- The same over the list.
  unfoldable pub read_list :
      GoError → List Bool → LegacyCodec E D → List (Got H V) × LegacyCodec E D
  unfolding read_header read_sealed_request
  read_list ends [] c = ([], c)
  read_list ends (true ∷ kinds) c =
      let (r, c') = read_header (flat_gob g ends) c in
      let (rs, c'') = read_list ends kinds c' in (header r ∷ rs, c'')
  read_list ends (false ∷ kinds) c =
      let (r, c') = read_sealed_request (flat_gob g ends) m crypto c in
      let (rs, c'') = read_list ends kinds c' in (body r ∷ rs, c'')
