-- ===== src/Codec/Legacy/Streams/Flat.antt =====
-- The crypto codecs of v2/codec over a connection against the same codecs over the list of its
-- bytes: what the decoder takes by io.ReadFull, and Peek and Discard between its values.
use rpc.Base.{
  ℕ, Bytes, Bool, true, false, Option, none, some, List, [], ◌∷◌, ◌≡◌, refl, sym, ap, ◌∙◌,
  if◌then◌else◌, ltb, length, take, drop, codes, err, arith, Bool-cases, inl, inr,
}
use mathlib.Core.Path.{ap₂}
use rpc.Errors.{GoError, sentinel, invalid_prefix, wrap}
use rpc.Codec.Crypto.{Aead}
use rpc.Codec.Output.{magic_prefix}
use rpc.Codec.Buffered.{BufferedReadWriteCloser, read_full, peek_buffered, discard}
use rpc.Codec.Buffered.Flat.{view, flat_full, read_full-Flattens}
use rpc.Codec.Buffered.Skips.{Peeked, peek_buffered-Peeked, Discarded, discard-Discarded}
use rpc.Codec.Legacy.{
  slices_equal, Marshaller, LegacyCodec, unseal_body, read_header, read_sealed, read_sealed_request,
}
use rpc.Codec.Legacy.Streams.{
  StreamGob, Simulates, ReadsOnly, flat_gob, StreamCodec, header, body, read_stream_header,
  read_stream_body, read_stream, read_list,
}

module _ {E D H V : Type 0} (g : StreamGob E D H Bytes) (m : Marshaller V) (crypto : Aead) where
  -- The codec over the connection that the codec over the list stands for.
  pub record Stands (ends : GoError) (c : StreamCodec D) (f : LegacyCodec E D) : Type 0 where
    pub decoder : c.decoder ≡ f.decoder
    pub bytes : view c.rwc ≡ f.incoming
    pub same_end : c.rwc.conn.ends ≡ ends
    pub same_end' : f.ends ≡ ends

  abbrev pub Agree : {A : Type 0} → GoError → A × StreamCodec D → A × LegacyCodec E D → Type 0
  Agree ends o o' = (o.0 ≡ o'.0) × Stands ends o.1 o'.1

  abbrev Stream : GoError → BufferedReadWriteCloser → Bytes → Type 0
  Stream ends r bytes = (view r ≡ bytes) × (r.conn.ends ≡ ends)

  full_lem : (ends : GoError) → Simulates (Stream ends) read_full (flat_full ends)
  full_lem ends n s bytes (v, e) =
      let k = read_full-Flattens n s in
      (
        k.result ∙ ap (λ x. (flat_full x n (view s)).0) e ∙ ap (λ x. (flat_full ends n x).0) v,
        (
          k.rest ∙ ap (λ x. (flat_full x n (view s)).1) e ∙ ap (λ x. (flat_full ends n x).1) v,
          k.same_end ∙ e,
        ),
      )

  module _ (only : ReadsOnly g) where
    header_lem :
        (ends : GoError) (c : StreamCodec D) (f : LegacyCodec E D)
        → Stands ends c f
        → Agree ends (read_stream_header g m crypto c) (read_header (flat_gob g ends) f)
    unfolding read_stream_header read_header
    header_lem ends c f s =
        let (a, b, (v, e)) =
          only.headers (Stream ends) read_full (flat_full ends) (full_lem ends) c.decoder c.rwc
            f.incoming (s.bytes, s.same_end) in
        let same = ap (λ d. g.decode_header (flat_full ends) d f.incoming) s.decoder in
        (
          a ∙ ap (λ o. o.0) same,
          record {
            decoder = b ∙ ap (λ o. o.1) same;
            bytes = v ∙ ap (λ o. o.2) same;
            same_end = e;
            same_end' = s.same_end';
          },
        )

    module _ (ends : GoError) (c : StreamCodec D) (f : LegacyCodec E D) (s : Stands ends c f) where
      abbrev n : ℕ
      n = 5

      abbrev peeked : Bytes × Option GoError × BufferedReadWriteCloser
      peeked = peek_buffered n c.rwc

      abbrev discarded : Option GoError × BufferedReadWriteCloser
      discarded = discard n peeked.2

      peeked_lem : Peeked n c.rwc peeked
      peeked_lem = peek_buffered-Peeked n c.rwc (omega arith)

      discarded_lem : Discarded n peeked.2 discarded
      discarded_lem = discard-Discarded n peeked.2 (omega arith)

      kept : view peeked.2 ≡ f.incoming
      kept = peeked_lem.kept ∙ s.bytes

      -- Peek and Discard fail exactly if the prefix is not there whole.
      abbrev failing : GoError → Option GoError
      failing x = if ltb (length f.incoming) n then some x else none

      peeking_lem : peeked.1 ≡ failing c.rwc.conn.ends
      peeking_lem =
          peeked_lem.result
          ∙ ap (λ w. if ltb (length w) n then some c.rwc.conn.ends else none) s.bytes

      discarding_lem : discarded.0 ≡ failing peeked.2.conn.ends
      discarding_lem =
          discarded_lem.result
          ∙ ap (λ w. if ltb (length w) n then some peeked.2.conn.ends else none) kept

      abbrev magic_lem :
          slices_equal peeked.0 magic_prefix ≡ slices_equal (take n f.incoming) magic_prefix
      magic_lem = ap (λ w. slices_equal w magic_prefix) (peeked_lem.seen ∙ ap (take n) s.bytes)

      short_lem :
          ltb (length f.incoming) n ≡ true
          → Agree ends
              (read_stream_body g m crypto c)
              (read_sealed_request (flat_gob g ends) m crypto f)
      unfolding read_stream_body read_sealed_request
      short_lem t =
          let q : peeked.1 ≡ some c.rwc.conn.ends =
            peeking_lem ∙ ap (λ b. if b then some c.rwc.conn.ends else none) t in
          let e : read_stream_body g m crypto c ≡ (
            err (wrap (codes "prefix peeking error") c.rwc.conn.ends),
            record c { rwc = peeked.2 },
          ) =
            rw (q, read_stream_body) refl in
          let e' : read_sealed_request (flat_gob g ends) m crypto f
              ≡ (err (wrap (codes "prefix peeking error") f.ends), f) =
            rw (t, read_sealed_request, read_sealed) refl in
          rw (e, e')
            (
              ap (λ x. err (wrap (codes "prefix peeking error") x)) (s.same_end ∙ sym s.same_end'),
              record {
                decoder = s.decoder;
                bytes = kept;
                same_end = peeked_lem.same_end ∙ s.same_end;
                same_end' = s.same_end';
              },
            )

      plain_lem :
          ltb (length f.incoming) n ≡ false
          → slices_equal (take n f.incoming) magic_prefix ≡ false
          → Agree ends
              (read_stream_body g m crypto c)
              (read_sealed_request (flat_gob g ends) m crypto f)
      unfolding read_stream_body read_sealed_request
      plain_lem t u =
          let q : peeked.1 ≡ none =
            peeking_lem ∙ ap (λ b. if b then some c.rwc.conn.ends else none) t in
          let e : read_stream_body g m crypto c ≡ (
            err (wrap (codes "invalid magic number") (sentinel invalid_prefix)),
            record c { rwc = peeked.2 },
          ) =
            rw (q, magic_lem ∙ u, read_stream_body) refl in
          let e' : read_sealed_request (flat_gob g ends) m crypto f
              ≡ (err (wrap (codes "invalid magic number") (sentinel invalid_prefix)), f) =
            rw (t, u, read_sealed_request, read_sealed) refl in
          rw (e, e')
            (
              refl,
              record {
                decoder = s.decoder;
                bytes = kept;
                same_end = peeked_lem.same_end ∙ s.same_end;
                same_end' = s.same_end';
              },
            )

      sealed_lem :
          ltb (length f.incoming) n ≡ false
          → slices_equal (take n f.incoming) magic_prefix ≡ true
          → Agree ends
              (read_stream_body g m crypto c)
              (read_sealed_request (flat_gob g ends) m crypto f)
      unfolding read_stream_body read_sealed_request
      sealed_lem t u =
          let q : peeked.1 ≡ none =
            peeking_lem ∙ ap (λ b. if b then some c.rwc.conn.ends else none) t in
          let q' : discarded.0 ≡ none =
            discarding_lem ∙ ap (λ b. if b then some peeked.2.conn.ends else none) t in
          let unseal =
            unseal_body m crypto (codes "request body decoding error")
              (codes "request body decrypt error") in
          let o = g.decode_body read_full c.decoder discarded.1 in
          let o' = g.decode_body (flat_full ends) f.decoder (drop n f.incoming) in
          let e : read_stream_body g m crypto c
              ≡ (unseal o.0, record { decoder = o.1; rwc = o.2 }) =
            rw (q, magic_lem ∙ u, q', read_stream_body) refl in
          let e' : read_sealed_request (flat_gob g ends) m crypto f
              ≡ (unseal o'.0, record f { decoder = o'.1; incoming = o'.2 }) =
            rw (t, u, read_sealed_request, read_sealed) refl in
          let (a, b, (v, w)) =
            only.bodies (Stream ends) read_full (flat_full ends) (full_lem ends) c.decoder
              discarded.1 (drop n f.incoming)
              (
                discarded_lem.rest ∙ ap (drop n) kept,
                discarded_lem.same_end ∙ peeked_lem.same_end ∙ s.same_end,
              ) in
          let same = ap (λ x. g.decode_body (flat_full ends) x (drop n f.incoming)) s.decoder in
          rw (e, e')
            (
              ap unseal (a ∙ ap (λ o. o.0) same),
              record {
                decoder = b ∙ ap (λ o. o.1) same;
                bytes = v ∙ ap (λ o. o.2) same;
                same_end = w;
                same_end' = s.same_end';
              },
            )

      body_lem :
          Agree ends
            (read_stream_body g m crypto c)
            (read_sealed_request (flat_gob g ends) m crypto f)
      body_lem = elim (Bool-cases (ltb (length f.incoming) n)) [
        | inl t ↦ short_lem t
        | inr t ↦ elim (Bool-cases (slices_equal (take n f.incoming) magic_prefix)) [
          | inl u ↦ sealed_lem t u
          | inr u ↦ plain_lem t u
        ]
      ]

    -- Over a decoder that takes bytes by io.ReadFull only, headers and encrypted bodies are read
    -- off a connection as they are off the list of all its bytes, however it is cut into chunks:
    -- the same values and errors, and the same bytes left.
    pub read_stream-read_list :
        (ends : GoError) (kinds : List Bool) (c : StreamCodec D) (f : LegacyCodec E D)
        → Stands ends c f
        → Agree ends (read_stream g m crypto kinds c) (read_list g m crypto ends kinds f)
    unfolding read_stream read_list
    read_stream-read_list ends [] c f s = (refl, s)
    read_stream-read_list ends (true ∷ kinds) c f s =
        let (a, t) = header_lem ends c f s in
        let (b, u) =
          read_stream-read_list ends kinds (read_stream_header g m crypto c).1
            (read_header (flat_gob g ends) f).1 t in
        (ap₂ (λ x xs. header x ∷ xs) a b, u)
    read_stream-read_list ends (false ∷ kinds) c f s =
        let (a, t) = body_lem ends c f s in
        let (b, u) =
          read_stream-read_list ends kinds (read_stream_body g m crypto c).1
            (read_sealed_request (flat_gob g ends) m crypto f).1 t in
        (ap₂ (λ x xs. body x ∷ xs) a b, u)
