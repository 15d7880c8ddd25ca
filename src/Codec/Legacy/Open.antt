-- ===== src/Codec/Legacy/Open.antt =====
-- The gob codecs of v2/codec: WriteRequest of client_gob_codec.go against ReadRequestHeader and
-- ReadRequestBody of server_gob_codec.go.
use rpc.Base.{
  Bytes, ◌≡◌, refl, sym, ap, ◌∙◌, Option, none, some, List, [], ◌∷◌, ◌++◌, ok, arith, All,
  Option-cases, inl, inr, append_assoc,
}
use mathlib.Core.Path.{subst}
use rpc.Errors.{GoError}
use rpc.Codec.Output.{put, flush, write_request}
use rpc.Codec.Legacy.{
  Gob, LegacyCodec, read_header, read_gob_body, write_gob_request, encoder_after,
}
use rpc.Codec.Legacy.Channel.{Channel, Carries}

-- What gob promises of an encoder and a decoder that have come equally far in one stream: what the
-- first writes, the second reads, and no byte more.
pub record IsGob {E D H B : Type 0} (g : Gob E D H B) (Synced : E → D → Type 0) : Type 0 where
  pub header :
      (e e' : E) (d : D) (h : H) (bytes rest : Bytes)
      → Synced e d
      → g.encode_header e h ≡ ((bytes, none), e')
      → (d' : D) × (g.decode_header d (bytes ++ rest) ≡ (ok h, d', rest)) × Synced e' d'
  pub body :
      (e e' : E) (d : D) (b : B) (bytes rest : Bytes)
      → Synced e d
      → g.encode_body e b ≡ ((bytes, none), e')
      → (d' : D) × (g.decode_body d (bytes ++ rest) ≡ (ok b, d', rest)) × Synced e' d'

pub anyhow : {A : Type 0} (xs : List A) → All {0, 0} (λ x. Unit) xs
anyhow [] = tt
anyhow (x ∷ xs) = (tt, anyhow xs)

module _ {E D H B : Type 0} (g : Gob E D H B) where
  pub head_read :
      (s : LegacyCodec E D) (h : H) (d : D) (bytes rest : Bytes)
      → s.incoming ≡ bytes
      → g.decode_header s.decoder bytes ≡ (ok h, d, rest)
      → read_header g s ≡ (ok h, record s { decoder = d; incoming = rest })
  unfolding read_header
  head_read s h d bytes rest e r = ground (arith, ap (g.decode_header s.decoder) e ∙ r)

  body_read :
      (s : LegacyCodec E D) (v : B) (d : D) (bytes rest : Bytes)
      → s.incoming ≡ bytes
      → g.decode_body s.decoder bytes ≡ (ok v, d, rest)
      → read_gob_body g s ≡ (ok v, record s { decoder = d; incoming = rest })
  unfolding read_gob_body
  body_read s v d bytes rest e r = ground (arith, ap (g.decode_body s.decoder) e ∙ r)

  -- The gob codecs of a client and a server.
  abbrev pub open_channel : Channel E D H B
  open_channel = record {
    write = λ msg c. write_gob_request g msg.header msg.body msg.flushing c;
    read_head = λ c. read_header g c;
    read_rest = λ c. read_gob_body g c;
  }

  -- What a WriteRequest without an error has done.
  record Flushed (h : H) (b : B) (c c' : LegacyCodec E D) : Type 0 where
    head_ok : (g.encode_header c.encoder h).0.1 ≡ none
    body_ok : (g.encode_body (g.encode_header c.encoder h).1 b).0.1 ≡ none
    encoder : c'.encoder ≡ (g.encode_body (g.encode_header c.encoder h).1 b).1
    sent :
        c'.output.sent
        ≡ c.output.sent
          ++ ((c.output.pending ++ (g.encode_header c.encoder h).0.0)
              ++ (g.encode_body (g.encode_header c.encoder h).1 b).0.0)
    emptied : c'.output.pending ≡ []

  written :
      (h : H) (b : B) (flushing : Option GoError) (c c' : LegacyCodec E D)
      → write_gob_request g h b flushing c ≡ (none, c')
      → Flushed h b c c'
  unfolding write_gob_request write_request flush put encoder_after
  written h b (some x) c c' e = absurd (
      ground (
        arith,
        e,
        Option-cases (g.encode_header c.encoder h).0.1,
        Option-cases (g.encode_body (g.encode_header c.encoder h).1 b).0.1,
      ))
  written h b none c c' e = elim (Option-cases (g.encode_header c.encoder h).0.1) [
    | inr (x, p) ↦ absurd (ground (arith, p, e))
    | inl p ↦ elim (Option-cases (g.encode_body (g.encode_header c.encoder h).1 b).0.1) [
      | inr (x, r) ↦ absurd (ground (arith, p, r, e))
      | inl r ↦ record {
        head_ok = p;
        body_ok = r;
        encoder = ground (arith, p, r, e);
        sent = ground (arith, p, r, e);
        emptied = ground (arith, p, r, e);
      }
    ]
  ]

  -- A request that a gob client has written without an error is read by a server in step with it.
  pub write_gob_request-Carries :
      {Synced : E → D → Type 0} → IsGob g Synced → Carries open_channel Synced (λ msg. Unit)
  write_gob_request-Carries {Synced} gob msg c c' fits e =
      let f = written msg.header msg.body msg.flushing c c' e in
      let x = g.encode_header c.encoder msg.header in
      let y = g.encode_body x.1 msg.body in
      record {
        wire = x.0.0 ++ y.0.0;
        sent = f.sent ∙ ap (λ q. c.output.sent ++ q) (append_assoc c.output.pending x.0.0 y.0.0);
        emptied = f.emptied;
        received = λ s rest i synced.
            let inc : s.incoming ≡ x.0.0 ++ (y.0.0 ++ rest) = i ∙ append_assoc x.0.0 y.0.0 rest in
            let (d₁, r₁, synced₁) =
              gob.header c.encoder x.1 s.decoder msg.header x.0.0 (y.0.0 ++ rest) synced
                (ap (λ o. ((x.0.0, o), x.1)) f.head_ok) in
            let (d₂, r₂, synced₂) =
              gob.body x.1 y.1 d₁ msg.body y.0.0 rest synced₁
                (ap (λ o. ((y.0.0, o), y.1)) f.body_ok) in
            let s₁ : LegacyCodec E D = record s { decoder = d₁; incoming = y.0.0 ++ rest } in
            (
              s₁,
              record s₁ { decoder = d₂; incoming = rest },
              head_read s msg.header d₁ _ (y.0.0 ++ rest) inc r₁,
              body_read s₁ msg.body d₂ _ rest refl r₂,
              refl,
              subst (λ q. Synced q d₂) (sym f.encoder) synced₂,
            );
      }
