-- ===== src/Codec/Legacy/Frames.antt =====
-- One message of the crypto codecs of v2/codec, written by one side and read by the other.
use rpc.Base.{
  Bytes, true, false, ◌≡◌, refl, sym, ap, ◌∙◌, Option, none, some, [], ◌∷◌, ◌++◌, ltb, length, take,
  drop, ok, arith, Result-cases, Option-cases, inl, inr, append_assoc, length-append,
  take-append_length, drop-append_length,
}
use mathlib.Core.Path.{subst}
use rpc.Errors.{GoError}
use rpc.Codec.Crypto.{Aead, encrypt, decrypt}
use rpc.Codec.Crypto.Laws.{Opens, decrypt-encrypt}
use rpc.Codec.Output.{Written, put, flush, magic_prefix}
use rpc.Codec.Legacy.Channel.{Message, Channel, Carried, Carries}
use rpc.Codec.Legacy.Open.{IsGob, head_read}
use rpc.Codec.Legacy.{
  slices_equal, Gob, Marshaller, LegacyCodec, read_header, encrypt_with, write_frames, write_sealed,
  read_sealed, read_sealed_request,
}

abbrev pub Unmarshals : {V : Type 0} → Marshaller V → Type 0
Unmarshals {V} m = (v : V) (bytes : Bytes) → m.marshal v ≡ ok bytes → m.unmarshal bytes ≡ ok v

-- A Write without an error has written all of its bytes.
abbrev pub WritesAll : (Bytes → Written) → Type 0
WritesAll write = (bytes written : Bytes) → write bytes ≡ (written, none) → written ≡ bytes

slices_equal_refl : (xs : Bytes) → slices_equal xs xs ≡ true
unfolding slices_equal
slices_equal_refl [] = refl
slices_equal_refl (x ∷ xs) = ground (arith, slices_equal_refl xs)

module _ {E D H V : Type 0} (g : Gob E D H Bytes) (m : Marshaller V) (crypto : Aead) where
  -- What a write of an encrypted body without an error has done.
  record Framed (write : Bytes → Written) (h : H) (blob : Bytes) (c c' : LegacyCodec E D)
      : Type 0 where
    head_ok : (g.encode_header c.encoder h).0.1 ≡ none
    prefix_ok : (write magic_prefix).1 ≡ none
    body_ok : (g.encode_body (g.encode_header c.encoder h).1 blob).0.1 ≡ none
    encoder : c'.encoder ≡ (g.encode_body (g.encode_header c.encoder h).1 blob).1
    sent :
        c'.output.sent
        ≡ c.output.sent
          ++ (((c.output.pending ++ (g.encode_header c.encoder h).0.0) ++ (write magic_prefix).0)
              ++ (g.encode_body (g.encode_header c.encoder h).1 blob).0.0)
    emptied : c'.output.pending ≡ []

  framed :
      (write : Bytes → Written) (h : H) (blob : Bytes) (flushing : Option GoError)
      (c c' : LegacyCodec E D)
      → write_frames g m crypto write h blob flushing c ≡ (none, c')
      → Framed write h blob c c'
  unfolding write_frames flush put
  framed write h blob (some x) c c' e = absurd (
      ground (
        arith,
        e,
        Option-cases (g.encode_header c.encoder h).0.1,
        Option-cases (write magic_prefix).1,
        Option-cases (g.encode_body (g.encode_header c.encoder h).1 blob).0.1,
      ))
  framed write h blob none c c' e = elim (Option-cases (g.encode_header c.encoder h).0.1) [
    | inr (x, p) ↦ absurd (ground (arith, p, e))
    | inl p ↦ elim (Option-cases (write magic_prefix).1) [
      | inr (x, q) ↦ absurd (ground (arith, p, q, e))
      | inl q ↦ elim (Option-cases (g.encode_body (g.encode_header c.encoder h).1 blob).0.1) [
        | inr (x, r) ↦ absurd (ground (arith, p, q, r, e))
        | inl r ↦ record {
          head_ok = p;
          prefix_ok = q;
          body_ok = r;
          encoder = ground (arith, p, q, r, e);
          sent = ground (arith, p, q, r, e);
          emptied = ground (arith, p, q, r, e);
        }
      ]
    ]
  ]

  -- The crypto codecs of a client and a server.
  abbrev pub sealed_channel : (Bytes → Written) → Channel E D H V
  sealed_channel write = record {
    write = λ msg c. write_sealed g m crypto write msg.header msg.body msg.nonce msg.flushing c;
    read_head = λ c. read_header g c;
    read_rest = λ c. read_sealed_request g m crypto c;
  }

  read_body :
      (s : LegacyCodec E D) (bytes sealed plaintext rest : Bytes) (d' : D) (v : V)
      → s.incoming ≡ magic_prefix ++ bytes
      → g.decode_body s.decoder bytes ≡ (ok sealed, d', rest)
      → decrypt crypto sealed ≡ ok plaintext
      → m.unmarshal plaintext ≡ ok v
      → read_sealed_request g m crypto s ≡ (ok v, record s { decoder = d'; incoming = rest })
  unfolding read_sealed_request read_sealed
  read_body s bytes sealed plaintext rest d' v e b p u =
      let dropped : drop (length magic_prefix) s.incoming ≡ bytes =
        ap (drop (length magic_prefix)) e ∙ drop-append_length magic_prefix bytes in
      let taken : take (length magic_prefix) s.incoming ≡ magic_prefix =
        ap (take (length magic_prefix)) e ∙ take-append_length magic_prefix bytes in
      let long : ltb (length s.incoming) (length magic_prefix) ≡ false =
        ground (arith, ap length e, length-append magic_prefix bytes) in
      let same : slices_equal (take (length magic_prefix) s.incoming) magic_prefix ≡ true =
        ap (λ x. slices_equal x magic_prefix) taken ∙ slices_equal_refl magic_prefix in
      let body : g.decode_body s.decoder (drop (length magic_prefix) s.incoming)
          ≡ (ok sealed, d', rest) =
        ap (g.decode_body s.decoder) dropped ∙ b in
      ground (arith, long, same, body, p, u)

  decrypt-encrypt_with :
      (nonce plaintext : Bytes)
      → Opens crypto
      → length nonce ≡ crypto.nonce_size
      → decrypt crypto (encrypt_with crypto nonce plaintext) ≡ ok plaintext
  unfolding encrypt_with
  decrypt-encrypt_with nonce plaintext opens sized =
      decrypt-encrypt crypto nonce plaintext _ opens sized (unfold encrypt in refl)

  carried :
      {Synced : E → D → Type 0} (gob : IsGob g Synced) (unmarshals : Unmarshals m)
      (opens : Opens crypto) (write : Bytes → Written) (all : WritesAll write) (msg : Message H V)
      (plaintext : Bytes) (c c' : LegacyCodec E D)
      → length msg.nonce ≡ crypto.nonce_size
      → m.marshal msg.body ≡ ok plaintext
      → Framed write msg.header (encrypt_with crypto msg.nonce plaintext) c c'
      → Carried (sealed_channel write) Synced msg c c'
  carried {Synced} gob unmarshals opens write all msg plaintext c c' sized p f =
      let h = msg.header in
      let v = msg.body in
      let nonce = msg.nonce in
      let blob = encrypt_with crypto nonce plaintext in
      let x = g.encode_header c.encoder h in
      let y = g.encode_body x.1 blob in
      let prefix : (write magic_prefix).0 ≡ magic_prefix =
        all magic_prefix (write magic_prefix).0
          (ap (λ o. ((write magic_prefix).0, o)) f.prefix_ok) in
      record {
        wire = x.0.0 ++ (magic_prefix ++ y.0.0);
        sent =
            f.sent
            ∙ ap (λ q. c.output.sent ++ (((c.output.pending ++ x.0.0) ++ q) ++ y.0.0)) prefix
            ∙ ap (λ q. c.output.sent ++ q)
                (ap (λ q. q ++ y.0.0) (append_assoc c.output.pending x.0.0 magic_prefix)
                  ∙ append_assoc c.output.pending (x.0.0 ++ magic_prefix) y.0.0
                  ∙ ap (λ q. c.output.pending ++ q) (append_assoc x.0.0 magic_prefix y.0.0));
        emptied = f.emptied;
        received = λ s rest e synced.
            let inc : s.incoming ≡ x.0.0 ++ (magic_prefix ++ (y.0.0 ++ rest)) =
              e
              ∙ append_assoc x.0.0 (magic_prefix ++ y.0.0) rest
              ∙ ap (λ q. x.0.0 ++ q) (append_assoc magic_prefix y.0.0 rest) in
            let (d₁, r₁, synced₁) =
              gob.header c.encoder x.1 s.decoder h x.0.0 (magic_prefix ++ (y.0.0 ++ rest)) synced
                (ap (λ o. ((x.0.0, o), x.1)) f.head_ok) in
            let (d₂, r₂, synced₂) =
              gob.body x.1 y.1 d₁ blob y.0.0 rest synced₁ (ap (λ o. ((y.0.0, o), y.1)) f.body_ok) in
            let s₁ : LegacyCodec E D = record s {
              decoder = d₁;
              incoming = magic_prefix ++ (y.0.0 ++ rest);
            } in
            (
              s₁,
              record s₁ { decoder = d₂; incoming = rest },
              head_read g s h d₁ _ (magic_prefix ++ (y.0.0 ++ rest)) inc r₁,
              read_body s₁ (y.0.0 ++ rest) blob plaintext rest d₂ v refl r₂
                  (decrypt-encrypt_with nonce plaintext opens sized) (unmarshals v plaintext p),
              refl,
              subst (λ q. Synced q d₂) (sym f.encoder) synced₂,
            );
      }

  -- A message that one side has written without an error, and the other reads in step, arrives as
  -- it was, and the reader stands behind it.
  pub write_sealed-Carries :
      {Synced : E → D → Type 0}
      → IsGob g Synced
      → Unmarshals m
      → Opens crypto
      → (write : Bytes → Written) → WritesAll write
      → Carries (sealed_channel write) Synced (λ msg. length msg.nonce ≡ crypto.nonce_size)
  write_sealed-Carries gob unmarshals opens write all msg c c' sized e =
      elim (Result-cases (m.marshal msg.body)) [
        | inr (x, p) ↦ absurd (unfold write_sealed in ground (arith, p, e))
        | inl (plaintext, p) ↦
            let blob = encrypt_with crypto msg.nonce plaintext in
            carried gob unmarshals opens write all msg plaintext c c' sized p (
              framed write msg.header blob msg.flushing c c'
                (unfold write_sealed in ground (arith, p, e)))
      ]
