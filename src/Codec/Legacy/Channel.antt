-- ===== src/Codec/Legacy/Channel.antt =====
-- Requests in a row over one connection: WriteRequest of a client codec of v2/codec against
-- ReadRequestHeader and ReadRequestBody of the server codec. A `Channel` is the three methods,
-- which Open and Pipeline fill with those of the gob and of the crypto codec.
use rpc.Base.{
  ℕ, zero, suc, Bytes, ◌≡◌, refl, sym, ap, ◌∙◌, Option, none, some, List, [], ◌∷◌, ◌++◌, map,
  length, Result, ok, err, arith, All, Option-cases, inl, inr, append_assoc, append_nil,
}
use mathlib.Core.Path.{subst}
use rpc.Errors.{GoError}
use rpc.Codec.Legacy.{LegacyCodec}

-- A request, with the nonce of its encryption, if it is encrypted, and the outcome of the Flush
-- behind it.
pub record Message (H V : Type 0) : Type 0 where
  pub header : H
  pub body : V
  pub nonce : Bytes
  pub flushing : Option GoError

abbrev pub content : {H V : Type 0} → Message H V → H × V
content msg = (msg.header, msg.body)

pub record Channel (E D H V : Type 0) : Type 0 where
  pub write : Message H V → LegacyCodec E D → Option GoError × LegacyCodec E D
  pub read_head : LegacyCodec E D → Result GoError H × LegacyCodec E D
  pub read_rest : LegacyCodec E D → Result GoError V × LegacyCodec E D

module _ {E D H V : Type 0} (ch : Channel E D H V) where
  -- One WriteRequest after the other, up to the first error.
  unfoldable pub write_requests :
      List (Message H V) → LegacyCodec E D → Option GoError × LegacyCodec E D
  write_requests [] c = (none, c)
  write_requests (msg ∷ msgs) c =
      let (r, c') = ch.write msg c in
      elim r [ some e ↦ (some e, c') | none ↦ write_requests msgs c' ]

  -- As many headers, each with its body, up to the first error.
  unfoldable pub read_requests :
      ℕ → LegacyCodec E D → Result GoError (List (H × V)) × LegacyCodec E D
  read_requests zero s = (ok [], s)
  read_requests (suc n) s =
      let (h, s₁) = ch.read_head s in
      let (v, s₂) = ch.read_rest s₁ in
      let (more, s₃) = read_requests n s₂ in
      elim h [
        | err e ↦ (err e, s₁)
        | ok header ↦ elim v [
          | err e ↦ (err e, s₂)
          | ok body ↦ elim more [ err e ↦ (err e, s₃) | ok rest ↦ (ok ((header, body) ∷ rest), s₃) ]
        ]
      ]

  -- What one request puts on the wire, for whoever reads it in step.
  pub record Carried (Synced : E → D → Type 0) (msg : Message H V) (c c' : LegacyCodec E D)
      : Type 0 where
    pub wire : Bytes
    pub sent : c'.output.sent ≡ c.output.sent ++ (c.output.pending ++ wire)
    pub emptied : c'.output.pending ≡ []
    pub received :
        (s : LegacyCodec E D) (rest : Bytes)
        → s.incoming ≡ wire ++ rest
        → Synced c.encoder s.decoder
        → (s₁ : LegacyCodec E D) × (s₂ : LegacyCodec E D) × (ch.read_head s ≡ (ok msg.header, s₁))
          × (ch.read_rest s₁ ≡ (ok msg.body, s₂))
          × (s₂.incoming ≡ rest)
          × Synced c'.encoder s₂.decoder

  -- A channel that carries every fitting request that it writes without an error.
  abbrev pub Carries : (E → D → Type 0) → (Message H V → Type 0) → Type 0
  Carries Synced Fits =
      (msg : Message H V) (c c' : LegacyCodec E D)
      → Fits msg
      → ch.write msg c ≡ (none, c')
      → Carried Synced msg c c'

  read_one :
      (n : ℕ) (h : H) (v : V) (l : List (H × V)) (s s₁ s₂ s₃ : LegacyCodec E D)
      → ch.read_head s ≡ (ok h, s₁)
      → ch.read_rest s₁ ≡ (ok v, s₂)
      → read_requests n s₂ ≡ (ok l, s₃)
      → read_requests (suc n) s ≡ (ok ((h, v) ∷ l), s₃)
  unfolding read_requests
  read_one n h v l s s₁ s₂ s₃ a b c = ground (arith, a, b, c)

  -- What reached the wire is read back request by request, whatever follows it.
  pub record Delivered (Synced : E → D → Type 0) (msgs : List (Message H V))
      (c c' : LegacyCodec E D) : Type 0 where
    pub wire : Bytes
    pub sent : c'.output.sent ≡ c.output.sent ++ wire
    pub emptied : c'.output.pending ≡ []
    pub received :
        (s : LegacyCodec E D) (rest : Bytes)
        → s.incoming ≡ wire ++ rest
        → Synced c.encoder s.decoder
        → (s' : LegacyCodec E D) × (read_requests (length msgs) s ≡ (ok (map content msgs), s'))
          × (s'.incoming ≡ rest)
          × Synced c'.encoder s'.decoder

  module _ {Synced : E → D → Type 0} where
    delivered :
        (msg : Message H V) (msgs : List (Message H V)) (c c₁ c' : LegacyCodec E D)
        → c.output.pending ≡ []
        → Carried Synced msg c c₁
        → Delivered Synced msgs c₁ c'
        → Delivered Synced (msg ∷ msgs) c c'
    delivered msg msgs c c₁ c' p one more = record {
      wire = one.wire ++ more.wire;
      sent =
          more.sent
          ∙ ap (λ x. x ++ more.wire) (one.sent ∙ ap (λ x. c.output.sent ++ (x ++ one.wire)) p)
          ∙ append_assoc c.output.sent one.wire more.wire;
      emptied = more.emptied;
      received = λ s rest e synced.
          let (s₁, s₂, a, b, i, synced₂) =
            one.received s (more.wire ++ rest) (e ∙ append_assoc one.wire more.wire rest) synced in
          let (s₃, q, j, synced₃) = more.received s₂ rest i synced₂ in
          (
            s₃,
            read_one (length msgs) msg.header msg.body (map content msgs) s s₁ s₂ s₃ a b q,
            j,
            synced₃,
          );
    }

    nothing : (c : LegacyCodec E D) → c.output.pending ≡ [] → Delivered Synced [] c c
    unfolding read_requests
    nothing c p = record {
      wire = [];
      sent = sym (append_nil c.output.sent);
      emptied = p;
      received = λ s rest e synced. (s, refl, e, synced);
    }

    -- Requests in a row that a channel wrote without an error, from an empty buffer, are read back
    -- in step: all of them, in their order, and no byte of what follows.
    pub write_requests-Delivered :
        {Fits : Message H V → Type 0}
        → Carries Synced Fits
        → (msgs : List (Message H V)) (c c' : LegacyCodec E D) → c.output.pending ≡ []
        → All Fits msgs
        → write_requests msgs c ≡ (none, c')
        → Delivered Synced msgs c c'
    unfolding write_requests
    write_requests-Delivered carries [] c c' p fits e =
        subst (Delivered Synced [] c) (cc e) (nothing c p)
    write_requests-Delivered carries (msg ∷ msgs) c c' p fits e =
        let (r, c₁) = ch.write msg c in
        elim (Option-cases r) [
          | inr (x, q) ↦ absurd (ground (arith, q, e))
          | inl q ↦
              let one = carries msg c c₁ fits.0 (ap (λ o. (o, c₁)) q) in
              delivered msg msgs c c₁ c' p one (
                write_requests-Delivered carries msgs c₁ c' one.emptied fits.1
                  (ground (arith, q, e)))
        ]
