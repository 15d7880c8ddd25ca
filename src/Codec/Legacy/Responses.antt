-- ===== src/Codec/Legacy/Responses.antt =====
-- The response direction of the codecs of v2/codec: WriteResponse of the servers against
-- ReadResponseHeader and ReadResponseBody of the clients.
use rpc.Base.{
  Text, Bytes, ◌≡◌, refl, sym, ap, ◌∙◌, Option, none, ltb, length, take, drop, codes, Result, ok,
  err, arith, Bool-cases, Option-cases, Result-cases, inl, inr,
}
use rpc.Errors.{GoError}
use rpc.Codec.Crypto.{Aead, decrypt}
use rpc.Codec.Crypto.Laws.{Opens}
use rpc.Codec.Output.{Written, write_response, magic_prefix}
use rpc.Codec.Legacy.{
  slices_equal, Gob, Marshaller, LegacyCodec, read_header, read_gob_body, write_gob_request,
  write_gob_response, write_sealed, write_sealed_response, encoder_after, unseal_body, read_sealed,
  read_sealed_request, read_sealed_response,
}
use rpc.Codec.Output.Laws.{write_response-write_request}
use rpc.Codec.Legacy.Channel.{Message, Channel, Carried, Carries}
use rpc.Codec.Legacy.Open.{IsGob, open_channel, write_gob_request-Carries}
use rpc.Codec.Legacy.Frames.{Unmarshals, WritesAll, sealed_channel, write_sealed-Carries}

module _ {E D H V : Type 0} {Synced : E → D → Type 0} (ch ch' : Channel E D H V) where
  -- A channel that reads like another where that reads without an error.
  unchanged :
      (msg : Message H V) (c c' : LegacyCodec E D)
      → ((s s' : LegacyCodec E D) (h : H)
          → ch.read_head s ≡ (ok h, s')
          → ch'.read_head s ≡ (ok h, s'))
      → ((s s' : LegacyCodec E D) (v : V)
          → ch.read_rest s ≡ (ok v, s')
          → ch'.read_rest s ≡ (ok v, s'))
      → Carried ch Synced msg c c'
      → Carried ch' Synced msg c c'
  unchanged msg c c' heads rests k = record {
    wire = k.wire;
    sent = k.sent;
    emptied = k.emptied;
    received = λ s rest e synced.
        let (s₁, s₂, a, b, i, synced₂) = k.received s rest e synced in
        (s₁, s₂, heads s s₁ msg.header a, rests s₁ s₂ msg.body b, i, synced₂);
  }

module _ {E D H B : Type 0} (g : Gob E D H B) (closing : Option GoError) where
  -- The gob codecs of a server and a client.
  abbrev pub open_responses : Channel E D H B
  open_responses = record {
    write = λ msg c. write_gob_response g msg.header msg.body msg.flushing closing c;
    read_head = λ c. read_header g c;
    read_rest = λ c. read_gob_body g c;
  }

  pub write_gob_response-Carries :
      {Synced : E → D → Type 0} → IsGob g Synced → Carries open_responses Synced (λ msg. Unit)
  unfolding write_gob_response write_gob_request
  write_gob_response-Carries gob msg c c' fits e =
      let w = g.encode_header c.encoder msg.header in
      let b = (g.encode_body w.1 msg.body).0 in
      let o = write_response w.0 b msg.flushing closing c.output in
      let q =
        write_response-write_request w.0 b msg.flushing closing c.output o.1
          (ap (λ r. (r, o.1)) (ap (λ r. r.0) e)) in
      unchanged (open_channel g) open_responses msg c c' (λ s s' h a. a) (λ s s' v a. a)
        (write_gob_request-Carries g gob msg c c' fits (
          ap
            (λ r. (
              r.0,
              record c { output = r.1; encoder = encoder_after g c.encoder msg.header msg.body },
            ))
            q
          ∙ ap (λ r. (none, r.1)) e))

module _ {V : Type 0} (m : Marshaller V) (crypto : Aead) where
  -- The texts of its errors are all that the two directions differ in.
  unseal_body_texts :
      (decoding decrypting decoding' decrypting' : Text) (blob : Result GoError Bytes) (v : V)
      → unseal_body m crypto decoding decrypting blob ≡ ok v
      → unseal_body m crypto decoding' decrypting' blob ≡ ok v
  unfolding unseal_body
  unseal_body_texts decoding decrypting decoding' decrypting' (err e) v h =
      absurd (ground (arith, h))
  unseal_body_texts decoding decrypting decoding' decrypting' (ok bytes) v h =
      elim (Result-cases (decrypt crypto bytes)) [
        | inr (e, p) ↦ absurd (ground (arith, p, h))
        | inl (plaintext, p) ↦ ground (arith, p, h)
      ]

module _ {E D H V : Type 0} (g : Gob E D H Bytes) (m : Marshaller V) (crypto : Aead) where
  read_sealed_response-read_sealed_request :
      (s s' : LegacyCodec E D) (v : V)
      → read_sealed_request g m crypto s ≡ (ok v, s')
      → read_sealed_response g m crypto s ≡ (ok v, s')
  unfolding read_sealed_request read_sealed_response read_sealed
  read_sealed_response-read_sealed_request s s' v h =
      let n = length magic_prefix in
      elim (Bool-cases (ltb (length s.incoming) n)) [
        | inl t ↦ absurd (ground (arith, t, h))
        | inr t ↦ elim (Bool-cases (slices_equal (take n s.incoming) magic_prefix)) [
          | inr u ↦ absurd (ground (arith, t, u, h))
          | inl u ↦
              let (blob, d, rest) = g.decode_body s.decoder (drop n s.incoming) in
              let request =
                unseal_body m crypto (codes "request body decoding error")
                  (codes "request body decrypt error") blob in
              let response =
                unseal_body m crypto (codes "response body decoding error")
                  (codes "response body decrypt error") blob in
              let after : LegacyCodec E D = record s { decoder = d; incoming = rest } in
              let e : read_sealed_request g m crypto s ≡ (request, after) =
                rw (t, u, read_sealed_request, read_sealed) refl in
              let e' : read_sealed_response g m crypto s ≡ (response, after) =
                rw (t, u, read_sealed_response, read_sealed) refl in
              let h' = sym e ∙ h in
              let k =
                unseal_body_texts m crypto (codes "request body decoding error")
                  (codes "request body decrypt error") (codes "response body decoding error")
                  (codes "response body decrypt error") blob v (ap (λ o. o.0) h') in
              e' ∙ ap (λ r. (r, after)) k ∙ ap (λ o. (ok v, o.1)) h'
        ]
      ]

  -- The crypto codecs of a server and a client.
  abbrev pub sealed_responses : (Bytes → Written) → Option GoError → Channel E D H V
  sealed_responses write closing = record {
    write = λ msg c.
        write_sealed_response g m crypto write msg.header msg.body msg.nonce msg.flushing closing c;
    read_head = λ c. read_header g c;
    read_rest = λ c. read_sealed_response g m crypto c;
  }

  write_sealed_response-write_sealed :
      (write : Bytes → Written) (closing : Option GoError) (msg : Message H V)
      (c c' : LegacyCodec E D)
      → write_sealed_response g m crypto write msg.header msg.body msg.nonce msg.flushing closing c
        ≡ (none, c')
      → write_sealed g m crypto write msg.header msg.body msg.nonce msg.flushing c ≡ (none, c')
  unfolding write_sealed_response
  write_sealed_response-write_sealed write closing msg c c' e =
      let o = write_sealed g m crypto write msg.header msg.body msg.nonce msg.flushing c in
      elim (Option-cases o.0) [
        | inr (x, p) ↦ absurd (ground (arith, p, e))
        | inl p ↦ ground (arith, p, e)
      ]

  pub write_sealed_response-Carries :
      {Synced : E → D → Type 0}
      → IsGob g Synced
      → Unmarshals m
      → Opens crypto
      → (write : Bytes → Written) → WritesAll write
      → (closing : Option GoError)
      → Carries
          (sealed_responses write closing)
          Synced
          (λ msg. length msg.nonce ≡ crypto.nonce_size)
  write_sealed_response-Carries gob unmarshals opens write all closing msg c c' sized e =
      unchanged (sealed_channel g m crypto write) (sealed_responses write closing) msg c c'
        (λ s s' h a. a) read_sealed_response-read_sealed_request
        (write_sealed-Carries g m crypto gob unmarshals opens write all msg c c' sized
          (write_sealed_response-write_sealed write closing msg c c' e))
