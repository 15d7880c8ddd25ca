-- ===== src/Codec/Legacy/Exchange/Crypto.antt =====
-- Rounds of calls with the crypto codecs of v2/codec.
use rpc.Base.{
  Text, inl, inr, ◌≡◌, refl, Bytes, Option, List, length, take, ltb, All, arith, Bool-cases,
  Option-cases, Result-cases,
}
use rpc.Errors.{GoError}
use rpc.Codec.Crypto.{Aead}
use rpc.Codec.Crypto.Laws.{Opens}
use rpc.Codec.Output.{Written, magic_prefix}
use rpc.Codec.Legacy.{
  Gob, Marshaller, LegacyCodec, slices_equal, read_header, encrypt_with, write_frames, write_sealed,
  write_sealed_response, read_sealed, read_sealed_request, read_sealed_response,
}
use rpc.Codec.Legacy.Channel.{Message}
use rpc.Codec.Legacy.Open.{IsGob}
use rpc.Codec.Legacy.Frames.{Unmarshals, WritesAll, sealed_channel, write_sealed-Carries}
use rpc.Codec.Legacy.Responses.{sealed_responses, write_sealed_response-Carries}
use rpc.Codec.Legacy.Exchange.{Link}
use rpc.Codec.Legacy.Exchange.Rounds.{Separates, Ready, Sound, Serves, session-Serves}

module _ {E D H V : Type 0} (g : Gob E D H Bytes) (m : Marshaller V) (crypto : Aead)
    (write : Bytes → Written) where
  abbrev KeepsReader : LegacyCodec E D → Option GoError × LegacyCodec E D → Type 0
  KeepsReader c o = (o.1.decoder ≡ c.decoder) × (o.1.incoming ≡ c.incoming)

  abbrev KeepsWriter : {A : Type 0} → LegacyCodec E D → A × LegacyCodec E D → Type 0
  KeepsWriter c o = (o.1.encoder ≡ c.encoder) × (o.1.output ≡ c.output)

  write_frames-KeepsReader :
      (h : H) (blob : Bytes) (flushing : Option GoError) (c : LegacyCodec E D)
      → KeepsReader c (write_frames g m crypto write h blob flushing c)
  unfolding write_frames
  write_frames-KeepsReader h blob flushing c = ground (
    arith,
    Option-cases (g.encode_header c.encoder h).0.1,
    Option-cases (write magic_prefix).1,
    Option-cases (g.encode_body (g.encode_header c.encoder h).1 blob).0.1,
  )

  write_sealed-KeepsReader :
      (h : H) (v : V) (nonce : Bytes) (flushing : Option GoError) (c : LegacyCodec E D)
      → KeepsReader c (write_sealed g m crypto write h v nonce flushing c)
  unfolding write_sealed
  write_sealed-KeepsReader h v nonce flushing c = elim (Result-cases (m.marshal v)) [
    | inr (e, p) ↦ rw (p, write_sealed) (refl, refl)
    | inl (plaintext, p) ↦
        rw (p, write_sealed)
          (write_frames-KeepsReader h (encrypt_with crypto nonce plaintext) flushing c)
  ]

  write_sealed_response-KeepsReader :
      (h : H) (v : V) (nonce : Bytes) (flushing closing : Option GoError) (c : LegacyCodec E D)
      → KeepsReader c (write_sealed_response g m crypto write h v nonce flushing closing c)
  unfolding write_sealed_response
  write_sealed_response-KeepsReader h v nonce flushing closing c =
      let k = write_sealed-KeepsReader h v nonce flushing c in
      ground (arith, k, Option-cases (write_sealed g m crypto write h v nonce flushing c).0)

  read_header-KeepsWriter : (c : LegacyCodec E D) → KeepsWriter c (read_header g c)
  unfolding read_header
  read_header-KeepsWriter c = (refl, refl)

  read_sealed-KeepsWriter :
      (decoding decrypting : Text) (c : LegacyCodec E D)
      → KeepsWriter c (read_sealed g m crypto decoding decrypting c)
  unfolding read_sealed
  read_sealed-KeepsWriter decoding decrypting c =
      let n = length magic_prefix in
      elim (Bool-cases (ltb (length c.incoming) n)) [
        | inl t ↦ rw (t, read_sealed) (refl, refl)
        | inr t ↦ elim (Bool-cases (slices_equal (take n c.incoming) magic_prefix)) [
          | inl u ↦ rw (t, u, read_sealed) (refl, refl)
          | inr u ↦ rw (t, u, read_sealed) (refl, refl)
        ]
      ]

  sealed_channel-Separates : Separates (sealed_channel g m crypto write)
  unfolding read_sealed_request
  sealed_channel-Separates = record {
    writes = λ msg c. write_sealed-KeepsReader msg.header msg.body msg.nonce msg.flushing c;
    heads = read_header-KeepsWriter;
    rests = λ c. read_sealed-KeepsWriter _ _ c;
  }

  sealed_responses-Separates :
      (closing : Option GoError) → Separates (sealed_responses g m crypto write closing)
  unfolding read_sealed_response
  sealed_responses-Separates closing = record {
    writes = λ msg c.
        write_sealed_response-KeepsReader msg.header msg.body msg.nonce msg.flushing closing c;
    heads = read_header-KeepsWriter;
    rests = λ c. read_sealed-KeepsWriter _ _ c;
  }

-- The nonce of a message has the right length.
abbrev pub Sized : {A B : Type 0} → Aead → Message A B → Type 0
Sized crypto msg = length msg.nonce ≡ crypto.nonce_size

module _ {E D H V K W : Type 0} {Synced Synced' : E → D → Type 0} (crypto : Aead) where
  -- If gob reads what it writes, what is marshalled unmarshals, GCM opens what it sealed and Write
  -- writes all or fails, crypto codecs of a client and a server that are in step serve rounds of
  -- calls: every request of every round gets the reply that the server has for it, in the order of
  -- the requests, and the codecs stay in step, unless a write fails; no read does.
  pub sealed_session-Serves :
      (g : Gob E D H Bytes) (g' : Gob E D K Bytes) (m : Marshaller V) (m' : Marshaller W)
      (write write' : Bytes → Written) (closing : Option GoError) (answer : H × V → Message K W)
      → IsGob g Synced
      → IsGob g' Synced'
      → Unmarshals m
      → Unmarshals m'
      → Opens crypto
      → WritesAll write
      → WritesAll write'
      → (rounds : List (List (Message H V))) (l : Link E D) → Ready Synced Synced' l
      → All (λ msgs. All (Sound answer (Sized crypto) (Sized crypto)) msgs) rounds
      → Serves Synced Synced'
          (sealed_channel g m crypto write)
          (sealed_responses g' m' crypto write' closing)
          answer
          rounds
          l
  sealed_session-Serves g g' m m' write write' closing answer gob gob' un un' opens all all' =
      session-Serves (sealed_channel g m crypto write)
        (sealed_responses g' m' crypto write' closing) answer
        (sealed_channel-Separates g m crypto write)
        (sealed_responses-Separates g' m' crypto write' closing)
        (write_sealed-Carries g m crypto gob un opens write all)
        (write_sealed_response-Carries g' m' crypto gob' un' opens write' all' closing)
