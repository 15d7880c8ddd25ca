-- ===== src/Codec/Legacy/Versions/Calls.antt =====
-- Rounds of calls between clients and servers of v1 and v2.
use rpc.Base.{refl, Bytes, Option, List, [], ◌∷◌, All}
use rpc.Errors.{GoError}
use rpc.Codec.Crypto.{Aead}
use rpc.Codec.Crypto.Laws.{Opens}
use rpc.Codec.Output.{Written}
use rpc.Codec.Legacy.{
  Gob, Marshaller, read_header, read_gob_body, write_gob_request, write_gob_response,
}
use rpc.Codec.Legacy.Channel.{Message}
use rpc.Codec.Legacy.Open.{IsGob, open_channel, write_gob_request-Carries}
use rpc.Codec.Legacy.Frames.{Unmarshals, WritesAll}
use rpc.Codec.Legacy.Responses.{open_responses, write_gob_response-Carries}
use rpc.Codec.Legacy.Exchange.{Link}
use rpc.Codec.Legacy.Exchange.Rounds.{Separates, Ready, Sound, Serves, session-Serves}
use rpc.Codec.Legacy.Exchange.Crypto.{Sized, sealed_session-Serves}
use rpc.Codec.Legacy.Versions.{
  Version, v1, v2, crypto_requests, crypto_responses, gob_requests, gob_responses,
}

module _ {E D H B : Type 0} (g : Gob E D H B) where
  open_channel-Separates : Separates (open_channel g)
  unfolding write_gob_request read_header read_gob_body
  open_channel-Separates = record {
    writes = λ msg c. (refl, refl);
    heads = λ c. (refl, refl);
    rests = λ c. (refl, refl);
  }

  open_responses-Separates : (closing : Option GoError) → Separates (open_responses g closing)
  unfolding write_gob_response read_header read_gob_body
  open_responses-Separates closing = record {
    writes = λ msg c. (refl, refl);
    heads = λ c. (refl, refl);
    rests = λ c. (refl, refl);
  }

module _ {H V K W : Type 0} (answer : H × V → Message K W) where
  always : (msgs : List (Message H V)) → All (Sound answer (λ msg. Unit) (λ msg. Unit)) msgs
  always [] = tt
  always (msg ∷ msgs) = ((tt, tt), always msgs)

  always_all :
      (rounds : List (List (Message H V)))
      → All (λ msgs. All (Sound answer (λ msg. Unit) (λ msg. Unit)) msgs) rounds
  always_all [] = tt
  always_all (msgs ∷ rounds) = (always msgs, always_all rounds)

module _ {E D H V K W : Type 0} {Synced Synced' : E → D → Type 0} where
  open_session-Serves :
      (g : Gob E D H V) (g' : Gob E D K W) (closing : Option GoError) (answer : H × V → Message K W)
      → IsGob g Synced
      → IsGob g' Synced'
      → (rounds : List (List (Message H V))) (l : Link E D) → Ready Synced Synced' l
      → Serves Synced Synced' (open_channel g) (open_responses g' closing) answer rounds l
  open_session-Serves g g' closing answer gob gob' rounds l ready =
      session-Serves (open_channel g) (open_responses g' closing) answer (open_channel-Separates g)
        (open_responses-Separates g' closing) (write_gob_request-Carries g gob)
        (write_gob_response-Carries g' closing gob') rounds l ready (always_all answer rounds)

  -- Between a gob client and a gob server of v1 or v2, whichever each is of: if gob reads what it
  -- writes and the codecs are in step, every request of every round of calls gets the reply that
  -- the server has for it, in the order of the requests, and the codecs stay in step, unless a
  -- write fails; no read does.
  pub gob_calls-Serves :
      (from to : Version) (g : Gob E D H V) (g' : Gob E D K W) (closing : Option GoError)
      (answer : H × V → Message K W)
      → IsGob g Synced
      → IsGob g' Synced'
      → (rounds : List (List (Message H V))) (l : Link E D) → Ready Synced Synced' l
      → Serves Synced Synced'
          (gob_requests g from to)
          (gob_responses g' to from closing)
          answer
          rounds
          l
  gob_calls-Serves v1 v1 = open_session-Serves
  gob_calls-Serves v1 v2 = open_session-Serves
  gob_calls-Serves v2 v1 = open_session-Serves
  gob_calls-Serves v2 v2 = open_session-Serves

  -- Between a crypto client and a crypto server of v1 or v2, whichever each is of: if gob reads what
  -- it writes, what is marshalled unmarshals, GCM opens what it sealed and Write writes all or
  -- fails, and the codecs are in step, every request of every round of calls, with nonces of the
  -- right length, gets the reply that the server has for it, in the order of the requests, and the
  -- codecs stay in step, unless a write fails; no read does.
  pub crypto_calls-Serves :
      (from to : Version) (crypto : Aead) (g : Gob E D H Bytes) (g' : Gob E D K Bytes)
      (m : Marshaller V) (m' : Marshaller W) (write write' : Bytes → Written)
      (closing : Option GoError) (answer : H × V → Message K W)
      → IsGob g Synced
      → IsGob g' Synced'
      → Unmarshals m
      → Unmarshals m'
      → Opens crypto
      → WritesAll write
      → WritesAll write'
      → (rounds : List (List (Message H V))) (l : Link E D) → Ready Synced Synced' l
      → All (λ msgs. All (Sound answer (Sized crypto) (Sized crypto)) msgs) rounds
      → Serves Synced Synced'
          (crypto_requests g m crypto from to write)
          (crypto_responses g' m' crypto to from write' closing)
          answer
          rounds
          l
  crypto_calls-Serves v1 v1 crypto = sealed_session-Serves crypto
  crypto_calls-Serves v1 v2 crypto = sealed_session-Serves crypto
  crypto_calls-Serves v2 v1 crypto = sealed_session-Serves crypto
  crypto_calls-Serves v2 v2 crypto = sealed_session-Serves crypto
