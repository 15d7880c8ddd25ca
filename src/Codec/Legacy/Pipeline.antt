-- ===== src/Codec/Legacy/Pipeline.antt =====
-- Any number of requests in a row over the gob and over the crypto codecs of v2/codec: WriteRequest
-- of the clients against ReadRequestHeader and ReadRequestBody of the servers.
use rpc.Base.{◌≡◌, Bytes, none, List, [], length, All}
use rpc.Codec.Crypto.{Aead}
use rpc.Codec.Crypto.Laws.{Opens}
use rpc.Codec.Output.{Written}
use rpc.Codec.Legacy.{Gob, Marshaller, LegacyCodec}
use rpc.Codec.Legacy.Channel.{Message, write_requests, Delivered, write_requests-Delivered}
use rpc.Codec.Legacy.Open.{IsGob, open_channel, write_gob_request-Carries, anyhow}
use rpc.Codec.Legacy.Frames.{Unmarshals, WritesAll, sealed_channel, write_sealed-Carries}

module _ {E D H V : Type 0} {Synced : E → D → Type 0} where
  -- If gob reads what it writes, what is marshalled unmarshals, GCM opens what it sealed and Write
  -- writes all or fails, requests that a crypto client has written in a row without an error, from
  -- an empty buffer and with nonces of the right length, are read back by a server in step with it:
  -- all of them, in their order, and no byte of what follows.
  pub sealed_channel-Delivered :
      (g : Gob E D H Bytes) (m : Marshaller V) (crypto : Aead)
      → IsGob g Synced
      → Unmarshals m
      → Opens crypto
      → (write : Bytes → Written) → WritesAll write
      → (msgs : List (Message H V)) (c c' : LegacyCodec E D) → c.output.pending ≡ []
      → All (λ msg. length msg.nonce ≡ crypto.nonce_size) msgs
      → write_requests (sealed_channel g m crypto write) msgs c ≡ (none, c')
      → Delivered (sealed_channel g m crypto write) Synced msgs c c'
  sealed_channel-Delivered g m crypto gob unmarshals opens write all =
      write_requests-Delivered (sealed_channel g m crypto write)
        (write_sealed-Carries g m crypto gob unmarshals opens write all)

  -- If gob reads what it writes, requests that a gob client has written in a row without an error, from an empty buffer, are
  -- read back by a server in step with it: all of them, in their order, and no byte of what
  -- follows.
  pub open_channel-Delivered :
      (g : Gob E D H V)
      → IsGob g Synced
      → (msgs : List (Message H V)) (c c' : LegacyCodec E D) → c.output.pending ≡ []
      → write_requests (open_channel g) msgs c ≡ (none, c')
      → Delivered (open_channel g) Synced msgs c c'
  open_channel-Delivered g gob msgs c c' p e =
      write_requests-Delivered (open_channel g) (write_gob_request-Carries g gob) msgs c c' p
        (anyhow msgs) e
