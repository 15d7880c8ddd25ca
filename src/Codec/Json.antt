-- ===== src/Codec/Json.antt =====
-- The reading side of the codecs of v3/codec: headers and bodies through a json.Decoder over the
-- byte budget (json_server_codec.go, json_client_codec.go), and the bodies of the crypto codecs
-- between them (json_crypto_codec.go). encoding/json's Decoder is a parameter: what Decode does
-- next in each of its states.
pub mod Values
pub mod Delivery
pub mod Requests
pub mod Sealed
pub mod Decoding
pub mod Bodies
pub mod Session
use rpc.Base.{
  ℕ, zero, suc, ◌+◌, Bytes, Option, none, some, is_some, List, [], ◌∷◌, length, take, drop, Result,
  ok, err,
}
use rpc.Base.Int.{ℤ}
use rpc.Errors.{GoError}
use rpc.Codec.Stream.{Conn, BudgetReader, effective_max_body, reset_budget, budget_read}
use rpc.Codec.Crypto.{Aead}
use rpc.Codec.Body.{BlobReader, read_body}

-- What Decode is asked for: a header, json.RawMessage, or the caller's body.
pub data Target (B : Type 0) : Type 0 where
  to_header to_raw : Target B
  to_body : B → Target B

-- Decode Reads up to `suc n` bytes, or returns.
pub data JsonStep (S V : Type 0) : Type 0 where
  reads : ℕ → JsonStep S V
  returns : Result GoError V → S → JsonStep S V

pub record JsonDecoder (S B V : Type 0) : Type 0 where
  pub fresh : S
  pub step : Target B → S → JsonStep S V
  -- The state after a Read.
  pub feed : S → Result GoError Bytes → S
  pub buffered : S → Bytes

-- jsonClientCodec, its reading side. `front` are the bytes that io.MultiReader puts before the
-- budget; there are some in crypto codecs only.
pub record JsonCodec (S : Type 0) : Type 0 where
  pub decoder : S
  pub front : Bytes
  pub budget : BudgetReader
  pub max_body : ℕ

-- Read of io.MultiReader over bytes and the budget
unfoldable pub multi_read : ℕ → Bytes → BudgetReader → Result GoError Bytes × Bytes × BudgetReader
multi_read n (x ∷ xs) b = (ok (take n (x ∷ xs)), drop n (x ∷ xs), b)
multi_read n [] b = let (r, b') = budget_read n b in (r, [], b')

module _ {S B V : Type 0} (d : JsonDecoder S B V) where
  -- newJSONClientCodec
  unfoldable pub new_json_reader : Conn → ℤ → JsonCodec S
  new_json_reader conn max_body = record {
    decoder = d.fresh;
    front = [];
    budget = record { conn = conn; left = effective_max_body max_body };
    max_body = effective_max_body max_body;
  }

  -- Decode, at most `fuel` Reads; `none` is a Decode that needs more.
  unfoldable pub decode :
      Target B → ℕ → S → Bytes → BudgetReader → Option (Result GoError V × S × Bytes × BudgetReader)
  decode t zero s front b = elim (d.step t s) [
    | returns r s' ↦ some (r, s', front, b)
    | reads n ↦ none
  ]
  decode t (suc fuel) s front b = elim (d.step t s) [
    | returns r s' ↦ some (r, s', front, b)
    | reads n ↦
        let (got, front', b') = multi_read (suc n) front b in decode t fuel (d.feed s got) front' b'
  ]

  -- A Decode on a budget that is full again. Every Read without an error takes a byte of `front` or
  -- of the budget.
  unfoldable pub read_json : Target B → JsonCodec S → Option (Result GoError V × JsonCodec S)
  unfolding reset_budget decode
  read_json t c =
      elim (decode t (suc (length c.front + c.max_body)) c.decoder c.front
        (reset_budget c.max_body c.budget)) [
          | none ↦ none
          | some (r, s, front, b) ↦ some (r, record c { decoder = s; front = front; budget = b })
        ]

  -- ReadRequestHeader and ReadResponseHeader of the plain and of the crypto codecs
  unfoldable pub read_json_header : JsonCodec S → Option (Result GoError V × JsonCodec S)
  unfolding read_json
  read_json_header c = read_json to_header c

  -- ReadRequestBody and ReadResponseBody of the plain codecs; without a body, a value is discarded
  unfoldable pub read_json_body : Option B → JsonCodec S → Option (Result GoError V × JsonCodec S)
  unfolding read_json
  read_json_body none c = read_json to_raw c
  read_json_body (some body) c = read_json (to_body body) c

  -- ReadResponseBody of the crypto codec: the body behind what the decoder has buffered, and a new
  -- decoder behind what is left of that. What the old decoder had yet to Read of `front` is gone.
  unfoldable pub read_crypto_message :
      BlobReader
      → Aead
      → (Option B → Bytes → Result GoError V)
      → Option B
      → JsonCodec S
      → Option (Result GoError V × JsonCodec S)
  unfolding read_body
  read_crypto_message blobs crypto unmarshal body c =
      elim (read_body blobs crypto c.max_body (unmarshal body) (is_some body) (d.buffered c.decoder)
        c.budget) [
          | none ↦ none
          | some (r, (rest, b)) ↦ some (r, record c { decoder = d.fresh; front = rest; budget = b })
        ]

-- The bodies of a codec: plain, or encrypted with what that takes.
pub data Framing (B V : Type 0) : Type 0 where
  plain : Framing B V
  sealed : BlobReader → Aead → (Option B → Bytes → Result GoError V) → Framing B V

pub data Reading (B : Type 0) : Type 0 where
  header : Reading B
  body : Option B → Reading B

module _ {S B V : Type 0} (d : JsonDecoder S B V) where
  -- One of the codec's Read methods.
  unfoldable pub read_message :
      Framing B V → Reading B → JsonCodec S → Option (Result GoError V × JsonCodec S)
  unfolding read_json_header read_json_body read_crypto_message
  read_message f header c = read_json_header d c
  read_message plain (body b) c = read_json_body d b c
  read_message (sealed blobs crypto unmarshal) (body b) c =
      read_crypto_message d blobs crypto unmarshal b c

  -- One after the other, whatever they return.
  unfoldable pub read_messages :
      Framing B V → List (Reading B) → JsonCodec S → Option (List (Result GoError V) × JsonCodec S)
  unfolding read_message
  read_messages f [] c = some ([], c)
  read_messages f (r ∷ rs) c = elim (read_message f r c) [
    | none ↦ none
    | some (v, c') ↦ elim (read_messages f rs c') [
      | none ↦ none
      | some (vs, c'') ↦ some (v ∷ vs, c'')
    ]
  ]
