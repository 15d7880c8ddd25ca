-- ===== src/Codec/Body.antt =====
-- The reading of an encrypted body: readCryptoBodySource and decodeCryptoBodySource of
-- v3/codec/json_crypto_codec.go, and ReadRequestBody, which ReadResponseBody mirrors. The gob
-- decoder is a parameter: what it does with the bytes read so far.
pub mod Laws
pub mod Prefix
pub mod RoundTrip
pub mod Reads
pub mod Chunks
use rpc.Base.{
  ℕ, zero, suc, ◌+◌, ◌-◌, Bytes, Bool, true, false, ◌||◌, Option, none, some, List, [], ◌∷◌, ◌++◌,
  ◌==◌, if◌then◌else◌, length, take, drop, codes, Result, ok, err,
}
use rpc.Errors.{GoError, sentinel, body_too_large, invalid_magic, wrap}
use rpc.Codec.Stream.{Conn, BudgetReader, clip, budget_read, reset_budget}
use rpc.Codec.Crypto.{Aead, decrypt}
use rpc.Codec.Output.{magic_prefix}

-- The bytes that the JSON decoder had buffered, the codec's budget over the connection, and what
-- is left of the body's own budget.
pub record BodySource : Type 0 where
  pub pending : Bytes
  pub inner : BudgetReader
  pub left : ℕ

-- io.MultiReader of the pending bytes and the codec's budget, under the body's budgetReader
unfoldable pub source_read : ℕ → BodySource → Result GoError Bytes × BodySource
unfolding clip
source_read n s =
    let size = clip n s.left in
    let (r, inner) = budget_read size s.inner in
    if s.left == 0 then (err (sentinel body_too_large), s) else elim s.pending [
      | b ∷ bs ↦
          let got = take size (b ∷ bs) in
          (ok got, record s { pending = drop size (b ∷ bs); left = s.left - length got })
      | [] ↦ elim r [
        | err e ↦ (err e, record s { inner = inner })
        | ok bytes ↦ (ok bytes, record s { inner = inner; left = s.left - length bytes })
      ]
    ]

unfoldable pub is_separator : ℕ → Bool
is_separator b = b == b' ' || b == b'\t' || b == b'\n' || b == b'\r'

-- One byte against what remains of the magic prefix: what then remains, or none for another byte.
-- In front of the prefix, separators are skipped.
unfoldable pub match_byte : ℕ → Bytes → Option Bytes
unfolding is_separator
match_byte b [] = none
match_byte b (m ∷ ms) =
    if length (m ∷ ms) == length magic_prefix
    then if is_separator b then some (m ∷ ms) else if b == m then some ms else none
    else if b == m
    then some ms
    else none

-- The loop over the prefix's bytes, at most `fuel` rounds; `none` is a loop that needs more.
unfoldable pub read_magic : ℕ → Bytes → BodySource → Option (Option GoError × BodySource)
read_magic fuel [] s = some (none, s)
read_magic zero (m ∷ ms) s = none
read_magic (suc fuel) (m ∷ ms) s =
    let (r, s') = source_read 1 s in
    elim r [
      | err e ↦ some (some (wrap (codes "rpc: crypto prefix read: ") e), s')
      | ok [] ↦ read_magic fuel (m ∷ ms) s'
      | ok (b ∷ bs) ↦ elim (match_byte b (m ∷ ms)) [
        | none ↦
            some (some (wrap (codes "rpc: invalid crypto prefix: ") (sentinel invalid_magic)), s')
        | some rest ↦ read_magic fuel rest s'
      ]
    ]

-- What gob.Decoder.Decode into a byte slice does with the bytes it has read: it Reads again, up to
-- `suc n` bytes, or it is done.
pub data BlobStep : Type 0 where
  more : ℕ → BlobStep
  decoded : Bytes → BlobStep
  failed : GoError → BlobStep

pub record BlobReader : Type 0 where
  pub step : Bytes → BlobStep
  -- Decode's error for a Read that failed, after the bytes read so far.
  pub cut : Bytes → GoError → GoError

unfoldable pub decode_blob :
    BlobReader → ℕ → Bytes → BodySource → Option (Result GoError Bytes × BodySource)
decode_blob d zero got s = elim (d.step got) [
  | decoded blob ↦ some (ok blob, s)
  | failed e ↦ some (err e, s)
  | more n ↦ none
]
decode_blob d (suc fuel) got s = elim (d.step got) [
  | decoded blob ↦ some (ok blob, s)
  | failed e ↦ some (err e, s)
  | more n ↦
      let (r, s') = source_read (suc n) s in
      elim r [
        | err e ↦ some (err (d.cut got e), s')
        | ok bytes ↦ decode_blob d fuel (got ++ bytes) s'
      ]
]

-- readCryptoBodySource. Its Reads take at most what is left, so rounds for every byte of the
-- limit are enough.
unfoldable pub read_crypto_body :
    BlobReader → Aead → ℕ → Bytes → BudgetReader → Option (Result GoError Bytes × BodySource)
read_crypto_body d crypto max_body pending inner =
    elim (read_magic (suc max_body) magic_prefix
      (record { pending = pending; inner = inner; left = max_body })) [
        | none ↦ none
        | some (some e, s) ↦ some (err e, s)
        | some (none, s) ↦ elim (decode_blob d (suc max_body) [] s) [
          | none ↦ none
          | some (err e, s') ↦ some (err (wrap (codes "rpc: crypto blob decode: ") e), s')
          | some (ok blob, s') ↦ elim (decrypt crypto blob) [
            | err e ↦ some (err (wrap (codes "rpc: body decrypt: ") e), s')
            | ok plaintext ↦ some (ok plaintext, s')
          ]
        ]
      ]

-- decodeCryptoBodySource, for json.Unmarshal into the body or, without a body, into raw JSON.
unfoldable pub decode_crypto_body {ℓ} :
    {A : Type ℓ} → (Bytes → Result GoError A) → Bool → Result GoError Bytes → Result GoError A
decode_crypto_body unmarshal has_body (err e) = err e
decode_crypto_body unmarshal has_body (ok plaintext) = elim (unmarshal plaintext) [
  | ok a ↦ ok a
  | err e ↦ err (
      wrap
        (if has_body then codes "rpc: json body unmarshal: " else codes "rpc: json body discard: ")
        e)
]

-- ReadRequestBody: the result, and the bytes and the budget that the next header's decoder reads.
unfoldable pub read_body {ℓ} :
    {A : Type ℓ}
    → BlobReader
    → Aead
    → ℕ
    → (Bytes → Result GoError A)
    → Bool
    → Bytes
    → BudgetReader
    → Option (Result GoError A × (Bytes × BudgetReader))
unfolding reset_budget
read_body d crypto max_body unmarshal has_body buffered budget =
    elim (read_crypto_body d crypto max_body buffered (reset_budget max_body budget)) [
      | none ↦ none
      | some (r, s) ↦ some (decode_crypto_body unmarshal has_body r, (s.pending, s.inner))
    ]
