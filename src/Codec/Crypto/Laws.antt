-- ===== src/Codec/Crypto/Laws.antt =====
-- Crypto of v3/codec/json_crypto_codec.go under the documented behaviour of its primitives.
use rpc.Base.{
  Bytes, true, ◌≡◌, ◌++◌, length, ok, arith, length-append, take-append_length, drop-append_length,
}
use rpc.Codec.Crypto.{Aead, Primitives, is_key_size, normalize_key, new_crypto, encrypt, decrypt}

-- What the standard library says of the primitives: a digest has 32 bytes, and AES takes keys of
-- 16, 24 and 32 bytes.
pub record IsStandard {Block : Type 0} (p : Primitives Block) : Type 0 where
  pub digest : (key : Bytes) → length (p.sum256 key) ≡ 32
  pub cipher :
      (key : Bytes)
      → is_key_size (length key) ≡ true
      → (block : Block) × (p.new_cipher key ≡ ok block)
  pub gcm : (block : Block) → (c : Aead) × (p.new_gcm block ≡ ok c)

-- What GCM promises: a sealed text opens under its nonce.
abbrev pub Opens : Aead → Type 0
Opens c =
    (nonce plaintext : Bytes)
    → length nonce ≡ c.nonce_size
    → c.unseal nonce (c.seal nonce plaintext) ≡ ok plaintext

-- A text encrypted under a nonce of the right length decrypts to itself.
pub decrypt-encrypt :
    (c : Aead) (nonce plaintext sealed : Bytes)
    → Opens c
    → length nonce ≡ c.nonce_size
    → encrypt c (ok nonce) plaintext ≡ ok sealed
    → decrypt c sealed ≡ ok plaintext
decrypt-encrypt c nonce plaintext sealed law n h =
    let e : sealed ≡ nonce ++ c.seal nonce plaintext = unfold encrypt in ground (arith, h) in
    rw e (
      unfold decrypt in
      ground (
        arith,
        n,
        length-append nonce (c.seal nonce plaintext),
        take-append_length nonce (c.seal nonce plaintext),
        drop-append_length nonce (c.seal nonce plaintext),
        law nonce plaintext n,
      ))

module _ {Block : Type 0} (p : Primitives Block) (standard : IsStandard p) where
  normalize_key_size : (key : Bytes) → is_key_size (length (normalize_key p key)) ≡ true
  unfolding normalize_key is_key_size
  normalize_key_size key = ground (arith, standard.digest key)

  -- Every secret makes a cipher, whatever its length.
  pub new_crypto_total : (key : Bytes) → (c : Aead) × (new_crypto p key ≡ ok c)
  unfolding new_crypto
  new_crypto_total key =
      let (block, b) = standard.cipher (normalize_key p key) (normalize_key_size key) in
      let (c, g) = standard.gcm block in (c, rw (b, g))
