-- ===== src/Codec/Crypto.antt =====
-- normalizeKey, newCrypto, Encrypt and Decrypt of v3/codec/json_crypto_codec.go. SHA-256, AES and
-- GCM are parameters; the bytes of rand.Read are an argument.
pub mod Laws
use rpc.Base.{
  ℕ, Text, Bytes, Bool, ◌||◌, ◌++◌, ◌==◌, ltb, if◌then◌else◌, length, take, drop, codes, Result, ok,
  err, ◌>>=◌,
}
use rpc.Errors.{GoError, failure, wrap, short_ciphertext}

-- cipher.AEAD: Seal and Open without additional data.
pub record Aead : Type 0 where
  pub nonce_size : ℕ
  pub seal : Bytes → Bytes → Bytes
  pub unseal : Bytes → Bytes → Result GoError Bytes

-- sha256.Sum256, and aes.NewCipher followed by cipher.NewGCM, each with its error.
pub record Primitives (Block : Type 0) : Type 0 where
  pub sum256 : Bytes → Bytes
  pub new_cipher : Bytes → Result GoError Block
  pub new_gcm : Block → Result GoError Aead

unfoldable pub is_key_size : ℕ → Bool
is_key_size n = n == 16 || n == 24 || n == 32

abbrev wrapped {ℓ} : {A : Type ℓ} → Text → Result GoError A → Result GoError A
wrapped text (ok a) = ok a
wrapped text (err e) = err (wrap text e)

module _ {Block : Type 0} (p : Primitives Block) where
  unfoldable pub normalize_key : Bytes → Bytes
  normalize_key key = if is_key_size (length key) then key else p.sum256 key

  -- newCrypto
  unfoldable pub new_crypto : Bytes → Result GoError Aead
  new_crypto key =
      wrapped (codes "rpc: create cipher: ") (p.new_cipher (normalize_key key)) >>= λ block.
      wrapped (codes "rpc: create gcm: ") (p.new_gcm block)

-- Encrypt, for the outcome of rand.Read into the nonce.
unfoldable pub encrypt : Aead → Result GoError Bytes → Bytes → Result GoError Bytes
encrypt c nonce plaintext =
    wrapped (codes "rpc: nonce generate: ") nonce >>= λ n. ok (n ++ c.seal n plaintext)

-- Decrypt
unfoldable pub decrypt : Aead → Bytes → Result GoError Bytes
decrypt c ciphertext =
    if ltb (length ciphertext) c.nonce_size
    then err (failure short_ciphertext)
    else c.unseal (take c.nonce_size ciphertext) (drop c.nonce_size ciphertext)
