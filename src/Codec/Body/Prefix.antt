-- ===== src/Codec/Body/Prefix.antt =====
-- The prefix of an encrypted body, in readCryptoBodySource of v3/codec/json_crypto_codec.go, where
-- the pending bytes hold it behind white space.
use rpc.Base.{
  ℕ, zero, suc, ◌-◌, ◌+◌, ◌≤◌, ◌≡◌, refl, ap, Bytes, [], ◌∷◌, ◌++◌, length, ok, none, some, arith,
  All, inl, inr, false, ◌⊎◌,
}
use rpc.Codec.Stream.{BudgetReader, clip}
use rpc.Codec.Output.{magic_prefix}
use rpc.Codec.Body.{source_read, is_separator, match_byte, read_magic}

-- The prefix loop takes the prefix off the pending bytes.
read_magic_prefix :
    (fuel : ℕ) (ms rest : Bytes) (inner : BudgetReader) (total left : ℕ)
    → All (λ m. is_separator m ≡ false) ms
    → length ms ≤ fuel
    → total ≡ length ms + left
    → read_magic fuel ms (record { pending = ms ++ rest; inner = inner; left = total })
      ≡ some (none, record { pending = rest; inner = inner; left = left })
unfolding read_magic
read_magic_prefix fuel [] rest inner total left a h t =
    ap (λ k. some (none, record { pending = rest; inner = inner; left = k })) (omega (arith, t))
read_magic_prefix zero (m ∷ ms) rest inner total left a h t = absurd (omega arith)
read_magic_prefix (suc fuel) (m ∷ ms) rest inner total left a h t =
    let e : source_read 1 (record { pending = m ∷ (ms ++ rest); inner = inner; left = total })
        ≡ (ok (m ∷ []), record { pending = ms ++ rest; inner = inner; left = total - 1 }) =
      unfold source_read in unfold clip in ground (arith, t) in
    let f : match_byte m (m ∷ ms) ≡ some ms = unfold match_byte in ground (arith, a.0) in
    let ih =
      read_magic_prefix fuel ms rest inner (total - 1) left a.1 (omega arith) (omega (arith, t)) in
    rw (ap (λ r. r.0) e, f, ap (λ r. r.1) e, read_magic) ih

-- A byte that may stand between a header and the prefix: a space, a tab, or an end of line.
abbrev pub IsSpace : ℕ → Type 0
IsSpace b = (b ≡ b' ') ⊎ ((b ≡ b'\t') ⊎ ((b ≡ b'\n') ⊎ (b ≡ b'\r')))

match_byte_space : (b : ℕ) → IsSpace b → match_byte b magic_prefix ≡ some magic_prefix
unfolding match_byte is_separator
match_byte_space b (inl p) = rw p refl
match_byte_space b (inr (inl p)) = rw p refl
match_byte_space b (inr (inr (inl p))) = rw p refl
match_byte_space b (inr (inr (inr p))) = rw p refl

-- The bytes in front of the prefix cost a round and a byte of the limit each.
pub read_magic_spaces :
    (fuel : ℕ) (spaces rest : Bytes) (inner : BudgetReader) (total left : ℕ)
    → All IsSpace spaces
    → length spaces + 5 ≤ fuel
    → total ≡ length spaces + 5 + left
    → read_magic fuel magic_prefix
        (record { pending = spaces ++ (magic_prefix ++ rest); inner = inner; left = total })
      ≡ some (none, record { pending = rest; inner = inner; left = left })
unfolding read_magic
read_magic_spaces fuel [] rest inner total left a h t =
    read_magic_prefix fuel magic_prefix rest inner total left (unfold is_separator in ground arith)
      h (omega (arith, t))
read_magic_spaces zero (b ∷ spaces) rest inner total left a h t = absurd (omega arith)
read_magic_spaces (suc fuel) (b ∷ spaces) rest inner total left a h t =
    let tail = spaces ++ (magic_prefix ++ rest) in
    let e : source_read 1 (record { pending = b ∷ tail; inner = inner; left = total })
        ≡ (ok (b ∷ []), record { pending = tail; inner = inner; left = total - 1 }) =
      unfold source_read in unfold clip in ground (arith, t) in
    let ih =
      read_magic_spaces fuel spaces rest inner (total - 1) left a.1 (omega (arith, h))
        (omega (arith, t)) in
    rw (ap (λ r. r.0) e, match_byte_space b a.0, ap (λ r. r.1) e, read_magic) ih
