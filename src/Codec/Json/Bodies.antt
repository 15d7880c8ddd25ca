-- ===== src/Codec/Json/Bodies.antt =====
-- What the body of a crypto codec takes off the connection: readCryptoBodySource of
-- v3/codec/json_crypto_codec.go under ReadRequestBody.
use rpc.Base.{
  ℕ, zero, suc, ◌≡◌, refl, Bytes, Bool, [], ◌∷◌, ◌++◌, ◌==◌, Result, ok, err, Option, some, arith,
  inl, inr, Result-cases, Option-cases, List-cases, Bool-cases, codes,
}
use mathlib.Core.Path.{subst}
use rpc.Errors.{GoError, wrap}
use rpc.Codec.Stream.{BudgetReader, clip, reset_budget, budget_read}
use rpc.Codec.Stream.Took.{Took, nothing, both, budget_read-Took}
use rpc.Codec.Crypto.{Aead, decrypt}
use rpc.Codec.Output.{magic_prefix}
use rpc.Codec.Body.{
  BodySource, source_read, match_byte, read_magic, BlobReader, decode_blob, read_crypto_body,
  decode_crypto_body, read_body,
}
use rpc.Codec.Body.Laws.{BlobStep-cases, read_magic_total, decode_blob_total}

source_read-Took : (n : ℕ) (s : BodySource) → Took s.inner (source_read n s).1.inner
source_read-Took n s = elim (Bool-cases (s.left == 0)) [
  | inl z ↦ unfold source_read in rw z (nothing s.inner)
  | inr z ↦ elim (List-cases s.pending) [
    | inr (b, bs, p) ↦ unfold source_read in rw (z, p, source_read) (nothing s.inner)
    | inl p ↦
        let k = budget_read-Took (clip n s.left) s.inner in
        elim (Result-cases (budget_read (clip n s.left) s.inner).0) [
          | inl (a, q) ↦ unfold source_read in rw (z, p, source_read) (rw (q, source_read) k)
          | inr (e, q) ↦ unfold source_read in rw (z, p, source_read) (rw (q, source_read) k)
        ]
  ]
]

-- A loop that stops in a state that it has reached.
arrived : {b : BudgetReader} {s s' : BodySource} → s ≡ s' → Took b s.inner → Took b s'.inner
arrived {b} p k = subst (λ s. Took b s.inner) p k

read_magic-Took :
    (fuel : ℕ) (ms : Bytes) (s s' : BodySource) (r : Option GoError)
    → read_magic fuel ms s ≡ some (r, s')
    → Took s.inner s'.inner
unfolding read_magic
read_magic-Took fuel [] s s' r e = let p : s ≡ s' = ground (arith, e) in arrived p (nothing s.inner)
read_magic-Took zero (m ∷ ms) s s' r e = absurd (cc e)
read_magic-Took (suc fuel) (m ∷ ms) s s' r e =
    let x = (source_read 1 s).1 in
    let k = source_read-Took 1 s in
    elim (Result-cases (source_read 1 s).0) [
      | inr (f, p) ↦ let q : x ≡ s' = ground (arith, p, e) in arrived q k
      | inl ([], p) ↦ both k (read_magic-Took fuel (m ∷ ms) x s' r (ground (arith, p, e)))
      | inl (b ∷ bs, p) ↦ elim (Option-cases (match_byte b (m ∷ ms))) [
        | inl o ↦ let q : x ≡ s' = ground (arith, p, o, e) in arrived q k
        | inr (rest, o) ↦ both k (read_magic-Took fuel rest x s' r (ground (arith, p, o, e)))
      ]
    ]

decode_blob-Took :
    (d : BlobReader) (fuel : ℕ) (got : Bytes) (s s' : BodySource) (r : Result GoError Bytes)
    → decode_blob d fuel got s ≡ some (r, s')
    → Took s.inner s'.inner
unfolding decode_blob
decode_blob-Took d zero got s s' r e =
    let p : s ≡ s' = ground (arith, e, BlobStep-cases (d.step got)) in arrived p (nothing s.inner)
decode_blob-Took d (suc fuel) got s s' r e = elim (BlobStep-cases (d.step got)) [
  | inl (b, p) ↦ let q : s ≡ s' = ground (arith, p, e) in arrived q (nothing s.inner)
  | inr (inl (f, p)) ↦ let q : s ≡ s' = ground (arith, p, e) in arrived q (nothing s.inner)
  | inr (inr (n, p)) ↦
      let x = (source_read (suc n) s).1 in
      let k = source_read-Took (suc n) s in
      elim (Result-cases (source_read (suc n) s).0) [
        | inr (f, q) ↦ let h : x ≡ s' = ground (arith, p, q, e) in arrived h k
        | inl (a, q) ↦ both k (decode_blob-Took d fuel (got ++ a) x s' r (ground (arith, p, q, e)))
      ]
]

read_crypto_body-Took :
    (d : BlobReader) (crypto : Aead) (max_body : ℕ) (pending : Bytes) (inner : BudgetReader)
    → (r : Result GoError Bytes) × (s : BodySource) × (read_crypto_body d crypto max_body pending
          inner
        ≡ some (r, s))
      × Took inner s.inner
read_crypto_body-Took d crypto max_body pending inner =
    let s₀ : BodySource = record { pending = pending; inner = inner; left = max_body } in
    let (r, s, e, l) = read_magic_total (suc max_body) magic_prefix s₀ (omega arith) in
    let k = read_magic-Took (suc max_body) magic_prefix s₀ s r e in
    elim (Option-cases r) [
      | inr (f, p) ↦ (err f, s, unfold read_crypto_body in ground (arith, e, p), k)
      | inl p ↦
          let (b, s', f) = decode_blob_total d (suc max_body) [] s (omega (arith, l)) in
          let k' = both k (decode_blob-Took d (suc max_body) [] s s' b f) in
          elim (Result-cases b) [
            | inr (x, q) ↦ (
              err (wrap (codes "rpc: crypto blob decode: ") x),
              s',
              unfold read_crypto_body in ground (arith, e, p, f, q),
              k',
            )
            | inl (blob, q) ↦ elim (Result-cases (decrypt crypto blob)) [
              | inr (x, o) ↦ (
                err (wrap (codes "rpc: body decrypt: ") x),
                s',
                unfold read_crypto_body in ground (arith, e, p, f, q, o),
                k',
              )
              | inl (plaintext, o) ↦
                  (ok plaintext, s', unfold read_crypto_body in ground (arith, e, p, f, q, o), k')
            ]
          ]
    ]

-- The body that ReadRequestBody reads, whatever comes of it.
pub record BodyRead {ℓ} {A : Type ℓ} (d : BlobReader) (crypto : Aead) (max_body : ℕ)
    (unmarshal : Bytes → Result GoError A) (has_body : Bool) (buffered : Bytes) (b : BudgetReader)
    : Type ℓ where
  pub result : Result GoError A
  pub rest : Bytes
  pub budget : BudgetReader
  pub ends :
      read_body d crypto max_body unmarshal has_body buffered b ≡ some (result, (rest, budget))
  pub took : Took (reset_budget max_body b) budget

pub read_body-BodyRead {ℓ} :
    {A : Type ℓ} (d : BlobReader) (crypto : Aead) (max_body : ℕ)
    (unmarshal : Bytes → Result GoError A) (has_body : Bool) (buffered : Bytes) (b : BudgetReader)
    → BodyRead d crypto max_body unmarshal has_body buffered b
read_body-BodyRead d crypto max_body unmarshal has_body buffered b =
    let (r, s, e, k) = read_crypto_body-Took d crypto max_body buffered (reset_budget max_body b) in
    record {
      result = decode_crypto_body unmarshal has_body r;
      rest = s.pending;
      budget = s.inner;
      ends = unfold read_body in rw (e, read_body) refl;
      took = k;
    }
