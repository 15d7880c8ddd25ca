-- ===== src/Codec/Body/Laws.antt =====
-- The loops of readCryptoBodySource in v3/codec/json_crypto_codec.go, and what their Reads cost.
use rpc.Base.{
  ℕ, zero, suc, ◌+◌, ◌≤◌, ◌<◌, ◌≡◌, refl, Bytes, List, [], ◌∷◌, ◌++◌, ◌==◌, ltb, length, take,
  Result, ok, err, Option, none, some, arith, Bool, codes, ◌≢◌, length-take, Result-cases,
  Bool-cases, List-cases, Option-cases, ◌⊎◌, inl, inr, false,
}
use rpc.Errors.{GoError, sentinel, invalid_magic, wrap}
use rpc.Codec.Stream.Budget.{stream}
use rpc.Codec.Stream.{flatten, read_chunks, BudgetReader, clip, budget_read, reset_budget}
use rpc.Codec.Crypto.{Aead}
use rpc.Codec.Output.{magic_prefix}
use rpc.Codec.Body.{
  BodySource, source_read, match_byte, read_magic, BlobStep, more, decoded, failed, BlobReader,
  decode_blob, read_crypto_body, read_body,
}

-- A Read for at least one byte that has no error delivers between one byte and what was asked for.
abbrev pub Delivers : ℕ → Result GoError Bytes → Type 0
Delivers n r = (bytes : Bytes) → r ≡ ok bytes → (0 < length bytes) × (length bytes ≤ n)

read_chunks-Delivers :
    (n : ℕ) (ends : GoError) (cs : List Bytes) → Delivers (suc n) (read_chunks (suc n) ends cs).0
unfolding read_chunks
read_chunks-Delivers n ends [] bytes h = absurd (cc h)
read_chunks-Delivers n ends ([] ∷ cs) bytes h = read_chunks-Delivers n ends cs bytes h
read_chunks-Delivers n ends ((b ∷ bs) ∷ cs) bytes h =
    let e : b ∷ take n bs ≡ bytes = cc h in rw (← e) (omega (arith, length-take n bs))

pub clip_positive :
    (n left : ℕ)
    → (left == 0) ≡ false
    → (m : ℕ) × (clip (suc n) left ≡ suc m) × (suc m ≤ suc n) × (suc m ≤ left)
unfolding clip
clip_positive n zero h = absurd (cc h)
clip_positive n (suc left) h = elim (Bool-cases (ltb (suc left) (suc n))) [
  | inl p ↦ (left, ground (arith, p), ground (arith, p), ground (arith, p))
  | inr p ↦ (n, ground (arith, p), ground (arith, p), ground (arith, p))
]

pub budget_read-Delivers : (n : ℕ) (b : BudgetReader) → Delivers (suc n) (budget_read (suc n) b).0
budget_read-Delivers n b bytes h = elim (Bool-cases (b.left == 0)) [
  | inl z ↦ absurd (unfold budget_read in ground (arith, z, h))
  | inr z ↦
      let (m, e, l, _) = clip_positive n b.left z in
      let k = read_chunks-Delivers m b.conn.ends b.conn.chunks bytes in
      let q : (read_chunks (suc m) b.conn.ends b.conn.chunks).0 ≡ ok bytes =
        unfold budget_read in
        ground (arith, z, h, e, Result-cases (read_chunks (suc m) b.conn.ends b.conn.chunks).0) in
      ground (arith, k q, l)
]

-- Reads of a stream that has bytes to come.
read_chunks-ok :
    (n : ℕ) (ends : GoError) (cs : List Bytes)
    → 0 < length (flatten cs)
    → (bytes : Bytes) × ((read_chunks (suc n) ends cs).0 ≡ ok bytes)
unfolding read_chunks flatten
read_chunks-ok n ends [] h = absurd (omega arith)
read_chunks-ok n ends ([] ∷ cs) h = read_chunks-ok n ends cs h
read_chunks-ok n ends ((b ∷ bs) ∷ cs) h = (take (suc n) (b ∷ bs), refl)

pub budget_read-ok :
    (n : ℕ) (b : BudgetReader)
    → 0 < b.left
    → 0 < length (stream b)
    → (bytes : Bytes) × ((budget_read (suc n) b).0 ≡ ok bytes)
budget_read-ok n b l h =
    let (m, e, _, _) = clip_positive n b.left (ground (arith, l)) in
    let (bytes, p) = read_chunks-ok m b.conn.ends b.conn.chunks h in
    (bytes, unfold budget_read in ground (arith, l, e, p))

-- What a Read without an error has charged to the body's budget.
abbrev IsPaid : BodySource → Result GoError Bytes × BodySource → Type 0
IsPaid s r =
    (bytes : Bytes) → r.0 ≡ ok bytes → (0 < length bytes) × (length bytes + r.1.left ≡ s.left)

source_read-IsPaid : (n : ℕ) (s : BodySource) → IsPaid s (source_read (suc n) s)
source_read-IsPaid n s bytes h = elim (Bool-cases (s.left == 0)) [
  | inl z ↦ absurd (unfold source_read in ground (arith, z, h))
  | inr z ↦
      let (m, e, l, l') = clip_positive n s.left z in
      elim (List-cases s.pending) [
        | inr (b, bs, p) ↦ unfold source_read in ground (arith, z, p, e, h, l', length-take m bs)
        | inl p ↦
            let k = budget_read-Delivers m s.inner in
            elim (Result-cases (budget_read (suc m) s.inner).0) [
              | inr (x, q) ↦ absurd (unfold source_read in ground (arith, z, p, e, q, h))
              | inl (a, q) ↦ unfold source_read in ground (arith, z, p, e, q, h, l', k a q)
            ]
      ]
]

-- No Read adds to what is left.
source_read_cost : (n : ℕ) (s : BodySource) → (source_read (suc n) s).1.left ≤ s.left
source_read_cost n s = elim (Result-cases (source_read (suc n) s).0) [
  | inl (a, p) ↦ omega (arith, source_read-IsPaid n s a p)
  | inr (e, p) ↦
      unfold source_read in
      ground
        (arith, p, List-cases s.pending, Result-cases (budget_read (clip (suc n) s.left) s.inner).0)
]

pub BlobStep-cases :
    (b : BlobStep)
    → ((x : Bytes) × (b ≡ decoded x))
      ⊎ (((e : GoError) × (b ≡ failed e)) ⊎ ((n : ℕ) × (b ≡ more n)))
BlobStep-cases (decoded x) = inl (x, refl)
BlobStep-cases (failed e) = inr (inl (e, refl))
BlobStep-cases (more n) = inr (inr (n, refl))

-- With a round for each byte that is left, the prefix loop ends, and nothing is gained.
pub read_magic_total :
    (fuel : ℕ) (ms : Bytes) (s : BodySource)
    → s.left < fuel
    → (r : Option GoError) × (s' : BodySource) × (read_magic fuel ms s ≡ some (r, s'))
      × (s'.left ≤ s.left)
unfolding read_magic
read_magic_total fuel [] s l = (none, s, refl, omega arith)
read_magic_total zero (m ∷ ms) s l = absurd (omega arith)
read_magic_total (suc fuel) (m ∷ ms) s l =
    let k = source_read-IsPaid 0 s in
    elim (Result-cases (source_read 1 s).0) [
      | inr (e, p) ↦ (
        some (wrap (codes "rpc: crypto prefix read: ") e),
        (source_read 1 s).1,
        rw (p, read_magic) refl,
        source_read_cost 0 s,
      )
      | inl ([], p) ↦ absurd (ground (arith, k [] p))
      | inl (b ∷ bs, p) ↦ elim (Option-cases (match_byte b (m ∷ ms))) [
        | inl q ↦ (
          some (wrap (codes "rpc: invalid crypto prefix: ") (sentinel invalid_magic)),
          (source_read 1 s).1,
          rw (p, q, read_magic) refl,
          source_read_cost 0 s,
        )
        | inr (rest, q) ↦
            let spent = k (b ∷ bs) p in
            let (r, s', e, l') =
              read_magic_total fuel rest (source_read 1 s).1 (omega (arith, spent, l)) in
            (r, s', rw (p, q, read_magic) e, omega (arith, l', spent))
      ]
    ]

-- So does the decoder's loop, whatever the decoder is.
pub decode_blob_total :
    (d : BlobReader) (fuel : ℕ) (got : Bytes) (s : BodySource)
    → s.left < fuel
    → (r : Result GoError Bytes) × (s' : BodySource) × (decode_blob d fuel got s ≡ some (r, s'))
unfolding decode_blob
decode_blob_total d zero got s l = absurd (omega arith)
decode_blob_total d (suc fuel) got s l = elim (BlobStep-cases (d.step got)) [
  | inl (b, p) ↦ (ok b, s, rw (p, decode_blob) refl)
  | inr (inl (e, p)) ↦ (err e, s, rw (p, decode_blob) refl)
  | inr (inr (n, p)) ↦
      let k = source_read-IsPaid n s in
      elim (Result-cases (source_read (suc n) s).0) [
        | inr (e, q) ↦ (err (d.cut got e), (source_read (suc n) s).1, rw (p, q, decode_blob) refl)
        | inl (a, q) ↦
            let (r, s', e) =
              decode_blob_total d fuel (got ++ a) (source_read (suc n) s).1
                (omega (arith, k a q, l)) in
            (r, s', rw (p, q, decode_blob) e)
      ]
]

-- Reading a body ends, whatever the stream, the gob decoder and the JSON decoder do: the limit
-- bounds the rounds.
pub read_body_total {ℓ} :
    {A : Type ℓ} (d : BlobReader) (crypto : Aead) (max_body : ℕ)
    (unmarshal : Bytes → Result GoError A) (has_body : Bool) (buffered : Bytes)
    (budget : BudgetReader)
    → read_body d crypto max_body unmarshal has_body buffered budget ≢ none
read_body_total d crypto max_body unmarshal has_body buffered budget =
    let s0 : BodySource = record {
      pending = buffered;
      inner = reset_budget max_body budget;
      left = max_body;
    } in
    let (r, s, e, l) = read_magic_total (suc max_body) magic_prefix s0 (omega arith) in
    let (b, s', f) = decode_blob_total d (suc max_body) [] s (omega (arith, l)) in
    unfold read_body in
    unfold read_crypto_body in ground (arith, e, f, Option-cases r, Result-cases b)
