-- ===== src/Codec/Stream/Budget.antt =====
-- Sequences of Reads of budgetReader in v3/codec/json_server_codec.go.
use rpc.Base.{
  ℕ, zero, suc, ◌-◌, ◌+◌, ◌≤◌, ◌≡◌, refl, sym, ap, ◌∙◌, Bytes, List, [], ◌∷◌, ◌++◌, ◌==◌, length,
  take, drop, Result, ok, err, arith, append_assoc, take-append-drop, length-append, Result-cases,
  Bool-cases, inl, inr, false,
}
use rpc.Errors.{GoError, sentinel, body_too_large}
use rpc.Codec.Stream.{flatten, read_chunks, BudgetReader, clip, budget_read, reset_budget, read_all}

length-take-le : (n : ℕ) (xs : Bytes) → length (take n xs) ≤ n
length-take-le zero xs = omega arith
length-take-le (suc n) [] = omega arith
length-take-le (suc n) (x ∷ xs) = omega (arith, length-take-le n xs)

-- A Read delivers at most what was asked for, from the front of the stream.
record IsRead (n : ℕ) (cs : List Bytes) (r : Result GoError Bytes × List Bytes) : Type 0 where
  short : (bytes : Bytes) → r.0 ≡ ok bytes → length bytes ≤ n
  kept : (bytes : Bytes) → r.0 ≡ ok bytes → bytes ++ flatten r.1 ≡ flatten cs
  ended : (e : GoError) → r.0 ≡ err e → flatten r.1 ≡ flatten cs

read_chunks-IsRead :
    (n : ℕ) (ends : GoError) (cs : List Bytes) → IsRead n cs (read_chunks n ends cs)
unfolding read_chunks flatten
read_chunks-IsRead n ends [] = record {
  short = λ b h. absurd (cc h);
  kept = λ b h. absurd (cc h);
  ended = λ e h. refl;
}
read_chunks-IsRead n ends ([] ∷ cs) =
    let ih = read_chunks-IsRead n ends cs in
    record { short = ih.short; kept = ih.kept; ended = ih.ended }
read_chunks-IsRead n ends ((b ∷ bs) ∷ cs) = record {
  short = λ bytes h.
      let e : take n (b ∷ bs) ≡ bytes = ground (arith, h) in rw (← e) (length-take-le n (b ∷ bs));
  kept = λ bytes h.
      let e : take n (b ∷ bs) ≡ bytes = ground (arith, h) in
      rw (← e) (
        sym (append_assoc (take n (b ∷ bs)) (drop n (b ∷ bs)) (flatten cs))
        ∙ ap (λ x. x ++ flatten cs) (take-append-drop n (b ∷ bs)));
  ended = λ e h. absurd (cc h);
}

clip-le : (n left : ℕ) → clip n left ≤ left
unfolding clip
clip-le n left = ground arith

abbrev pub stream : BudgetReader → Bytes
stream b = flatten b.conn.chunks

-- What a Read of the budget reader does to the budget and to the stream.
pub record IsCharged (b : BudgetReader) (r : Result GoError Bytes × BudgetReader) : Type 0 where
  pub charged : (bytes : Bytes) → r.0 ≡ ok bytes → length bytes + r.1.left ≡ b.left
  pub kept : (bytes : Bytes) → r.0 ≡ ok bytes → bytes ++ stream r.1 ≡ stream b
  pub free : (e : GoError) → r.0 ≡ err e → r.1.left ≡ b.left
  pub same : (e : GoError) → r.0 ≡ err e → stream r.1 ≡ stream b

spent :
    (n : ℕ) (b : BudgetReader) (r : Result GoError Bytes × List Bytes)
    → (b.left == 0) ≡ false
    → read_chunks (clip n b.left) b.conn.ends b.conn.chunks ≡ r
    → IsRead (clip n b.left) b.conn.chunks r
    → IsCharged b (budget_read n b)
spent n b (ok a, cs) z p k =
    let e : budget_read n b ≡ (
      ok a,
      record { conn = record { chunks = cs; ends = b.conn.ends }; left = b.left - length a },
    ) =
      unfold budget_read in ground (arith, z, p) in
    rw e (record {
      charged = λ x h. ground (arith, h, k.short a refl, clip-le n b.left);
      kept = λ x h. let q : a ≡ x = ground (arith, h) in rw (← q) (k.kept a refl);
      free = λ x h. absurd (cc h);
      same = λ x h. absurd (cc h);
    })
spent n b (err x, cs) z p k =
    let e : budget_read n b
        ≡ (err x, record b { conn = record { chunks = cs; ends = b.conn.ends } }) =
      unfold budget_read in ground (arith, z, p) in
    rw e (record {
      charged = λ x h. absurd (cc h);
      kept = λ x h. absurd (cc h);
      free = λ x h. refl;
      same = λ y h. k.ended x refl;
    })

pub budget_read-IsCharged : (n : ℕ) (b : BudgetReader) → IsCharged b (budget_read n b)
budget_read-IsCharged n b = elim (Bool-cases (b.left == 0)) [
  | inl z ↦
      let e : budget_read n b ≡ (err (sentinel body_too_large), b) =
        unfold budget_read in ground (arith, z) in
      rw e (record {
        charged = λ x h. absurd (cc h);
        kept = λ x h. absurd (cc h);
        free = λ x h. refl;
        same = λ x h. refl;
      })
  | inr z ↦
      spent n b (read_chunks (clip n b.left) b.conn.ends b.conn.chunks) z refl
        (read_chunks-IsRead (clip n b.left) b.conn.ends b.conn.chunks)
]

read_all-IsCharged :
    (ns : List ℕ) (b : BudgetReader)
    → (length (read_all ns b).0 + (read_all ns b).1.left ≡ b.left)
      × ((read_all ns b).0 ++ stream (read_all ns b).1 ≡ stream b)
unfolding read_all
read_all-IsCharged [] b = (omega arith, refl)
read_all-IsCharged (n ∷ ns) b =
    let k = budget_read-IsCharged n b in
    elim (Result-cases (budget_read n b).0) [
      | inr (x, e) ↦ (ground (arith, e, k.free x e), rw (e, read_all) (k.same x e))
      | inl (a, e) ↦
          let ih = read_all-IsCharged ns (budget_read n b).1 in
          (
            ground (
              arith,
              e,
              k.charged a e,
              ih.0,
              length-append a (read_all ns (budget_read n b).1).0,
            ),
            rw (e, read_all)
                (append_assoc a (read_all ns (budget_read n b).1).0
                    (stream (read_all ns (budget_read n b).1).1)
                  ∙ ap (λ r. a ++ r) ih.1
                  ∙ k.kept a e),
          )
    ]

-- After a reset to `n`, the Reads until the next reset deliver at most `n` bytes, whatever their
-- sizes; what they delivered and what is left to come are the stream.
pub read_all-reset_budget :
    (ns : List ℕ) (n : ℕ) (b : BudgetReader)
    → (length (read_all ns (reset_budget n b)).0 ≤ n)
      × ((read_all ns (reset_budget n b)).0 ++ stream (read_all ns (reset_budget n b)).1 ≡ stream b)
unfolding reset_budget
read_all-reset_budget ns n b =
    let k = read_all-IsCharged ns (record b { left = n }) in (omega (arith, k.0), k.1)
