-- ===== src/Codec/Buffered/Flat.antt =====
-- BufferedReadWriteCloser against the list of all bytes still to come.
use rpc.Base.{
  ℕ, zero, suc, ◌-◌, ◌≤◌, ◌<◌, ◌≡◌, refl, sym, ap, ◌∙◌, Bytes, List, [], ◌∷◌, ◌++◌, leb,
  if◌then◌else◌, length, take, drop, Option, none, some, Result, ok, err, arith, ◌⊎◌, inl, inr,
  true, false, append_assoc, append_nil, take-append-drop, take-append_length, drop-append_length,
  length-append, length-take, List-cases, Bool-cases,
}
use mathlib.Core.Path.{subst}
use rpc.Errors.{GoError}
use rpc.Codec.Stream.{flatten, read_chunks}
use rpc.Codec.Negotiate.{buffer_size}
use rpc.Codec.Buffered.{BufferedReadWriteCloser, buffered, read, read_rounds, read_full, full_error}

-- All bytes still to come.
abbrev pub view : BufferedReadWriteCloser → Bytes
view r = r.buffer ++ flatten r.conn.chunks

-- A Read of at least one byte, or of the end.
pub record IsRead (n : ℕ) (ends : GoError) (whole : Bytes) (r : Result GoError Bytes × Bytes)
    : Type 0 where
  pub outcome :
      ((r.0 ≡ err ends) × (whole ≡ []) × (r.1 ≡ []))
      ⊎ ((got : Bytes) × (r.0 ≡ ok got)
          × (0 < length got)
          × (length got ≤ n)
          × (got ++ r.1 ≡ whole))

pub read_chunks-IsRead :
    (n : ℕ) (ends : GoError) (cs : List Bytes)
    → 0 < n
    → IsRead n ends (flatten cs) ((read_chunks n ends cs).0, flatten (read_chunks n ends cs).1)
unfolding read_chunks flatten
read_chunks-IsRead n ends [] h = record { outcome = inl (refl, refl, refl) }
read_chunks-IsRead n ends ([] ∷ cs) h = read_chunks-IsRead n ends cs h
read_chunks-IsRead zero ends ((b ∷ bs) ∷ cs) h = absurd (omega (arith, h))
read_chunks-IsRead (suc n) ends ((b ∷ bs) ∷ cs) h = record {
  outcome = inr (
    take (suc n) (b ∷ bs),
    refl,
    omega arith,
    omega (arith, length-take n bs),
    sym (append_assoc (take (suc n) (b ∷ bs)) (drop (suc n) (b ∷ bs)) (flatten cs))
        ∙ ap (λ x. x ++ flatten cs) (take-append-drop (suc n) (b ∷ bs)),
  );
}

abbrev outcome_of : Result GoError Bytes × BufferedReadWriteCloser → Result GoError Bytes × Bytes
outcome_of r = (r.0, view r.1)

-- The slice `n` of a Read of up to `m` bytes goes to the caller, the rest stays.
take-IsRead :
    (n : ℕ) (ends : GoError) (whole rest got : Bytes)
    → 0 < n
    → 0 < length got
    → got ++ rest ≡ whole
    → IsRead n ends whole (ok (take n got), drop n got ++ rest)
take-IsRead n ends whole rest got h l e = record {
  outcome = inr (
    take n got,
    refl,
    omega (arith, length-take n got),
    omega (arith, length-take n got),
    sym (append_assoc (take n got) (drop n got) rest)
        ∙ ap (λ x. x ++ rest) (take-append-drop n got)
        ∙ e,
  );
}

read-IsRead :
    (n : ℕ) (r : BufferedReadWriteCloser)
    → 0 < n
    → IsRead n r.conn.ends (view r) (outcome_of (read n r)) × ((read n r).1.conn.ends ≡ r.conn.ends)
unfolding read
read-IsRead n r h = elim (List-cases r.buffer) [
  | inr (b, bs, p) ↦
      let e : read n r
          ≡ (ok (take n (b ∷ bs)), buffered (drop n (b ∷ bs)) r.conn.ends r.conn.chunks) =
        rw (p, read) refl in
      rw e (
        subst
            (λ x.
              IsRead n r.conn.ends (x ++ flatten r.conn.chunks)
                (ok (take n (b ∷ bs)), drop n (b ∷ bs) ++ flatten r.conn.chunks))
            (sym p)
            (take-IsRead n r.conn.ends _ (flatten r.conn.chunks) (b ∷ bs) h (omega arith) refl),
        refl,
      )
  | inl p ↦
      let ends = r.conn.ends in
      let chunks = r.conn.chunks in
      let direct = read_chunks n ends chunks in
      let fill = read_chunks buffer_size ends chunks in
      let whole : view r ≡ flatten chunks = ap (λ x. x ++ flatten chunks) p in
      elim (Bool-cases (leb buffer_size n)) [
        | inl t ↦
            let e : read n r ≡ (direct.0, buffered [] ends direct.1) = rw (p, read) (rw t refl) in
            rw (e, whole) (read_chunks-IsRead n ends chunks h, refl)
        | inr t ↦ elim (read_chunks-IsRead buffer_size ends chunks (omega arith)).outcome [
          | inl (a, b, c) ↦
              let e : read n r ≡ (err ends, buffered [] ends fill.1) =
                rw (p, read) (rw (t, a) refl) in
              rw (e, whole) (record { outcome = inl (refl, b, c) }, refl)
          | inr (got, a, k, l, b) ↦
              let e : read n r ≡ (ok (take n got), buffered (drop n got) ends fill.1) =
                rw (p, read) (rw (t, a) refl) in
              rw (e, whole) (take-IsRead n ends (flatten chunks) (flatten fill.1) got h k b, refl)
        ]
      ]
]

-- Bytes read up to a number, or to the end.
record IsFull (n : ℕ) (ends : GoError) (whole : Bytes)
    (o : Bytes × Option GoError × BufferedReadWriteCloser) : Type 0 where
  kept : o.0 ++ view o.2 ≡ whole
  same_end : o.2.conn.ends ≡ ends
  outcome :
      ((o.1 ≡ none) × (length o.0 ≡ n)) ⊎ ((o.1 ≡ some ends) × (length o.0 < n) × (view o.2 ≡ []))

read_rounds-IsFull :
    (rounds n : ℕ) (r : BufferedReadWriteCloser)
    → n ≤ rounds
    → IsFull n r.conn.ends (view r) (read_rounds rounds n r)
unfolding read_rounds
read_rounds-IsFull rounds zero r h = record {
  kept = refl;
  same_end = refl;
  outcome = inl (refl, refl);
}
read_rounds-IsFull zero (suc n) r h = absurd (omega (arith, h))
read_rounds-IsFull (suc rounds) (suc n) r h =
    let (k, s) = read-IsRead (suc n) r (omega arith) in
    let r' = (read (suc n) r).1 in
    elim k.outcome [
      | inl (a, b, c) ↦
          let e : read_rounds (suc rounds) (suc n) r ≡ ([], some r.conn.ends, r') =
            rw (a, read_rounds) refl in
          rw e (record { kept = c ∙ sym b; same_end = s; outcome = inr (refl, omega arith, c) })
      | inr (got, a, l, m, b) ↦
          let left = suc n - length got in
          let more = read_rounds rounds left r' in
          let e : read_rounds (suc rounds) (suc n) r ≡ (got ++ more.0, more.1, more.2) =
            rw (a, read_rounds) refl in
          let i = read_rounds-IsFull rounds left r' (omega (arith, h, l)) in
          rw e (record {
            kept = append_assoc got more.0 (view more.2) ∙ ap (λ x. got ++ x) i.kept ∙ b;
            same_end = i.same_end ∙ s;
            outcome = elim i.outcome [
              | inl (p, q) ↦ inl (p, omega (arith, q, m, length-append got more.0))
              | inr (p, q, z) ↦
                  inr (p ∙ ap some s, omega (arith, q, m, length-append got more.0), z)
            ];
          })
    ]

-- io.ReadFull of a list with an error behind it.
abbrev pub flat_full : GoError → ℕ → Bytes → Result GoError Bytes × Bytes
flat_full ends n bytes =
    if leb n (length bytes)
    then (ok (take n bytes), drop n bytes)
    else (err (full_error bytes ends), [])

-- An operation on the reader that is the operation on the list.
pub record Flattens {A : Type 0} (ends : GoError) (flat : A × Bytes)
    (o : A × BufferedReadWriteCloser) : Type 0 where
  pub result : o.0 ≡ flat.0
  pub rest : view o.1 ≡ flat.1
  pub same_end : o.1.conn.ends ≡ ends

pub read_full-Flattens :
    (n : ℕ) (r : BufferedReadWriteCloser)
    → Flattens r.conn.ends (flat_full r.conn.ends n (view r)) (read_full n r)
unfolding read_full
read_full-Flattens n r =
    let k = read_rounds-IsFull n n r (omega arith) in
    let o = read_rounds n n r in
    let size = length-append o.0 (view o.2) in
    elim k.outcome [
      | inl (p, q) ↦
          let e : read_full n r ≡ (ok o.0, o.2) = rw (p, read_full) refl in
          let fits : leb n (length (view r)) ≡ true = ground (arith, q, size, ap length k.kept) in
          rw (e, fits)
            (record {
              result = ap ok (
                  sym (
                    subst (λ m. take m (view r) ≡ o.0) q
                      (subst (λ w. take (length o.0) w ≡ o.0) k.kept
                        (take-append_length o.0 (view o.2)))));
              rest = sym (
                  subst (λ m. drop m (view r) ≡ view o.2) q
                    (subst (λ w. drop (length o.0) w ≡ view o.2) k.kept
                      (drop-append_length o.0 (view o.2))));
              same_end = k.same_end;
            })
      | inr (p, q, z) ↦
          let e : read_full n r ≡ (err (full_error o.0 r.conn.ends), o.2) =
            rw (p, read_full) refl in
          let all : o.0 ≡ view r = sym (append_nil o.0) ∙ ap (λ x. o.0 ++ x) (sym z) ∙ k.kept in
          let short : leb n (length (view r)) ≡ false = ground (arith, q, ap length all) in
          rw (e, short)
            (record {
              result = ap (λ x. err (full_error x r.conn.ends)) all;
              rest = z;
              same_end = k.same_end;
            })
    ]
