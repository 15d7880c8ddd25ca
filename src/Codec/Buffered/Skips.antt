-- ===== src/Codec/Buffered/Skips.antt =====
-- Peek, Discard and ReadAll of BufferedReadWriteCloser against the list of all bytes still to come.
use rpc.Base.{
  ℕ, zero, suc, ◌-◌, ◌≤◌, ◌<◌, ◌≡◌, refl, sym, ap, ◌∙◌, Bytes, List, [], ◌∷◌, ◌++◌, leb, ltb,
  if◌then◌else◌, length, take, drop, Option, none, some, Result, ok, err, arith, ◌⊎◌, inl, inr,
  append_assoc, append_nil, take-append-drop, length-append, length-take, drop_all, List-cases,
  Bool-cases,
}
use rpc.Errors.{GoError}
use rpc.Codec.Stream.{flatten, read_chunks}
use rpc.Codec.Negotiate.{buffer_size, peek}
use rpc.Codec.Negotiate.Laws.{peek-IsPeeked}
use rpc.Codec.Buffered.{
  BufferedReadWriteCloser, buffered, peek_buffered, discard, discard_from, read_byte,
  read_all_bytes,
}
use rpc.Codec.Buffered.Flat.{view, read_chunks-IsRead}

-- Peek of the list.
pub record Peeked (n : ℕ) (r : BufferedReadWriteCloser)
    (o : Bytes × Option GoError × BufferedReadWriteCloser) : Type 0 where
  pub seen : o.0 ≡ take n (view r)
  pub result : o.1 ≡ (if ltb (length (view r)) n then some r.conn.ends else none)
  pub kept : view o.2 ≡ view r
  pub same_end : o.2.conn.ends ≡ r.conn.ends

pub peek_buffered-Peeked :
    (n : ℕ) (r : BufferedReadWriteCloser) → n ≤ buffer_size → Peeked n r (peek_buffered n r)
unfolding peek_buffered
peek_buffered-Peeked n r h =
    let k = peek-IsPeeked n r.buffer r.conn.chunks h in
    let o = peek n r.buffer r.conn.chunks in
    let same : ltb (length o.0) n ≡ ltb (length (view r)) n =
      ground (arith, length-take n o.0, length-take n (view r), ap length k.front) in
    record {
      seen = k.front;
      result = ap (λ b. if b then some r.conn.ends else none) same;
      kept = k.kept;
      same_end = refl;
    }

drop_more : (xs ys : Bytes) (n : ℕ) → length xs ≤ n → drop n (xs ++ ys) ≡ drop (n - length xs) ys
drop_more [] ys n h = ap (λ m. drop m ys) (omega arith)
drop_more (x ∷ xs) ys zero h = absurd (omega (arith, h))
drop_more (x ∷ xs) ys (suc n) h =
    drop_more xs ys n (omega (arith, h)) ∙ ap (λ m. drop m ys) (omega arith)

drop_less : (xs ys : Bytes) (n : ℕ) → n ≤ length xs → drop n (xs ++ ys) ≡ drop n xs ++ ys
drop_less xs ys zero h = refl
drop_less [] ys (suc n) h = absurd (omega (arith, h))
drop_less (x ∷ xs) ys (suc n) h = drop_less xs ys n (omega (arith, h))

record Dropped (n : ℕ) (whole : Bytes) (o : ℕ × Bytes × List Bytes) : Type 0 where
  missing : o.0 ≡ n - length whole
  rest : o.1 ++ flatten o.2 ≡ drop n whole

discard_from-Dropped :
    (n : ℕ) (bytes : Bytes) (cs : List Bytes)
    → n ≤ buffer_size
    → Dropped n (bytes ++ flatten cs) (discard_from n bytes cs)
unfolding discard_from flatten
discard_from-Dropped n bytes [] h = elim (Bool-cases (leb n (length bytes))) [
  | inl t ↦ rw t (record {
    missing = ground (arith, t, length-append bytes []);
    rest = sym (drop_less bytes [] n (ground (arith, t)));
  })
  | inr t ↦ rw t (record {
    missing = ap (λ x. n - length x) (sym (append_nil bytes));
    rest = sym (drop_all n (bytes ++ []) (ground (arith, t, length-append bytes [])));
  })
]
discard_from-Dropped n bytes (c ∷ cs) h =
    let missing = n - length bytes in
    let filled = take buffer_size c in
    let after = drop buffer_size c ++ flatten cs in
    let whole : filled ++ after ≡ c ++ flatten cs =
      sym (append_assoc filled (drop buffer_size c) (flatten cs))
      ∙ ap (λ x. x ++ flatten cs) (take-append-drop buffer_size c) in
    let size = length-append bytes (c ++ flatten cs) in
    elim (Bool-cases (leb n (length bytes))) [
      | inl t ↦ rw t (record {
        missing = ground (arith, t, size);
        rest = sym (drop_less bytes (c ++ flatten cs) n (ground (arith, t)));
      })
      | inr t ↦
          let skip : drop n (bytes ++ (c ++ flatten cs)) ≡ drop missing (c ++ flatten cs) =
            drop_more bytes (c ++ flatten cs) n (ground (arith, t)) in
          elim (Bool-cases (leb missing (length filled))) [
            | inl u ↦
                rw (t, u)
                  (record {
                    missing = ground (arith, u, size, ap length whole, length-append filled after);
                    rest =
                        sym (drop_less filled after missing (ground (arith, u)))
                        ∙ ap (drop missing) whole
                        ∙ sym skip;
                  })
            | inr u ↦
                let few : length filled < missing = ground (arith, u) in
                let short : length c ≤ buffer_size =
                  omega (arith, h, few, length-take buffer_size c) in
                let all : filled ≡ c =
                  sym (append_nil filled)
                  ∙ ap (λ x. filled ++ x) (sym (drop_all buffer_size c short))
                  ∙ take-append-drop buffer_size c in
                let k = discard_from-Dropped missing filled cs (omega (arith, h)) in
                rw (t, u)
                  (record {
                    missing =
                        omega (arith, k.missing, size, ap (λ x. length (x ++ flatten cs)) all);
                    rest = k.rest ∙ ap (λ x. drop missing (x ++ flatten cs)) all ∙ sym skip;
                  })
          ]
    ]

-- Discard of the list.
pub record Discarded (n : ℕ) (r : BufferedReadWriteCloser)
    (o : Option GoError × BufferedReadWriteCloser) : Type 0 where
  pub result : o.0 ≡ (if ltb (length (view r)) n then some r.conn.ends else none)
  pub rest : view o.1 ≡ drop n (view r)
  pub same_end : o.1.conn.ends ≡ r.conn.ends

pub discard-Discarded :
    (n : ℕ) (r : BufferedReadWriteCloser) → n ≤ buffer_size → Discarded n r (discard n r)
unfolding discard
discard-Discarded n r h =
    let k = discard_from-Dropped n r.buffer r.conn.chunks h in
    let o = discard_from n r.buffer r.conn.chunks in
    let same : ltb 0 o.0 ≡ ltb (length (view r)) n = ground (arith, k.missing) in
    record {
      result = ap (λ b. if b then some r.conn.ends else none) same;
      rest = k.rest;
      same_end = refl;
    }

-- A byte, or the end.
record IsByte (r : BufferedReadWriteCloser) (o : Result GoError ℕ × BufferedReadWriteCloser)
    : Type 0 where
  outcome :
      ((o.0 ≡ err r.conn.ends) × (view r ≡ []) × (view o.1 ≡ []))
      ⊎ ((b : ℕ) × (o.0 ≡ ok b) × (view r ≡ b ∷ view o.1))

read_byte-IsByte : (r : BufferedReadWriteCloser) → IsByte r (read_byte r)
unfolding read_byte
read_byte-IsByte r =
    let ends = r.conn.ends in
    let fill = read_chunks buffer_size ends r.conn.chunks in
    elim (List-cases r.buffer) [
      | inr (b, bs, p) ↦
          let e : read_byte r ≡ (ok b, buffered bs ends r.conn.chunks) = rw (p, read_byte) refl in
          rw e (record { outcome = inr (b, refl, ap (λ x. x ++ flatten r.conn.chunks) p) })
      | inl p ↦
          let whole : view r ≡ flatten r.conn.chunks = ap (λ x. x ++ flatten r.conn.chunks) p in
          elim (read_chunks-IsRead buffer_size ends r.conn.chunks (omega arith)).outcome [
            | inl (a, b, c) ↦
                let e : read_byte r ≡ (err ends, buffered [] ends fill.1) =
                  rw (p, a, read_byte) refl in
                rw e (record { outcome = inl (refl, whole ∙ b, c) })
            | inr ([], a, l, m, b) ↦ absurd (omega (arith, l))
            | inr (x ∷ xs, a, l, m, b) ↦
                let e : read_byte r ≡ (ok x, buffered xs ends fill.1) = rw (p, a, read_byte) refl in
                rw e (record { outcome = inr (x, refl, whole ∙ sym b) })
          ]
    ]

-- ReadAll returns every byte that is still to come, however the connection cuts them into chunks,
-- in rounds for one more than their number.
pub read_all_bytes_lem :
    (fuel : ℕ) (r : BufferedReadWriteCloser)
    → length (view r) < fuel
    → ((read_all_bytes fuel r).0 ≡ view r) × (view (read_all_bytes fuel r).1 ≡ [])
unfolding read_all_bytes
read_all_bytes_lem zero r h = absurd (omega (arith, h))
read_all_bytes_lem (suc fuel) r h = elim (read_byte-IsByte r).outcome [
  | inl (a, b, c) ↦
      let e : read_all_bytes (suc fuel) r ≡ ([], (read_byte r).1) = rw (a, read_all_bytes) refl in
      rw e (sym b, c)
  | inr (x, a, b) ↦
      let r' = (read_byte r).1 in
      let more = read_all_bytes fuel r' in
      let e : read_all_bytes (suc fuel) r ≡ (x ∷ more.0, more.1) = rw (a, read_all_bytes) refl in
      let (k, l) = read_all_bytes_lem fuel r' (omega (arith, h, ap length b)) in
      rw e (ap (λ y. x ∷ y) k ∙ sym b, l)
]
