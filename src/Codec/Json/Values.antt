-- ===== src/Codec/Json/Values.antt =====
-- One value of the JSON codecs of v3/codec, from json.Encoder through the connection to
-- json.Decoder. The encoder writes a value and a newline behind it.
use rpc.Base.{
  ℕ, zero, suc, ◌+◌, ◌≤◌, ◌<◌, ◌≡◌, refl, sym, ap, ◌∙◌, Bytes, [], ◌∷◌, ◌++◌, length, take, drop,
  Result, ok, some, arith, ◌⊎◌, inl, inr, append_assoc, length-append, take-append-drop,
  length-drop, length-take,
}
use mathlib.Core.Path.{subst}
use rpc.Errors.{GoError}
use rpc.Codec.Stream.{BudgetReader}
use rpc.Codec.Stream.Budget.{stream, budget_read-IsCharged}
use rpc.Codec.Body.Laws.{budget_read-Delivers, budget_read-ok}
use rpc.Codec.Json.{Target, reads, returns, JsonDecoder, multi_read, decode}

-- What the encoder writes behind a value, and the decoder leaves to be skipped.
abbrev pub newline : Bytes
newline = b'\n' ∷ []

abbrev pub line : Bytes → Bytes
line text = text ++ newline

-- What encoding/json promises of a decoder: `Holds s buf` says that it has read `buf` and returned
-- no value of it, and `Encodes t v text` that the text is a value which Decode into the target `t`
-- stores as `v`. Where such a line is next in what is read and to come, behind a newline or not,
-- Decode returns it, and asks for more only while the line is not there whole.
pub record IsJson {S B V : Type 0} (d : JsonDecoder S B V) (Holds : S → Bytes → Type 0)
    (Encodes : Target B → V → Bytes → Type 0) : Type 0 where
  pub starts : Holds d.fresh []
  pub feeds : (s : S) (buf bytes : Bytes) → Holds s buf → Holds (d.feed s (ok bytes)) (buf ++ bytes)
  pub steps :
      (t : Target B) (v : V) (text : Bytes) (s : S) (buf sep more rest : Bytes)
      → Holds s buf
      → Encodes t v text
      → (sep ≡ []) ⊎ (sep ≡ newline)
      → buf ++ more ≡ sep ++ (line text ++ rest)
      → ((n : ℕ) × (d.step t s ≡ reads n) × (length buf < length (sep ++ line text)))
        ⊎ ((s' : S) × (left : Bytes) × (d.step t s ≡ returns (ok v) s')
            × Holds s' left
            × (left ++ more ≡ newline ++ rest))

-- What is to come of a codec that has the bytes `front` before its connection.
abbrev pub coming : Bytes → BudgetReader → Bytes
coming front b = front ++ stream b

-- A Read of a source that is not at its end, within the budget.
record IsFed (front : Bytes) (b : BudgetReader) (r : Result GoError Bytes × Bytes × BudgetReader)
    : Type 0 where
  got : Bytes
  read : r.0 ≡ ok got
  split : got ++ coming r.1 r.2 ≡ coming front b
  charged : length got + length r.1 + r.2.left ≡ length front + b.left
  some_read : 0 < length got
  drained : front ≡ [] → r.1 ≡ []

multi_read-IsFed :
    (n : ℕ) (front : Bytes) (b : BudgetReader)
    → 0 < length front + b.left
    → 0 < length (coming front b)
    → IsFed front b (multi_read (suc n) front b)
unfolding multi_read
multi_read-IsFed n [] b l h =
    let (bytes, p) = budget_read-ok n b (omega (arith, l)) h in
    let k = budget_read-IsCharged (suc n) b in
    record {
      got = bytes;
      read = p;
      split = k.kept bytes p;
      charged = omega (arith, k.charged bytes p);
      some_read = (budget_read-Delivers n b bytes p).0;
      drained = λ e. refl;
    }
multi_read-IsFed n (x ∷ xs) b l h = record {
  got = x ∷ take n xs;
  read = refl;
  split =
      ap (λ r. x ∷ r)
        (sym (append_assoc (take n xs) (drop n xs) (stream b))
          ∙ ap (λ r. r ++ stream b) (take-append-drop n xs));
  charged = omega (arith, length-take n xs, length-drop n xs);
  some_read = omega arith;
  drained = λ e. absurd (cc e);
}

module _ {S B V : Type 0} {d : JsonDecoder S B V} {Holds : S → Bytes → Type 0}
    {Encodes : Target B → V → Bytes → Type 0} (json : IsJson d Holds Encodes) where
  -- A Decode that has returned a value, and stands behind it, at its newline.
  pub record Found (t : Target B) (v : V) (fuel : ℕ) (s : S) (front : Bytes) (b : BudgetReader)
      (rest : Bytes) : Type 0 where
    pub decoder : S
    pub left : Bytes
    pub unread : Bytes
    pub budget : BudgetReader
    pub returned : decode d t fuel s front b ≡ some (ok v, decoder, unread, budget)
    pub holds : Holds decoder left
    pub next : left ++ coming unread budget ≡ newline ++ rest
    pub drained : front ≡ [] → unread ≡ []

  -- A line that is next, and that the budget allows for, is returned, however the connection is cut
  -- into chunks.
  pub decode-Found :
      (t : Target B) (v : V) (text sep rest : Bytes) (fuel : ℕ) (s : S) (buf front : Bytes)
      (b : BudgetReader)
      → Holds s buf
      → Encodes t v text
      → (sep ≡ []) ⊎ (sep ≡ newline)
      → buf ++ coming front b ≡ sep ++ (line text ++ rest)
      → length (sep ++ line text) ≤ length buf + length front + b.left
      → length front + b.left < fuel
      → Found t v fuel s front b rest
  unfolding decode
  decode-Found t v text sep rest zero s buf front b h e o q l f = absurd (omega (arith, f))
  decode-Found t v text sep rest (suc fuel) s buf front b h e o q l f =
      elim (json.steps t v text s buf sep (coming front b) rest h e o q) [
        | inr (s', left, p, h', n) ↦ record {
          decoder = s';
          left = left;
          unread = front;
          budget = b;
          returned = rw (p, decode) refl;
          holds = h';
          next = n;
          drained = λ e. e;
        }
        | inl (n, p, short) ↦
            let total : length buf + length (coming front b)
                ≡ length (sep ++ line text) + length rest =
              omega (
                arith,
                ap length q,
                length-append buf (coming front b),
                length-append sep (line text ++ rest),
                length-append (line text) rest,
                length-append sep (line text),
              ) in
            let k =
              multi_read-IsFed n front b (omega (arith, short, l)) (omega (arith, short, total)) in
            let m = multi_read (suc n) front b in
            let r =
              decode-Found t v text sep rest fuel (d.feed s m.0) (buf ++ k.got) m.1 m.2
                (subst (λ x. Holds (d.feed s x) (buf ++ k.got)) (sym k.read)
                  (json.feeds s buf k.got h))
                e o (append_assoc buf k.got (coming m.1 m.2) ∙ ap (λ x. buf ++ x) k.split ∙ q)
                (omega (arith, l, k.charged, length-append buf k.got))
                (omega (arith, f, k.charged, k.some_read)) in
            record {
              decoder = r.decoder;
              left = r.left;
              unread = r.unread;
              budget = r.budget;
              returned = rw (p, decode) r.returned;
              holds = r.holds;
              next = r.next;
              drained = λ e. r.drained (k.drained e);
            }
      ]
