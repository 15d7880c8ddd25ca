-- ===== src/Codec/Json/Decoding.antt =====
-- One Decode of json.Decoder over budgetReader, as the codecs of v3/codec call it.
use rpc.Base.{
  ℕ, zero, suc, ◌+◌, ◌<◌, ◌≡◌, refl, Bytes, [], ◌∷◌, length, Result, ok, err, some, arith, ◌⊎◌, inl,
  inr, Result-cases, length-drop,
}
use rpc.Errors.{GoError}
use rpc.Codec.Stream.{BudgetReader}
use rpc.Codec.Stream.Budget.{budget_read-IsCharged}
use rpc.Codec.Stream.Took.{Took, nothing, both, budget_read-Took}
use rpc.Codec.Body.Laws.{budget_read-Delivers}
use rpc.Codec.Json.{Target, JsonStep, reads, returns, JsonDecoder, multi_read, decode}

-- Decode returns after a Read that failed.
abbrev pub Stops : {S B V : Type 0} → JsonDecoder S B V → Type 0
Stops {S} {B} {V} d =
    (t : Target B) (s : S) (e : GoError)
    → (r : Result GoError V) × (s' : S) × (d.step t (d.feed s (err e)) ≡ returns r s')

JsonStep-cases :
    {S V : Type 0} (x : JsonStep S V)
    → ((n : ℕ) × (x ≡ reads n)) ⊎ ((r : Result GoError V) × (s : S) × (x ≡ returns r s))
JsonStep-cases (reads n) = inl (n, refl)
JsonStep-cases (returns r s) = inr (r, s, refl)

multi_read-Took : (n : ℕ) (front : Bytes) (b : BudgetReader) → Took b (multi_read n front b).2
unfolding multi_read
multi_read-Took n [] b = budget_read-Took n b
multi_read-Took n (x ∷ xs) b = nothing b

-- A Read without an error has taken a byte of the front or of the budget.
multi_read_paid :
    (n : ℕ) (front : Bytes) (b : BudgetReader) (bytes : Bytes)
    → (multi_read (suc n) front b).0 ≡ ok bytes
    → length (multi_read (suc n) front b).1 + (multi_read (suc n) front b).2.left
      < length front + b.left
unfolding multi_read
multi_read_paid n [] b bytes h =
    let (some_read, _) = budget_read-Delivers n b bytes h in
    omega (arith, some_read, (budget_read-IsCharged (suc n) b).charged bytes h)
multi_read_paid n (x ∷ xs) b bytes h = omega (arith, length-drop n xs)

-- What a Decode that ends has done.
pub record Decoded {S B V : Type 0} (d : JsonDecoder S B V) (t : Target B) (fuel : ℕ) (s : S)
    (front : Bytes) (b : BudgetReader) : Type 0 where
  pub result : Result GoError V
  pub decoder : S
  pub unread : Bytes
  pub budget : BudgetReader
  pub ends : decode d t fuel s front b ≡ some (result, decoder, unread, budget)
  pub took : Took b budget

module _ {S B V : Type 0} (d : JsonDecoder S B V) where
  at_once :
      (t : Target B) (fuel : ℕ) (s : S) (front : Bytes) (b : BudgetReader) (r : Result GoError V)
      (s' : S)
      → d.step t s ≡ returns r s'
      → decode d t fuel s front b ≡ some (r, s', front, b)
  unfolding decode
  at_once t zero s front b r s' p = rw (p, decode) refl
  at_once t (suc fuel) s front b r s' p = rw (p, decode) refl

  after_read :
      (t : Target B) (fuel : ℕ) (s : S) (front : Bytes) (b : BudgetReader) (n : ℕ)
      → d.step t s ≡ reads n
      → Decoded d t fuel
          (d.feed s (multi_read (suc n) front b).0)
          (multi_read (suc n) front b).1
          (multi_read (suc n) front b).2
      → Decoded d t (suc fuel) s front b
  unfolding decode
  after_read t fuel s front b n p k = record {
    result = k.result;
    decoder = k.decoder;
    unread = k.unread;
    budget = k.budget;
    ends = rw (p, decode) k.ends;
    took = both (multi_read-Took (suc n) front b) k.took;
  }

  -- With a round for each byte of the front and of the budget, and one more for an error, a Decode
  -- ends.
  pub decode_total :
      Stops d
      → (t : Target B) (fuel : ℕ) (s : S) (front : Bytes) (b : BudgetReader)
      → length front + b.left < fuel
      → Decoded d t fuel s front b
  decode_total stops t zero s front b l = absurd (omega (arith, l))
  decode_total stops t (suc fuel) s front b l = elim (JsonStep-cases (d.step t s)) [
    | inr (r, s', p) ↦ record {
      result = r;
      decoder = s';
      unread = front;
      budget = b;
      ends = at_once t (suc fuel) s front b r s' p;
      took = nothing b;
    }
    | inl (n, p) ↦
        let m = multi_read (suc n) front b in
        after_read t fuel s front b n p (elim (Result-cases m.0) [
          | inl (bytes, q) ↦
              decode_total stops t fuel (d.feed s m.0) m.1 m.2
                (omega (arith, multi_read_paid n front b bytes q, l))
          | inr (e, q) ↦
              let (r, s', h) = stops t s e in
              record {
                result = r;
                decoder = s';
                unread = m.1;
                budget = m.2;
                ends = at_once t fuel (d.feed s m.0) m.1 m.2 r s' (rw q h);
                took = nothing m.2;
              }
        ])
  ]
