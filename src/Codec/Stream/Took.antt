-- ===== src/Codec/Stream/Took.antt =====
-- What any number of Reads of budgetReader, in v3/codec/json_server_codec.go, do to it together.
use rpc.Base.{
  ℕ, ◌+◌, ◌≡◌, refl, ap, ◌∙◌, Bytes, [], ◌++◌, length, arith, append_assoc, length-append,
  Result-cases, inl, inr,
}
use rpc.Codec.Stream.{BudgetReader, budget_read}
use rpc.Codec.Stream.Budget.{stream, budget_read-IsCharged}

-- From one state of the reader to a later one without a reset between them: the bytes taken from
-- the front of the stream, and paid for out of the budget.
pub record Took (b b' : BudgetReader) : Type 0 where
  pub taken : Bytes
  pub split : taken ++ stream b' ≡ stream b
  pub paid : length taken + b'.left ≡ b.left

pub nothing : (b : BudgetReader) → Took b b
nothing b = record { taken = []; split = refl; paid = omega arith }

pub both : {a b c : BudgetReader} → Took a b → Took b c → Took a c
both {c = c} x y = record {
  taken = x.taken ++ y.taken;
  split = append_assoc x.taken y.taken (stream c) ∙ ap (λ r. x.taken ++ r) y.split ∙ x.split;
  paid = omega (arith, x.paid, y.paid, length-append x.taken y.taken);
}

pub budget_read-Took : (n : ℕ) (b : BudgetReader) → Took b (budget_read n b).1
budget_read-Took n b =
    let k = budget_read-IsCharged n b in
    elim (Result-cases (budget_read n b).0) [
      | inl (a, p) ↦ record { taken = a; split = k.kept a p; paid = k.charged a p }
      | inr (e, p) ↦ record { taken = []; split = k.same e p; paid = omega (arith, k.free e p) }
    ]
