-- ===== src/Codec/Stream.antt =====
-- Byte sources: a connection, and budgetReader of v3/codec/json_server_codec.go. A connection is
-- the chunks that its Reads will find available, and the error at its end; `left` is never
-- negative, since the codecs reset it to a positive limit and a Read returns no more than asked
-- for.
pub mod Budget
pub mod Took
use rpc.Base.{
  ℕ, zero, suc, ◌-◌, ◌*◌, ◌^◌, Bytes, List, [], ◌∷◌, ◌++◌, ◌==◌, ltb, if◌then◌else◌, length, take,
  drop, Result, ok, err,
}
use rpc.Base.Int.{ℤ, is_positive, magnitude}
use rpc.Errors.{GoError, sentinel, body_too_large}

pub record Conn : Type 0 where
  pub chunks : List Bytes
  pub ends : GoError

-- All bytes still to come.
unfoldable pub flatten : List Bytes → Bytes
flatten [] = []
flatten (c ∷ cs) = c ++ flatten cs

-- io.Reader's Read: at most `n` bytes of what is available. A chunk without bytes is no event.
unfoldable pub read_chunks : ℕ → GoError → List Bytes → Result GoError Bytes × List Bytes
read_chunks n ends [] = (err ends, [])
read_chunks n ends ([] ∷ cs) = read_chunks n ends cs
read_chunks n ends ((b ∷ bs) ∷ cs) = (ok (take n (b ∷ bs)), drop n (b ∷ bs) ∷ cs)

-- budgetReader
pub record BudgetReader : Type 0 where
  pub conn : Conn
  pub left : ℕ

-- DefaultMaxJSONBody, 4 << 20
abbrev pub default_max_json_body : ℕ
default_max_json_body = 4 * 2 ^ 20

-- The limit of a codec: `maxBody <= 0` stands for the default.
unfoldable pub effective_max_body : ℤ → ℕ
effective_max_body max_body =
    if is_positive max_body then magnitude max_body else default_max_json_body

-- resetBudget
unfoldable pub reset_budget : ℕ → BudgetReader → BudgetReader
reset_budget n b = record b { left = n }

-- if int64(len(p)) > b.left { p = p[:b.left] }
unfoldable pub clip : ℕ → ℕ → ℕ
clip n left = if ltb left n then left else n

-- budgetReader.Read into a slice of `n` bytes
unfoldable pub budget_read : ℕ → BudgetReader → Result GoError Bytes × BudgetReader
unfolding clip
budget_read n b =
    if b.left == 0
    then (err (sentinel body_too_large), b)
    else let (r, cs) = read_chunks (clip n b.left) b.conn.ends b.conn.chunks in
      elim r [
        | err e ↦ (err e, record b { conn = record { chunks = cs; ends = b.conn.ends } })
        | ok bytes ↦ (
          ok bytes,
          record {
            conn = record { chunks = cs; ends = b.conn.ends };
            left = b.left - length bytes;
          },
        )
      ]

-- Reads with slices of the given sizes, up to the first error: the bytes delivered.
unfoldable pub read_all : List ℕ → BudgetReader → Bytes × BudgetReader
read_all [] b = ([], b)
read_all (n ∷ ns) b =
    let (r, b') = budget_read n b in
    elim r [
      | err e ↦ ([], b')
      | ok bytes ↦ let (more, b'') = read_all ns b' in (bytes ++ more, b'')
    ]
