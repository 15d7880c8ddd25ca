-- ===== src/Base/Strings.antt =====
-- Text and byte strings. A Go string is the list of its code points: the program cuts its texts
-- only next to the ASCII characters `.`, `,`, `=`, `:` and brackets, where code points and bytes
-- agree. A `[]byte` is the list of its bytes.
use Prim.Native.Nat.{ℕ, suc}
use Prim.Native.Char.{code}
use Prim.Native.String.{String}
use mathlib.Core.Path.{◌≡◌, refl}
use mathlib.Core.Logic.{◌↔◌}
use mathlib.Core.Bool.{Bool, true, false, ◌&&◌}
use mathlib.Core.Option.{Option, none, some}
use mathlib.Core.List.{List, [], ◌∷◌}
use native.Mathlib.Omega.{arith}
use rpc.Base.Tests.{◌==◌, if◌then◌else◌}

abbrev pub Text : Type 0
Text = List ℕ

abbrev pub Bytes : Type 0
Bytes = List ℕ

-- The code points of a literal.
abbrev pub codes : String → Text
codes String.[] = []
codes (String.◌∷◌ c s) = code c ∷ codes s

unfoldable pub text_eq : Text → Text → Bool
text_eq [] [] = true
text_eq (x ∷ xs) (y ∷ ys) = x == y && text_eq xs ys
text_eq _ _ = false

pub text_eq_iff : (s t : Text) → (text_eq s t ≡ true) ↔ (s ≡ t)
unfolding text_eq
text_eq_iff [] [] = ground arith
text_eq_iff [] (y ∷ ys) = ground arith
text_eq_iff (x ∷ xs) [] = ground arith
text_eq_iff (x ∷ xs) (y ∷ ys) = ground (arith, text_eq_iff xs ys)

pub text_eq_refl : (s : Text) → text_eq s s ≡ true
text_eq_refl s = (text_eq_iff s s).1 refl

-- `s == ""`
unfoldable pub is_empty : Text → Bool
is_empty [] = true
is_empty (x ∷ xs) = false

-- strings.IndexByte; `none` is -1.
unfoldable pub index_byte : ℕ → Text → Option ℕ
index_byte c [] = none
index_byte c (x ∷ xs) =
    if x == c then some 0 else elim (index_byte c xs) [ none ↦ none | some i ↦ some (suc i) ]

-- strings.Contains(s, c) for a one-byte needle.
unfoldable pub contains_byte : ℕ → Text → Bool
contains_byte c [] = false
contains_byte c (x ∷ xs) = if x == c then true else contains_byte c xs

pub is_empty_iff : (s : Text) → (is_empty s ≡ true) ↔ (s ≡ [])
unfolding is_empty
is_empty_iff [] = ground arith
is_empty_iff (x ∷ xs) = ground arith
