-- ===== src/Proxy/Method.antt =====
-- SplitMethod of v3/proxy/service.go, and the functions of package strings that the proxy cuts
-- its texts with.
pub mod Laws
use rpc.Base.{
  ℕ, ◌-◌, Text, Bool, ◌||◌, ◌&&◌, Option, none, some, [], ◌∷◌, ◌==◌, leb, if◌then◌else◌, length,
  take, is_empty, index_byte,
}

-- SplitMethod: the service of "Service.Method"; `none` is ok=false.
unfoldable pub split_method : Text → Option Text
unfolding index_byte
split_method method = elim (index_byte b'.' method) [
  | none ↦ none
  | some i ↦ if i == 0 || i == length method - 1 then none else some (take i method)
]

-- strings.Cut for a one-character separator; `none` is found=false.
unfoldable pub cut : ℕ → Text → Option (Text × Text)
cut c [] = none
cut c (x ∷ xs) =
    if x == c
    then some ([], xs)
    else elim (cut c xs) [ none ↦ none | some (before, after) ↦ some (x ∷ before, after) ]

-- unicode.IsSpace
unfoldable pub is_space : ℕ → Bool
is_space c =
    (leb 9 c && leb c 13)
    || c == 0x20
    || c == 0x85
    || c == 0xa0
    || c == 0x1680
    || (leb 0x2000 c && leb c 0x200a)
    || c == 0x2028
    || c == 0x2029
    || c == 0x202f
    || c == 0x205f
    || c == 0x3000

unfoldable pub trim_left : Text → Text
unfolding is_space
trim_left [] = []
trim_left (x ∷ xs) = let rest = trim_left xs in if is_space x then rest else x ∷ xs

unfoldable pub trim_right : Text → Text
unfolding is_space is_empty
trim_right [] = []
trim_right (x ∷ xs) =
    let rest = trim_right xs in if is_empty rest && is_space x then [] else x ∷ rest

-- strings.TrimSpace
unfoldable pub trim_space : Text → Text
unfolding trim_left trim_right
trim_space s = trim_right (trim_left s)
