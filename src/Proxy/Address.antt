-- ===== src/Proxy/Address.antt =====
-- Target addresses: splitHostPortDefault of v3/proxy/config.go, targetString of
-- v3/proxy/invoke.go, and the functions of packages net and strconv that they call.
pub mod Laws
use rpc.Base.{
  ℕ, zero, suc, ◌+◌, ◌-◌, ◌*◌, ◌/◌, ◌%◌, ◌^◌, Text, Bool, true, false, ◌&&◌, ◌||◌, not, Option,
  none, some, [], ◌∷◌, ◌++◌, ◌==◌, ltb, leb, if◌then◌else◌, contains_byte, is_empty, codes, Result,
  ok, err,
}
use rpc.Base.Int.{ℤ, pos, negsuc}
use rpc.Errors.{
  GoError, failure, wrap, opaque_error, empty_target, invalid_target, bad_port_text,
  port_out_of_range,
}
use rpc.Proxy.Method.{cut}
use rpc.Proxy.Types.{Target}

-- The decimal digits of a number, in front of `acc`; `suc n` rounds are enough for `n`.
decimal_from : ℕ → ℕ → Text → Text
decimal_from zero n acc = acc
decimal_from (suc fuel) n acc =
    let rest = decimal_from fuel (n / 10) ((b'0' + n % 10) ∷ acc) in
    if ltb n 10 then (b'0' + n) ∷ acc else rest

-- strconv.Itoa
unfoldable pub itoa : ℤ → Text
unfolding decimal_from
itoa (pos n) = decimal_from (suc n) n []
itoa (negsuc n) = b'-' ∷ decimal_from (suc (suc n)) (suc n) []

-- net.JoinHostPort
unfoldable pub join_host_port : Text → Text → Text
join_host_port host port =
    if contains_byte b':' host then b'[' ∷ (host ++ (b']' ∷ b':' ∷ port)) else host ++ (b':' ∷ port)

-- targetString
unfoldable pub target_string : Target → Text
target_string t = join_host_port t.addr (itoa t.port)

-- The text around the last occurrence of a character.
unfoldable pub cut_last : ℕ → Text → Option (Text × Text)
cut_last c [] = none
cut_last c (x ∷ xs) = elim (cut_last c xs) [
  | some (before, after) ↦ some (x ∷ before, after)
  | none ↦ if x == c then some ([], xs) else none
]

abbrev missing_port : Text
missing_port = codes "missing port in address"

abbrev too_many_colons : Text
too_many_colons = codes "too many colons in address"

abbrev missing_bracket : Text
missing_bracket = codes "missing ']' in address"

abbrev unexpected_opening : Text
unexpected_opening = codes "unexpected '[' in address"

abbrev unexpected_closing : Text
unexpected_closing = codes "unexpected ']' in address"

-- net.SplitHostPort of "[host]..."; the error is the reason.
unfoldable pub split_bracketed : Text → Result Text (Text × Text)
split_bracketed rest = elim (cut b']' rest) [
  | none ↦ err missing_bracket
  | some (host, []) ↦ err missing_port
  | some (host, c ∷ after) ↦
      if not (c == b':')
      then err missing_port
      else if contains_byte b':' after
      then err too_many_colons
      else if contains_byte b'[' rest
      then err unexpected_opening
      else if contains_byte b']' after
      then err unexpected_closing
      else ok (host, after)
]

unfoldable pub split_plain : Text → Text → Result Text (Text × Text)
split_plain host port =
    if contains_byte b':' host
    then err too_many_colons
    else if contains_byte b'[' host || contains_byte b'[' port
    then err unexpected_opening
    else if contains_byte b']' host || contains_byte b']' port
    then err unexpected_closing
    else ok (host, port)

-- net.SplitHostPort, with the reason of an *AddrError
unfoldable pub split_host_port : Text → Result Text (Text × Text)
split_host_port s = elim (cut_last b':' s) [
  | none ↦ err missing_port
  | some (before, after) ↦ elim s [
    | [] ↦ err missing_port
    | c ∷ rest ↦ if c == b'[' then split_bracketed rest else split_plain before after
  ]
]

-- (*AddrError).Error
abbrev addr_error : Text → Text → Text
addr_error addr reason = codes "address " ++ (addr ++ (codes ": " ++ reason))

unfoldable pub has_prefix : Text → Text → Bool
has_prefix [] s = true
has_prefix (c ∷ prefix) [] = false
has_prefix (c ∷ prefix) (x ∷ xs) = (x == c) && has_prefix prefix xs

-- strings.Contains
unfoldable pub contains : Text → Text → Bool
unfolding has_prefix
contains needle [] = has_prefix needle []
contains needle (x ∷ xs) = let rest = contains needle xs in has_prefix needle (x ∷ xs) || rest

-- The number that digits continue from `n`; `none` for any other character.
unfoldable pub digits_from : ℕ → Text → Option ℕ
digits_from n [] = some n
digits_from n (c ∷ s) =
    let rest = digits_from (n * 10 + (c - b'0')) s in
    if leb b'0' c && leb c b'9' then rest else none

unfoldable pub unsigned : Text → Option ℕ
unsigned s = if is_empty s then none else digits_from 0 s

-- strconv.Atoi for a 64-bit int, less its error's text.
unfoldable pub atoi : Text → Option ℤ
unfolding unsigned
atoi [] = none
atoi (c ∷ s) =
    if c == b'-'
    then elim (unsigned s) [
      | none ↦ none
      | some zero ↦ some (pos 0)
      | some (suc n) ↦ if ltb n (2 ^ 63) then some (negsuc n) else none
    ]
    else elim (if c == b'+' then unsigned s else unsigned (c ∷ s)) [
      | none ↦ none
      | some n ↦ if ltb n (2 ^ 63) then some (pos n) else none
    ]

abbrev pub default_target_port : ℤ
default_target_port = pos 2233

unfoldable pub in_port_range : ℤ → Bool
in_port_range (pos n) = leb 1 n && leb n 65535
in_port_range (negsuc n) = false

-- splitHostPortDefault
unfoldable pub split_host_port_default : Text → Result GoError (Text × ℤ)
split_host_port_default v =
    if is_empty v then err (failure empty_target) else elim (split_host_port v) [
      | err reason ↦
          if contains (codes "missing port") (addr_error v reason)
          then ok (v, default_target_port)
          else err (wrap (codes "invalid target") (opaque_error (addr_error v reason)))
      | ok (host, text) ↦ elim (atoi text) [
        | none ↦ err (wrap (codes "invalid port") (failure (bad_port_text v)))
        | some port ↦
            if in_port_range port then ok (host, port) else err (failure (port_out_of_range port v))
      ]
    ]
