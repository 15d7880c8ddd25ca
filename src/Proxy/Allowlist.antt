-- ===== src/Proxy/Allowlist.antt =====
-- v3/proxy/allowlist.go. A `map[string]struct{}` is a map to the unit type; a nil `*Allowlist` is
-- `none`, and so is a nil error.
pub mod Permits
pub mod Laws
pub mod Decision
pub mod Entries
use rpc.Base.{
  Text, Bool, true, false, not, ◌||◌, Option, none, some, List, [], ◌∷◌, ◌++◌, map, ◌+◌, ltb,
  if◌then◌else◌, length, is_empty, contains_byte, text_eq, codes, Result, ok, err, ◌>>=◌, is_some,
}
use rpc.Base.Int.{ℤ}
use rpc.Base.Map.{Map, insert, has, keys}
use rpc.Errors.{GoError, failure, malformed_entry, dotted_entry, unknown_policy, method_not_allowed}
use rpc.Proxy.Method.{split_method, cut, trim_space}

-- The constants of AllowlistPolicy, and any other int.
pub data AllowlistPolicy : Type 0 where
  policy_default policy_deny_empty : AllowlistPolicy
  other_policy : ℤ → AllowlistPolicy

pub record Allowlist : Type 0 where
  pub policy : AllowlistPolicy
  pub exact : Map (Unit {0})
  pub services : Map (Unit {0})

-- The body of the loop of NewAllowlist, after TrimSpace.
unfoldable pub add_entry : Allowlist → Text → Result GoError Allowlist
add_entry a entry = if is_empty entry then ok a else elim (cut b'.' entry) [
  | none ↦ err (failure (malformed_entry entry))
  | some (service, rest) ↦
      if is_empty service || is_empty rest
      then err (failure (malformed_entry entry))
      else if contains_byte b'.' rest
      then err (failure (dotted_entry entry))
      else if text_eq rest (codes "*")
      then ok (record a { services = insert service tt a.services })
      else ok (record a { exact = insert entry tt a.exact })
]

unfoldable pub add_entries : Allowlist → List Text → Result GoError Allowlist
add_entries a [] = ok a
add_entries a (raw ∷ entries) = add_entry a (trim_space raw) >>= λ b. add_entries b entries

abbrev pub empty_allowlist : AllowlistPolicy → Allowlist
empty_allowlist policy = record { policy = policy; exact = []; services = [] }

-- NewAllowlist
unfoldable pub new_allowlist : List Text → AllowlistPolicy → Result GoError Allowlist
unfolding add_entries
new_allowlist entries policy = add_entries (empty_allowlist policy) entries

-- allows
unfoldable pub allows : Allowlist → Text → Bool
allows a method =
    if has method a.exact
    then true
    else elim (split_method method) [ none ↦ false | some service ↦ has service a.services ]

-- The switch of Allowed: whether the list filters, or the error of an unknown policy.
unfoldable pub filters : Allowlist → AllowlistPolicy → Result GoError Bool
filters a policy_default = ok (ltb 0 (length a.exact + length a.services))
filters a policy_deny_empty = ok true
filters a (other_policy p) = err (failure (unknown_policy p))

-- Allowed; `none` is a nil error: the call is allowed.
unfoldable pub allowed : Option Allowlist → Text → Option GoError
unfolding filters
allowed none method = none
allowed (some a) method = elim (filters a a.policy) [
  | err e ↦ some e
  | ok filter ↦
      if not filter
      then none
      else if allows a method
      then none
      else some (failure (method_not_allowed method))
]

-- Entries, in the order in which the maps are visited.
unfoldable pub entries_of : Option Allowlist → List Text
entries_of none = []
entries_of (some a) = keys a.exact ++ map (λ s. s ++ codes ".*") (keys a.services)
