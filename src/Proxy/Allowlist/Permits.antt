-- ===== src/Proxy/Allowlist/Permits.antt =====
-- What a list of entries means, read off the configuration and not off the two maps.
use rpc.Base.{
  Text, Bool, true, false, not, ◌&&◌, ◌||◌, none, some, List, [], ◌∷◌, ◌++◌, is_empty, text_eq,
  codes,
}
use rpc.Proxy.Method.{split_method, trim_space}

-- The wildcard of the method's service.
unfoldable pub is_wildcard_of : Text → Text → Bool
is_wildcard_of method entry = elim (split_method method) [
  | none ↦ false
  | some service ↦ text_eq entry (service ++ codes ".*")
]

-- An entry permits the method that it spells, and a wildcard every method of its service.
unfoldable pub entry_permits : Text → Text → Bool
entry_permits method entry =
    not (is_empty entry) && (text_eq entry method || is_wildcard_of method entry)

unfoldable pub permits : List Text → Text → Bool
permits [] method = false
permits (raw ∷ entries) method = entry_permits method (trim_space raw) || permits entries method

-- No entry says anything.
unfoldable pub all_blank : List Text → Bool
all_blank [] = true
all_blank (raw ∷ entries) = is_empty (trim_space raw) && all_blank entries
