-- ===== src/Tests/Allowlist.antt =====
-- Method names and allowlists, after v3/proxy/allowlist_test.go and service_test.go.
use rpc.Base.{
  Text, ◌≡◌, refl, ◌↔◌, none, some, List, [], ◌∷◌, codes, err, ok, All, if◌then◌else◌, ◌||◌,
  is_empty, contains_byte, text_eq,
}
use rpc.Base.Map.{lookup, insert, has, keys}
use rpc.Errors.{failure, dotted_entry, malformed_entry, method_not_allowed}
use rpc.Proxy.Method.{split_method, trim_space, cut}
use rpc.Proxy.Method.Laws.{IsMethod, split_method_iff}
use rpc.Proxy.Allowlist.{
  policy_default, policy_deny_empty, Allowlist, new_allowlist, add_entry, allowed, allows,
  entries_of,
}
use rpc.Proxy.Allowlist.Permits.{permits, all_blank}
use rpc.Proxy.Allowlist.Decision.{allowed_default, allowed_deny_empty}
use rpc.Proxy.Allowlist.Entries.{IsEntry, new_allowlist_iff}

methods :
    (split_method (codes "kata.Run") ≡ some (codes "kata"))
    × (split_method (codes "a.b.c") ≡ some (codes "a"))
    × (split_method (codes "kata") ≡ none)
    × (split_method (codes "kata.") ≡ none)
    × (split_method (codes ".Run") ≡ none)
    × (split_method (codes "") ≡ none)
unfolding split_method
methods = (refl, refl, refl, refl, refl, refl)

trimmed : trim_space (codes "\t kata.* \n") ≡ codes "kata.*"
unfolding trim_space
trimmed = refl

split_method_iff_example :
    (split_method (codes "kata.Run") ≡ some (codes "kata"))
    ↔ IsMethod (codes "kata.Run") (codes "kata")
split_method_iff_example = split_method_iff (codes "kata.Run") (codes "kata")

abbrev configured_entries : List Text
configured_entries = codes "miki.GetProgram" ∷ codes " kata.* " ∷ codes "" ∷ []

abbrev listed : Allowlist
listed = record {
  policy = policy_default;
  exact = (codes "miki.GetProgram", tt) ∷ [];
  services = (codes "kata", tt) ∷ [];
}

built : new_allowlist configured_entries policy_default ≡ ok listed
unfolding new_allowlist add_entry trim_space cut contains_byte text_eq is_empty insert
built = refl

abbrev denying : Allowlist
denying = record listed { policy = policy_deny_empty }

built_denying : new_allowlist configured_entries policy_deny_empty ≡ ok denying
unfolding new_allowlist add_entry trim_space cut contains_byte text_eq is_empty insert
built_denying = refl

rejected :
    (new_allowlist (codes "a.b.c" ∷ []) policy_default
      ≡ err (failure (dotted_entry (codes "a.b.c"))))
    × (new_allowlist (codes ".b" ∷ []) policy_default
        ≡ err (failure (malformed_entry (codes ".b"))))
unfolding new_allowlist add_entry trim_space cut contains_byte text_eq is_empty insert
rejected = (refl, refl)

answers :
    (allowed (some listed) (codes "kata.Anything") ≡ none)
    × (allowed (some listed) (codes "miki.Other")
        ≡ some (failure (method_not_allowed (codes "miki.Other"))))
    × (allowed none (codes "miki.Other") ≡ none)
unfolding allowed allows has lookup split_method text_eq
answers = (refl, refl, refl)

normalised : entries_of (some listed) ≡ codes "miki.GetProgram" ∷ codes "kata.*" ∷ []
unfolding entries_of keys
normalised = refl

allowed_default_example : allowed (some listed) (codes "miki.Other") ≡ (
    if all_blank configured_entries || permits configured_entries (codes "miki.Other")
    then none
    else some (failure (method_not_allowed (codes "miki.Other"))))
allowed_default_example = allowed_default configured_entries listed (codes "miki.Other") built

allowed_deny_empty_example : allowed (some denying) (codes "kata.Run") ≡ (
    if permits configured_entries (codes "kata.Run")
    then none
    else some (failure (method_not_allowed (codes "kata.Run"))))
allowed_deny_empty_example =
    allowed_deny_empty configured_entries denying (codes "kata.Run") built_denying

new_allowlist_iff_example :
    ((a : Allowlist) × (new_allowlist configured_entries policy_default ≡ ok a))
    ↔ All IsEntry configured_entries
new_allowlist_iff_example = new_allowlist_iff configured_entries policy_default
