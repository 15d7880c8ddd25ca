-- ===== src/Proxy/Allowlist/Decision.antt =====
-- What `Allowed` answers, in terms of the configured entries and the policy.
use rpc.Base.{
  ℕ, Text, ◌≡◌, ◌+◌, ◌≤◌, ◌<◌, true, false, ◌||◌, none, some, List, [], ◌∷◌, arith, inl, inr,
  Option-cases, Result-cases, if◌then◌else◌, length, is_empty, ok,
}
use rpc.Base.Map.{length-insert, has, lookup}
use rpc.Errors.{failure, method_not_allowed}
use rpc.Proxy.Method.{cut, trim_space}
use rpc.Proxy.Allowlist.{
  AllowlistPolicy, policy_default, policy_deny_empty, Allowlist, add_entry, add_entries,
  empty_allowlist, new_allowlist, allows, allowed,
}
use rpc.Proxy.Allowlist.Permits.{permits, all_blank}
use rpc.Proxy.Allowlist.Laws.{allows-add_entries}

allows-empty :
    (policy : AllowlistPolicy) (method : Text) → allows (empty_allowlist policy) method ≡ false
unfolding allows has lookup
allows-empty policy method = ground arith

abbrev size : Allowlist → ℕ
size a = length a.exact + length a.services

-- A blank entry leaves the list as it is, any other makes it non-empty; the policy stays.
add_entry-size :
    (a b : Allowlist) (entry : Text)
    → add_entry a entry ≡ ok b
    → (b.policy ≡ a.policy)
      × (is_empty entry ≡ true → b ≡ a)
      × (is_empty entry ≡ false → 0 < size b)
      × (size a ≤ size b)
unfolding add_entry
add_entry-size a b entry h = elim (Option-cases (cut b'.' entry)) [
  | inl e ↦ ground (arith, e, h)
  | inr ((service, rest), e) ↦
      ground (arith, e, h, length-insert service tt a.services, length-insert entry tt a.exact)
]

add_entries-size :
    (a b : Allowlist) (entries : List Text)
    → add_entries a entries ≡ ok b
    → (b.policy ≡ a.policy)
      × (size a ≤ size b)
      × (all_blank entries ≡ true → size b ≡ size a)
      × (all_blank entries ≡ false → 0 < size b)
unfolding add_entries all_blank
add_entries-size a b [] h = ground arith
add_entries-size a b (raw ∷ entries) h = elim (Result-cases (add_entry a (trim_space raw))) [
  | inl (c, e) ↦
      ground (arith, e, h, add_entry-size a c (trim_space raw) e, add_entries-size c b entries)
  | inr (x, e) ↦ ground (arith, e, h)
]

module _ (policy : AllowlistPolicy) (entries : List Text) (a : Allowlist)
    (built : new_allowlist entries policy ≡ ok a) where
  -- The policy is kept, the maps are empty exactly for blank entries, and they permit the same.
  built_lem :
      (method : Text)
      → (a.policy ≡ policy)
        × (allows a method ≡ permits entries method)
        × (all_blank entries ≡ true → size a ≡ 0)
        × (all_blank entries ≡ false → 0 < size a)
  unfolding new_allowlist has lookup
  built_lem method = ground (
    arith,
    add_entries-size (empty_allowlist policy) a entries built,
    allows-add_entries (empty_allowlist policy) a entries method built,
    allows-empty policy method,
  )

-- A built allowlist under the default policy lets a method through exactly when its entries are
-- all blank or one of them permits the method; any other method gets the denial that names it.
pub allowed_default :
    (entries : List Text) (a : Allowlist) (method : Text)
    → new_allowlist entries policy_default ≡ ok a
    → allowed (some a) method ≡ (
        if all_blank entries || permits entries method
        then none
        else some (failure (method_not_allowed method)))
unfolding allowed
allowed_default entries a method h =
    let b = built_lem policy_default entries a h method in rw (b.0, allowed) (ground (arith, b))

-- Under PolicyDenyEmpty a method passes exactly when an entry permits it: blank entries let
-- nothing through.
pub allowed_deny_empty :
    (entries : List Text) (a : Allowlist) (method : Text)
    → new_allowlist entries policy_deny_empty ≡ ok a
    → allowed (some a) method
      ≡ (if permits entries method then none else some (failure (method_not_allowed method)))
unfolding allowed
allowed_deny_empty entries a method h =
    let b = built_lem policy_deny_empty entries a h method in rw (b.0, allowed) (ground (arith, b))
