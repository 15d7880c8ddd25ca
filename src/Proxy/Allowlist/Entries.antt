-- ===== src/Proxy/Allowlist/Entries.antt =====
-- The entries that NewAllowlist of v3/proxy/allowlist.go takes.
use rpc.Base.{
  Text, ◌≡◌, refl, ◌≢◌, ◌↔◌, ◌⊎◌, false, List, [], ◌∷◌, arith, inl, inr, Bool-cases, Option-cases,
  Result-cases, is_empty, is_empty_iff, ok, contains_byte, ap, All,
}
use rpc.Proxy.Method.{cut, trim_space}
use rpc.Proxy.Method.Laws.{IsCut, cut-append, cut_sound}
use rpc.Proxy.Allowlist.{
  AllowlistPolicy, Allowlist, add_entry, add_entries, empty_allowlist, new_allowlist,
}

-- A well-formed entry: blank, or "Service.rest" with one dot and both parts non-empty.
pub record IsSingleDotted (entry : Text) : Type 0 where
  pub service : Text
  pub rest : Text
  pub cut_at : IsCut b'.' entry service rest
  pub named : service ≢ []
  pub has_rest : rest ≢ []
  pub single : contains_byte b'.' rest ≡ false

abbrev pub IsEntry : Text → Type 0
IsEntry raw = (trim_space raw ≡ []) ⊎ IsSingleDotted (trim_space raw)

add_entry_total :
    (a : Allowlist) (entry : Text)
    → (entry ≡ []) ⊎ IsSingleDotted entry
    → (b : Allowlist) × (add_entry a entry ≡ ok b)
unfolding add_entry
add_entry_total a entry (inl e) = (a, ground (arith, is_empty_iff entry))
add_entry_total a entry (inr d) = elim (Result-cases (add_entry a entry)) [
  | inl built ↦ built
  | inr (x, e) ↦ absurd (
      ground (
        arith,
        e,
        d.named,
        d.has_rest,
        d.single,
        ap (cut b'.') d.cut_at.whole,
        cut-append b'.' d.service d.rest d.cut_at.first,
        is_empty_iff d.service,
        is_empty_iff d.rest,
      ))
]

add_entry-IsSingleDotted :
    (a b : Allowlist) (entry : Text)
    → add_entry a entry ≡ ok b
    → (entry ≡ []) ⊎ IsSingleDotted entry
unfolding add_entry
add_entry-IsSingleDotted a b entry h = elim (Bool-cases (is_empty entry)) [
  | inl blank ↦ inl ((is_empty_iff entry).0 blank)
  | inr full ↦ elim (Option-cases (cut b'.' entry)) [
    | inl e ↦ absurd (ground (arith, h, full, e))
    | inr ((service, rest), e) ↦ inr (record {
      service = service;
      rest = rest;
      cut_at = cut_sound b'.' entry service rest e;
      named = ground (arith, h, full, e, is_empty_iff service);
      has_rest = ground (arith, h, full, e, is_empty_iff rest);
      single = ground (arith, h, full, e);
    })
  ]
]

add_entries_total :
    (a : Allowlist) (entries : List Text)
    → All IsEntry entries
    → (b : Allowlist) × (add_entries a entries ≡ ok b)
unfolding add_entries
add_entries_total a [] h = (a, refl)
add_entries_total a (raw ∷ entries) h =
    let (b, e) = add_entry_total a (trim_space raw) h.0 in
    let (c, f) = add_entries_total b entries h.1 in (c, rw e f)

add_entries-IsEntry :
    (a b : Allowlist) (entries : List Text) → add_entries a entries ≡ ok b → All IsEntry entries
unfolding add_entries
add_entries-IsEntry a b [] h = tt
add_entries-IsEntry a b (raw ∷ entries) h = elim (Result-cases (add_entry a (trim_space raw))) [
  | inl (c, e) ↦
      (add_entry-IsSingleDotted a c (trim_space raw) e, add_entries-IsEntry c b entries (rw e at h))
  | inr (x, e) ↦ absurd (ground (arith, e, h))
]

-- NewAllowlist succeeds exactly when every entry is blank or, once trimmed, "Service.rest" with a
-- single dot and both parts non-empty.
pub new_allowlist_iff :
    (entries : List Text) (policy : AllowlistPolicy)
    → ((a : Allowlist) × (new_allowlist entries policy ≡ ok a)) ↔ All IsEntry entries
unfolding new_allowlist
new_allowlist_iff entries policy = (
  λ built. add_entries-IsEntry (empty_allowlist policy) built.0 entries built.1,
  add_entries_total (empty_allowlist policy) entries,
)
