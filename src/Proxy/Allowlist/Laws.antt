-- ===== src/Proxy/Allowlist/Laws.antt =====
-- The two maps of an Allowlist of v3/proxy/allowlist.go, and the meaning of its entries.
use rpc.Base.{
  Text, ◌≡◌, sym, ◌∙◌, Bool-cases, true, false, ◌&&◌, ◌||◌, none, some, List, [], ◌∷◌, ◌++◌, arith,
  inl, inr, Option-cases, Result-cases, is_empty, contains_byte, text_eq, text_eq_iff, text_eq_refl,
  codes, ok,
}
use rpc.Base.Map.{Map, insert, has, lookup-insert}
use rpc.Proxy.Method.{split_method, cut, trim_space}
use rpc.Proxy.Method.Laws.{IsCut, cut-append, cut_sound, split_method_iff}
use rpc.Proxy.Allowlist.{Allowlist, add_entry, add_entries, allows}
use rpc.Proxy.Allowlist.Permits.{is_wildcard_of, entry_permits, permits}

has-insert : (k j : Text) (m : Map (Unit {0})) → has j (insert k tt m) ≡ (text_eq k j || has j m)
unfolding has
has-insert k j m = ground (arith, lookup-insert k j tt m)

cut_unique :
    (entry service rest s r : Text)
    → IsCut b'.' entry service rest
    → IsCut b'.' entry s r
    → (service ≡ s) × (rest ≡ r)
cut_unique entry service rest s r c d =
    let e = cut-append b'.' service rest c.first in
    let f = cut-append b'.' s r d.first in
    (cc (c.whole, d.whole, e, f), cc (c.whole, d.whole, e, f))

-- An entry is the wildcard of a dotless `s` exactly when its parts are `s` and "*".
wildcard_eq :
    (entry service rest s : Text)
    → IsCut b'.' entry service rest
    → contains_byte b'.' s ≡ false
    → text_eq entry (s ++ codes ".*") ≡ (text_eq service s && text_eq rest (codes "*"))
wildcard_eq entry service rest s c h = ground (
  arith,
  text_eq_iff entry (s ++ codes ".*"),
  text_eq_iff service s,
  text_eq_iff rest (codes "*"),
  same,
)
  where
    same : entry ≡ s ++ codes ".*" → (service ≡ s) × (rest ≡ codes "*")
    same e = cut_unique entry service rest s (codes "*") c (record { whole = e; first = h })

-- Over a well-formed entry: the wildcard test compares the parts.
wildcard_lem :
    (method entry service rest : Text)
    → IsCut b'.' entry service rest
    → is_wildcard_of method entry ≡ elim (split_method method) [
      | none ↦ false
      | some s ↦ text_eq service s && text_eq rest (codes "*")
    ]
unfolding is_wildcard_of
wildcard_lem method entry service rest c = elim (Option-cases (split_method method)) [
  | inl e ↦ rw (e, is_wildcard_of)
  | inr (s, e) ↦
      rw (e, is_wildcard_of)
        (wildcard_eq entry service rest s c ((split_method_iff method s).0 e).cut_at.first)
]

-- A method spelled like a well-formed entry is a method of the entry's service.
split_method_entry :
    (method entry service rest : Text)
    → IsCut b'.' entry service rest
    → is_empty service ≡ false
    → is_empty rest ≡ false
    → text_eq entry method ≡ true
    → split_method method ≡ some service
unfolding is_empty
split_method_entry method entry service rest c h k e =
    let same : entry ≡ method = (text_eq_iff entry method).0 e in
    (split_method_iff method service).1 (record {
      rest = rest;
      cut_at = record { whole = sym same ∙ c.whole; first = c.first };
      named = λ p. ground (arith, p);
      has_rest = λ p. ground (arith, p);
    })

module _ (a b : Allowlist) (entry method : Text) (added : add_entry a entry ≡ ok b) where
  add_cut :
      (service rest : Text)
      → cut b'.' entry ≡ some (service, rest)
      → IsCut b'.' entry service rest
      → is_empty entry ≡ false
      → allows b method ≡ (allows a method || entry_permits method entry)
  unfolding add_entry allows entry_permits
  add_cut service rest e c full = elim (Option-cases (split_method method)) [
    | inl n ↦ ground (
      arith,
      e,
      n,
      full,
      added,
      wildcard_lem method entry service rest c,
      split_method_entry method entry service rest c,
      has-insert entry method a.exact,
    )
    | inr (s, n) ↦ ground (
      arith,
      e,
      n,
      full,
      added,
      wildcard_lem method entry service rest c,
      split_method_entry method entry service rest c,
      text_eq_iff service s,
      text_eq_refl service,
      has-insert entry method a.exact,
      has-insert service s a.services,
    )
  ]

  -- One entry adds to what is allowed just what it permits.
  allows-add_entry : allows b method ≡ (allows a method || entry_permits method entry)
  unfolding add_entry entry_permits
  allows-add_entry = elim (Bool-cases (is_empty entry)) [
    | inl blank ↦ ground (arith, blank, added)
    | inr full ↦ elim (Option-cases (cut b'.' entry)) [
      | inl e ↦ ground (arith, full, e, added)
      | inr ((service, rest), e) ↦ add_cut service rest e (cut_sound b'.' entry service rest e) full
    ]
  ]

pub allows-add_entries :
    (a b : Allowlist) (entries : List Text) (method : Text)
    → add_entries a entries ≡ ok b
    → allows b method ≡ (allows a method || permits entries method)
unfolding add_entries permits
allows-add_entries a b [] method h = ground arith
allows-add_entries a b (raw ∷ entries) method h =
    elim (Result-cases (add_entry a (trim_space raw))) [
      | inl (c, e) ↦ ground (
        arith,
        e,
        h,
        allows-add_entry a c (trim_space raw) method e,
        allows-add_entries c b entries method,
      )
      | inr (x, e) ↦ ground (arith, e, h)
    ]
