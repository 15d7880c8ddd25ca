-- ===== src/Proxy/Headers/Laws.antt =====
-- The keys and values of the header that identityHeaders of v3/proxy/invoke.go builds.
use rpc.Base.{
  Text, ◌≡◌, refl, Bool, true, false, ◌||◌, Option, none, some, List, [], ◌∷◌, arith, if◌then◌else◌,
  is_empty, text_eq, text_eq_iff, All, Bool-cases, List-cases, inl, inr, ap, ◌∙◌,
}
use rpc.Base.Map.{Map, lookup, insert, lookup-insert}
use rpc.Proxy.Headers.{
  Header, identity_header_keys, metadata_at, from_metadata, from_inbound, identity_headers,
}

unfoldable pub member : Text → List Text → Bool
member k [] = false
member k (j ∷ ks) = text_eq j k || member k ks

-- What the header of the target call holds at a whitelisted key.
unfoldable pub from_either : List Text → Text → Option (List Text)
from_either [] v = if is_empty v then none else some (v ∷ [])
from_either (w ∷ ws) v = some (w ∷ ws)

-- rpc.Header's Set at the key `k` replaces the values at `k`, and nothing else.
abbrev pub SetsKey : (Header → Text → Text → Header) → Text → Type 0
SetsKey set k =
    (h : Header) (j v : Text)
    → lookup j (set h k v) ≡ (if text_eq k j then some (v ∷ []) else lookup j h)

abbrev or_kept : Option (List Text) → Option (List Text) → Option (List Text)
or_kept none kept = kept
or_kept (some vs) kept = some vs

abbrev given : Bool → Option (List Text) → Option (List Text)
given true vs = vs
given false vs = none

lookup_nil : (j : Text) → lookup {V = List Text} j [] ≡ none
unfolding lookup
lookup_nil j = refl

combine :
    (listed : Bool) (vs : List Text) (v : Text)
    → or_kept (given listed (from_either vs [])) (or_kept (given listed (from_either [] v)) none)
      ≡ (if listed then from_either vs v else none)
unfolding from_either is_empty
combine true [] v = ground arith
combine true (w ∷ ws) v = refl
combine false vs v = refl

module _ (set : Header → Text → Text → Header) (values : Header → Text → List Text) where
  lookup-from_metadata :
      (md : Map Text) (h : Header) (ks : List Text) (j : Text)
      → All (SetsKey set) ks
      → lookup j (from_metadata set values md h ks)
        ≡ or_kept (given (member j ks) (from_either [] (metadata_at md j))) (lookup j h)
  unfolding from_metadata member from_either
  lookup-from_metadata md h [] j law = refl
  lookup-from_metadata md h (k ∷ ks) j law = elim (Bool-cases (is_empty (metadata_at md k))) [
    | inl e ↦
        ground
          (arith, e, lookup-from_metadata md h ks j law.1, ap (metadata_at md), text_eq_iff k j)
    | inr e ↦ ground (
      arith,
      e,
      lookup-from_metadata md (set h k (metadata_at md k)) ks j law.1,
      law.0 h j (metadata_at md k),
      text_eq_iff k j,
    )
  ]

  lookup-from_inbound :
      (inbound h : Header) (ks : List Text) (j : Text)
      → lookup j (from_inbound set values inbound h ks)
        ≡ or_kept (given (member j ks) (from_either (values inbound j) [])) (lookup j h)
  unfolding from_inbound member from_either is_empty
  lookup-from_inbound inbound h [] j = refl
  lookup-from_inbound inbound h (k ∷ ks) j = elim (List-cases (values inbound k)) [
    | inl e ↦
        ground (arith, e, lookup-from_inbound inbound h ks j, ap (values inbound), text_eq_iff k j)
    | inr (v, vs, e) ↦ ground (
      arith,
      e,
      lookup-from_inbound inbound (insert k (v ∷ vs) h) ks j,
      lookup-insert k j (v ∷ vs) h,
      ap (values inbound),
      text_eq_iff k j,
    )
  ]

  -- The header sent to the target holds at a whitelisted key the values of the incoming context,
  -- or, where it has none, the metadata's value if that is not empty; it holds nothing at any
  -- other key.
  pub lookup-identity_headers :
      (inbound : Header) (md : Map Text) (j : Text)
      → All (SetsKey set) identity_header_keys
      → lookup j (identity_headers set values inbound md) ≡ (
          if member j identity_header_keys
          then from_either (values inbound j) (metadata_at md j)
          else none)
  unfolding identity_headers
  lookup-identity_headers inbound md j law =
      lookup-from_inbound inbound (from_metadata set values md [] identity_header_keys)
        identity_header_keys j
      ∙ ap (or_kept (given (member j identity_header_keys) (from_either (values inbound j) [])))
          (lookup-from_metadata md [] identity_header_keys j law ∙ ap (or_kept _) (lookup_nil j))
      ∙ combine (member j identity_header_keys) (values inbound j) (metadata_at md j)
