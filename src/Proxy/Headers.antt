-- ===== src/Proxy/Headers.antt =====
-- identityHeaders of v3/proxy/invoke.go. `rpc.Header` is the map type of go.slink.ws/rpc, which is
-- not part of the repository: its methods `Set` and `Values` are parameters.
pub mod Laws
use rpc.Base.{Text, Bool, none, some, List, [], ◌∷◌, if◌then◌else◌, is_empty, codes}
use rpc.Base.Map.{Map, lookup, insert}

abbrev pub Header : Type 0
Header = Map (List Text)

abbrev pub identity_header_keys : List Text
identity_header_keys =
    codes "X-User-Id" ∷ codes "X-Tenant-Id" ∷ codes "X-Groups" ∷ codes "X-Request-Id" ∷ []

-- md[k], the empty text where the key is missing
unfoldable pub metadata_at : Map Text → Text → Text
metadata_at md k = elim (lookup k md) [ none ↦ codes "" | some v ↦ v ]

module _ (set : Header → Text → Text → Header) (values : Header → Text → List Text) where
  -- The first loop, over the metadata.
  unfoldable pub from_metadata : Map Text → Header → List Text → Header
  from_metadata md h [] = h
  from_metadata md h (k ∷ ks) =
      let v = metadata_at md k in from_metadata md (if is_empty v then h else set h k v) ks

  -- The second loop, over the header of the incoming context.
  unfoldable pub from_inbound : Header → Header → List Text → Header
  from_inbound inbound h [] = h
  from_inbound inbound h (k ∷ ks) =
      from_inbound inbound (elim (values inbound k) [ [] ↦ h | v ∷ vs ↦ insert k (v ∷ vs) h ]) ks

  -- identityHeaders
  unfoldable pub identity_headers : Header → Map Text → Header
  unfolding from_metadata from_inbound
  identity_headers inbound md =
      from_inbound inbound (from_metadata md [] identity_header_keys) identity_header_keys
