-- ===== src/Proxy/Router.antt =====
-- v3/proxy/router.go. The RWMutex is left out: after construction the table is only read.
pub mod Laws
use rpc.Base.{
  Text, Bool, true, false, ◌||◌, not, Option, none, some, [], ◌∷◌, ltb, if◌then◌else◌, is_empty,
  text_eq, codes, Result, ok, err, ◌>>=◌,
}
use rpc.Base.Int.{ℤ, pos, negsuc}
use rpc.Base.Map.{Map, lookup, insert}
use rpc.Errors.{
  GoError, failure, empty_service_name, empty_addr, invalid_port, invalid_transport, no_route,
}
use rpc.Proxy.Types.{Target}

pub record StaticRouter : Type 0 where
  pub targets : Map Target

-- tgt.Port < 0 || tgt.Port > 65535
unfoldable pub is_bad_port : ℤ → Bool
is_bad_port (pos n) = ltb 65535 n
is_bad_port (negsuc n) = true

-- The cases of the switch on tgt.Transport.
unfoldable pub is_transport : Text → Bool
is_transport t =
    text_eq t (codes "")
    || text_eq t (codes "auto")
    || text_eq t (codes "json")
    || text_eq t (codes "legacy")

-- The body of the loop of NewStaticRouter, up to the store.
unfoldable pub validate : Text → Target → Option GoError
validate name tgt =
    if is_empty name
    then some (failure empty_service_name)
    else if is_empty tgt.addr
    then some (failure (empty_addr name))
    else if is_bad_port tgt.port
    then some (failure (invalid_port name tgt.port))
    else if is_transport tgt.transport
    then none
    else some (failure (invalid_transport name tgt.transport))

-- The loop over the table, in the order of the visit.
unfoldable pub validate_all : Map Target → Map Target → Result GoError (Map Target)
validate_all validated [] = ok validated
validate_all validated ((name, tgt) ∷ targets) =
    let rest = validate_all (insert name tgt validated) targets in
    elim (validate name tgt) [ some e ↦ err e | none ↦ rest ]

-- NewStaticRouter
unfoldable pub new_static_router : Map Target → Result GoError StaticRouter
unfolding validate_all
new_static_router targets =
    validate_all [] targets >>= λ validated. ok (record { targets = validated })

-- Resolve
unfoldable pub resolve : StaticRouter → Text → Result GoError Target
resolve r service = elim (lookup service r.targets) [
  | none ↦ err (failure (no_route service))
  | some tgt ↦ ok tgt
]

copy_into : Map Target → Map Target → Map Target
copy_into out [] = out
copy_into out ((k, v) ∷ targets) = copy_into (insert k v out) targets

-- Targets: a copy of the table.
unfoldable pub targets_of : StaticRouter → Map Target
unfolding copy_into
targets_of r = copy_into [] r.targets
