-- ===== src/Proxy/Config.antt =====
-- v3/proxy/config.go: ConfigFromEnv. The environment is the list of its "key=value" texts. The
-- case mappings of package strings are parameters, since they need the tables of Unicode;
-- hex.DecodeString is written out.
pub mod Laws
use rpc.Base.{
  ℕ, ◌+◌, ◌-◌, ◌*◌, Text, Bytes, Bool, true, false, ◌&&◌, Option, none, some, List, [], ◌∷◌, ◌++◌,
  ◌==◌, leb, if◌then◌else◌, is_empty, length, take, drop, text_eq, codes, Result, ok, err, ◌>>=◌,
}
use rpc.Base.Map.{Map, lookup, insert}
use rpc.Errors.{GoError, failure, wrap, without_service_name, missing_target, invalid_hex}
use rpc.Proxy.Types.{Target}
use rpc.Proxy.Method.{cut, trim_space}
use rpc.Proxy.Address.{has_prefix, split_host_port_default}

abbrev pub env_target_prefix : Text
env_target_prefix = codes "PROXY_TARGET_"

abbrev pub env_transport_suffix : Text
env_transport_suffix = codes "_TRANSPORT"

abbrev pub env_secret_suffix : Text
env_secret_suffix = codes "_SECRET"

abbrev pub env_allowlist : Text
env_allowlist = codes "PROXY_ALLOWLIST"

-- rawTarget; `addr` is none while hasAddr is false.
pub record RawTarget : Type 0 where
  pub addr : Option Text
  pub transport : Text
  pub secret : Text

pub record Config : Type 0 where
  pub targets : Map Target
  pub allowlist : List Text

-- strings.CutSuffix: the text in front of the suffix, if it has it.
unfoldable pub cut_suffix : Text → Text → Option Text
cut_suffix suffix s =
    let n = length s - length suffix in
    if leb (length suffix) (length s) && text_eq (drop n s) suffix then some (take n s) else none

-- strings.Split(s, ",")
unfoldable pub split_commas : Text → List Text
split_commas [] = [] ∷ []
split_commas (x ∷ xs) = elim (split_commas xs) [
  | [] ↦ []
  | piece ∷ rest ↦ if x == b',' then [] ∷ piece ∷ rest else (x ∷ piece) ∷ rest
]

-- The loop over the pieces of PROXY_ALLOWLIST.
unfoldable pub trimmed_entries : List Text → List Text
trimmed_entries [] = []
trimmed_entries (entry ∷ entries) =
    let rest = trimmed_entries entries in
    if is_empty (trim_space entry) then rest else trim_space entry ∷ rest

unfoldable pub allowlist_from : Text → List Text
unfolding split_commas trimmed_entries
allowlist_from v = if is_empty v then [] else trimmed_entries (split_commas v)

unfoldable pub hex_digit : ℕ → Option ℕ
hex_digit c =
    if leb b'0' c && leb c b'9'
    then some (c - b'0')
    else if leb b'a' c && leb c b'f'
    then some (c - b'a' + 10)
    else if leb b'A' c && leb c b'F'
    then some (c - b'A' + 10)
    else none

-- hex.DecodeString
unfoldable pub decode_hex : Text → Option Bytes
unfolding hex_digit
decode_hex [] = some []
decode_hex (a ∷ []) = none
decode_hex (a ∷ b ∷ s) = elim (hex_digit a) [
  | none ↦ none
  | some h ↦ elim (hex_digit b) [
    | none ↦ none
    | some l ↦ elim (decode_hex s) [ none ↦ none | some bytes ↦ some ((h * 16 + l) ∷ bytes) ]
  ]
]

-- get
unfoldable pub raw_at : Text → Map RawTarget → RawTarget
raw_at service raw = elim (lookup service raw) [
  | some t ↦ t
  | none ↦ record { addr = none; transport = []; secret = [] }
]

-- The target of one service, in the last loop.
unfoldable pub target_from : (Text → Text) → Text → RawTarget → Result GoError Target
target_from upper service t = elim t.addr [
  | none ↦ err (failure (missing_target (env_target_prefix ++ upper service)))
  | some v ↦ elim (split_host_port_default v) [
    | err e ↦ err (wrap (env_target_prefix ++ upper service) e)
    | ok (addr, port) ↦ elim (decode_hex t.secret) [
      | none ↦
          err (failure (invalid_hex (env_target_prefix ++ (upper service ++ env_secret_suffix))))
      | some secret ↦
          ok (record { addr = addr; port = port; secret = secret; transport = t.transport })
    ]
  ]
]

-- The last loop, in the order of the map's iteration.
unfoldable pub targets_from :
    (Text → Text) → Map RawTarget → Map Target → Result GoError (Map Target)
unfolding target_from
targets_from upper [] targets = ok targets
targets_from upper ((service, t) ∷ raw) targets =
    target_from upper service t >>= λ target. targets_from upper raw (insert service target targets)

module _ (lower upper : Text → Text) where
  -- The switch of the first loop, for the variable's name after the prefix.
  unfoldable pub add_variable : Text → Text → Map RawTarget → Result GoError (Map RawTarget)
  add_variable rest value raw = elim (cut_suffix env_transport_suffix rest) [
    | some name ↦
        if is_empty (lower name)
        then err (failure without_service_name)
        else ok (insert (lower name) (record (raw_at (lower name) raw) { transport = value }) raw)
    | none ↦ elim (cut_suffix env_secret_suffix rest) [
      | some name ↦
          if is_empty (lower name)
          then err (failure without_service_name)
          else ok (insert (lower name) (record (raw_at (lower name) raw) { secret = value }) raw)
      | none ↦ ok (insert (lower rest) (record (raw_at (lower rest) raw) { addr = some value }) raw)
    ]
  ]

  -- The first loop
  unfoldable pub read_variables : List Text → Map RawTarget → Result GoError (Map RawTarget)
  read_variables [] raw = ok raw
  read_variables (kv ∷ env) raw = elim (cut b'=' kv) [
    | none ↦ read_variables env raw
    | some (key, value) ↦
        let skipped = read_variables env raw in
        let rest = drop (length env_target_prefix) key in
        let added = add_variable rest value raw >>= λ raw'. read_variables env raw' in
        if has_prefix env_target_prefix key
        then if is_empty rest then err (failure without_service_name) else added
        else skipped
  ]

  -- ConfigFromEnv, for os.Environ and the value that os.Getenv has for PROXY_ALLOWLIST
  unfoldable pub config_from_env : List Text → Text → Result GoError Config
  unfolding read_variables
  config_from_env env allowlist = read_variables env [] >>= λ raw.
      targets_from upper raw [] >>= λ targets.
      ok (record { targets = targets; allowlist = allowlist_from allowlist })
