-- ===== src/Proxy/Config/Laws.antt =====
-- The targets and the allowlist that ConfigFromEnv of v3/proxy/config.go returns.
use rpc.Base.{
  Text, true, ◌≡◌, refl, List, [], ◌∷◌, is_empty, is_empty_iff, ◌≢◌, ◌≤◌, text_eq, All, ok, arith,
  Result-cases, Option-cases, Bool-cases, inl, inr,
}
use rpc.Base.Map.{Map, insert}
use rpc.Base.Int.{ℤ, pos, negsuc}
use rpc.Proxy.Types.{Target}
use rpc.Proxy.Method.{trim_space}
use rpc.Proxy.Address.{
  split_host_port, atoi, in_port_range, split_host_port_default, default_target_port,
}
use rpc.Proxy.Config.{
  RawTarget, Config, decode_hex, trimmed_entries, split_commas, allowlist_from, target_from,
  targets_from, read_variables, config_from_env,
}

-- A port that a listener can have, 1..65535.
abbrev pub IsPort : ℤ → Type 0
IsPort (pos n) = (1 ≤ n) × (n ≤ 65535)
IsPort (negsuc n) = ⊥

in_port_range-IsPort : (p : ℤ) → in_port_range p ≡ true → IsPort p
unfolding in_port_range
in_port_range-IsPort (pos n) h = ground (arith, h)
in_port_range-IsPort (negsuc n) h = ground (arith, h)

default_in_range : in_port_range default_target_port ≡ true
unfolding in_port_range
default_in_range = refl

split_host_port_default-in_port_range :
    (v host : Text) (port : ℤ)
    → split_host_port_default v ≡ ok (host, port)
    → in_port_range port ≡ true
unfolding split_host_port_default
split_host_port_default-in_port_range v host port h = elim (Bool-cases (is_empty v)) [
  | inl e ↦ absurd (ground (arith, e, h))
  | inr e ↦ elim (Result-cases (split_host_port v)) [
    | inr (r, p) ↦ ground (arith, e, p, h, default_in_range)
    | inl (q, p) ↦ elim (Option-cases (atoi q.1)) [
      | inl n ↦ absurd (ground (arith, e, p, n, h))
      | inr (k, n) ↦ elim (Bool-cases (in_port_range k)) [
        | inl b ↦ ground (arith, e, p, n, b, h)
        | inr b ↦ absurd (ground (arith, e, p, n, b, h))
      ]
    ]
  ]
]

-- A target with such a port.
abbrev pub HasPort : Text × Target → Type 0
HasPort kt = IsPort kt.1.port

target_from-HasPort :
    (upper : Text → Text) (service : Text) (raw : RawTarget) (t : Target)
    → target_from upper service raw ≡ ok t
    → HasPort (service, t)
unfolding target_from
target_from-HasPort upper service raw t h = elim (Option-cases raw.addr) [
  | inl a ↦ absurd (ground (arith, a, h))
  | inr (v, a) ↦ elim (Result-cases (split_host_port_default v)) [
    | inr (e, p) ↦ absurd (ground (arith, a, p, h))
    | inl (q, p) ↦ elim (Option-cases (decode_hex raw.secret)) [
      | inl s ↦ absurd (ground (arith, a, p, s, h))
      | inr (secret, s) ↦
          let e : t.port ≡ q.1 = ground (arith, a, p, s, h) in
          rw e (in_port_range-IsPort q.1 (split_host_port_default-in_port_range v q.0 q.1 p))
    ]
  ]
]

All-insert :
    (k : Text) (t : Target) (m : Map Target)
    → HasPort (k, t)
    → All HasPort m
    → All HasPort (insert k t m)
unfolding insert
All-insert k t [] p a = (p, tt)
All-insert k t ((j, u) ∷ m) p a = elim (Bool-cases (text_eq j k)) [
  | inl e ↦ rw (e, insert) (p, a.1)
  | inr e ↦ rw (e, insert) (a.0, All-insert k t m p a.1)
]

targets_from-HasPort :
    (upper : Text → Text) (raw : Map RawTarget) (targets out : Map Target)
    → All HasPort targets
    → targets_from upper raw targets ≡ ok out
    → All HasPort out
unfolding targets_from
targets_from-HasPort upper [] targets out a h = let e : targets ≡ out = cc h in rw (← e) a
targets_from-HasPort upper ((service, t) ∷ raw) targets out a h =
    elim (Result-cases (target_from upper service t)) [
      | inr (e, p) ↦ absurd (ground (arith, p, h))
      | inl (target, p) ↦
          targets_from-HasPort upper raw (insert service target targets) out
            (All-insert service target targets (target_from-HasPort upper service t target p) a)
            (ground (arith, p, h))
    ]

-- A text that is not empty.
abbrev pub IsEntry : Text → Type 0
IsEntry entry = entry ≢ []

trimmed_entries-IsEntry : (entries : List Text) → All IsEntry (trimmed_entries entries)
unfolding trimmed_entries
trimmed_entries-IsEntry [] = tt
trimmed_entries-IsEntry (entry ∷ entries) = elim (Bool-cases (is_empty (trim_space entry))) [
  | inl e ↦ rw (e, trimmed_entries) (trimmed_entries-IsEntry entries)
  | inr e ↦
      rw (e, trimmed_entries)
        (
          λ p. absurd (cc (e, (is_empty_iff (trim_space entry)).1 p)),
          trimmed_entries-IsEntry entries,
        )
]

allowlist_from-IsEntry : (v : Text) → All IsEntry (allowlist_from v)
unfolding allowlist_from
allowlist_from-IsEntry v = elim (Bool-cases (is_empty v)) [
  | inl e ↦ rw (e, allowlist_from) tt
  | inr e ↦ rw (e, allowlist_from) (trimmed_entries-IsEntry (split_commas v))
]

-- Whatever the environment is, every target of an accepted configuration has a port in 1..65535,
-- and no entry of its allowlist is empty.
pub config_from_env-HasPort :
    (lower upper : Text → Text) (env : List Text) (allowlist : Text) (cfg : Config)
    → config_from_env lower upper env allowlist ≡ ok cfg
    → All HasPort cfg.targets × All IsEntry cfg.allowlist
config_from_env-HasPort lower upper env allowlist cfg h =
    elim (Result-cases (read_variables lower upper env [])) [
      | inr (e, p) ↦ absurd (unfold config_from_env in ground (arith, p, h))
      | inl (raw, p) ↦ elim (Result-cases (targets_from upper raw [])) [
        | inr (e, q) ↦ absurd (unfold config_from_env in ground (arith, p, q, h))
        | inl (targets, q) ↦
            let e : cfg ≡ record { targets = targets; allowlist = allowlist_from allowlist } =
              unfold config_from_env in ground (arith, p, q, h) in
            rw e (targets_from-HasPort upper raw [] targets tt q, allowlist_from-IsEntry allowlist)
      ]
    ]
