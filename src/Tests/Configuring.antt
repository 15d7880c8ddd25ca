-- ===== src/Tests/Configuring.antt =====
-- Addresses and configurations, after v3/proxy/config_test.go.
use rpc.Base.{
  ◌≡◌, refl, Text, List, [], ◌∷◌, codes, ok, All, arith, contains_byte, is_empty, text_eq,
}
use rpc.Base.Int.{pos}
use rpc.Proxy.Types.{Target}
use rpc.Base.Map.{lookup, insert}
use rpc.Proxy.Method.{cut, trim_space, trim_left, trim_right, is_space}
use rpc.Proxy.Address.{
  target_string, split_host_port_default, split_host_port, split_plain, split_bracketed, cut_last,
  contains, has_prefix, atoi, unsigned, digits_from, in_port_range,
}
use rpc.Proxy.Address.Laws.{split_host_port_default-target_string}
use rpc.Proxy.Config.{
  Config, config_from_env, read_variables, add_variable, targets_from, target_from, raw_at,
  decode_hex, hex_digit, allowlist_from, trimmed_entries, split_commas, cut_suffix,
}
use rpc.Proxy.Config.Laws.{HasPort, IsEntry, config_from_env-HasPort}

abbrev target : Target
target = record { addr = codes "fe80::1"; port = pos 9000; secret = []; transport = codes "json" }

split_host_port_default-target_string_example :
    split_host_port_default (target_string target) ≡ ok (codes "fe80::1", pos 9000)
split_host_port_default-target_string_example =
    split_host_port_default-target_string target 9000 refl (omega arith) (omega arith)
      (unfold contains_byte in refl) (unfold contains_byte in refl)

abbrev env : List Text
env =
    codes "HOME=/"
    ∷ codes "PROXY_TARGET_kata=10.0.0.1:9000"
    ∷ codes "PROXY_TARGET_kata_SECRET=00ff"
    ∷ codes "PROXY_TARGET_cell=cell"
    ∷ []

abbrev same : Text → Text
same s = s

abbrev loaded : Config
loaded = record {
  targets =
      (
        codes "kata",
        record { addr = codes "10.0.0.1"; port = pos 9000; secret = 0 ∷ 255 ∷ []; transport = [] },
      )
      ∷ (codes "cell", record { addr = codes "cell"; port = pos 2233; secret = []; transport = [] })
      ∷ [];
  allowlist = codes "kata.*" ∷ codes "cell.Get" ∷ [];
}

loaded_lem : config_from_env same same env (codes "kata.*, ,cell.Get") ≡ ok loaded
unfolding config_from_env read_variables add_variable targets_from target_from raw_at decode_hex
    hex_digit allowlist_from trimmed_entries split_commas cut_suffix has_prefix cut trim_space
    trim_left trim_right is_space is_empty split_host_port_default split_host_port split_plain
    split_bracketed cut_last contains contains_byte atoi unsigned digits_from in_port_range lookup
    insert text_eq
loaded_lem = refl

config_from_env-HasPort_example : All HasPort loaded.targets × All IsEntry loaded.allowlist
config_from_env-HasPort_example =
    config_from_env-HasPort same same env (codes "kata.*, ,cell.Get") loaded loaded_lem
