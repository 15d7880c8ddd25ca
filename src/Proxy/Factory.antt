-- ===== src/Proxy/Factory.antt =====
-- defaultClientFactory of v3/proxy/invoke.go: the v3 client that the invoker opens for a target.
pub mod Pinned
use rpc.Base.{Text, List, [], ◌∷◌, ◌++◌, ◌||◌, is_empty, text_eq, ltb, length, codes, if◌then◌else◌}
use rpc.Proxy.Types.{Target}
use rpc.Client.Defs.{
  Client, ClientOption, with_crypto_key, with_address, with_port, with_transport, new_rpc_client,
}

-- Without a transport or with "auto", the proxy asks for JSON.
unfoldable pub normal_transport : Text → Text
normal_transport transport =
    if is_empty transport || text_eq transport (codes "auto") then codes "json" else transport

unfoldable pub default_client_factory : Target → Client
unfolding normal_transport
default_client_factory tgt = new_rpc_client (
    (with_address tgt.addr
      ∷ with_port tgt.port
      ∷ with_transport (normal_transport tgt.transport)
      ∷ [])
    ++ (if ltb 0 (length tgt.secret) then with_crypto_key tgt.secret ∷ [] else []))
