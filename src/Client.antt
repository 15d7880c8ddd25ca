-- ===== src/Client.antt =====
-- The v3 client: v3/client.go and the transport options of v3/client_option.go. What a call meets
-- outside is an `Environment`; the effects on connections are a trace. Defs has one call at a
-- time, Callers the steps that the mutex leaves to concurrent callers, V1 and V2 the
-- clients of v1 and v2.
pub mod Defs
pub mod Paths
pub mod Connections
pub mod Fallback
pub mod Sends
pub mod V1
pub mod V2
pub mod Callers
unfoldable pub use Defs.*
