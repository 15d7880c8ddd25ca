-- ===== src/Proxy.antt =====
-- The generic proxy of v3/proxy.
pub mod Method
pub mod Types
pub mod Allowlist
pub mod Router
pub mod CallErrors
pub mod Headers
pub mod Factory
pub mod Address
pub mod Config
pub mod Invoke
pub mod Service
