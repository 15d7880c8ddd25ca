-- ===== src/Tests.antt =====
-- The tests of the definitions on concrete inputs, and the theorems at inputs that meet their
-- hypotheses.
mod Allowlist
mod Routing
mod Invoking
mod Serving
mod Calling
mod Negotiating
mod Ciphering
mod Configuring
mod Reading
mod Surviving
mod Sharing
mod Wiring
mod Legacy
mod Together
mod Exchanging
mod Buffering
mod Messaging
mod Sealing
