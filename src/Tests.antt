-- ===== src/Tests.antt =====
-- Concrete inputs: payloads, chains and messages on which the theorems are applied.
mod Chains
mod Associations
mod Payloads
mod Packets
mod Builders
mod Ciphers
mod Keys
mod Exchange
mod Responder
mod ChildKeys
mod Secured
mod Session
mod EapKeys
