-- ===== src/Eap.antt =====
-- eap/: the Extensible Authentication Protocol.
pub mod Types
pub mod Identity
pub mod Notification
pub mod Nak
pub mod Md5
pub mod Expanded
pub mod AkaPrime
pub mod Packet
pub mod Mac
