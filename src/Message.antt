-- ===== src/Message.antt =====
-- message/: the IKE header, the payloads, and chains of payloads.
pub mod Header
pub mod KeyExchange
pub mod Authentication
pub mod IdentificationInitiator
pub mod IdentificationResponder
pub mod Certificate
pub mod CertificateRequest
pub mod Nonce
pub mod VendorId
pub mod Encrypted
pub mod SecurityAssociation
pub mod TrafficSelector
pub mod TrafficSelectorInitiator
pub mod TrafficSelectorResponder
pub mod Configuration
pub mod Delete
pub mod Notification
pub mod Payload
pub mod Container
pub mod Codec
pub mod Build
pub mod Types
