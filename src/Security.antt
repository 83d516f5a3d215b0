-- ===== src/Security.antt =====
-- security/: padding, encryption, numbers.
pub mod Integers
pub mod Padding
pub mod EncrAesCbc
pub mod Primitives
pub mod Registry
pub mod Prf
pub mod Integ
pub mod Esn
pub mod Encr
pub mod Dh
pub mod PrfPlus
pub mod Random
pub mod IkeSa
pub mod ChildSa
pub mod RootCertificate
