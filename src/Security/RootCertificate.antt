-- ===== src/Security/RootCertificate.antt =====
-- security/security.go: `CompareRootCertificate`.
use ike.Base.{Bool, arith, false, if◌then◌else◌, length, not, sym, true, ℕ, ◌<◌, ◌==◌, ◌↔◌, ◌≡◌}
use ike.Base.Bytes.{Bytes, bytes_equal, bytes_equal_iff}

-- `X509CertificateSignature`
abbrev pub x509_certificate_signature : ℕ
x509_certificate_signature = 4

unfoldable pub compare_root_certificate : Bytes → ℕ → Bytes → Bool
compare_root_certificate ca certificate_encoding requested_certificate_authority_hash =
    if not (certificate_encoding == x509_certificate_signature)
    then false
    else (if length ca == 0 then false else bytes_equal ca requested_certificate_authority_hash)

-- The certificate matches exactly if the encoding is an X.509 signature, the authority is not empty, and
-- what was asked for is the authority.
pub compare_root_certificate_iff :
    (ca : Bytes) (encoding : ℕ) (asked : Bytes)
    → (compare_root_certificate ca encoding asked ≡ true)
      ↔ ((encoding ≡ 4) × (0 < length ca) × (asked ≡ ca))
unfolding compare_root_certificate
compare_root_certificate_iff ca encoding asked =
    let same = bytes_equal_iff ca asked in
    (
      λ e.
          let equal : bytes_equal ca asked ≡ true = ground (arith, e) in
          (ground (arith, e), ground (arith, e), sym (same.0 equal)),
      λ (h : (encoding ≡ 4) × (0 < length ca) × (asked ≡ ca)).
          let equal : bytes_equal ca asked ≡ true = same.1 (sym h.2) in
          ground (arith, equal, h.0, h.1),
    )
