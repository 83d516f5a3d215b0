-- ===== src/Message/CertificateRequest.antt =====
-- message/payload_certificaterequest.go: the Certificate Request payload.
use ike.Base.{
  Result, Returns, Returns-if, Returns-reject_if, [], arith, err, if◌then◌else◌, leb, length, ltb,
  ok, reject_if, returns_ok, too_short, ℕ, ◌++◌, ◌==◌, ◌>>=◌, ◌>>◌, ◌∷◌, ◌≡◌,
}
use ike.Base.Bytes.{Bytes, index, slice_from}
use ike.Base.Reads.{Returns-index, Returns-slice_from, passed}

pub record CertificateRequest : Type 0 where
  pub certificate_encoding : ℕ
  pub certification_authority : Bytes

-- `new(CertificateRequest)`
abbrev pub empty : CertificateRequest
empty = record { certificate_encoding = 0; certification_authority = [] }

unfoldable pub marshal : CertificateRequest → Result Bytes
marshal x = ok (x.certificate_encoding ∷ x.certification_authority)

read_from : CertificateRequest → Bytes → Result CertificateRequest
read_from x b = do
  reject_if (leb (length b) 1) too_short
  first ← index b 0
  rest ← slice_from b 1
  ok (record {
    certificate_encoding = first;
    certification_authority = x.certification_authority ++ rest;
  })

unfoldable pub unmarshal : CertificateRequest → Bytes → Result CertificateRequest
unfolding read_from
unmarshal x b = if ltb 0 (length b) then read_from x b else ok x

-- The parser undoes the writer, except that it refuses the payload with no
-- certification authority.
pub certificate_request_round_trip :
    (x : CertificateRequest)
    → (marshal x >>= unmarshal empty)
      ≡ (if length x.certification_authority == 0 then err too_short else ok x)
unfolding marshal unmarshal slice_from index
certificate_request_round_trip x = ground arith

pub unmarshal-Returns : (x : CertificateRequest) (b : Bytes) → Returns (unmarshal x b)
unfolding unmarshal
unmarshal-Returns x b =
    Returns-if (ltb 0 (length b)) _ _
      (λ some_bytes. Returns-reject_if (leb (length b) 1) _ _ λ p.
        Returns-index b 0 _ (omega passed)
          λ n. Returns-slice_from b 1 _ (omega passed) λ s l. returns_ok _)
      (λ no_bytes. returns_ok x)
