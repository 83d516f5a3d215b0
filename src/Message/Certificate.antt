-- ===== src/Message/Certificate.antt =====
-- message/payload_certificate.go: the Certificate payload.
use ike.Base.{
  Result, Returns, Returns-if, Returns-reject_if, [], arith, err, if◌then◌else◌, leb, length, ltb,
  ok, reject_if, returns_ok, too_short, ℕ, ◌++◌, ◌==◌, ◌>>=◌, ◌>>◌, ◌∷◌, ◌≡◌,
}
use ike.Base.Bytes.{Bytes, index, slice_from}
use ike.Base.Reads.{Returns-index, Returns-slice_from, passed}

pub record Certificate : Type 0 where
  pub certificate_encoding : ℕ
  pub certificate_data : Bytes

-- `new(Certificate)`
abbrev pub empty : Certificate
empty = record { certificate_encoding = 0; certificate_data = [] }

unfoldable pub marshal : Certificate → Result Bytes
marshal x = ok (x.certificate_encoding ∷ x.certificate_data)

read_from : Certificate → Bytes → Result Certificate
read_from x b = do
  reject_if (leb (length b) 1) too_short
  first ← index b 0
  rest ← slice_from b 1
  ok (record { certificate_encoding = first; certificate_data = x.certificate_data ++ rest })

unfoldable pub unmarshal : Certificate → Bytes → Result Certificate
unfolding read_from
unmarshal x b = if ltb 0 (length b) then read_from x b else ok x

-- The parser undoes the writer, except that it refuses the payload with no certificate data.
pub certificate_round_trip :
    (x : Certificate)
    → (marshal x >>= unmarshal empty)
      ≡ (if length x.certificate_data == 0 then err too_short else ok x)
unfolding marshal unmarshal slice_from index
certificate_round_trip x = ground arith

pub unmarshal-Returns : (x : Certificate) (b : Bytes) → Returns (unmarshal x b)
unfolding unmarshal
unmarshal-Returns x b =
    Returns-if (ltb 0 (length b)) _ _
      (λ some_bytes. Returns-reject_if (leb (length b) 1) _ _ λ p.
        Returns-index b 0 _ (omega passed)
          λ n. Returns-slice_from b 1 _ (omega passed) λ s l. returns_ok _)
      (λ no_bytes. returns_ok x)
