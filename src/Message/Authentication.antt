-- ===== src/Message/Authentication.antt =====
-- message/payload_authentication.go: the Authentication payload.
use ike.Base.{
  Result, Returns, Returns-if, Returns-reject_if, [], arith, err, if◌then◌else◌, leb, length, ltb,
  ok, reject_if, returns_ok, too_short, ℕ, ◌++◌, ◌==◌, ◌>>=◌, ◌>>◌, ◌∷◌, ◌≡◌,
}
use ike.Base.Bytes.{Bytes, index, slice_from}
use ike.Base.Reads.{Returns-index, Returns-slice_from, passed}

pub record Authentication : Type 0 where
  pub authentication_method : ℕ
  pub authentication_data : Bytes

-- `new(Authentication)`
abbrev pub empty : Authentication
empty = record { authentication_method = 0; authentication_data = [] }

unfoldable pub marshal : Authentication → Result Bytes
marshal x = ok (x.authentication_method ∷ 0 ∷ 0 ∷ 0 ∷ x.authentication_data)

read_from : Authentication → Bytes → Result Authentication
read_from x b = do
  reject_if (leb (length b) 4) too_short
  first ← index b 0
  rest ← slice_from b 4
  ok (record { authentication_method = first; authentication_data = x.authentication_data ++ rest })

unfoldable pub unmarshal : Authentication → Bytes → Result Authentication
unfolding read_from
unmarshal x b = if ltb 0 (length b) then read_from x b else ok x

-- The parser undoes the writer, except that it refuses the payload with no
-- authentication data.
pub authentication_round_trip :
    (x : Authentication)
    → (marshal x >>= unmarshal empty)
      ≡ (if length x.authentication_data == 0 then err too_short else ok x)
unfolding marshal unmarshal slice_from index
authentication_round_trip x = ground arith

pub unmarshal-Returns : (x : Authentication) (b : Bytes) → Returns (unmarshal x b)
unfolding unmarshal
unmarshal-Returns x b =
    Returns-if (ltb 0 (length b)) _ _
      (λ some_bytes. Returns-reject_if (leb (length b) 4) _ _ λ p.
        Returns-index b 0 _ (omega passed)
          λ n. Returns-slice_from b 4 _ (omega passed) λ s l. returns_ok _)
      (λ no_bytes. returns_ok x)
