-- ===== src/Message/Nonce.antt =====
-- message/payload_nonce.go: the Nonce payload.
use ike.Base.{
  Result, Returns, Returns-if, [], arith, if◌then◌else◌, length, ltb, ok, returns_ok, ◌++◌, ◌>>=◌,
  ◌≡◌,
}
use ike.Base.Bytes.{Bytes}

pub record Nonce : Type 0 where
  pub nonce_data : Bytes

-- `new(Nonce)`
abbrev pub empty : Nonce
empty = record { nonce_data = [] }

unfoldable pub marshal : Nonce → Result Bytes
marshal x = ok x.nonce_data

unfoldable pub unmarshal : Nonce → Bytes → Result Nonce
unmarshal x b = if ltb 0 (length b) then ok (record { nonce_data = x.nonce_data ++ b }) else ok x

-- The parser undoes the writer, on no data too.
pub nonce_round_trip : (x : Nonce) → (marshal x >>= unmarshal empty) ≡ ok x
unfolding marshal unmarshal
nonce_round_trip x = ground arith

pub unmarshal-Returns : (x : Nonce) (b : Bytes) → Returns (unmarshal x b)
unfolding unmarshal
unmarshal-Returns x b =
    Returns-if (ltb 0 (length b)) _ _ (λ some_bytes. returns_ok _) (λ no_bytes. returns_ok x)
