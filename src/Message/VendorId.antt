-- ===== src/Message/VendorId.antt =====
-- message/payload_vendorid.go: the Vendor ID payload.
use ike.Base.{
  Result, Returns, Returns-if, [], arith, if◌then◌else◌, length, ltb, ok, returns_ok, ◌++◌, ◌>>=◌,
  ◌≡◌,
}
use ike.Base.Bytes.{Bytes}

pub record VendorId : Type 0 where
  pub vendor_id_data : Bytes

-- `new(VendorId)`
abbrev pub empty : VendorId
empty = record { vendor_id_data = [] }

unfoldable pub marshal : VendorId → Result Bytes
marshal x = ok x.vendor_id_data

unfoldable pub unmarshal : VendorId → Bytes → Result VendorId
unmarshal x b =
    if ltb 0 (length b) then ok (record { vendor_id_data = x.vendor_id_data ++ b }) else ok x

-- The parser undoes the writer, on no data too.
pub vendor_id_round_trip : (x : VendorId) → (marshal x >>= unmarshal empty) ≡ ok x
unfolding marshal unmarshal
vendor_id_round_trip x = ground arith

pub unmarshal-Returns : (x : VendorId) (b : Bytes) → Returns (unmarshal x b)
unfolding unmarshal
unmarshal-Returns x b =
    Returns-if (ltb 0 (length b)) _ _ (λ some_bytes. returns_ok _) (λ no_bytes. returns_ok x)
