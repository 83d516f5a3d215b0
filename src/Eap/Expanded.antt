-- ===== src/Eap/Expanded.antt =====
-- eap/eap_expanded.go: the expanded type, with a vendor's number and type.
use ike.Base.Reads.{Returns-slice, Returns-slice_to, Returns-uint32, passed, slice_from-Returns}
use ike.Base.Bytes.{Bytes, put_uint32, slice, slice_from, slice_to, uint32}
use ike.Base.{
  Result, Returns, Returns-bind, Returns-if, Returns-reject_if, [], arith, bit_and, bit_or,
  if◌then◌else◌, length, ltb, ltb→lt, nil_of_length, ok, reject_if, returns_ok, too_short, ℕ, ◌%◌,
  ◌*◌, ◌++◌, ◌+◌, ◌<◌, ◌==◌, ◌>>=◌, ◌>>◌, ◌^◌, ◌∙◌, ◌≡◌,
}
use native.Mathlib.Nat.{mod-eq_of_lt}
use ike.Base.Masks.{bit_and_ones, bit_or_high}
use ike.Eap.Types.{eap_type_expanded}

pub record EapExpanded : Type 0 where
  pub vendor_id : ℕ
  pub vendor_type : ℕ
  pub vendor_data : Bytes

abbrev pub vendor_id_3gpp : ℕ
vendor_id_3gpp = 10415

abbrev pub vendor_type_eap5g : ℕ
vendor_type_eap5g = 3

-- `new(EapExpanded)`
abbrev pub empty : EapExpanded
empty = record { vendor_id = 0; vendor_type = 0; vendor_data = [] }

-- `uint32(EapTypeExpanded)<<24 | VendorID&0x00ffffff`
abbrev pub type_and_vendor_id : EapExpanded → ℕ
type_and_vendor_id x =
    bit_or (eap_type_expanded * 2 ^ 24 % 2 ^ 32) (bit_and x.vendor_id 0x00ff_ffff)

abbrev pub header_bytes : EapExpanded → Bytes
header_bytes x = put_uint32 (type_and_vendor_id x) ++ put_uint32 x.vendor_type

unfoldable pub marshal : EapExpanded → Result Bytes
marshal x =
    if length x.vendor_data == 0 then ok (header_bytes x) else ok (header_bytes x ++ x.vendor_data)

read_from : EapExpanded → Bytes → Result EapExpanded
read_from x b = do
  reject_if (ltb (length b) 8) too_short
  both ← uint32 (← slice_to b 4)
  kind ← uint32 (← slice b 4 8)
  rest ← if ltb 8 (length b) then slice_from b 8 else ok []
  ok (record {
    vendor_id = bit_and both 0x00ff_ffff;
    vendor_type = kind;
    vendor_data = x.vendor_data ++ rest;
  })

unfoldable pub unmarshal : EapExpanded → Bytes → Result EapExpanded
unfolding read_from
unmarshal x b = if ltb 0 (length b) then read_from x b else ok x

pub type_and_vendor_id-eq :
    (x : EapExpanded) → x.vendor_id < 2 ^ 24 → type_and_vendor_id x ≡ 254 * 2 ^ 24 + x.vendor_id
type_and_vendor_id-eq x v =
    rw (bit_and_ones 24 x.vendor_id) (rw (mod-eq_of_lt v) (bit_or_high 24 254 x.vendor_id v))

vendor_id_back : (v : ℕ) → v < 2 ^ 24 → bit_and (254 * 2 ^ 24 + v) 0x00ff_ffff ≡ v
vendor_id_back v h = bit_and_ones 24 (254 * 2 ^ 24 + v) ∙ omega arith

-- The parser undoes the writer where the vendor's number fits 24 bits and its type 32.
pub expanded_round_trip :
    (x : EapExpanded)
    → x.vendor_id < 2 ^ 24
    → x.vendor_type < 2 ^ 32
    → (marshal x >>= unmarshal empty) ≡ ok x
unfolding marshal unmarshal slice slice_to slice_from uint32
expanded_round_trip x v t =
    rw (type_and_vendor_id-eq x v)
      (ground (arith, vendor_id_back x.vendor_id v, nil_of_length x.vendor_data))

pub unmarshal-Returns : (x : EapExpanded) (b : Bytes) → Returns (unmarshal x b)
unfolding unmarshal
unmarshal-Returns x b =
    Returns-if (ltb 0 (length b)) _ _
      (λ some_bytes. Returns-reject_if (ltb (length b) 8) _ _ λ long.
        Returns-slice_to b 4 _ (omega passed) λ s l. Returns-uint32 s _ (omega arith) λ _.
          Returns-slice b 4 8 _ (omega arith) (omega passed) λ s l.
            Returns-uint32 s _ (omega arith) λ _.
              Returns-bind _ _
                (Returns-if (ltb 8 (length b)) _ _
                  (λ more. slice_from-Returns b 8 (omega (arith, ltb→lt 8 (length b) more)))
                  (λ _. returns_ok []))
                λ _ _. returns_ok _)
      (λ no_bytes. returns_ok x)
