-- ===== src/Message/Configuration.antt =====
-- message/payload_configuration.go: the Configuration payload, a list of attributes.
pub mod Laws
pub mod Safety
use ike.Base.{
  List, Result, [], bit_and, if◌then◌else◌, leb, length, length_mismatch, ltb, ok, reject_if, stuck,
  suc, too_long, too_short, zero, ℕ, ◌%◌, ◌++◌, ◌+◌, ◌>>=◌, ◌>>◌, ◌∷◌,
}
use ike.Base.Bytes.{Bytes, index, put_uint16, slice, slice_from, slice_to, uint16}

pub record Attribute : Type 0 where
  pub kind : ℕ
  pub value : Bytes

pub record Configuration : Type 0 where
  pub configuration_type : ℕ
  pub attributes : List Attribute

-- `new(Configuration)`
abbrev pub empty : Configuration
empty = record { configuration_type = 0; attributes = [] }

-- The type without its reserved bit, the length, the value.
abbrev pub attribute_bytes : Attribute → Bytes
attribute_bytes a = put_uint16 (bit_and a.kind 0x7fff) ++ (put_uint16 (length a.value) ++ a.value)

unfoldable pub append_attributes : Bytes → List Attribute → Result Bytes
append_attributes out [] = ok out
append_attributes out (a ∷ more) = do
  reject_if (ltb 0xffff (length a.value)) too_long
  append_attributes (out ++ attribute_bytes a) more

unfoldable pub marshal : Configuration → Result Bytes
marshal x = append_attributes (x.configuration_type ∷ 0 ∷ 0 ∷ 0 ∷ []) x.attributes

-- One round of the loop: the attribute, and the bytes behind it. `length` is a uint16, so
-- `4+length` wraps at 65536. A value that would pass the length of the slice panics at the latest
-- where the bytes behind it are taken, whatever the capacity.
unfoldable pub read_attribute : Bytes → Result (Attribute × Bytes)
read_attribute b = do
  reject_if (ltb (length b) 4) too_short
  size ← uint16 (← slice b 2 4)
  reject_if (ltb (length b) ((4 + size) % 65536)) length_mismatch
  tag ← uint16 (← slice_to b 2)
  rest ← slice_from b 4
  content ← slice_to rest size
  behind ← slice_from rest size
  ok (record { kind = tag; value = content }, behind)

-- `for len(configurationAttributeData) > 0`; a round takes at least 4 bytes, so the number of bytes
-- is fuel enough.
unfoldable pub read_attributes : ℕ → List Attribute → Bytes → Result (List Attribute)
read_attributes fuel out [] = ok out
read_attributes zero out (c ∷ b) = stuck
read_attributes (suc fuel) out (c ∷ b) = do
  (a, behind) ← read_attribute (c ∷ b)
  read_attributes fuel (out ++ (a ∷ [])) behind

read_from : Configuration → Bytes → Result Configuration
read_from x b = do
  reject_if (leb (length b) 4) too_short
  kind ← index b 0
  rest ← slice_from b 4
  read ← read_attributes (length rest) x.attributes rest
  ok (record { configuration_type = kind; attributes = read })

unfoldable pub unmarshal : Configuration → Bytes → Result Configuration
unfolding read_from
unmarshal x b = if ltb 0 (length b) then read_from x b else ok x
