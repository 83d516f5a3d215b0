-- ===== src/Eap/AkaPrime/Reader.antt =====
-- `EapAkaPrime.Unmarshal` of eap/eap_aka_prime.go. A read of the buffered reader takes bytes off
-- the front, or fails at the end of the input.
use ike.Base.Bytes.{Bytes, index, slice, slice_from, uint16}
use ike.Base.{
  List, Result, [], bad_attribute, bad_eap_type, drop, err, if◌then◌else◌, length, ltb, not, ok,
  reject_if, some, stuck, suc, take, too_short, zero, ℕ, ◌%◌, ◌*◌, ◌+◌, ◌-◌, ◌/◌, ◌==◌, ◌>>=◌, ◌>>◌,
  ◌||◌, ◌∷◌,
}
use ike.Eap.Types.{eap_type_aka_prime}
use ike.Eap.AkaPrime.Attribute.{
  EapAkaPrimeAttr, at_autn, at_auts, at_checkcode, at_kdf, at_kdf_input, at_mac, at_notification,
  at_rand, at_res,
}
use ike.Eap.AkaPrime.{EapAkaPrime, order_after, put_attr}

-- `io.ReadFull` of n bytes
unfoldable pub read_full : ℕ → Bytes → Result (Bytes × Bytes)
read_full n b = if ltb (length b) n then err too_short else ok (take n b, drop n b)

-- `case AT_MAC`, `AT_RAND`, `AT_AUTN`: the reserved bytes are not kept.
unfoldable pub read_fixed : ℕ → ℕ → Bytes → Result (EapAkaPrimeAttr × Bytes)
read_fixed kind len b = do
  reject_if (not (len == 5)) bad_attribute
  (_, after) ← read_full 2 b
  (read, behind) ← read_full 16 after
  ok (record { attr_type = kind; size = len; reserved = 0; value = read }, behind)

-- `case AT_KDF_INPUT`, `AT_RES`: the reserved field counts bytes (`unit` 1) or bits (`unit` 8). The
-- padding is read and dropped; its length is a uint16 sum, from a uint8 product.
unfoldable pub read_padded : ℕ → ℕ → ℕ → Bytes → Result (EapAkaPrimeAttr × Bytes)
read_padded unit kind len b = do
  (field, after) ← read_full 2 b
  number ← uint16 field
  let bytes_len = number / unit
  let padding_len = (len * 4 % 256 + 2 * 65536 - bytes_len - 4) % 65536
  (read, after_value) ← read_full bytes_len after
  (_, behind) ←
      if ltb 0 padding_len then read_full padding_len after_value else ok ([], after_value)
  ok (record { attr_type = kind; size = len; reserved = number; value = read }, behind)

-- `case AT_KDF`, `AT_NOTIFICATION`
unfoldable pub read_short : ℕ → ℕ → Bytes → Result (EapAkaPrimeAttr × Bytes)
read_short kind len b = do
  (field, behind) ← read_full 2 b
  number ← uint16 field
  ok (record { attr_type = kind; size = len; reserved = number; value = [] }, behind)

-- `case AT_CHECKCODE`: the value's length is a uint8.
unfoldable pub read_checkcode : ℕ → Bytes → Result (EapAkaPrimeAttr × Bytes)
read_checkcode len b = do
  (_, after) ← read_full 2 b
  (read, behind) ← read_full ((4 * len + 256 - 4) % 256) after
  ok (record { attr_type = at_checkcode; size = len; reserved = 0; value = read }, behind)

-- `case AT_AUTS`
unfoldable pub read_auts : ℕ → Bytes → Result (EapAkaPrimeAttr × Bytes)
read_auts len b = do
  reject_if (not (len == 4)) bad_attribute
  (read, behind) ← read_full 14 b
  ok (record { attr_type = at_auts; size = len; reserved = 0; value = read }, behind)

-- The switch on the attribute's type. Of an attribute of another type nothing more is read.
unfoldable pub read_attribute : ℕ → ℕ → Bytes → Result (EapAkaPrimeAttr × Bytes)
read_attribute kind len b =
    if kind == at_mac || kind == at_rand || kind == at_autn
    then read_fixed kind len b
    else if kind == at_kdf_input
    then read_padded 1 kind len b
    else if kind == at_res
    then read_padded 8 kind len b
    else if kind == at_kdf
    then read_short kind len b
    else if kind == at_checkcode
    then read_checkcode len b
    else if kind == at_notification
    then read_short kind len b
    else if kind == at_auts
    then read_auts len b
    else ok (record { attr_type = kind; size = len; reserved = 0; value = [] }, b)

-- Storing a parsed attribute.
abbrev pub store : EapAkaPrimeAttr → List EapAkaPrimeAttr → List ℕ → List EapAkaPrimeAttr × List ℕ
store a stored order = (put_attr a stored, order_after a stored order)

-- `for { … }`: it ends where no byte is left for a type, or for a length, which drops a last byte
-- that stands alone. A round takes at least 2 bytes.
unfoldable pub read_attributes :
    ℕ → List EapAkaPrimeAttr → List ℕ → Bytes → Result (List EapAkaPrimeAttr × List ℕ)
read_attributes fuel stored order [] = ok (stored, order)
read_attributes fuel stored order (kind ∷ []) = ok (stored, order)
read_attributes zero stored order (kind ∷ len ∷ b) = stuck
read_attributes (suc fuel) stored order (kind ∷ len ∷ b) = do
  (a, behind) ← read_attribute kind len b
  read_attributes fuel (put_attr a stored) (order_after a stored order) behind

-- The attributes of the receiver are replaced.
unfoldable pub unmarshal : EapAkaPrime → Bytes → Result EapAkaPrime
unmarshal x b = do
  reject_if (ltb (length b) 4) too_short
  type_code ← index b 0
  reject_if (not (type_code == eap_type_aka_prime)) bad_eap_type
  kind ← index b 1
  field ← slice b 2 4
  number ← uint16 field
  rest ← slice_from b 4
  (stored, order) ← read_attributes (length rest) [] [] rest
  ok (record {
    sub_type = kind;
    reserved = number;
    attributes = stored;
    attribute_order = some order;
  })
