-- ===== src/Eap/AkaPrime/Attribute.antt =====
-- eap/eap_aka_prime.go: one attribute of EAP-AKA', how it is set and written.
use ike.Base.Bytes.{Bytes, put_uint16, uint16}
use ike.Base.{
  Result, [], bad_attribute, err, if◌then◌else◌, length, ltb, not, ok, reject_if, replicate,
  unsupported_attribute, ℕ, ◌%◌, ◌*◌, ◌++◌, ◌+◌, ◌-◌, ◌/◌, ◌==◌, ◌>>=◌, ◌>>◌, ◌||◌, ◌∷◌,
}

abbrev pub at_rand : ℕ
at_rand = 1

abbrev pub at_autn : ℕ
at_autn = 2

abbrev pub at_res : ℕ
at_res = 3

abbrev pub at_auts : ℕ
at_auts = 4

abbrev pub at_mac : ℕ
at_mac = 11

abbrev pub at_notification : ℕ
at_notification = 12

abbrev pub at_kdf_input : ℕ
at_kdf_input = 23

abbrev pub at_kdf : ℕ
at_kdf = 24

abbrev pub at_checkcode : ℕ
at_checkcode = 134

pub record EapAkaPrimeAttr : Type 0 where
  pub attr_type : ℕ
  pub size : ℕ
  pub reserved : ℕ
  pub value : Bytes

-- The zero bytes that fill `total_len` up to a multiple of 4.
abbrev pub padding_bytes : ℕ → ℕ
padding_bytes total_len = (4 - total_len % 4) % 4

-- `case AT_MAC`, `AT_RAND`, `AT_AUTN`
unfoldable pub set_fixed : ℕ → Bytes → Result EapAkaPrimeAttr
set_fixed kind new_value = do
  reject_if (not (length new_value == 16)) bad_attribute
  let calc_len = (4 + length new_value) / 4
  reject_if (ltb 255 calc_len) bad_attribute
  ok (record { attr_type = kind; size = calc_len; reserved = 0; value = new_value })

-- `case AT_AUTS`
unfoldable pub set_auts : Bytes → Result EapAkaPrimeAttr
set_auts new_value = do
  reject_if (not (length new_value == 14)) bad_attribute
  ok (record { attr_type = at_auts; size = 4; reserved = 0; value = new_value })

-- `case AT_KDF_INPUT`: both numbers are cut to their width without a check.
unfoldable pub set_kdf_input : Bytes → Result EapAkaPrimeAttr
set_kdf_input new_value =
    let total_len = 4 + length new_value in
    let padding = padding_bytes total_len in
    ok (record {
      attr_type = at_kdf_input;
      size = (total_len + padding) / 4 % 256;
      reserved = length new_value % 65536;
      value = new_value ++ replicate padding 0;
    })

-- `case AT_RES`
unfoldable pub set_res : Bytes → Result EapAkaPrimeAttr
set_res new_value = do
  let bits = length new_value * 8
  reject_if (ltb 128 bits || ltb bits 32) bad_attribute
  let total_len = 4 + length new_value
  let padding = padding_bytes total_len
  reject_if (ltb 65535 bits) bad_attribute
  reject_if (ltb 255 ((total_len + padding) / 4)) bad_attribute
  ok (record {
    attr_type = at_res;
    size = (total_len + padding) / 4;
    reserved = bits;
    value = new_value ++ replicate padding 0;
  })

-- `case AT_KDF`, `AT_NOTIFICATION`: the two bytes are the reserved field.
unfoldable pub set_short : ℕ → Bytes → Result EapAkaPrimeAttr
set_short kind new_value = do
  reject_if (not (length new_value == 2)) bad_attribute
  number ← uint16 new_value
  ok (record { attr_type = kind; size = 1; reserved = number; value = [] })

-- `case AT_CHECKCODE`
unfoldable pub set_checkcode : Bytes → Result EapAkaPrimeAttr
set_checkcode new_value = do
  let calc_len = (4 + length new_value) / 4
  reject_if (ltb 255 calc_len) bad_attribute
  ok (record { attr_type = at_checkcode; size = calc_len; reserved = 0; value = new_value })

-- `setAttr` on a new attribute.
unfoldable pub set_attr : ℕ → Bytes → Result EapAkaPrimeAttr
unfolding set_fixed set_auts set_kdf_input set_res set_short set_checkcode
set_attr kind new_value =
    if kind == at_mac || kind == at_rand || kind == at_autn
    then set_fixed kind new_value
    else if kind == at_auts
    then set_auts new_value
    else if kind == at_kdf_input
    then set_kdf_input new_value
    else if kind == at_res
    then set_res new_value
    else if kind == at_kdf || kind == at_notification
    then set_short kind new_value
    else if kind == at_checkcode
    then set_checkcode new_value
    else err unsupported_attribute

-- `GetValue`
unfoldable pub get_value : EapAkaPrimeAttr → Bytes
get_value a =
    if a.attr_type == at_kdf || a.attr_type == at_notification
    then put_uint16 a.reserved
    else a.value

-- What `Marshal` writes of one attribute: AT_AUTS has no reserved field.
unfoldable pub attribute_bytes : EapAkaPrimeAttr → Bytes
attribute_bytes a =
    a.attr_type
    ∷ a.size
    ∷ ((if a.attr_type == at_auts then [] else put_uint16 a.reserved) ++ a.value)
