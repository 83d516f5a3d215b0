-- ===== src/Security/Encr.antt =====
-- security/encr/encr.go, the transforms of encr_aes_cbc.go, and the interface of IKECrypto/ikeCrypto.go.
use Prim.Native.String.{String}
use text.Mathlib.Text.{◌==◌ as str_eq}
use ike.Base.{
  Option, Result, [], arith, bad_key_length, if◌then◌else◌, inl, inr, length, ltb, none, not, ok,
  refl, reject_if, some, true, ℕ, ◌*◌, ◌<◌, ◌==◌, ◌>>=◌, ◌>>◌, ◌||◌, ◌≡◌, ◌⊎◌,
}
use ike.Base.Bytes.{Bytes}
use ike.Message.Types
use ike.Message.SecurityAssociation.{Transform, type_encryption_algorithm}
use ike.Message.SecurityAssociation.Transforms.{Tv}
use ike.Security.EncrAesCbc.{BlockMode, EncrAesCbcCrypto}
use ike.Security.Primitives.{Primitives}
use ike.Security.Registry.{Attribute, Namer, decode_by, decode_by-named, of_name, transform_of}

-- The one type that implements `ENCRType`, and `ENCRKType` for a Child SA.
pub record EncrAesCbc : Type 0 where
  pub key_length : ℕ

-- `IKECrypto`: its one implementation, a block cipher under a key with the vector and the padding
pub record IkeCrypto : Type 0 where
  pub block : BlockMode
  pub settings : EncrAesCbcCrypto

-- `toString_ENCR_AES_CBC`
unfoldable pub to_string_encr_aes_cbc : Namer
to_string_encr_aes_cbc attr_type int_value bytes_value =
    if attr_type == Types.attribute_type_key_length
    then (if int_value == 128
        then "ENCR_AES_CBC_128"
        else (if int_value == 192
            then "ENCR_AES_CBC_192"
            else (if int_value == 256 then "ENCR_AES_CBC_256" else "")))
    else ""

-- `encrString`
unfoldable pub encr_string : ℕ → Option Namer
encr_string id = if id == Types.encr_aes_cbc then some to_string_encr_aes_cbc else none

-- `encrTypes`
unfoldable pub str_to_type : String → Option EncrAesCbc
str_to_type algo =
    if str_eq algo "ENCR_AES_CBC_128"
    then some (record { key_length = 16 })
    else (if str_eq algo "ENCR_AES_CBC_192"
        then some (record { key_length = 24 })
        else (if str_eq algo "ENCR_AES_CBC_256" then some (record { key_length = 32 }) else none))

-- `encrKTypes`
unfoldable pub str_to_k_type : String → Option EncrAesCbc
str_to_k_type algo =
    if str_eq algo "ENCR_AES_CBC_128"
    then some (record { key_length = 16 })
    else (if str_eq algo "ENCR_AES_CBC_192"
        then some (record { key_length = 24 })
        else (if str_eq algo "ENCR_AES_CBC_256" then some (record { key_length = 32 }) else none))

unfoldable pub get_attribute : EncrAesCbc → Result Attribute
get_attribute t = do
  reject_if (ltb 0xffff (t.key_length * 8)) bad_key_length
  ok (true, Types.attribute_type_key_length, t.key_length * 8, [])

-- `aes.NewCipher` takes keys of 16, 24 and 32 bytes.
unfoldable pub new_crypto : Primitives → EncrAesCbc → Bytes → Result IkeCrypto
new_crypto c t key = do
  reject_if (not (length key == t.key_length)) bad_key_length
  reject_if (not (length key == 16 || (length key == 24 || length key == 32))) bad_key_length
  ok (record { block = c.aes key; settings = record { iv = none; padding = none } })

unfoldable pub decode_transform : Transform → Option EncrAesCbc
decode_transform t = decode_by encr_string str_to_type t

unfoldable pub to_transform : EncrAesCbc → Result Transform
unfolding get_attribute
to_transform t = do
  a ← get_attribute t
  ok (transform_of type_encryption_algorithm Types.encr_aes_cbc a)

unfoldable pub decode_transform_child_sa : Transform → Option EncrAesCbc
decode_transform_child_sa t = decode_by encr_string str_to_k_type t

unfoldable pub to_transform_child_sa : EncrAesCbc → Result Transform
unfolding get_attribute
to_transform_child_sa t = do
  a ← get_attribute t
  ok (transform_of type_encryption_algorithm Types.encr_aes_cbc a)

-- The key lengths of the tables.
abbrev pub IsRegistered : EncrAesCbc → Type 0
IsRegistered t = (t.key_length ≡ 16) ⊎ ((t.key_length ≡ 24) ⊎ (t.key_length ≡ 32))

pub str_to_type-IsRegistered :
    (algo : String) {t : EncrAesCbc} → str_to_type algo ≡ some t → IsRegistered t
unfolding str_to_type
str_to_type-IsRegistered algo e = ground arith

-- The transform that is sent for an algorithm.
abbrev pub sent_transform : EncrAesCbc → Transform
sent_transform t = record {
  transform_type = 1;
  transform_id = 12;
  attribute_present = true;
  attribute_format = 1;
  attribute_type = 14;
  attribute_value = t.key_length * 8;
  variable_length_attribute_value = [];
}

-- What is sent for an algorithm of the tables, and that it is known again.
pub record Sent (t : EncrAesCbc) : Type 0 where
  pub is_sent : to_transform t ≡ ok (sent_transform t)
  pub is_sent_child_sa : to_transform_child_sa t ≡ ok (sent_transform t)
  pub fits : Tv (sent_transform t)
  pub back : decode_transform (sent_transform t) ≡ some t
  pub back_child_sa : decode_transform_child_sa (sent_transform t) ≡ some t

sent_of :
    (k : ℕ) (s : String)
    → k < 33
    → to_string_encr_aes_cbc 14 (k * 8) [] ≡ s
    → of_name str_to_type s ≡ some (record { key_length = k })
    → of_name str_to_k_type s ≡ some (record { key_length = k })
    → Sent (record { key_length = k })
unfolding decode_transform decode_transform_child_sa decode_by to_transform to_transform_child_sa
    transform_of get_attribute encr_string
sent_of k s few name known known_child_sa = record {
  is_sent = ground arith;
  is_sent_child_sa = ground arith;
  fits = record {
    id = omega arith;
    present = refl;
    format = refl;
    kind = omega arith;
    value = omega arith;
  };
  back = rw name known;
  back_child_sa = rw name known_child_sa;
}

pub sent : (t : EncrAesCbc) → IsRegistered t → Sent t
unfolding to_string_encr_aes_cbc str_to_type str_to_k_type of_name
sent t (inl h) = rw h (sent_of 16 "ENCR_AES_CBC_128" (omega arith) refl refl refl)
sent t (inr (inl h)) = rw h (sent_of 24 "ENCR_AES_CBC_192" (omega arith) refl refl refl)
sent t (inr (inr h)) = rw h (sent_of 32 "ENCR_AES_CBC_256" (omega arith) refl refl refl)

pub decode_transform-IsRegistered :
    (t : Transform) {a : EncrAesCbc} → decode_transform t ≡ some a → IsRegistered a
unfolding decode_transform
decode_transform-IsRegistered t e =
    let (s, named) = decode_by-named encr_string str_to_type t e in str_to_type-IsRegistered s named

str_to_k_type-IsRegistered :
    (algo : String) {t : EncrAesCbc} → str_to_k_type algo ≡ some t → IsRegistered t
unfolding str_to_k_type
str_to_k_type-IsRegistered algo e = ground arith

pub decode_transform_child_sa-IsRegistered :
    (t : Transform) {a : EncrAesCbc} → decode_transform_child_sa t ≡ some a → IsRegistered a
unfolding decode_transform_child_sa
decode_transform_child_sa-IsRegistered t e =
    let (s, named) = decode_by-named encr_string str_to_k_type t e in
    str_to_k_type-IsRegistered s named
