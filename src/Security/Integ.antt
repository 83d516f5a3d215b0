-- ===== src/Security/Integ.antt =====
-- security/integ: the integrity algorithms, for an IKE SA and, under the same names, for a Child SA.
use Prim.Native.String.{String}
use text.Mathlib.Text.{◌==◌ as str_eq}
use ike.Base.{
  Option, arith, if◌then◌else◌, inl, inr, length, none, refl, some, ℕ, ◌<◌, ◌==◌, ◌^◌, ◌≡◌, ◌⊎◌,
}
use ike.Base.Bytes.{Bytes}
use ike.Message.SecurityAssociation.{Transform, type_integrity_algorithm}
use ike.Message.Types
use ike.Security.Primitives.{Hash, Primitives, new_sha1, new_sha256}
use ike.Security.Registry.{
  Attribute, Namer, decode_by, decode_by-named, no_attributes, of_name, plain, transform_of,
}

pub record AuthHmacSha1_96 : Type 0 where
  pub key_length : ℕ
  pub output_length : ℕ

pub record AuthHmacSha2_256_128 : Type 0 where
  pub key_length : ℕ
  pub output_length : ℕ

pub data IntegType : Type 0 where
  auth_hmac_sha1_96 : AuthHmacSha1_96 → IntegType
  auth_hmac_sha2_256_128 : AuthHmacSha2_256_128 → IntegType

-- The two of `integTypes`
abbrev pub sha1 : IntegType
sha1 = auth_hmac_sha1_96 (record { key_length = 20; output_length = 12 })

abbrev pub sha2_256 : IntegType
sha2_256 = auth_hmac_sha2_256_128 (record { key_length = 32; output_length = 16 })

-- `integString`
unfoldable pub integ_string : ℕ → Option Namer
integ_string id =
    if id == Types.auth_hmac_sha1_96
    then some (λ kind value bytes. "AUTH_HMAC_SHA1_96")
    else (if id == Types.auth_hmac_sha2_256_128
        then some (λ kind value bytes. "AUTH_HMAC_SHA2_256_128")
        else none)

unfoldable pub str_to_type : String → Option IntegType
str_to_type algo =
    if str_eq algo "AUTH_HMAC_SHA1_96"
    then some sha1
    else (if str_eq algo "AUTH_HMAC_SHA2_256_128" then some sha2_256 else none)

unfoldable pub transform_id : IntegType → ℕ
transform_id (auth_hmac_sha1_96 t) = Types.auth_hmac_sha1_96
transform_id (auth_hmac_sha2_256_128 t) = Types.auth_hmac_sha2_256_128

unfoldable pub get_attribute : IntegType → Attribute
get_attribute (auth_hmac_sha1_96 t) = no_attributes
get_attribute (auth_hmac_sha2_256_128 t) = no_attributes

unfoldable pub get_key_length : IntegType → ℕ
get_key_length (auth_hmac_sha1_96 t) = t.key_length
get_key_length (auth_hmac_sha2_256_128 t) = t.key_length

unfoldable pub get_output_length : IntegType → ℕ
get_output_length (auth_hmac_sha1_96 t) = t.output_length
get_output_length (auth_hmac_sha2_256_128 t) = t.output_length

-- `Init`: nil for a key of another length
unfoldable pub integ_init : Primitives → IntegType → Bytes → Option Hash
integ_init c (auth_hmac_sha1_96 t) key = if length key == 20 then some (new_sha1 c key) else none
integ_init c (auth_hmac_sha2_256_128 t) key =
    if length key == 32 then some (new_sha256 c key) else none

unfoldable pub decode_transform : Transform → Option IntegType
decode_transform t = decode_by integ_string str_to_type t

unfoldable pub to_transform : IntegType → Transform
unfolding transform_id get_attribute
to_transform t = transform_of type_integrity_algorithm (transform_id t) (get_attribute t)

-- The table `integKTypes` and what is read from it for a Child SA.
unfoldable pub str_to_k_type : String → Option IntegType
str_to_k_type algo =
    if str_eq algo "AUTH_HMAC_SHA1_96"
    then some sha1
    else (if str_eq algo "AUTH_HMAC_SHA2_256_128" then some sha2_256 else none)

unfoldable pub decode_transform_child_sa : Transform → Option IntegType
decode_transform_child_sa t = decode_by integ_string str_to_k_type t

unfoldable pub to_transform_child_sa : IntegType → Transform
unfolding transform_id get_attribute
to_transform_child_sa t = transform_of type_integrity_algorithm (transform_id t) (get_attribute t)

-- The algorithms that have a name.
abbrev pub IsRegistered : IntegType → Type 0
IsRegistered t = (t ≡ sha1) ⊎ (t ≡ sha2_256)

pub str_to_type-IsRegistered :
    (algo : String) {t : IntegType} → str_to_type algo ≡ some t → IsRegistered t
unfolding str_to_type
str_to_type-IsRegistered algo e = ground arith

pub decode_transform-to_transform :
    (t : IntegType) → IsRegistered t → decode_transform (to_transform t) ≡ some t
unfolding decode_transform decode_by of_name to_transform transform_of transform_id get_attribute
    integ_string str_to_type
decode_transform-to_transform t (inl e) = rw e refl
decode_transform-to_transform t (inr e) = rw e refl

pub to_transform-plain :
    (t : IntegType) → (to_transform t ≡ plain 3 (transform_id t)) × (transform_id t < 2 ^ 16)
unfolding to_transform transform_of transform_id get_attribute
to_transform-plain (auth_hmac_sha1_96 t) = (refl, omega arith)
to_transform-plain (auth_hmac_sha2_256_128 t) = (refl, omega arith)

pub decode_child_sa-to_child_sa :
    (t : IntegType) → IsRegistered t → decode_transform_child_sa (to_transform_child_sa t) ≡ some t
unfolding decode_transform_child_sa decode_by of_name to_transform_child_sa transform_of
    transform_id get_attribute integ_string str_to_k_type
decode_child_sa-to_child_sa t (inl e) = rw e refl
decode_child_sa-to_child_sa t (inr e) = rw e refl

pub to_transform_child_sa-eq : (t : IntegType) → to_transform_child_sa t ≡ to_transform t
unfolding to_transform_child_sa to_transform
to_transform_child_sa-eq t = refl

pub decode_transform-IsRegistered :
    (t : Transform) {a : IntegType} → decode_transform t ≡ some a → IsRegistered a
unfolding decode_transform
decode_transform-IsRegistered t e =
    let (s, named) = decode_by-named integ_string str_to_type t e in
    str_to_type-IsRegistered s named
