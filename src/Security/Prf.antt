-- ===== src/Security/Prf.antt =====
-- security/prf: the pseudorandom functions.
use Prim.Native.String.{String}
use text.Mathlib.Text.{◌==◌ as str_eq}
use ike.Base.{Option, arith, if◌then◌else◌, inl, inr, none, refl, some, ℕ, ◌<◌, ◌==◌, ◌^◌, ◌≡◌, ◌⊎◌}
use ike.Base.Bytes.{Bytes}
use ike.Message.SecurityAssociation.{Transform, type_pseudorandom_function}
use ike.Message.Types
use ike.Security.Primitives.{Hash, Primitives, new_sha1, new_sha256}
use ike.Security.Registry.{
  Attribute, Namer, decode_by, decode_by-named, no_attributes, of_name, plain, transform_of,
}

pub record PrfHmacSha1 : Type 0 where
  pub key_length : ℕ
  pub output_length : ℕ

pub record PrfHmacSha2_256 : Type 0 where
  pub key_length : ℕ
  pub output_length : ℕ

pub data PrfType : Type 0 where
  prf_hmac_sha1 : PrfHmacSha1 → PrfType
  prf_hmac_sha2_256 : PrfHmacSha2_256 → PrfType

-- The two of `prfTypes`
abbrev pub sha1 : PrfType
sha1 = prf_hmac_sha1 (record { key_length = 20; output_length = 20 })

abbrev pub sha2_256 : PrfType
sha2_256 = prf_hmac_sha2_256 (record { key_length = 32; output_length = 32 })

-- `prfString`
unfoldable pub prf_string : ℕ → Option Namer
prf_string id =
    if id == Types.prf_hmac_sha1
    then some (λ kind value bytes. "PRF_HMAC_SHA1")
    else (if id == Types.prf_hmac_sha2_256
        then some (λ kind value bytes. "PRF_HMAC_SHA2_256")
        else none)

unfoldable pub str_to_type : String → Option PrfType
str_to_type algo =
    if str_eq algo "PRF_HMAC_SHA1"
    then some sha1
    else (if str_eq algo "PRF_HMAC_SHA2_256" then some sha2_256 else none)

unfoldable pub transform_id : PrfType → ℕ
transform_id (prf_hmac_sha1 t) = Types.prf_hmac_sha1
transform_id (prf_hmac_sha2_256 t) = Types.prf_hmac_sha2_256

unfoldable pub get_attribute : PrfType → Attribute
get_attribute (prf_hmac_sha1 t) = no_attributes
get_attribute (prf_hmac_sha2_256 t) = no_attributes

unfoldable pub get_key_length : PrfType → ℕ
get_key_length (prf_hmac_sha1 t) = t.key_length
get_key_length (prf_hmac_sha2_256 t) = t.key_length

unfoldable pub get_output_length : PrfType → ℕ
get_output_length (prf_hmac_sha1 t) = t.output_length
get_output_length (prf_hmac_sha2_256 t) = t.output_length

-- `Init`
unfoldable pub prf_init : Primitives → PrfType → Bytes → Hash
prf_init c (prf_hmac_sha1 t) key = new_sha1 c key
prf_init c (prf_hmac_sha2_256 t) key = new_sha256 c key

unfoldable pub decode_transform : Transform → Option PrfType
decode_transform t = decode_by prf_string str_to_type t

unfoldable pub to_transform : PrfType → Transform
unfolding transform_id get_attribute
to_transform t = transform_of type_pseudorandom_function (transform_id t) (get_attribute t)

-- The algorithms that have a name.
abbrev pub IsRegistered : PrfType → Type 0
IsRegistered t = (t ≡ sha1) ⊎ (t ≡ sha2_256)

pub str_to_type-IsRegistered :
    (algo : String) {t : PrfType} → str_to_type algo ≡ some t → IsRegistered t
unfolding str_to_type
str_to_type-IsRegistered algo e = ground arith

pub decode_transform-to_transform :
    (t : PrfType) → IsRegistered t → decode_transform (to_transform t) ≡ some t
unfolding decode_transform decode_by of_name to_transform transform_of transform_id get_attribute
    prf_string str_to_type
decode_transform-to_transform t (inl e) = rw e refl
decode_transform-to_transform t (inr e) = rw e refl

pub to_transform-plain :
    (t : PrfType) → (to_transform t ≡ plain 2 (transform_id t)) × (transform_id t < 2 ^ 16)
unfolding to_transform transform_of transform_id get_attribute
to_transform-plain (prf_hmac_sha1 t) = (refl, omega arith)
to_transform-plain (prf_hmac_sha2_256 t) = (refl, omega arith)

pub decode_transform-IsRegistered :
    (t : Transform) {a : PrfType} → decode_transform t ≡ some a → IsRegistered a
unfolding decode_transform
decode_transform-IsRegistered t e =
    let (s, named) = decode_by-named prf_string str_to_type t e in str_to_type-IsRegistered s named
