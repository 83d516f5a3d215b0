-- ===== src/Security/Esn.antt =====
-- security/esn: extended sequence numbers.
use Prim.Native.String.{String}
use text.Mathlib.Text.{◌==◌ as str_eq}
use ike.Base.{
  Bool, Bool-cases, Option, Result, arith, err, false, if◌then◌else◌, inl, inr, none, not, ok, refl,
  some, true, unsupported_extended_sequence, ℕ, ◌<◌, ◌==◌, ◌^◌, ◌≡◌,
}
use ike.Message.Types
use ike.Message.SecurityAssociation.{Transform, type_extended_sequence_numbers}
use ike.Security.Registry.{Attribute, Namer, no_attributes, plain, transform_of}

pub record Esn : Type 0 where
  pub need_esn : Bool

-- `esnString`
unfoldable pub esn_string : ℕ → Option Namer
esn_string id =
    if id == Types.esn_enable
    then some (λ kind value bytes. "ESN_ENABLE")
    else (if id == Types.esn_disable then some (λ kind value bytes. "ESN_DISABLE") else none)

unfoldable pub get_need_esn : Esn → Bool
get_need_esn e = e.need_esn

unfoldable pub transform_id : Esn → ℕ
transform_id e = if e.need_esn then Types.esn_enable else Types.esn_disable

unfoldable pub get_attribute : Esn → Attribute
get_attribute e = no_attributes

unfoldable pub str_to_type : String → Result Esn
str_to_type algo =
    if str_eq algo "ESN_ENABLE"
    then ok (record { need_esn = true })
    else (if str_eq algo "ESN_DISABLE"
        then ok (record { need_esn = false })
        else err unsupported_extended_sequence)

unfoldable pub decode_transform : Transform → Result Esn
unfolding str_to_type
decode_transform t = elim (esn_string t.transform_id) [
  | none ↦ err unsupported_extended_sequence
  | some f ↦
      let s = f t.attribute_type t.attribute_value t.variable_length_attribute_value in
      if not (str_eq s "") then str_to_type s else err unsupported_extended_sequence
]

unfoldable pub to_transform : Esn → Transform
unfolding transform_id get_attribute
to_transform e = transform_of type_extended_sequence_numbers (transform_id e) (get_attribute e)

pub decode_transform-to_transform : (e : Esn) → decode_transform (to_transform e) ≡ ok e
unfolding decode_transform to_transform transform_of transform_id get_attribute esn_string
    str_to_type
decode_transform-to_transform e = elim (Bool-cases e.need_esn) [
  | inl h ↦ rw h refl
  | inr h ↦ rw h refl
]

pub to_transform-plain :
    (e : Esn) → (to_transform e ≡ plain 5 (transform_id e)) × (transform_id e < 2 ^ 16)
unfolding to_transform transform_of transform_id get_attribute
to_transform-plain e = (refl, ground arith)
