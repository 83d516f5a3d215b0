-- ===== src/Security/Registry.antt =====
-- What the packages of algorithms share: the tables of their `init`, from a transform to the name of
-- an algorithm and from the name to the algorithm, and the transform that an algorithm is sent as.
use Prim.Native.String.{String}
use text.Mathlib.Text.{◌==◌ as str_eq}
use ike.Base.{
  Bool, Option, Option-cases, [], arith, false, if◌then◌else◌, inl, inr, length, none, some, ℕ,
  ◌&&◌, ◌==◌, ◌≡◌,
}
use ike.Base.Bytes.{Bytes}
use ike.Message.Types
use ike.Message.SecurityAssociation.{Transform}

-- `getAttribute`: whether there is an attribute, its type, and its value of either kind
abbrev pub Attribute : Type 0
Attribute = Bool × ℕ × ℕ × Bytes

abbrev pub no_attributes : Attribute
no_attributes = (false, 0, 0, [])

-- A function of the table of strings, from the attribute of a transform to a name
abbrev pub Namer : Type 0
Namer = ℕ → ℕ → Bytes → String

-- The second step of `DecodeTransform`: an empty name is no algorithm.
unfoldable pub of_name {ℓ} : {A : Type ℓ} → (String → Option A) → String → Option A
of_name types s = if str_eq s "" then none else types s

-- `DecodeTransform` for the two tables
unfoldable pub decode_by {ℓ} :
    {A : Type ℓ} → (ℕ → Option Namer) → (String → Option A) → Transform → Option A
unfolding of_name
decode_by strings types t = elim (strings t.transform_id) [
  | none ↦ none
  | some f ↦ of_name types (f t.attribute_type t.attribute_value t.variable_length_attribute_value)
]

-- `ToTransform` for the type, the identifier and the attribute
unfoldable pub transform_of : ℕ → ℕ → Attribute → Transform
transform_of kind id (present, attribute_type, value, variable_value) = record {
  transform_type = kind;
  transform_id = id;
  attribute_present = present;
  attribute_format =
      if present && (length variable_value == 0) then Types.attribute_format_use_tv else 0;
  attribute_type = attribute_type;
  attribute_value = value;
  variable_length_attribute_value = variable_value;
}

-- The transform of an algorithm without an attribute.
abbrev pub plain : ℕ → ℕ → Transform
plain kind id = record {
  transform_type = kind;
  transform_id = id;
  attribute_present = false;
  attribute_format = 0;
  attribute_type = 0;
  attribute_value = 0;
  variable_length_attribute_value = [];
}

-- An algorithm that is decoded has a name in the table of types.
pub decode_by-named {ℓ} :
    {A : Type ℓ} (strings : ℕ → Option Namer) (types : String → Option A) (t : Transform) {a : A}
    → decode_by strings types t ≡ some a
    → (s : String) × (types s ≡ some a)
unfolding decode_by of_name
decode_by-named {A} strings types t e = elim (Option-cases (strings t.transform_id)) [
  | inl missing ↦ ground (arith, missing)
  | inr (f, found) ↦ (
    f t.attribute_type t.attribute_value t.variable_length_attribute_value,
    ground (arith, found),
  )
]
