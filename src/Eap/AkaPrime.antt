-- ===== src/Eap/AkaPrime.antt =====
-- eap/eap_aka_prime.go: EAP-AKA' type data, a map of attributes and the order in which they came.
-- The map is an association list over the attribute types, in which a type stands once; a nil map
-- and an empty one answer alike. The order is `none` until a message has been parsed (nil).
pub mod Attribute
pub mod Reader
pub mod Prf
pub mod Safety
pub mod Attributes
pub mod RoundTrip
use ike.Base.Bytes.{Bytes, put_uint16}
use ike.Base.{
  List, Option, Result, [], err, if◌then◌else◌, ltb, none, not_found, ok, panic, replicate, some, ℕ,
  ◌++◌, ◌==◌, ◌>>=◌, ◌>>◌, ◌∷◌,
}
use ike.Eap.Types.{eap_type_aka_prime}
use Attribute.{EapAkaPrimeAttr, attribute_bytes, set_attr, at_mac, get_value}

pub record EapAkaPrime : Type 0 where
  pub sub_type : ℕ
  pub reserved : ℕ
  pub attributes : List EapAkaPrimeAttr
  pub attribute_order : Option (List ℕ)

-- `new(EapAkaPrime)`
abbrev pub empty : EapAkaPrime
empty = record { sub_type = 0; reserved = 0; attributes = []; attribute_order = none }

unfoldable pub new_eap_aka_prime : ℕ → EapAkaPrime
new_eap_aka_prime kind = record empty { sub_type = kind }

-- `attributes[attrType]`
unfoldable pub find_attr : ℕ → List EapAkaPrimeAttr → Option EapAkaPrimeAttr
find_attr k [] = none
find_attr k (a ∷ more) = if a.attr_type == k then some a else find_attr k more

-- `attributes[attr.attrType] = attr`
unfoldable pub put_attr : EapAkaPrimeAttr → List EapAkaPrimeAttr → List EapAkaPrimeAttr
put_attr a [] = a ∷ []
put_attr a (x ∷ more) = if x.attr_type == a.attr_type then a ∷ more else x ∷ put_attr a more

-- The order after `a` is stored: a type that was not there yet goes to the end.
abbrev pub order_after : EapAkaPrimeAttr → List EapAkaPrimeAttr → List ℕ → List ℕ
order_after a stored order = elim (find_attr a.attr_type stored) [
  | none ↦ order ++ (a.attr_type ∷ [])
  | some _ ↦ order
]

-- `SetAttr`
unfoldable pub set : EapAkaPrime → ℕ → Bytes → Result EapAkaPrime
set x kind new_value = do
  a ← set_attr kind new_value
  ok (record x {
    attributes = put_attr a x.attributes;
    attribute_order = elim x.attribute_order [
      | none ↦ none
      | some order ↦ some (order_after a x.attributes order)
    ];
  })

-- `GetAttr`
unfoldable pub get : EapAkaPrime → ℕ → Result EapAkaPrimeAttr
get x kind = elim (find_attr kind x.attributes) [ none ↦ err not_found | some a ↦ ok a ]

-- `sort.Slice` by value, of types that are all different.
unfoldable pub insert_key : ℕ → List ℕ → List ℕ
insert_key k [] = k ∷ []
insert_key k (j ∷ more) = if ltb j k then j ∷ insert_key k more else k ∷ j ∷ more

unfoldable pub sort_keys : List EapAkaPrimeAttr → List ℕ
unfolding insert_key
sort_keys [] = []
sort_keys (a ∷ more) = insert_key a.attr_type (sort_keys more)

unfoldable pub get_attrs_keys : EapAkaPrime → List ℕ
get_attrs_keys x = elim x.attribute_order [ none ↦ sort_keys x.attributes | some order ↦ order ]

-- A key with no attribute is a nil pointer.
unfoldable pub append_attributes : List EapAkaPrimeAttr → Bytes → List ℕ → Result Bytes
append_attributes stored out [] = ok out
append_attributes stored out (k ∷ more) = elim (find_attr k stored) [
  | none ↦ panic
  | some a ↦ append_attributes stored (out ++ attribute_bytes a) more
]

unfoldable pub marshal : EapAkaPrime → Result Bytes
marshal x =
    append_attributes x.attributes (eap_type_aka_prime ∷ x.sub_type ∷ put_uint16 x.reserved)
      (get_attrs_keys x)

-- `initMAC`
unfoldable pub init_mac : EapAkaPrime → Result EapAkaPrime
init_mac x = set x at_mac (replicate 16 0)
