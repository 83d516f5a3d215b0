-- ===== src/Eap/Mac/Laws.antt =====
-- The MAC of an EAP-AKA' packet, and the MAC that is stored in it.
use ike.Eap.Packet.{Eap, aka_prime}
use ike.Base.{
  List, Option, [], ap, arith, bind_inversion, given-some, if◌then◌else◌, none, ok, ok_bind, refl,
  replicate, some, sym, take, ℕ, ◌++◌, ◌==◌, ◌∙◌, ◌∷◌, ◌≡◌,
}
use ike.Base.Bytes.{Bytes, slice_to, slice_to-ok}
use ike.Eap.AkaPrime
use ike.Eap.AkaPrime.{EapAkaPrime, find_attr, init_mac, order_after, put_attr}
use ike.Eap.AkaPrime.Attribute.{EapAkaPrimeAttr, at_mac, set_attr, set_fixed}
use ike.Eap.Mac.{calc_eap_aka_prime_at_mac, mac_of, mac_of_data}
use ike.Security.Primitives.{Primitives}
use ike.Eap.Packet

find_attr-put_attr :
    (a : EapAkaPrimeAttr) (k : ℕ) (l : List EapAkaPrimeAttr)
    → k ≡ a.attr_type
    → find_attr k (put_attr a l) ≡ some a
unfolding find_attr put_attr
find_attr-put_attr a k [] e = ground arith
find_attr-put_attr a k (x ∷ l) e = let ih = find_attr-put_attr a k l e in ground arith

put_attr-put_attr :
    (a b : EapAkaPrimeAttr) (l : List EapAkaPrimeAttr)
    → a.attr_type ≡ b.attr_type
    → put_attr a (put_attr b l) ≡ put_attr a l
unfolding put_attr
put_attr-put_attr a b [] e = ground arith
put_attr-put_attr a b (x ∷ l) e = let ih = put_attr-put_attr a b l e in ground arith

-- The zero MAC.
abbrev pub zero_mac : EapAkaPrimeAttr
zero_mac = record { attr_type = 11; size = 5; reserved = 0; value = replicate 16 0 }

-- What a write of AT_MAC leaves.
abbrev pub with_mac : EapAkaPrimeAttr → EapAkaPrime → EapAkaPrime
with_mac a x = record x {
  attributes = put_attr a x.attributes;
  attribute_order = elim x.attribute_order [
    | none ↦ none
    | some order ↦ some (order_after a x.attributes order)
  ];
}

init_mac-eq : (x : EapAkaPrime) → init_mac x ≡ ok (with_mac zero_mac x)
unfolding init_mac AkaPrime.set set_attr set_fixed
init_mac-eq x = refl

set_mac :
    (x : EapAkaPrime) (v : Bytes) {z : EapAkaPrime}
    → AkaPrime.set x at_mac v ≡ ok z
    → (a : EapAkaPrimeAttr) × (a.attr_type ≡ 11) × (z ≡ with_mac a x)
unfolding AkaPrime.set set_attr set_fixed
set_mac x v e =
    let (a, is_a, k) = bind_inversion (set_fixed 11 v) _ e in (a, ground (arith, is_a), cc)

one_value : {x y : EapAkaPrime} → ok x ≡ ok y → x ≡ y
one_value e = cc

orders :
    (a b : EapAkaPrimeAttr) (l : List EapAkaPrimeAttr) (r : List ℕ)
    → a.attr_type ≡ b.attr_type
    → order_after b (put_attr a l) (order_after a l r) ≡ order_after b l r
orders a b l r e = ground (arith, find_attr-put_attr a b.attr_type l (sym e), e)

optional_orders :
    (a b : EapAkaPrimeAttr) (l : List EapAkaPrimeAttr) (o : Option (List ℕ))
    → a.attr_type ≡ b.attr_type
    → (with_mac b (
        with_mac a (record {
          sub_type = 0;
          reserved = 0;
          attributes = l;
          attribute_order = o;
        }))).attribute_order
      ≡ (with_mac b (record {
        sub_type = 0;
        reserved = 0;
        attributes = l;
        attribute_order = o;
      })).attribute_order
optional_orders a b l none e = refl
optional_orders a b l (some r) e = ap (λ (t : List ℕ). some t) (orders a b l r e)

-- Only the last of two writes counts.
with_mac-with_mac :
    (a b : EapAkaPrimeAttr) (x : EapAkaPrime)
    → a.attr_type ≡ b.attr_type
    → with_mac b (with_mac a x) ≡ with_mac b x
with_mac-with_mac a b x e = λ i. record x {
  attributes = put_attr-put_attr b a x.attributes (sym e) i;
  attribute_order = optional_orders a b x.attributes x.attribute_order e i;
}

init_mac-set :
    (x y z : EapAkaPrime) (v : Bytes)
    → init_mac x ≡ ok y
    → AkaPrime.set y at_mac v ≡ ok z
    → init_mac z ≡ ok y
init_mac-set x y z v is_y is_z =
    let (a, is_mac, written) = set_mac y v is_z in
    let zeroed : y ≡ with_mac zero_mac x = one_value (sym is_y ∙ init_mac-eq x) in
    init_mac-eq z
    ∙ ap ok (
        ap (λ (t : EapAkaPrime). with_mac zero_mac t) written
        ∙ with_mac-with_mac a zero_mac y is_mac
        ∙ ap (λ (t : EapAkaPrime). with_mac zero_mac t) zeroed
        ∙ with_mac-with_mac zero_mac zero_mac x refl
        ∙ sym zeroed)

find_attr-put_other :
    (a : EapAkaPrimeAttr) (k : ℕ) (l : List EapAkaPrimeAttr)
    → find_attr k (put_attr a l) ≡ (if k == a.attr_type then some a else find_attr k l)
unfolding find_attr put_attr
find_attr-put_other a k [] = ground arith
find_attr-put_other a k (x ∷ l) = let ih = find_attr-put_other a k l in ground arith

-- Data with a MAC of zeros in place of the MAC, or behind the other attributes if there was none.
pub record Zeroed (x y : EapAkaPrime) : Type 0 where
  pub attributes :
      (k : ℕ)
      → find_attr k y.attributes ≡ (if k == 11 then some zero_mac else find_attr k x.attributes)
  pub sub_type : y.sub_type ≡ x.sub_type
  pub reserved : y.reserved ≡ x.reserved
  pub order : y.attribute_order ≡ elim x.attribute_order [
    | none ↦ none
    | some order ↦
        some (elim (find_attr 11 x.attributes) [ none ↦ order ++ (11 ∷ []) | some _ ↦ order ])
  ]

with_mac-Zeroed : (x : EapAkaPrime) → Zeroed x (with_mac zero_mac x)
with_mac-Zeroed x = record {
  attributes = λ k. find_attr-put_other zero_mac k x.attributes;
  sub_type = refl;
  reserved = refl;
  order = refl;
}

-- The computation over data whose reset is known.
mac_of-eq :
    (c : Primitives) (key : Bytes) (eap : Eap) (x y : EapAkaPrime) {b : Bytes}
    → init_mac x ≡ ok y
    → Packet.marshal (record eap { eap_type_data = some (aka_prime y) }) ≡ ok b
    → mac_of c key eap x
      ≡ ok (record eap { eap_type_data = some (aka_prime y) }, take 16 (c.hmac_sha256 key b))
unfolding mac_of
mac_of-eq c key eap x y {b} is_y is_b =
    ok_bind (init_mac x) _ is_y
    ∙ ok_bind (Packet.marshal (record eap { eap_type_data = some (aka_prime y) })) _ is_b
    ∙ ok_bind (slice_to (c.hmac_sha256 key b) 16) _
        (slice_to-ok (c.hmac_sha256 key b) 16 (omega (arith, c.length-hmac_sha256 key b)))

-- The MAC of a packet that can be written with a MAC of zeros in its EAP-AKA' data, the rest of which
-- stays, is the first 16 bytes of the HMAC over the bytes of that packet; and after any value has been
-- stored as the MAC, the MAC of the packet is the same, and so is the packet with the zeros.
pub mac_again :
    (c : Primitives) (eap : Eap) (key value : Bytes) (x z : EapAkaPrime) {b : Bytes}
    → eap.eap_type_data ≡ some (aka_prime x)
    → Packet.marshal (record eap { eap_type_data = some (aka_prime (with_mac zero_mac x)) }) ≡ ok b
    → AkaPrime.set (with_mac zero_mac x) at_mac value ≡ ok z
    → Zeroed x (with_mac zero_mac x)
      × (calc_eap_aka_prime_at_mac c eap key
          ≡ ok (
            record eap { eap_type_data = some (aka_prime (with_mac zero_mac x)) },
            take 16 (c.hmac_sha256 key b),
          ))
      × (calc_eap_aka_prime_at_mac c (record eap { eap_type_data = some (aka_prime z) }) key
          ≡ ok (
            record eap { eap_type_data = some (aka_prime (with_mac zero_mac x)) },
            take 16 (c.hmac_sha256 key b),
          ))
unfolding calc_eap_aka_prime_at_mac mac_of_data
mac_again c eap key value x z is_x is_b is_z = (
  with_mac-Zeroed x,
  given-some eap.eap_type_data _ is_x
      ∙ mac_of-eq c key eap x (with_mac zero_mac x) (init_mac-eq x) is_b,
  mac_of-eq c key eap z (with_mac zero_mac x)
      (init_mac-set x (with_mac zero_mac x) z value (init_mac-eq x) is_z) is_b,
)
