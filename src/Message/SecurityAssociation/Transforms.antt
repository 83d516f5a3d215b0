-- ===== src/Message/SecurityAssociation/Transforms.antt =====
-- One transform: what is written is read back, but for the value of a TLV attribute.
use ike.Base.Bits.{attribute-Head}
use ike.Base.Bytes.{
  Bytes, index, put_uint16, slice, slice-append, slice_from, slice_from-eq, slice_to, uint16,
}
use ike.Base.{
  Bool, [], append_assoc, arith, bit_and, false, if◌then◌else◌, inl, inr, length, length-append, ok,
  refl, suc, true, ℕ, ◌%◌, ◌*◌, ◌++◌, ◌+◌, ◌/◌, ◌<◌, ◌^◌, ◌∷◌, ◌≡◌, ◌≤◌, ◌⊎◌,
}
use ike.Message.SecurityAssociation.{Transform, transform_bytes, transform_layout}
use ike.Message.SecurityAssociation.Reader.{read_attribute, read_tlv, read_transform, read_tv}

-- What the parser keeps of a transform.
abbrev pub forget_value : Transform → Transform
forget_value t = record t { variable_length_attribute_value = [] }

-- No attribute; type and value; type, length and value. The attribute's type fits the 7 bits that
-- the parser keeps of it.
pub record Absent (t : Transform) : Type 0 where
  pub id : t.transform_id < 2 ^ 16
  pub absent : t.attribute_present ≡ false
  pub no_format : t.attribute_format ≡ 0
  pub no_type : t.attribute_type ≡ 0
  pub no_value : t.attribute_value ≡ 0

pub record Tv (t : Transform) : Type 0 where
  pub id : t.transform_id < 2 ^ 16
  pub present : t.attribute_present ≡ true
  pub format : t.attribute_format ≡ 1
  pub kind : t.attribute_type < 128
  pub value : t.attribute_value < 2 ^ 16

pub record Tlv (t : Transform) : Type 0 where
  pub id : t.transform_id < 2 ^ 16
  pub present : t.attribute_present ≡ true
  pub format : t.attribute_format ≡ 0
  pub kind : t.attribute_type < 128
  pub no_value : t.attribute_value ≡ 0
  pub some_value : 0 < length t.variable_length_attribute_value
  pub length_fits : 12 + length t.variable_length_attribute_value < 2 ^ 16

abbrev pub TransformFits : Transform → Type 0
TransformFits t = Absent t ⊎ (Tv t ⊎ Tlv t)

-- The transform is written as `d`, and read back from `d` whatever is behind it.
pub record Written (more : Bool) (t : Transform) : Type 0 where
  pub d : Bytes
  pub written : transform_bytes more t ≡ ok d
  pub long : 8 ≤ length d
  pub back : (behind : Bytes) → read_transform (d ++ behind) ≡ ok (forget_value t, behind)

Absent-Written : (more : Bool) (t : Transform) → Absent t → Written more t
unfolding transform_bytes read_transform slice slice_to slice_from uint16 index
Absent-Written more t a = record {
  d = transform_layout more t [];
  written = ground arith;
  long = omega arith;
  back = λ behind. ground arith;
}

Tv-Written : (more : Bool) (t : Transform) → Tv t → Written more t
unfolding transform_bytes read_transform read_attribute read_tv slice slice_to slice_from uint16
    index
Tv-Written more t a = record {
  d =
      transform_layout more t
        (put_uint16 (32768 + t.attribute_type) ++ put_uint16 t.attribute_value);
  written = ground (arith, attribute-Head t.attribute_type a.kind);
  long = omega arith;
  back = λ behind.
      let high : (32768 + t.attribute_type) / 256 % 256 ≡ 128 = omega (arith, a.kind) in
      let low : (32768 + t.attribute_type) % 256 ≡ t.attribute_type = omega (arith, a.kind) in
      rw (high, low) (ground (arith, attribute-Head t.attribute_type a.kind));
}

-- The parts of a transform with a TLV attribute, and what the parser makes of them.
module _ (a b c d e f g h i j k l : ℕ) (v behind : Bytes) where
  abbrev front : Bytes
  front = a ∷ b ∷ c ∷ d ∷ e ∷ f ∷ g ∷ h ∷ i ∷ j ∷ k ∷ l ∷ []

  abbrev whole : Bytes
  whole = front ++ (v ++ behind)

  value_field : slice whole 12 (12 + length v) ≡ ok v
  value_field = slice-append front v behind 12 (12 + length v) refl refl

  behind_value : slice_from whole (12 + length v) ≡ ok behind
  behind_value =
      rw (← append_assoc front v behind)
        (slice_from-eq (front ++ v) behind (12 + length v) (omega arith))

  short_fields :
      (slice whole 2 4 ≡ ok (c ∷ d ∷ []))
      × (slice whole 6 8 ≡ ok (g ∷ h ∷ []))
      × (slice whole 8 10 ≡ ok (i ∷ j ∷ []))
      × (slice whole 10 12 ≡ ok (k ∷ l ∷ []))
  unfolding slice slice_to
  short_fields = (refl, refl, refl, refl)

  read_tlv_transform :
      c * 256 + d ≡ 12 + length v
      → k * 256 + l ≡ length v
      → 12 + length v < 2 ^ 16
      → bit_and i 0x80 / 128 ≡ 0
      → read_transform whole
        ≡ ok (
          record {
            transform_type = e;
            transform_id = g * 256 + h;
            attribute_present = true;
            attribute_format = 0;
            attribute_type = bit_and (i * 256 + j) 0x7f;
            attribute_value = 0;
            variable_length_attribute_value = [];
          },
          behind,
        )
  unfolding read_transform read_attribute read_tlv uint16 index
  read_tlv_transform whole_length value_length fits format = ground (
    arith,
    value_field,
    behind_value,
    short_fields.0,
    short_fields.1,
    short_fields.2,
    short_fields.3,
    length-append v behind,
  )

Tlv-Written : (more : Bool) (t : Transform) → Tlv t → Written more t
unfolding transform_bytes
Tlv-Written more t a =
    let v = t.variable_length_attribute_value in
    let n = 8 + suc (suc (suc (suc (length v)))) in
    record {
      d = transform_layout more t (put_uint16 t.attribute_type ++ (put_uint16 (length v) ++ v));
      written = ground (arith, attribute-Head t.attribute_type a.kind);
      long = omega arith;
      back = λ behind.
          let high : t.attribute_type / 256 % 256 ≡ 0 = omega (arith, a.kind) in
          let low : t.attribute_type % 256 ≡ t.attribute_type = omega (arith, a.kind) in
          rw (high, low)
            (ground (
              arith,
              attribute-Head t.attribute_type a.kind,
              read_tlv_transform (if more then 3 else 0) 0 (n / 256 % 256) (n % 256)
                  t.transform_type 0 (t.transform_id / 256 % 256) (t.transform_id % 256) 0
                  t.attribute_type (length v / 256 % 256) (length v % 256) v behind,
            ));
    }

pub transform-Written : (more : Bool) (t : Transform) → TransformFits t → Written more t
transform-Written more t (inl a) = Absent-Written more t a
transform-Written more t (inr (inl a)) = Tv-Written more t a
transform-Written more t (inr (inr a)) = Tlv-Written more t a
