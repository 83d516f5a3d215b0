-- ===== src/Message/Configuration/Laws.antt =====
-- The Configuration payload's round trip.
use ike.Base.{
  List, [], append-nil, append_assoc, arith, err, if◌then◌else◌, length, length-append, ltb-no, ok,
  refl, suc, too_short, zero, ℕ, ◌*◌, ◌++◌, ◌<◌, ◌==◌, ◌>>=◌, ◌^◌, ◌∙◌, ◌∷◌, ◌≡◌, ◌≤◌,
}
use ike.Base.Bytes.{
  Bytes, index, slice, slice_from, slice_from-append, slice_to, slice_to-append, uint16,
}
use ike.Base.Bits.{low_fifteen}
use ike.Message.Configuration.{
  Attribute, Configuration, append_attributes, attribute_bytes, empty, marshal, read_attribute,
  read_attributes, unmarshal,
}

-- The type fits 15 bits, and the value a uint16 length.
abbrev pub AttributeFits : Attribute → Type 0
AttributeFits a = (a.kind < 2 ^ 15) × (length a.value < 2 ^ 16)

abbrev pub AllFit : List Attribute → Type 0
AllFit [] = Unit
AllFit (a ∷ more) = AttributeFits a × AllFit more

abbrev pub concat_bytes : List Attribute → Bytes
concat_bytes [] = []
concat_bytes (a ∷ more) = attribute_bytes a ++ concat_bytes more

-- There are bytes exactly if there are attributes.
length-concat_bytes :
    (all : List Attribute)
    → (4 * length all ≤ length (concat_bytes all))
      × (length all ≡ 0 → length (concat_bytes all) ≡ 0)
length-concat_bytes [] = (omega arith, λ e. refl)
length-concat_bytes (a ∷ more) = (
  omega
      (arith, (length-concat_bytes more).0, length-append (attribute_bytes a) (concat_bytes more)),
  λ e. absurd (omega arith),
)

append_attributes-bytes :
    (out : Bytes) (more : List Attribute)
    → AllFit more
    → append_attributes out more ≡ ok (out ++ concat_bytes more)
unfolding append_attributes
append_attributes-bytes out [] h = rw append-nil
append_attributes-bytes out (a ∷ more) (ha, hmore) =
    rw (ltb-no 0xffff (length a.value) (omega arith))
      (append_attributes-bytes (out ++ attribute_bytes a) more hmore ∙ rw append_assoc)

-- One round reads one attribute back, whatever is behind it.
read_attribute-bytes :
    (a : Attribute) (r : Bytes)
    → AttributeFits a
    → read_attribute (attribute_bytes a ++ r) ≡ ok (a, r)
unfolding read_attribute slice slice_to slice_from uint16
read_attribute-bytes a r h = ground (
  arith,
  low_fifteen a.kind h.0,
  slice_to-append a.value r,
  slice_from-append a.value r,
  length-append a.value r,
)

read_attributes-bytes :
    (fuel : ℕ) (out more : List Attribute)
    → AllFit more
    → length (concat_bytes more) ≤ fuel
    → read_attributes fuel out (concat_bytes more) ≡ ok (out ++ more)
unfolding read_attributes
read_attributes-bytes fuel out [] h f = rw append-nil
read_attributes-bytes zero out (a ∷ more) h f = absurd (omega arith)
read_attributes-bytes (suc fuel) out (a ∷ more) (ha, hmore) f = ground (
  arith,
  read_attribute-bytes a (concat_bytes more) ha,
  read_attributes-bytes fuel (out ++ (a ∷ [])) more hmore,
  length-append a.value (concat_bytes more),
  append_assoc out (a ∷ []) more,
)

-- The parser undoes the writer where every attribute fits, except that it refuses a payload with
-- no attribute.
pub configuration_round_trip :
    (x : Configuration)
    → AllFit x.attributes
    → (marshal x >>= unmarshal empty) ≡ (if length x.attributes == 0 then err too_short else ok x)
unfolding marshal unmarshal slice_from index
configuration_round_trip x h = rw (append_attributes-bytes _ x.attributes h) (
    ground (
      arith,
      length-concat_bytes x.attributes,
      read_attributes-bytes (length (concat_bytes x.attributes)) [] x.attributes h,
    ))
