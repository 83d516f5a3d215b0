-- ===== src/Message/SecurityAssociation.antt =====
-- message/payload_securityassociation.go: the Security Association payload, its proposals and
-- their transforms, and its writer. The parser is in Reader.
pub mod Reader
pub mod Transforms
pub mod Proposals
pub mod RoundTrip
pub mod Safety
use ike.Base.Bytes.{Bytes, put_uint16}
use ike.Base.{
  Bool, List, Result, [], bad_count, bit_and, bit_or, false, if◌then◌else◌, length, ltb,
  no_attribute, no_transform, ok, reject_if, too_long, ℕ, ◌%◌, ◌*◌, ◌++◌, ◌+◌, ◌==◌, ◌>>=◌, ◌>>◌,
  ◌^◌, ◌∷◌,
}

abbrev pub type_encryption_algorithm : ℕ
type_encryption_algorithm = 1

abbrev pub type_pseudorandom_function : ℕ
type_pseudorandom_function = 2

abbrev pub type_integrity_algorithm : ℕ
type_integrity_algorithm = 3

abbrev pub type_diffie_hellman_group : ℕ
type_diffie_hellman_group = 4

abbrev pub type_extended_sequence_numbers : ℕ
type_extended_sequence_numbers = 5

pub record Transform : Type 0 where
  pub transform_type : ℕ
  pub transform_id : ℕ
  pub attribute_present : Bool
  pub attribute_format : ℕ
  pub attribute_type : ℕ
  pub attribute_value : ℕ
  pub variable_length_attribute_value : Bytes

pub record Proposal : Type 0 where
  pub proposal_number : ℕ
  pub protocol_id : ℕ
  pub spi : Bytes
  pub encryption_algorithm : List Transform
  pub pseudorandom_function : List Transform
  pub integrity_algorithm : List Transform
  pub diffie_hellman_group : List Transform
  pub extended_sequence_numbers : List Transform

pub record SecurityAssociation : Type 0 where
  pub proposals : List Proposal

-- `new(Transform)`, `new(Proposal)` and `new(SecurityAssociation)`
abbrev pub empty_transform : Transform
empty_transform = record {
  transform_type = 0;
  transform_id = 0;
  attribute_present = false;
  attribute_format = 0;
  attribute_type = 0;
  attribute_value = 0;
  variable_length_attribute_value = [];
}

abbrev pub empty_proposal : Proposal
empty_proposal = record {
  proposal_number = 0;
  protocol_id = 0;
  spi = [];
  encryption_algorithm = [];
  pseudorandom_function = [];
  integrity_algorithm = [];
  diffie_hellman_group = [];
  extended_sequence_numbers = [];
}

abbrev pub empty : SecurityAssociation
empty = record { proposals = [] }

-- `((uint16(AttributeFormat) & 0x1) << 15) | AttributeType`
abbrev pub format_and_type : Transform → ℕ
format_and_type t = bit_or (bit_and t.attribute_format 1 * 2 ^ 15 % 2 ^ 16) t.attribute_type

-- A type-length-value attribute.
unfoldable pub tlv_bytes : Transform → Result Bytes
tlv_bytes t = do
  reject_if (length t.variable_length_attribute_value == 0) no_attribute
  reject_if (ltb 0xffff (length t.variable_length_attribute_value)) too_long
  ok (
      put_uint16 (format_and_type t)
      ++ (put_uint16 (length t.variable_length_attribute_value)
          ++ t.variable_length_attribute_value))

-- Type, length and value if the format is 0, else type and value.
unfoldable pub attribute_bytes : Transform → Result Bytes
unfolding tlv_bytes
attribute_bytes t =
    if t.attribute_format == 0
    then tlv_bytes t
    else ok (put_uint16 (format_and_type t) ++ put_uint16 t.attribute_value)

abbrev pub transform_layout : Bool → Transform → Bytes → Bytes
transform_layout more t attribute =
    (if more then 3 else 0)
    ∷ 0
    ∷ (put_uint16 (8 + length attribute)
        ++ (t.transform_type ∷ 0 ∷ (put_uint16 t.transform_id ++ attribute)))

-- `more`: another transform follows.
unfoldable pub transform_bytes : Bool → Transform → Result Bytes
unfolding attribute_bytes
transform_bytes more t = do
  attribute ← if t.attribute_present then attribute_bytes t else ok []
  reject_if (ltb 0xffff (8 + length attribute)) too_long
  ok (transform_layout more t attribute)

unfoldable pub append_transforms : Bytes → List Transform → Result Bytes
append_transforms out [] = ok out
append_transforms out (t ∷ rest) = do
  d ← transform_bytes (ltb 0 (length rest)) t
  append_transforms (out ++ d) rest

-- All transforms of a proposal, in the order in which they are written.
abbrev pub transform_list : Proposal → List Transform
transform_list p =
    p.encryption_algorithm
    ++ (p.pseudorandom_function
        ++ (p.integrity_algorithm ++ (p.diffie_hellman_group ++ p.extended_sequence_numbers)))

abbrev pub proposal_layout : Bool → Proposal → Bytes → Bytes
proposal_layout more p transforms =
    (if more then 2 else 0)
    ∷ 0
    ∷ (put_uint16 (8 + (length p.spi + length transforms))
        ++ (p.proposal_number
            ∷ p.protocol_id
            ∷ length p.spi
            ∷ length (transform_list p)
            ∷ (p.spi ++ transforms)))

-- `more`: another proposal follows.
unfoldable pub proposal_bytes : Bool → Proposal → Result Bytes
proposal_bytes more p = do
  reject_if (ltb 255 (length p.spi)) too_long
  reject_if (length (transform_list p) == 0) no_transform
  reject_if (ltb 255 (length (transform_list p))) bad_count
  transforms ← append_transforms [] (transform_list p)
  reject_if (ltb 0xffff (8 + (length p.spi + length transforms))) too_long
  ok (proposal_layout more p transforms)

unfoldable pub append_proposals : Bytes → List Proposal → Result Bytes
append_proposals out [] = ok out
append_proposals out (p ∷ rest) = do
  d ← proposal_bytes (ltb 0 (length rest)) p
  append_proposals (out ++ d) rest

unfoldable pub marshal : SecurityAssociation → Result Bytes
marshal x = append_proposals [] x.proposals
