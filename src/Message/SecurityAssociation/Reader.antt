-- ===== src/Message/SecurityAssociation/Reader.antt =====
-- `SecurityAssociation.Unmarshal` of message/payload_securityassociation.go.
use ike.Base.Bytes.{Bytes, index, slice, slice_from, uint16}
use ike.Base.{
  List, Result, [], bit_and, if◌then◌else◌, length, length_mismatch, ltb, not, ok, reject_if, stuck,
  suc, too_short, too_small, true, zero, ℕ, ◌%◌, ◌++◌, ◌+◌, ◌/◌, ◌==◌, ◌>>=◌, ◌>>◌, ◌∷◌,
}
use ike.Message.SecurityAssociation.{
  Proposal, SecurityAssociation, Transform, empty_proposal, empty_transform,
  type_diffie_hellman_group, type_encryption_algorithm, type_extended_sequence_numbers,
  type_integrity_algorithm, type_pseudorandom_function,
}

-- The attribute of a transform of `transform_length` bytes. `12+attributeLength` is a uint16 and
-- wraps. In the TLV case the code copies the value into a nil slice, which keeps nothing of it;
-- what is left of that line is its slice expression, which can panic.
unfoldable pub read_tlv : Transform → ℕ → Bytes → Result Transform
read_tlv t transform_length b = do
  reject_if (ltb (length b) 12) too_short
  size ← uint16 (← slice b 10 12)
  let value_end = (12 + size) % 65536
  reject_if (not (value_end == transform_length)) length_mismatch
  _ ← slice b 12 value_end
  ok t

unfoldable pub read_tv : Transform → Bytes → Result Transform
read_tv t b = do
  reject_if (ltb (length b) 12) too_short
  value ← uint16 (← slice b 10 12)
  ok (record t { attribute_value = value })

unfoldable pub read_attribute : Transform → ℕ → Bytes → Result Transform
read_attribute t transform_length b = do
  reject_if (ltb (length b) 10) too_short
  head ← index b 8
  kind ← uint16 (← slice b 8 10)
  let format = bit_and head 0x80 / 128
  let with_head = record t {
    attribute_present = true;
    attribute_format = format;
    attribute_type = bit_and kind 0x7f;
  }
  if format == 0 then read_tlv with_head transform_length b else read_tv with_head b

-- One round of the loop over transforms: the transform, and the bytes behind it.
unfoldable pub read_transform : Bytes → Result (Transform × Bytes)
read_transform b = do
  reject_if (ltb (length b) 8) too_short
  transform_length ← uint16 (← slice b 2 4)
  reject_if (ltb transform_length 8) too_small
  reject_if (ltb (length b) transform_length) length_mismatch
  kind ← index b 4
  id ← uint16 (← slice b 6 8)
  let plain = record empty_transform { transform_type = kind; transform_id = id }
  t ← if ltb 8 transform_length then read_attribute plain transform_length b else ok plain
  behind ← slice_from b transform_length
  ok (t, behind)

-- `switch transform.TransformType`: a transform of any other type is dropped.
unfoldable pub add_transform : Proposal → Transform → Proposal
add_transform p t =
    if t.transform_type == type_encryption_algorithm
    then record p { encryption_algorithm = p.encryption_algorithm ++ (t ∷ []) }
    else if t.transform_type == type_pseudorandom_function
    then record p { pseudorandom_function = p.pseudorandom_function ++ (t ∷ []) }
    else if t.transform_type == type_integrity_algorithm
    then record p { integrity_algorithm = p.integrity_algorithm ++ (t ∷ []) }
    else if t.transform_type == type_diffie_hellman_group
    then record p { diffie_hellman_group = p.diffie_hellman_group ++ (t ∷ []) }
    else if t.transform_type == type_extended_sequence_numbers
    then record p { extended_sequence_numbers = p.extended_sequence_numbers ++ (t ∷ []) }
    else p

-- `for len(transformData) > 0`; a round takes at least 8 bytes.
unfoldable pub read_transforms : ℕ → Proposal → Bytes → Result Proposal
read_transforms fuel p [] = ok p
read_transforms zero p (c ∷ b) = stuck
read_transforms (suc fuel) p (c ∷ b) = do
  (t, behind) ← read_transform (c ∷ b)
  read_transforms fuel (add_transform p t) behind

-- `b[8:8+spiSize]`; `spiSize` is a uint8, so its end wraps at 256.
unfoldable pub read_spi : ℕ → Bytes → Result Bytes
read_spi spi_size b = do
  reject_if (ltb (length b) ((8 + spi_size) % 256)) too_short
  slice b 8 ((8 + spi_size) % 256)

-- One round of the loop over proposals: the proposal, and the bytes behind it.
unfoldable pub read_proposal : Bytes → Result (Proposal × Bytes)
read_proposal b = do
  reject_if (ltb (length b) 8) too_short
  proposal_length ← uint16 (← slice b 2 4)
  reject_if (ltb proposal_length 8) too_small
  reject_if (ltb (length b) proposal_length) length_mismatch
  number ← index b 4
  protocol ← index b 5
  spi_size ← index b 6
  spi_bytes ← if ltb 0 spi_size then read_spi spi_size b else ok []
  transforms ← slice b ((8 + spi_size) % 256) proposal_length
  let plain = record empty_proposal {
    proposal_number = number;
    protocol_id = protocol;
    spi = spi_bytes;
  }
  p ← read_transforms (length transforms) plain transforms
  behind ← slice_from b proposal_length
  ok (p, behind)

-- `for len(b) > 0`; a round takes at least 8 bytes.
unfoldable pub read_proposals : ℕ → List Proposal → Bytes → Result (List Proposal)
read_proposals fuel out [] = ok out
read_proposals zero out (c ∷ b) = stuck
read_proposals (suc fuel) out (c ∷ b) = do
  (p, behind) ← read_proposal (c ∷ b)
  read_proposals fuel (out ++ (p ∷ [])) behind

unfoldable pub unmarshal : SecurityAssociation → Bytes → Result SecurityAssociation
unmarshal x b = do read ← read_proposals (length b) x.proposals b; ok (record { proposals = read })
