-- ===== src/Message/Header.antt =====
-- message/header.go: the fixed header of an IKE message (RFC 7296, Section 3.1).
pub mod Laws
use ike.Base.{
  Bool, Result, bit_and, bit_or, if◌then◌else◌, length, ltb, not, ok, reject_if, too_long,
  too_short, too_small, ℕ, ◌%◌, ◌*◌, ◌++◌, ◌+◌, ◌/◌, ◌==◌, ◌>>=◌, ◌>>◌, ◌∷◌,
}
use ike.Base.Bytes.{
  Bytes, index, put_uint32, put_uint64, slice, slice_from, slice_to, uint32, uint64,
}

abbrev pub response_bit_check : ℕ
response_bit_check = 0x20

abbrev pub initiator_bit_check : ℕ
initiator_bit_check = 0x08

abbrev pub ike_header_len : ℕ
ike_header_len = 28

pub record IkeHeader : Type 0 where
  pub initiator_spi : ℕ
  pub responder_spi : ℕ
  pub major_version : ℕ
  pub minor_version : ℕ
  pub exchange_type : ℕ
  pub flags : ℕ
  pub message_id : ℕ
  pub next_payload : ℕ
  pub payload_bytes : Bytes

unfoldable pub new_header : ℕ → ℕ → ℕ → Bool → Bool → ℕ → ℕ → Bytes → IkeHeader
new_header i_spi r_spi exchg_type response initiator m_id next_payload payload_bytes =
    let zero_flags : ℕ = 0 in
    let with_response = if response then bit_or zero_flags response_bit_check else zero_flags in
    record {
      initiator_spi = i_spi;
      responder_spi = r_spi;
      exchange_type = exchg_type;
      major_version = 2;
      minor_version = 0;
      message_id = m_id;
      next_payload = next_payload;
      payload_bytes = payload_bytes;
      flags = if initiator then bit_or with_response initiator_bit_check else with_response;
    }

-- Byte 17: `(h.MajorVersion << 4) | (h.MinorVersion & 0x0F)` on uint8.
abbrev pub version_byte : IkeHeader → ℕ
version_byte h = bit_or (h.major_version * 16 % 256) (bit_and h.minor_version 0x0f)

-- The 28 bytes of the header, before `totalLen` is known to fit.
abbrev pub header_bytes : IkeHeader → ℕ → Bytes
header_bytes h total_len =
    put_uint64 h.initiator_spi
    ++ (put_uint64 h.responder_spi
        ++ (h.next_payload
            ∷ version_byte h
            ∷ h.exchange_type
            ∷ h.flags
            ∷ (put_uint32 h.message_id ++ put_uint32 total_len)))

unfoldable pub marshal : IkeHeader → Result Bytes
marshal h = do
  let total_len = ike_header_len + length h.payload_bytes
  reject_if (ltb 0xffff_ffff total_len) too_long
  ok (header_bytes h total_len ++ h.payload_bytes)

pub is_response : IkeHeader → Bool
is_response h = not (bit_and h.flags response_bit_check == 0)

pub is_request : IkeHeader → Bool
unfolding is_response
is_request h = not (is_response h)

pub is_initiator : IkeHeader → Bool
is_initiator h = not (bit_and h.flags initiator_bit_check == 0)

pub is_responder : IkeHeader → Bool
unfolding is_initiator
is_responder h = not (is_initiator h)

unfoldable pub parse_header : Bytes → Result IkeHeader
parse_header b = do
  reject_if (ltb (length b) ike_header_len) too_short
  total_len ← uint32 (← slice b 24 ike_header_len)
  reject_if (ltb total_len ike_header_len) too_small
  i_spi ← uint64 (← slice_to b 8)
  r_spi ← uint64 (← slice b 8 16)
  next ← index b 16
  version ← index b 17
  exchange ← index b 18
  flag_byte ← index b 19
  m_id ← uint32 (← slice b 20 24)
  rest ← slice_from b ike_header_len
  ok (record {
    initiator_spi = i_spi;
    responder_spi = r_spi;
    next_payload = next;
    major_version = version / 16;
    minor_version = bit_and version 0x0f;
    exchange_type = exchange;
    flags = flag_byte;
    message_id = m_id;
    payload_bytes = rest;
  })
