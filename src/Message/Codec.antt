-- ===== src/Message/Codec.antt =====
-- `IKEMessage` of message/message.go: a header and a chain of payloads. What `Encode` stores in the
-- header it marshals is part of its result.
pub mod Laws
use ike.Base.{
  Bool, List, Result, [], empty_payload, length, not, ok, reject_if, ℕ, ◌&&◌, ◌==◌, ◌>>=◌, ◌>>◌,
}
use ike.Base.Bytes.{Bytes}
use ike.Message.Header.{IkeHeader, new_header, parse_header}
use ike.Message.Header
use ike.Message.Payload.{IkePayload, no_next}
use ike.Message.Container
use ike.Message.Container.{first_type}

pub record IkeMessage : Type 0 where
  pub ike_header : IkeHeader
  pub payloads : List IkePayload

unfoldable pub new_message : ℕ → ℕ → ℕ → Bool → Bool → ℕ → List IkePayload → IkeMessage
new_message i_spi r_spi exchg_type response initiator m_id payload_list = record {
  ike_header = new_header i_spi r_spi exchg_type response initiator m_id no_next [];
  payloads = payload_list;
}

-- `Encode`: the message with its header brought up to date, and its bytes.
unfoldable pub encode : IkeMessage → Result (IkeMessage × Bytes)
encode m = do
  bytes ← Container.encode m.payloads
  let h = record m.ike_header { next_payload = first_type m.payloads; payload_bytes = bytes }
  b ← Header.marshal h
  ok (record m { ike_header = h }, b)

-- `DecodePayload`
unfoldable pub decode_payload : IkeMessage → Bytes → Bytes → Result IkeMessage
decode_payload m b behind = do
  reject_if (not (m.ike_header.next_payload == 0) && length b == 0) empty_payload
  decoded ← Container.decode m.payloads m.ike_header.next_payload b behind
  ok (record m { payloads = decoded })

-- `Decode`; the array of `b` ends in `behind`.
unfoldable pub decode : IkeMessage → Bytes → Bytes → Result IkeMessage
decode m b behind = do
  h ← parse_header b
  decode_payload (record m { ike_header = h }) h.payload_bytes behind
