-- ===== src/Tests/Secured.antt =====
-- Encrypted messages of ike.go, under keys that are ready.
use ike.EncryptedMessage.Refusal.{
  Authentic, decode_decrypt-Authentic, mixed_payloads, short_payload-panic,
}
use ike.Security.EncrAesCbc.{crypt, decrypt, remove_padding}
use ike.Tests.Ciphers.{shift_down}
use ike.Base.{
  [], arith, err, length-replicate, none, ok, other_payload, panic, refl, replicate, some, ℕ, ◌<◌,
  ◌∷◌, ◌≡◌,
}
use ike.Base.Bytes.{Bytes, index, slice, slice_from, slice_to, uint16, uint32, uint64}
use ike.Message.Header.{IkeHeader, parse_header}
use ike.Message.Header.Laws.{IsWf}
use ike.Message.Nonce
use ike.Message.Nonce.{Nonce}
use ike.Message.Payload
use ike.Message.Payload.{IkePayload, encrypted, new_payload, nonce}
use ike.Message.Encrypted
use ike.Message.Encrypted.{Encrypted}
use ike.Message.Container
use ike.Message.Codec
use ike.Message.Codec.{IkeMessage, decode_payload}
use ike.Security.Integ
use ike.Security.Integ.{get_output_length}
use ike.EncryptedMessage.{
  decode_decrypt, decode_with, decrypt_msg, encode_encrypt, role_initiator, role_responder,
}
use ike.EncryptedMessage.RoundTrip.{SameHeader, secured_round_trip}
use ike.EncryptedMessage.HeaderFirst.{header_first}
use ike.Tests.Keys.{all_ready, ready}

abbrev pub a_header : IkeHeader
a_header = record {
  initiator_spi = 1;
  responder_spi = 2;
  major_version = 2;
  minor_version = 0;
  exchange_type = 35;
  flags = 8;
  message_id = 1;
  next_payload = 0;
  payload_bytes = [];
}

abbrev pub a_message : IkeMessage
a_message = record {
  ike_header = a_header;
  payloads = nonce (record { nonce_data = 7 ∷ 8 ∷ [] }) ∷ [];
}

-- The bytes of read i are all i.
abbrev pub read_bytes : ℕ → ℕ → Bytes
read_bytes i n = replicate n i

pub header_fits : IsWf a_header
header_fits = record {
  initiator = omega arith;
  responder = omega arith;
  major = omega arith;
  minor = omega arith;
  id = omega arith;
  total = omega arith;
}

pub plain_chain : Container.encode a_message.payloads ≡ ok (0 ∷ 0 ∷ 0 ∷ 6 ∷ 7 ∷ 8 ∷ [])
unfolding Container.encode Container.encode_from Container.encode_payload Container.next_type
    Payload.marshal Nonce.marshal
plain_chain = refl

secured_round_trip_example :
    (sent : IkeMessage) × (b : Bytes) × (encode_encrypt
        (λ i n. ok (read_bytes i n))
        a_message
        (some ready)
        role_initiator
      ≡ ok (sent, b))
    × SameHeader a_header sent.ike_header
    × (decode_decrypt b [] [] none (some ready) role_responder
        ≡ ok (record { ike_header = sent.ike_header; payloads = a_message.payloads }))
secured_round_trip_example =
    secured_round_trip ready all_ready role_initiator a_message read_bytes [] []
      (λ i n. length-replicate {A = ℕ} n i) header_fits (tt, tt) plain_chain (omega arith)

-- A message with an Encrypted payload of five bytes.
abbrev short_bytes : Bytes
short_bytes =
    0 ∷ 0 ∷ 0 ∷ 0 ∷ 0 ∷ 0 ∷ 0 ∷ 1 ∷ 0 ∷ 0 ∷ 0 ∷ 0 ∷ 0 ∷ 0 ∷ 0 ∷ 2 ∷ 46 ∷ 32 ∷ 35 ∷ 8 ∷ 0 ∷ 0 ∷ 0 ∷ 1
    ∷ 0 ∷ 0 ∷ 0 ∷ 37 ∷ 0 ∷ 0 ∷ 0 ∷ 9 ∷ 1 ∷ 2 ∷ 3 ∷ 4 ∷ 5 ∷ []

abbrev short_header : IkeHeader
short_header = record a_header {
  next_payload = 46;
  payload_bytes = 0 ∷ 0 ∷ 0 ∷ 9 ∷ 1 ∷ 2 ∷ 3 ∷ 4 ∷ 5 ∷ [];
}

abbrev five_bytes : Encrypted
five_bytes = record { next_payload = 0; encrypted_data = 1 ∷ 2 ∷ 3 ∷ 4 ∷ 5 ∷ [] }

parses : parse_header short_bytes ≡ ok short_header
unfolding parse_header slice slice_to slice_from index uint32 uint64
parses = refl

header_first_example :
    decode_decrypt short_bytes [] [] (some short_header) (some ready) role_responder
    ≡ decode_decrypt short_bytes [] [] none (some ready) role_responder
header_first_example =
    header_first short_bytes [] [] short_header (some ready) role_responder parses

abbrev one_short : IkeMessage
one_short = record { ike_header = short_header; payloads = encrypted five_bytes ∷ [] }

decodes : decode_with short_bytes [] none ≡ ok one_short
unfolding decode_with Codec.decode parse_header decode_payload Container.decode
    Container.decode_from Container.decode_round Container.decode_known new_payload
    Payload.unmarshal Encrypted.unmarshal slice slice_to slice_from index uint32 uint64 uint16
    Container.append_read
decodes = refl

five_lt_twelve : 5 < get_output_length Integ.sha1
unfolding get_output_length
five_lt_twelve = omega arith

short_payload-panic_example :
    decode_decrypt short_bytes [] [] none (some ready) role_responder ≡ panic
unfolding Payload.type_of all_ready
short_payload-panic_example =
    short_payload-panic short_bytes [] [] none one_short ready all_ready role_responder decodes refl
      five_bytes refl five_lt_twelve

-- An Encrypted payload and a nonce behind it.
abbrev mixed_bytes : Bytes
mixed_bytes =
    0 ∷ 0 ∷ 0 ∷ 0 ∷ 0 ∷ 0 ∷ 0 ∷ 1 ∷ 0 ∷ 0 ∷ 0 ∷ 0 ∷ 0 ∷ 0 ∷ 0 ∷ 2 ∷ 46 ∷ 32 ∷ 35 ∷ 8 ∷ 0 ∷ 0 ∷ 0 ∷ 1
    ∷ 0 ∷ 0 ∷ 0 ∷ 43 ∷ 40 ∷ 0 ∷ 0 ∷ 9 ∷ 1 ∷ 2 ∷ 3 ∷ 4 ∷ 5 ∷ 0 ∷ 0 ∷ 0 ∷ 6 ∷ 7 ∷ 8 ∷ []

abbrev a_nonce : IkePayload
a_nonce = nonce (record { nonce_data = 7 ∷ 8 ∷ [] })

abbrev mixed : IkeMessage
mixed = record {
  ike_header = record short_header {
    payload_bytes = 40 ∷ 0 ∷ 0 ∷ 9 ∷ 1 ∷ 2 ∷ 3 ∷ 4 ∷ 5 ∷ 0 ∷ 0 ∷ 0 ∷ 6 ∷ 7 ∷ 8 ∷ [];
  };
  payloads = encrypted (record five_bytes { next_payload = 40 }) ∷ a_nonce ∷ [];
}

decodes_mixed : decode_with mixed_bytes [] none ≡ ok mixed
unfolding decode_with Codec.decode parse_header decode_payload Container.decode
    Container.decode_from Container.decode_round Container.decode_known new_payload
    Payload.unmarshal Encrypted.unmarshal slice slice_to slice_from index uint32 uint64 uint16
    Container.append_read Nonce.unmarshal
decodes_mixed = refl

mixed_payloads_example :
    decode_decrypt mixed_bytes [] [] none (some ready) role_responder ≡ err other_payload
unfolding Payload.type_of
mixed_payloads_example =
    mixed_payloads mixed_bytes [] [] none mixed ready all_ready role_responder decodes_mixed refl
      (encrypted (record five_bytes { next_payload = 40 }) ∷ []) a_nonce [] refl (refl, tt)
      (λ e. absurd (omega (arith, e)))

-- The message with the nonce, encrypted with zeros for a vector.
abbrev sealed_body : Bytes
sealed_body =
    0 ∷ 0 ∷ 0 ∷ 0 ∷ 0 ∷ 0 ∷ 0 ∷ 0 ∷ 0 ∷ 0 ∷ 0 ∷ 0 ∷ 0 ∷ 0 ∷ 0 ∷ 0 ∷ 7 ∷ 7 ∷ 7 ∷ 13 ∷ 14 ∷ 15 ∷ 7 ∷ 7
    ∷ 7 ∷ 7 ∷ 7 ∷ 7 ∷ 7 ∷ 7 ∷ 7 ∷ 16 ∷ 0 ∷ 0 ∷ 0 ∷ 0 ∷ 0 ∷ 0 ∷ 0 ∷ 0 ∷ 0 ∷ 0 ∷ 0 ∷ 0 ∷ []

abbrev sealed_chain : Bytes
sealed_chain = 40 ∷ 0 ∷ 0 ∷ 48 ∷ sealed_body

abbrev sealed_bytes : Bytes
sealed_bytes =
    0 ∷ 0 ∷ 0 ∷ 0 ∷ 0 ∷ 0 ∷ 0 ∷ 1 ∷ 0 ∷ 0 ∷ 0 ∷ 0 ∷ 0 ∷ 0 ∷ 0 ∷ 2 ∷ 46 ∷ 32 ∷ 35 ∷ 8 ∷ 0 ∷ 0 ∷ 0 ∷ 1
    ∷ 0 ∷ 0 ∷ 0 ∷ 76 ∷ sealed_chain

abbrev sealed_message : IkeMessage
sealed_message = record {
  ike_header = record a_header { next_payload = 46; payload_bytes = sealed_chain };
  payloads = encrypted (record { next_payload = 40; encrypted_data = sealed_body }) ∷ [];
}

decodes_sealed : decode_with sealed_bytes [] none ≡ ok sealed_message
unfolding decode_with Codec.decode parse_header decode_payload Container.decode
    Container.decode_from Container.decode_round Container.decode_known new_payload
    Payload.unmarshal Encrypted.unmarshal slice slice_to slice_from index uint32 uint64 uint16
    Container.append_read
decodes_sealed = refl

opens :
    decode_decrypt sealed_bytes [] [] none (some ready) role_responder
    ≡ ok (record sealed_message { payloads = a_nonce ∷ [] })
unfolding decode_decrypt decode_with Codec.decode parse_header decode_payload Container.decode
    Container.decode_from Container.decode_round Container.decode_known new_payload
    Payload.unmarshal Encrypted.unmarshal slice slice_to slice_from index uint32 uint64 uint16
    Container.append_read decrypt_msg Payload.type_of get_output_length decrypt crypt remove_padding
    shift_down Nonce.unmarshal
opens = refl

decode_decrypt-Authentic_example :
    Authentic ready all_ready role_responder sealed_bytes sealed_message.payloads
unfolding Payload.type_of
decode_decrypt-Authentic_example =
    decode_decrypt-Authentic sealed_bytes [] [] none sealed_message ready all_ready role_responder
      decodes_sealed refl opens
