-- ===== src/Tests/Chains.antt =====
-- Headers, chains and messages of message/header.go and message/message.go.
use ike.Base.{
  List, Returns, [], arith, inl, inr, ok, refl, some, stuck, subst, ℕ, ◌++◌, ◌>>=◌, ◌∷◌, ◌≡◌, ◌≢◌,
}
use ike.Base.Bytes.{Bytes, index, slice, slice_from, slice_to, uint16}
use ike.Message.Header.{IkeHeader}
use ike.Message.Header
use ike.Message.Header.Laws.{IsWf, parse_header-marshal}
use ike.Message.Nonce
use ike.Message.VendorId
use ike.Message.Payload
use ike.Message.Payload.{IkePayload, new_payload, nonce, vendor_id}
use ike.Message.Container
use ike.Message.Container.Laws.{container_round_trip}
use ike.Message.Container.Safety.{container-ne-stuck}
use ike.Message.Container.Reach.{IsSafeType, Reaches, Reaches-cases, safe_container-Returns}
use ike.Message.Container.Unknown.{unknown_payload}
use ike.Message.Codec
use ike.Message.Codec.{IkeMessage}
use ike.Message.Codec.Laws.{message_round_trip}

abbrev a_nonce : IkePayload
a_nonce = nonce (record { nonce_data = 7 ∷ 8 ∷ [] })

abbrev a_vendor : IkePayload
a_vendor = vendor_id (record { vendor_id_data = 1 ∷ [] })

abbrev two_payloads : List IkePayload
two_payloads = a_nonce ∷ a_vendor ∷ []

abbrev two_bytes : Bytes
two_bytes = 43 ∷ 0 ∷ 0 ∷ 6 ∷ 7 ∷ 8 ∷ 0 ∷ 0 ∷ 0 ∷ 5 ∷ 1 ∷ []

encode_two : Container.encode two_payloads ≡ ok two_bytes
unfolding Container.encode Container.encode_from Container.encode_payload Container.next_type
    Payload.marshal Nonce.marshal VendorId.marshal Payload.type_of
encode_two = refl

container_round_trip_example : Container.decode [] 40 two_bytes (9 ∷ []) ≡ ok two_payloads
unfolding Payload.type_of
container_round_trip_example = container_round_trip two_payloads (9 ∷ []) (tt, (tt, tt)) encode_two

container-ne-stuck_example : Container.decode [] 33 two_bytes [] ≢ stuck
container-ne-stuck_example = container-ne-stuck [] 33 two_bytes []

unknown_payload_example :
    Container.decode [] 200 (40 ∷ 0 ∷ 0 ∷ 6 ∷ 5 ∷ 5 ∷ two_bytes) []
    ≡ Container.decode [] 40 two_bytes []
unknown_payload_example =
    unknown_payload [] 200 40 0 (5 ∷ 5 ∷ []) two_bytes [] (omega arith) (omega arith)
      (unfold new_payload in refl)

abbrev one_byte_nonce : Bytes
one_byte_nonce = 33 ∷ 0 ∷ 0 ∷ 5 ∷ 7 ∷ []

abbrev after_nonce : Container.Round
after_nonce = record { read = some (nonce (record { nonce_data = 7 ∷ [] })); next = 33; rest = [] }

nonce_round : Container.decode_round 40 one_byte_nonce [] ≡ ok after_nonce
unfolding Container.decode_round Container.decode_known new_payload Payload.unmarshal
    Nonce.unmarshal slice slice_to slice_from index uint16
nonce_round = refl

-- Behind the Nonce nothing is read, whatever type it names.
reached_end : (k : ℕ) (c : Bytes) → Reaches [] 33 [] k c → IsSafeType k
reached_end k c r = elim (Reaches-cases r) [
  | inl (here, some_bytes) ↦ absurd (omega (arith, some_bytes))
  | inr (some_bytes, _, _, _) ↦ absurd (omega (arith, some_bytes))
]

reached : (k : ℕ) (c : Bytes) → Reaches [] 40 one_byte_nonce k c → IsSafeType k
reached k c r = elim (Reaches-cases r) [
  | inl (here, _) ↦ rw here (omega arith, omega arith, omega arith, omega arith)
  | inr (_, x, e, more) ↦
      let same : x ≡ after_nonce = ground (arith, nonce_round) in
      reached_end k c (subst (λ y. Reaches [] y.next y.rest k c) same more)
]

safe_container-Returns_example : Returns (Container.decode [] 40 one_byte_nonce [])
safe_container-Returns_example = safe_container-Returns [] 40 one_byte_nonce [] reached

abbrev a_header : IkeHeader
a_header = record {
  initiator_spi = 0x1122_3344_5566_7788;
  responder_spi = 5;
  major_version = 2;
  minor_version = 0;
  exchange_type = 34;
  flags = 8;
  message_id = 3;
  next_payload = 0;
  payload_bytes = [];
}

a_header-IsWf : IsWf a_header
a_header-IsWf = record {
  initiator = omega arith;
  responder = omega arith;
  major = omega arith;
  minor = omega arith;
  id = omega arith;
  total = omega arith;
}

parse_header-marshal_example : (Header.marshal a_header >>= Header.parse_header) ≡ ok a_header
parse_header-marshal_example = parse_header-marshal a_header a_header-IsWf

abbrev a_message : IkeMessage
a_message = record { ike_header = a_header; payloads = two_payloads }

abbrev sent_header : IkeHeader
sent_header = record a_header { next_payload = 40; payload_bytes = two_bytes }

abbrev sent_message : IkeMessage
sent_message = record { ike_header = sent_header; payloads = two_payloads }

abbrev message_bytes : Bytes
message_bytes = Header.header_bytes sent_header 39 ++ two_bytes

encode_message : Codec.encode a_message ≡ ok (sent_message, message_bytes)
unfolding Codec.encode Header.marshal Payload.type_of
encode_message = rw encode_two refl

message_round_trip_example :
    (chain : Bytes) × (Container.encode two_payloads ≡ ok chain)
    × (sent_message ≡ record {
      ike_header = record a_header { next_payload = 40; payload_bytes = chain };
      payloads = two_payloads;
    })
    × (Codec.decode (record { ike_header = a_header; payloads = [] }) message_bytes []
        ≡ ok sent_message)
unfolding Payload.type_of
message_round_trip_example =
    message_round_trip a_message sent_message a_header [] a_header-IsWf (tt, (tt, tt))
      encode_message
