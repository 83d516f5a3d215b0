-- ===== src/Message/Codec/Laws.antt =====
-- Messages: the parser reads back what the writer wrote.
use ike.Base.{
  Returns-ne-stuck, [], ap, arith, bind_inversion, false, length, not, ok, stuck, sym, ◌&&◌, ◌+◌,
  ◌<◌, ◌==◌, ◌>>=◌, ◌^◌, ◌∙◌, ◌≡◌, ◌≢◌,
}
use ike.Base.Bytes.{Bytes}
use ike.Message.Header.{IkeHeader, parse_header}
use ike.Message.Header
use ike.Base.Progress.{>>=-ne-stuck, reject_if-ne-stuck}
use ike.Message.Container.Safety.{container-ne-stuck}
use ike.Message.Header.Laws.{IsWf, parse_header-Returns, parse_header-marshal}
use ike.Message.Container
use ike.Message.Container.{first_type}
use ike.Message.Container.Laws.{AllFit, container_round_trip, encode-length, received}
use ike.Message.Codec
use ike.Message.Codec.{IkeMessage}

-- The header that `Encode` marshals.
abbrev sent_header : IkeMessage → Bytes → IkeHeader
sent_header m b = record m.ike_header { next_payload = first_type m.payloads; payload_bytes = b }

encode_inversion :
    (m sent : IkeMessage) {b : Bytes}
    → Codec.encode m ≡ ok (sent, b)
    → (c : Bytes) × (Container.encode m.payloads ≡ ok c)
      × (sent ≡ record m { ike_header = sent_header m c })
      × (Header.marshal (sent_header m c) ≡ ok b)
unfolding Codec.encode
encode_inversion m sent e =
    let (c, w, k) = bind_inversion (Container.encode m.payloads) _ e in
    let (d, v, l) = bind_inversion (Header.marshal (sent_header m c)) _ k in
    (c, w, ground arith, ground arith)

marshal_total :
    (h : IkeHeader) {b : Bytes} → Header.marshal h ≡ ok b → 28 + length h.payload_bytes < 2 ^ 32
unfolding Header.marshal
marshal_total h e = ground arith

sent_header-IsWf :
    (m : IkeMessage) (c : Bytes) {b : Bytes}
    → IsWf m.ike_header
    → Header.marshal (sent_header m c) ≡ ok b
    → IsWf (sent_header m c)
sent_header-IsWf m c w e = record {
  initiator = w.initiator;
  responder = w.responder;
  major = w.major;
  minor = w.minor;
  id = w.id;
  total = marshal_total (sent_header m c) e;
}

-- The check before the chain's parser lets through what the writer wrote.
passes :
    (m : IkeMessage) (c : Bytes)
    → Container.encode m.payloads ≡ ok c
    → (not (first_type m.payloads == 0) && (length c == 0)) ≡ false
passes m c w = ground (arith, encode-length m.payloads w)

-- A message whose header fits (SPIs of 64 bits, versions of 4, an identifier of 32), whose payloads
-- all fit as those of a chain do (AllFit), and which the writer writes, is sent with its own
-- payloads and under its own header, which but names the first payload and holds the bytes that the
-- payloads are written as; and from the bytes, the header that was sent is read back, and the
-- payloads as a chain is read back.
pub message_round_trip :
    (m sent : IkeMessage) (old : IkeHeader) (behind : Bytes) {b : Bytes}
    → IsWf m.ike_header
    → AllFit m.payloads
    → Codec.encode m ≡ ok (sent, b)
    → (chain : Bytes) × (Container.encode m.payloads ≡ ok chain)
      × (sent ≡ record {
        ike_header = record m.ike_header {
          next_payload = first_type m.payloads;
          payload_bytes = chain;
        };
        payloads = m.payloads;
      })
      × (Codec.decode (record { ike_header = old; payloads = [] }) b behind
          ≡ ok (record { ike_header = sent.ike_header; payloads = received m.payloads }))
unfolding Codec.decode Codec.decode_payload
message_round_trip m sent old behind w h e =
    let (c, is_c, is_sent, is_b) = encode_inversion m sent e in
    let parsed =
      ap (λ r. r >>= parse_header) (sym is_b)
      ∙ parse_header-marshal (sent_header m c) (sent_header-IsWf m c w is_b) in
    (
      c,
      is_c,
      is_sent,
      rw is_sent
          (rw parsed (rw (passes m c is_c) (rw (container_round_trip m.payloads behind h is_c)))),
    )

-- Parsing any bytes whatever as a message ends: with the message, an error or a panic of a payload's
-- parser.
pub message-ne-stuck : (m : IkeMessage) (b behind : Bytes) → Codec.decode m b behind ≢ stuck
unfolding Codec.decode Codec.decode_payload
message-ne-stuck m b behind =
    >>=-ne-stuck (parse_header b) _ (Returns-ne-stuck _ (parse_header-Returns b)) λ h _.
      reject_if-ne-stuck _ _ _ (
        >>=-ne-stuck (Container.decode m.payloads h.next_payload h.payload_bytes behind) _
          (container-ne-stuck m.payloads h.next_payload h.payload_bytes behind) λ d _ e. cc)
