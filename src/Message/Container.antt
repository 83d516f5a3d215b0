-- ===== src/Message/Container.antt =====
-- `IKEPayloadContainer` of message/message.go: a chain of payloads, each behind a header of 4 bytes
-- that holds the type of the payload after it.
pub mod Laws
pub mod Safety
pub mod Reach
pub mod Unknown
use ike.Base.{
  List, Option, Result, [], bit_and, drop, err, if◌then◌else◌, length, length_mismatch, ltb, none,
  ok, reject_if, some, stuck, suc, too_long, too_short, too_small, unknown_critical, zero, ℕ, ◌++◌,
  ◌+◌, ◌/◌, ◌==◌, ◌>>=◌, ◌>>◌, ◌∷◌,
}
use ike.Base.Bytes.{Bytes, index, put_uint16, slice, slice_from, uint16}
use ike.Message.Payload.{IkePayload, encrypted, new_payload, no_next, type_of}
use ike.Message.Payload

-- The next-payload byte: the last payload has none, except that an Encrypted payload names its
-- first inner one.
unfoldable pub next_type : IkePayload → List IkePayload → ℕ
next_type p (q ∷ more) = type_of q
next_type (encrypted x) [] = x.next_payload
next_type p [] = no_next

-- The type that the header of a message names: `uint8(m.Payloads[0].Type())`, or `NoNext`.
abbrev pub first_type : List IkePayload → ℕ
first_type [] = no_next
first_type (p ∷ more) = type_of p

-- A round of `Encode`.
unfoldable pub encode_payload : ℕ → IkePayload → Result Bytes
encode_payload next p = do
  data_bytes ← Payload.marshal p
  let payload_data_len = 4 + length data_bytes
  reject_if (ltb 0xffff payload_data_len) too_long
  ok (next ∷ 0 ∷ (put_uint16 payload_data_len ++ data_bytes))

unfoldable pub encode_from : Bytes → List IkePayload → Result Bytes
encode_from out [] = ok out
encode_from out (p ∷ more) = do
  payload_data ← encode_payload (next_type p more) p
  encode_from (out ++ payload_data) more

-- `Encode`
unfoldable pub encode : List IkePayload → Result Bytes
encode container = encode_from [] container

-- What a round of `Decode` leaves: the payload, unless it is skipped, and the type and the bytes of
-- the next.
pub record Round : Type 0 where
  pub read : Option IkePayload
  pub next : ℕ
  pub rest : Bytes

-- A payload of a known type; `behind` are the bytes of the array behind `b`.
unfoldable pub decode_known : IkePayload → ℕ → ℕ → Bytes → Bytes → Result Round
decode_known p payload_length first b behind = do
  body ← slice b 4 payload_length
  q ← Payload.unmarshal p body (drop payload_length b ++ behind)
  after ← slice_from b payload_length
  ok (record { read = some q; next = first; rest = after })

-- A payload of an unknown type is skipped unless it is critical.
unfoldable pub decode_unknown : ℕ → ℕ → ℕ → Bytes → Result Round
decode_unknown critical_bit payload_length first b =
    if critical_bit == 0
    then (do
      after ← slice_from b payload_length
      ok (record { read = none; next = first; rest = after }))
    else err unknown_critical

-- A round of `Decode`: the critical bit is `(b[1] & 0x80) >> 7`.
unfoldable pub decode_round : ℕ → Bytes → Bytes → Result Round
decode_round next_payload b behind = do
  reject_if (ltb (length b) 4) too_short
  payload_length ← uint16 (← slice b 2 4)
  reject_if (ltb payload_length 4) too_small
  reject_if (ltb (length b) payload_length) length_mismatch
  flags ← index b 1
  first ← index b 0
  elim (new_payload next_payload first) [
    | none ↦ decode_unknown (bit_and flags 0x80 / 128) payload_length first b
    | some p ↦ decode_known p payload_length first b behind
  ]

unfoldable pub append_read : List IkePayload → Option IkePayload → List IkePayload
append_read container none = container
append_read container (some p) = container ++ (p ∷ [])

-- `for len(b) > 0`: a round takes 4 bytes or more.
unfoldable pub decode_from : ℕ → List IkePayload → ℕ → Bytes → Bytes → Result (List IkePayload)
decode_from fuel container next_payload [] behind = ok container
decode_from zero container next_payload (c ∷ b) behind = stuck
decode_from (suc fuel) container next_payload (c ∷ b) behind = do
  r ← decode_round next_payload (c ∷ b) behind
  decode_from fuel (append_read container r.read) r.next r.rest behind

-- `Decode`
unfoldable pub decode : List IkePayload → ℕ → Bytes → Bytes → Result (List IkePayload)
decode container next_payload b behind = decode_from (length b) container next_payload b behind
