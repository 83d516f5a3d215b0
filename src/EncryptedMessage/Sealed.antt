-- ===== src/EncryptedMessage/Sealed.antt =====
-- Messages with one Encrypted payload: their bytes, and the parts that are cut off them.
use ike.Base.{
  [], arith, false, length, length-append, ltb, ltb-no, ok, refl, ℕ, ◌++◌, ◌+◌, ◌-◌, ◌<◌, ◌∷◌, ◌≡◌,
}
use ike.Base.Bytes.{Bytes, put_uint16, slice_from-append, slice_to-append}
use ike.Message.Header.{IkeHeader, header_bytes}
use ike.Message.Header
use ike.Message.Payload.{encrypted, type_of}
use ike.Message.Payload
use ike.Message.Encrypted
use ike.Message.Encrypted.{Encrypted}
use ike.Message.Container
use ike.Message.Codec
use ike.Message.Codec.{IkeMessage}
use ike.EncryptedMessage.{copy_into, last_of, without_last}

-- A message with one Encrypted payload.
abbrev pub sealed : IkeHeader → ℕ → Bytes → IkeMessage
sealed h next b = record {
  ike_header = h;
  payloads = encrypted (record { next_payload = next; encrypted_data = b }) ∷ [];
}

-- The 32 bytes before the data, for a number of bytes of data.
abbrev pub sealed_front : IkeHeader → ℕ → ℕ → Bytes
sealed_front h next n =
    header_bytes (record h { next_payload = 46 }) (28 + (4 + n)) ++ (next ∷ 0 ∷ put_uint16 (4 + n))

-- The chain of the payload.
abbrev pub sealed_chain : ℕ → Bytes → Bytes
sealed_chain next b = next ∷ 0 ∷ (put_uint16 (4 + length b) ++ b)

chain-sealed :
    (next : ℕ) (b : Bytes)
    → 0 < length b
    → length b < 65532
    → Container.encode (encrypted (record { next_payload = next; encrypted_data = b }) ∷ [])
      ≡ ok (sealed_chain next b)
unfolding Container.encode Container.encode_from Container.encode_payload Container.next_type
    Payload.marshal Encrypted.marshal
chain-sealed next b some_bytes few = ground arith

marshal-fits :
    (h : IkeHeader) (n : ℕ)
    → n ≡ length h.payload_bytes
    → n < 65536
    → Header.marshal h ≡ ok (header_bytes h (28 + n) ++ h.payload_bytes)
unfolding Header.marshal
marshal-fits h n e few =
    let fits : ltb 0xffff_ffff (28 + length h.payload_bytes) ≡ false = ground arith in
    rw e (rw fits refl)

-- What the writer makes of it: the header names the payload and holds the chain.
pub encode-sealed :
    (h : IkeHeader) (next : ℕ) (b : Bytes)
    → 0 < length b
    → length b < 65532
    → Codec.encode (sealed h next b)
      ≡ ok (
        sealed (record h { next_payload = 46; payload_bytes = sealed_chain next b }) next b,
        sealed_front h next (length b) ++ b,
      )
unfolding Codec.encode type_of
encode-sealed h next b some_bytes few = rw (chain-sealed next b some_bytes few) (
    rw
      (marshal-fits (record h { next_payload = 46; payload_bytes = sealed_chain next b })
        (4 + length b) (omega arith) (omega arith))
      refl)

-- Cuts at the end.
pub without_last-append :
    (front back : Bytes) (n : ℕ) → n ≡ length back → without_last (front ++ back) n ≡ ok front
unfolding without_last
without_last-append front back n e =
    let size = length-append front back in
    let long : ltb (length (front ++ back)) n ≡ false =
      ltb-no (length (front ++ back)) n (omega (arith, size)) in
    let at : length (front ++ back) - n ≡ length front = omega (arith, size) in
    rw long (rw at (slice_to-append front back))

pub last_of-append :
    (front back : Bytes) (n : ℕ) → n ≡ length back → last_of (front ++ back) n ≡ ok back
unfolding last_of
last_of-append front back n e =
    let size = length-append front back in
    let long : ltb (length (front ++ back)) n ≡ false =
      ltb-no (length (front ++ back)) n (omega (arith, size)) in
    let at : length (front ++ back) - n ≡ length front = omega (arith, size) in
    rw long (rw at (slice_from-append front back))

pub copy_into-whole : (b source : Bytes) → length b ≡ length source → copy_into b source ≡ source
unfolding copy_into
copy_into-whole [] [] h = refl
copy_into-whole [] (y ∷ source) h = absurd (omega arith)
copy_into-whole (x ∷ b) [] h = absurd (omega arith)
copy_into-whole (x ∷ b) (y ∷ source) h = rw (copy_into-whole b source (omega arith)) refl
