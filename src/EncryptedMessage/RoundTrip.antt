-- ===== src/EncryptedMessage/RoundTrip.antt =====
-- What `EncodeEncrypt` sends, `DecodeDecrypt` on the other side gives back.
use ike.Security.Integ.{get_output_length}
use ike.Message.Container.Laws.{AllFit, container_round_trip, received}
use ike.Message.Payload.{IkePayload, type_of}
use ike.Security.EncrAesCbc.Laws.{Fills, encryption}
use ike.Message.Codec.Laws.{message_round_trip}
use ike.Message.Header.Laws.{IsWf}
use ike.Message.Codec.{IkeMessage}
use ike.Message.Header.{IkeHeader}
use ike.EncryptedMessage.{
  Role, decode_decrypt, decode_with, decrypt_msg, decrypt_payload, encode_encrypt, encrypt_msg,
  encrypted_only, last_of, new_ike_message, verify_integrity, without_last,
}
use ike.EncryptedMessage.Sealed.{
  encode-sealed, last_of-append, sealed, sealed_chain, sealed_front, without_last-append,
}
use ike.Security.EncrAesCbc.{decrypt, encrypt}
use ike.Security.IkeSa.{IkeSaKey}
use ike.Base.Bytes.{Bytes}
use ike.Base.{
  List, [], ap, append_assoc, arith, length, length-append, length-replicate, no_encryption_key,
  no_integrity_key, none, not, ok, ok_bind, refl, required-some, some, sym, unspecified_encryption,
  unspecified_integrity, ℕ, ◌++◌, ◌+◌, ◌<◌, ◌∙◌, ◌≡◌, ◌≤◌,
}
use ike.Security.IkeSa.Ready.{IsReady}
use ike.Message.Container
use ike.Message.Codec
use ike.EncryptedMessage.Sending.{
  block_of_role, checksum, decrypt_payload-ok, encrypt_msg-ok, length-checksum, next, not-not,
  protected, sent_header, signed, verify_integrity-ok, zeros,
}

module _ (k : IkeSaKey) (w : IsReady k) (role : Role) (m : IkeMessage) (c : Bytes) where
  -- The other side, on the bytes that were sent.
  decrypt_msg-ok :
      (h : IkeHeader) (plain spare : Bytes) {out : List IkePayload}
      → decrypt (block_of_role w role) (record { iv = none; padding = none }) c ≡ ok plain
      → Container.decode [] (next k w role m c) plain spare ≡ ok out
      → decrypt_msg
          (signed k w role m c ++ checksum k w role m c)
          spare
          (sealed h (next k w role m c) (c ++ checksum k w role m c))
          k
          (not role)
        ≡ ok (record { ike_header = h; payloads = out })
  unfolding decrypt_msg encrypted_only
  decrypt_msg-ok h plain spare is_plain is_out =
      let long = sym (length-checksum k w role (signed k w role m c)) in
      required-some unspecified_integrity k.integ_info _ w.is_integ
      ∙ required-some unspecified_encryption k.encr_info _ w.is_encr
      ∙ required-some no_integrity_key k.integ_i _ w.is_hash_i
      ∙ required-some no_encryption_key k.encr_i _ w.is_crypto_i
      ∙ ok_bind (last_of (c ++ checksum k w role m c) (get_output_length w.integ)) _
          (last_of-append c (checksum k w role m c) (get_output_length w.integ) long)
      ∙ ok_bind
          (without_last (signed k w role m c ++ checksum k w role m c) (get_output_length w.integ))
          _
          (without_last-append (signed k w role m c) (checksum k w role m c)
            (get_output_length w.integ) long)
      ∙ ok_bind (verify_integrity (signed k w role m c) (checksum k w role m c) k (not (not role)))
          _
          (rw (not-not role)
            (verify_integrity-ok k w role (signed k w role m c) (checksum k w role m c) refl))
      ∙ ok_bind (without_last (c ++ checksum k w role m c) (get_output_length w.integ)) _
          (without_last-append c (checksum k w role m c) (get_output_length w.integ) long)
      ∙ ok_bind (decrypt_payload c k (not role)) _ (decrypt_payload-ok k w role c ∙ is_plain)
      ∙ ok_bind (Container.decode [] (next k w role m c) plain spare) _ is_out

module _ (k : IkeSaKey) (w : IsReady k) (role : Role) (m : IkeMessage) (c : Bytes) where
  -- The bytes that are sent.
  abbrev wire : Bytes
  wire = signed k w role m c ++ checksum k w role m c

  same_length : length (c ++ checksum k w role m c) ≡ length (c ++ zeros k w role m c)
  same_length = omega (
    arith,
    length-append c (checksum k w role m c),
    length-append c (zeros k w role m c),
    length-checksum k w role (signed k w role m c),
    length-replicate {A = ℕ} (get_output_length w.integ) 0,
  )

  size : length (c ++ checksum k w role m c) ≡ length c + get_output_length w.integ
  size = omega (
    arith,
    length-append c (checksum k w role m c),
    length-checksum k w role (signed k w role m c),
  )

  -- The header that is sent.
  abbrev wire_header : IkeHeader
  wire_header = record m.ike_header {
    next_payload = 46;
    payload_bytes = sealed_chain (next k w role m c) (c ++ checksum k w role m c);
  }

  -- The message that is sent.
  abbrev wire_message : IkeMessage
  wire_message = sealed wire_header (next k w role m c) (c ++ checksum k w role m c)

  encode-protected :
      0 < length c
      → length c + get_output_length w.integ < 65532
      → Codec.encode (protected k w role m c) ≡ ok (wire_message, wire)
  encode-protected some_bytes few =
      encode-sealed (sent_header k w role m c) (next k w role m c) (c ++ checksum k w role m c)
        (omega (arith, size)) (omega (arith, size))
      ∙ ap (λ (b : Bytes). ok (wire_message, b))
          (ap
              (λ (n : ℕ).
                sealed_front m.ike_header (next k w role m c) n ++ (c ++ checksum k w role m c))
              same_length
            ∙ sym (
                append_assoc
                  (sealed_front m.ike_header (next k w role m c) (length (c ++ zeros k w role m c)))
                  c (checksum k w role m c)))

  protected-IsWf :
      length c + get_output_length w.integ < 65532
      → IsWf m.ike_header
      → IsWf (sent_header k w role m c)
  protected-IsWf few h = record {
    initiator = h.initiator;
    responder = h.responder;
    major = h.major;
    minor = h.minor;
    id = h.id;
    total = omega (arith, size, same_length);
  }

  decode-wire :
      (old : IkeHeader) (behind : Bytes)
      → 0 < length c
      → length c + get_output_length w.integ < 65532
      → IsWf m.ike_header
      → Codec.decode (record { ike_header = old; payloads = [] }) wire behind ≡ ok wire_message
  unfolding Container.next_type
  decode-wire old behind some_bytes few h =
      let (_, _, _, back) =
        message_round_trip (protected k w role m c) wire_message old behind (protected-IsWf few h)
          (tt, tt) (encode-protected some_bytes few) in
      back

-- What `encryptMsg` and the writer make of a message, and what the other side reads.
exchange :
    (k : IkeSaKey) (w : IsReady k) (role : Role) (m : IkeMessage) (random : ℕ → ℕ → Bytes)
    (plain c behind spare : Bytes)
    → Container.encode m.payloads ≡ ok plain
    → encrypt
        (block_of_role w role)
        (λ i n. ok (random i n))
        (record { iv = none; padding = none })
        plain
      ≡ ok c
    → decrypt (block_of_role w role) (record { iv = none; padding = none }) c ≡ ok plain
    → 0 < length c
    → length c + get_output_length w.integ < 65532
    → IsWf m.ike_header
    → AllFit m.payloads
    → (encode_encrypt (λ i n. ok (random i n)) m (some k) role
        ≡ ok (wire_message k w role m c, wire k w role m c))
      × (decode_decrypt (wire k w role m c) behind spare none (some k) (not role)
          ≡ ok (record { ike_header = wire_header k w role m c; payloads = received m.payloads }))
unfolding encode_encrypt decode_decrypt decode_with type_of
exchange k w role m random plain c behind spare is_plain is_c back some_bytes few h fit = (
  ok_bind (encrypt_msg (λ i n. ok (random i n)) m k role) _
        (encrypt_msg-ok k w role random m plain c is_plain is_c some_bytes few)
      ∙ encode-protected k w role m c some_bytes few,
  ok_bind (Codec.decode new_ike_message (wire k w role m c) behind) _
        (decode-wire k w role m c _ behind some_bytes few h)
      ∙ decrypt_msg-ok k w role m c (wire_header k w role m c) plain spare back
          (container_round_trip m.payloads spare fit is_plain),
)

-- A header with an Encrypted payload first, in place of what another names, and some bytes of payloads.
abbrev pub SameHeader : IkeHeader → IkeHeader → Type 0
SameHeader h sent = sent ≡ record h { next_payload = 46; payload_bytes = sent.payload_bytes }

-- A message whose header fits and whose payloads the writer and the parser agree on and fill at most
-- 65000 bytes can be sent under a key that is ready, by either role, where the source of random bytes
-- fills what it is given; the header that is sent is the message's, but for the type of the first
-- payload and the bytes of the chain; and the other role, with the same key, gets from the bytes the
-- header that was sent and the payloads as a chain is read back.
pub secured_round_trip :
    (k : IkeSaKey) (w : IsReady k) (role : Role) (m : IkeMessage) (random : ℕ → ℕ → Bytes)
    (behind spare : Bytes) {plain : Bytes}
    → Fills random
    → IsWf m.ike_header
    → AllFit m.payloads
    → Container.encode m.payloads ≡ ok plain
    → length plain ≤ 65000
    → (sent : IkeMessage) × (b : Bytes) × (encode_encrypt (λ i n. ok (random i n)) m (some k) role
        ≡ ok (sent, b))
      × SameHeader m.ike_header sent.ike_header
      × (decode_decrypt b behind spare none (some k) (not role)
          ≡ ok (record { ike_header = sent.ike_header; payloads = received m.payloads }))
secured_round_trip k w role m random behind spare {plain} fills h fit is_plain few =
    let (c, is_c, back, some_bytes, long) =
      encryption (block_of_role w role) random none plain fills tt in
    let (is_sent, is_read) =
      exchange k w role m random plain c behind spare is_plain is_c back some_bytes
        (omega (arith, long, few, w.output_few)) h fit in
    (wire_message k w role m c, wire k w role m c, is_sent, refl, is_read)
