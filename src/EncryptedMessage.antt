-- ===== src/EncryptedMessage.antt =====
-- ike.go: messages whose payloads are encrypted and protected by a checksum.
pub mod Sealed
pub mod Sending
pub mod RoundTrip
pub mod OnlyEncrypted
pub mod Refusal
pub mod HeaderFirst
pub mod Session
use ike.Base.{
  Bool, List, Option, Result, [], err, false, given, if◌then◌else◌, invalid_checksum, length, ltb,
  need_key, no_encryption_key, no_integrity_key, none, not, ok, other_payload, panic, reject_if,
  replicate, required, some, true, unspecified_encryption, unspecified_integrity, ℕ, ◌++◌, ◌-◌,
  ◌==◌, ◌>>=◌, ◌>>◌, ◌∷◌,
}
use ike.Base.Bytes.{Bytes, bytes_equal, slice_from, slice_to}
use ike.Message.Header.{IkeHeader, ike_header_len}
use ike.Message.Payload.{IkePayload, encrypted}
use ike.Message.Encrypted.{Encrypted}
use ike.Message.Container
use ike.Message.Container.{first_type}
use ike.Message.Codec
use ike.Message.Codec.{IkeMessage, decode_payload}
use ike.Message.Build.{build_encrypted}
use ike.Security.EncrAesCbc.{decrypt, encrypt}
use ike.Security.Integ.{get_output_length}
use ike.Security.IkeSa.{IkeSaKey}

-- `Role` of message/types.go
abbrev pub Role : Type 0
Role = Bool

abbrev pub role_initiator : Role
role_initiator = true

abbrev pub role_responder : Role
role_responder = false

-- `TypeSK`
abbrev pub type_sk : ℕ
type_sk = 46

-- `b[:len(b)-n]` and `b[len(b)-n:]`
unfoldable pub without_last : Bytes → ℕ → Result Bytes
without_last b n = if ltb (length b) n then panic else slice_to b (length b - n)

unfoldable pub last_of : Bytes → ℕ → Result Bytes
last_of b n = if ltb (length b) n then panic else slice_from b (length b - n)

unfoldable pub calculate_integrity : IkeSaKey → Role → Bytes → Result Bytes
calculate_integrity k role origin_data = do
  integ ← given k.integ_info
  hash ← required no_integrity_key (if role then k.integ_i else k.integ_r)
  slice_to (hash.sum origin_data) (get_output_length integ)

unfoldable pub verify_integrity : Bytes → Bytes → IkeSaKey → Role → Result (Unit {0})
unfolding calculate_integrity bytes_equal
verify_integrity origin_data checksum k role = do
  expect_checksum ← calculate_integrity k role origin_data
  reject_if (not (bytes_equal checksum expect_checksum)) invalid_checksum

unfoldable pub encrypt_payload : (ℕ → ℕ → Result Bytes) → Bytes → IkeSaKey → Role → Result Bytes
encrypt_payload random plain_text k role = do
  crypto ← given (if role then k.encr_i else k.encr_r)
  encrypt crypto.block random crypto.settings plain_text

-- What the initiator decrypts was encrypted by the responder, and the other way round.
unfoldable pub decrypt_payload : Bytes → IkeSaKey → Role → Result Bytes
decrypt_payload cipher_text k role = do
  crypto ← given (if role then k.encr_r else k.encr_i)
  decrypt crypto.block crypto.settings cipher_text

-- The loop over the payloads: the last Encrypted one; any other payload is refused.
unfoldable pub encrypted_only : Option Encrypted → List IkePayload → Result (Option Encrypted)
encrypted_only found [] = ok found
encrypted_only found (encrypted x ∷ rest) = encrypted_only (some x) rest
encrypted_only found (p ∷ rest) = err other_payload

-- `decryptMsg`; the array of the plain text ends in `spare`.
unfoldable pub decrypt_msg : Bytes → Bytes → IkeMessage → IkeSaKey → Role → Result IkeMessage
unfolding without_last last_of verify_integrity decrypt_payload encrypted_only
decrypt_msg msg spare m k role = do
  integ ← required unspecified_integrity k.integ_info
  encr ← required unspecified_encryption k.encr_info
  integ_i ← required no_integrity_key k.integ_i
  encr_i ← required no_encryption_key k.encr_i
  found ← encrypted_only none m.payloads
  sk ← given found
  let checksum_length = get_output_length integ
  checksum ← last_of sk.encrypted_data checksum_length
  signed ← without_last msg checksum_length
  verified ← verify_integrity signed checksum k (not role)
  encrypted_data ← without_last sk.encrypted_data checksum_length
  plain_text ← decrypt_payload encrypted_data k role
  decrypted ← Container.decode [] sk.next_payload plain_text spare
  ok (record m { payloads = decrypted })

-- `copy(destination, source)`
unfoldable pub copy_into : Bytes → Bytes → Bytes
copy_into [] source = []
copy_into (x ∷ b) [] = x ∷ b
copy_into (x ∷ b) (y ∷ source) = y ∷ copy_into b source

-- `encryptMsg`: the message that is left, with its one Encrypted payload.
unfoldable pub encrypt_msg :
    (ℕ → ℕ → Result Bytes) → IkeMessage → IkeSaKey → Role → Result IkeMessage
unfolding without_last last_of calculate_integrity encrypt_payload copy_into
encrypt_msg random m k role = do
  integ ← required unspecified_integrity k.integ_info
  encr ← required unspecified_encryption k.encr_info
  integ_r ← required no_integrity_key k.integ_r
  encr_r ← required no_encryption_key k.encr_r
  let checksum_length = get_output_length integ
  plain_text ← Container.encode m.payloads
  cipher_text ← encrypt_payload random plain_text k role
  let encrypted_data = cipher_text ++ replicate checksum_length 0
  let next = first_type m.payloads
  (sent, msg_data) ← Codec.encode (record m { payloads = build_encrypted [] next encrypted_data })
  signed ← without_last msg_data checksum_length
  checksum ← calculate_integrity k role signed
  front ← without_last encrypted_data checksum_length
  field ← last_of encrypted_data checksum_length
  ok (record sent { payloads = build_encrypted [] next (front ++ copy_into field checksum) })

-- `EncodeEncrypt`, with no key or with one
unfoldable pub encode_encrypt :
    (ℕ → ℕ → Result Bytes) → IkeMessage → Option IkeSaKey → Role → Result (IkeMessage × Bytes)
unfolding encrypt_msg
encode_encrypt random m none role = Codec.encode m
encode_encrypt random m (some k) role = do sealed ← encrypt_msg random m k role; Codec.encode sealed

-- `new(message.IKEMessage)`; its header is replaced.
abbrev pub new_ike_message : IkeMessage
new_ike_message = record {
  ike_header = record {
    initiator_spi = 0;
    responder_spi = 0;
    major_version = 0;
    minor_version = 0;
    exchange_type = 0;
    flags = 0;
    message_id = 0;
    next_payload = 0;
    payload_bytes = [];
  };
  payloads = [];
}

-- The parser: the whole message, or its payloads behind a header that was parsed before.
unfoldable pub decode_with : Bytes → Bytes → Option IkeHeader → Result IkeMessage
decode_with msg behind none = Codec.decode new_ike_message msg behind
decode_with msg behind (some h) = do
  body ← slice_from msg ike_header_len
  decode_payload (record { ike_header = h; payloads = [] }) body behind

-- `DecodeDecrypt`; the array of `msg` ends in `behind`, that of the plain text in `spare`.
unfoldable pub decode_decrypt :
    Bytes → Bytes → Bytes → Option IkeHeader → Option IkeSaKey → Role → Result IkeMessage
unfolding decode_with decrypt_msg
decode_decrypt msg behind spare header k role = do
  m ← decode_with msg behind header
  if first_type m.payloads == type_sk
      then (required need_key k >>= λ key. decrypt_msg msg spare m key role)
      else ok m
