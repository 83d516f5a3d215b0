-- ===== src/EncryptedMessage/Refusal.antt =====
-- What `DecodeDecrypt` takes, what it refuses, and where it panics.
use ike.EncryptedMessage.OnlyEncrypted.{
  AllEncrypted, LastEncrypted, encrypted_only-LastEncrypted, encrypted_only-other,
}
use ike.EncryptedMessage.Sending.{calculate_integrity-ok, checksum, checksum_of, signed}
use ike.Security.Integ.{IntegType, get_output_length}
use ike.Base.{
  Bool-cases, List, Option, [], ap, arith, bind_inversion, drop, err, given_inversion, inl, inr,
  invalid_checksum, length, length-drop, ltb, lt→ltb, no_encryption_key, no_integrity_key, none,
  not, ok, ok_bind, other_payload, panic, refl, reject_if, required-some, required_inversion, some,
  sym, take, take-append-drop, true, unspecified_encryption, unspecified_integrity, ℕ, ◌++◌, ◌-◌,
  ◌<◌, ◌∙◌, ◌∷◌, ◌≡◌, ◌≢◌, ◌≤◌,
}
use ike.Base.Bytes.{Bytes, bytes_equal, bytes_equal_iff, slice_from-ok, slice_to-ok}
use ike.Message.Header.{IkeHeader}
use ike.Message.Payload.{IkePayload, encrypted, type_of}
use ike.Message.Encrypted.{Encrypted}
use ike.Message.Container.{first_type}
use ike.Message.Codec.{IkeMessage}
use ike.Security.IkeSa.{IkeSaKey}
use ike.Security.IkeSa.Ready.{IsReady}
use ike.Security.Dh.Laws.{ok_injective}
use ike.Base.Reads.{le_of_not_ltb}
use ike.EncryptedMessage.{
  Role, calculate_integrity, decode_decrypt, decode_with, decrypt_msg, encrypted_only, last_of,
  verify_integrity, without_last,
}

-- Bytes cut in two at their end.
without_last_inversion :
    (b : Bytes) (n : ℕ) {front back : Bytes}
    → without_last b n ≡ ok front
    → last_of b n ≡ ok back
    → (b ≡ front ++ back) × (length back ≡ n)
unfolding without_last last_of
without_last_inversion b n {front} {back} f l = elim (Bool-cases (ltb (length b) n)) [
  | inl short ↦ absurd (ground (arith, short, f))
  | inr long ↦
      (let m : ℕ = length b - n in
        let in_range : m ≤ length b = omega arith in
        let is_front : front ≡ take m b =
          ok_injective (sym (rw long at f) ∙ slice_to-ok b m in_range) in
        let is_back : back ≡ drop m b =
          ok_injective (sym (rw long at l) ∙ slice_from-ok b m in_range) in
        (
          rw (is_front, is_back) (sym (take-append-drop m b)),
          omega (arith, ap length is_back, length-drop m b, le_of_not_ltb (length b) n long),
        ))
]

without_last_front :
    (b : Bytes) (n : ℕ) {front : Bytes}
    → without_last b n ≡ ok front
    → (back : Bytes) × (b ≡ front ++ back) × (length back ≡ n)
unfolding without_last
without_last_front b n {front} f = elim (Bool-cases (ltb (length b) n)) [
  | inl short ↦ absurd (ground (arith, short, f))
  | inr long ↦
      (let m : ℕ = length b - n in
        let is_front : front ≡ take m b =
          ok_injective (sym (rw long at f) ∙ slice_to-ok b m (omega arith)) in
        (
          drop m b,
          rw is_front (sym (take-append-drop m b)),
          omega (arith, length-drop m b, le_of_not_ltb (length b) n long),
        ))
]

-- A checksum that passes is the role's checksum of the bytes.
verified :
    (k : IkeSaKey) (w : IsReady k) (role : Role) (signed checksum : Bytes) {done : Unit {0}}
    → verify_integrity signed checksum k role ≡ ok done
    → checksum ≡ checksum_of w role signed
unfolding verify_integrity
verified k w role signed checksum e =
    let test : (reject_if (not (bytes_equal checksum (checksum_of w role signed))) invalid_checksum)
        ≡ ok tt =
      sym (ok_bind (calculate_integrity k role signed) _ (calculate_integrity-ok k w role signed))
      ∙ e in
    elim (Bool-cases (bytes_equal checksum (checksum_of w role signed))) [
      | inl same ↦ (bytes_equal_iff checksum (checksum_of w role signed)).0 same
      | inr other ↦ absurd (ground (arith, other, test))
    ]

-- The last of the payloads, which are Encrypted ones, with its data and the message cut at their ends.
pub record Authentic (k : IkeSaKey) (w : IsReady k) (role : Role) (msg : Bytes)
    (payloads : List IkePayload) : Type 0 where
  pub x : Encrypted
  pub signed : Bytes
  pub tail : Bytes
  pub cipher_text : Bytes
  pub is_last : LastEncrypted payloads x
  pub is_message : msg ≡ signed ++ tail
  pub tail_length : length tail ≡ get_output_length w.integ
  pub is_data : x.encrypted_data ≡ cipher_text ++ checksum_of w (not role) signed

one_integ : {x y : IntegType} → some x ≡ some y → x ≡ y
one_integ e = cc

decrypt_msg-Authentic :
    (k : IkeSaKey) (w : IsReady k) (role : Role) (msg spare : Bytes) (m : IkeMessage)
    {out : IkeMessage}
    → decrypt_msg msg spare m k role ≡ ok out
    → Authentic k w role msg m.payloads
unfolding decrypt_msg
decrypt_msg-Authentic k w role msg spare m e =
    let (integ, is_integ, e1) = required_inversion unspecified_integrity k.integ_info _ e in
    let (encr, is_encr, e2) = required_inversion unspecified_encryption k.encr_info _ e1 in
    let (hash, is_hash, e3) = required_inversion no_integrity_key k.integ_i _ e2 in
    let (crypto, is_crypto, e4) = required_inversion no_encryption_key k.encr_i _ e3 in
    let (found, is_found, e5) = bind_inversion (encrypted_only none m.payloads) _ e4 in
    let (x, is_x, e6) = given_inversion found _ e5 in
    let n : ℕ = get_output_length integ in
    let (checksum, is_checksum, e7) = bind_inversion (last_of x.encrypted_data n) _ e6 in
    let (signed, is_signed, e8) = bind_inversion (without_last msg n) _ e7 in
    let (done, is_done, e9) = bind_inversion (verify_integrity signed checksum k (not role)) _ e8 in
    let (c, is_c, e10) = bind_inversion (without_last x.encrypted_data n) _ e9 in
    let (tail, whole, tail_length) = without_last_front msg n is_signed in
    let (parts, _) = without_last_inversion x.encrypted_data n is_c is_checksum in
    record {
      x = x;
      signed = signed;
      tail = tail;
      cipher_text = c;
      is_last = encrypted_only-LastEncrypted m.payloads (is_found ∙ ap ok is_x);
      is_message = whole;
      tail_length = tail_length ∙ ap get_output_length (one_integ (sym is_integ ∙ w.is_integ));
      is_data =
          parts ∙ ap (λ (b : Bytes). c ++ b) (verified k w (not role) signed checksum is_done);
    }

-- The steps up to the loop over the payloads.
module _ (msg behind spare : Bytes) (header : Option IkeHeader) (m : IkeMessage) (k : IkeSaKey)
    (w : IsReady k) (role : Role) (decoded : decode_with msg behind header ≡ ok m)
    (sk : first_type m.payloads ≡ 46) where
  to_decrypt : decode_decrypt msg behind spare header (some k) role ≡ decrypt_msg msg spare m k role
  unfolding decode_decrypt
  to_decrypt = ok_bind (decode_with msg behind header) _ decoded ∙ ground (arith, sk)

  -- Under a key that is ready, a message that begins with an Encrypted payload is given back only if the data of its last Encrypted
  -- payload end in the checksum of the other role over all bytes of the message but as many at its end
  -- as a checksum has, and all its payloads are Encrypted ones.
  pub decode_decrypt-Authentic :
      {out : IkeMessage}
      → decode_decrypt msg behind spare header (some k) role ≡ ok out
      → Authentic k w role msg m.payloads
  decode_decrypt-Authentic e = decrypt_msg-Authentic k w role msg spare m (sym to_decrypt ∙ e)

  -- Under a key that is ready, a message that begins with an Encrypted payload and has a payload of
  -- another type somewhere behind Encrypted ones is refused.
  pub mixed_payloads :
      (front : List IkePayload) (p : IkePayload) (back : List IkePayload)
      → m.payloads ≡ front ++ (p ∷ back)
      → AllEncrypted front
      → type_of p ≢ 46
      → decode_decrypt msg behind spare header (some k) role ≡ err other_payload
  unfolding decrypt_msg
  mixed_payloads front p back e h n =
      to_decrypt
      ∙ required-some unspecified_integrity k.integ_info _ w.is_integ
      ∙ required-some unspecified_encryption k.encr_info _ w.is_encr
      ∙ required-some no_integrity_key k.integ_i _ w.is_hash_i
      ∙ required-some no_encryption_key k.encr_i _ w.is_crypto_i
      ∙ rw e (rw (encrypted_only-other none front p back h n) refl)

  -- Under a key that is ready, a message with a single Encrypted payload, whose data are shorter than a
  -- checksum, makes the code panic.
  pub short_payload-panic :
      (x : Encrypted)
      → m.payloads ≡ encrypted x ∷ []
      → length x.encrypted_data < get_output_length w.integ
      → decode_decrypt msg behind spare header (some k) role ≡ panic
  unfolding decrypt_msg encrypted_only last_of
  short_payload-panic x e short =
      let cut : ltb (length x.encrypted_data) (get_output_length w.integ) ≡ true =
        lt→ltb (length x.encrypted_data) (get_output_length w.integ) short in
      to_decrypt
      ∙ required-some unspecified_integrity k.integ_info _ w.is_integ
      ∙ required-some unspecified_encryption k.encr_info _ w.is_encr
      ∙ required-some no_integrity_key k.integ_i _ w.is_hash_i
      ∙ required-some no_encryption_key k.encr_i _ w.is_crypto_i
      ∙ rw e (rw cut refl)
