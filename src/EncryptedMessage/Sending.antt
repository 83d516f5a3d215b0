-- ===== src/EncryptedMessage/Sending.antt =====
-- What `encryptMsg` leaves to send, with the objects of a role.
use ike.Message.Build.{build_encrypted}
use ike.Message.Header.{IkeHeader}
use ike.Message.Container.{first_type}
use ike.Message.Codec.{IkeMessage}
use ike.Security.Encr.{IkeCrypto}
use ike.Base.{
  Bool, ap, append_assoc, arith, false, given-some, if◌then◌else◌, length, length-append,
  length-replicate, length-take, no_encryption_key, no_integrity_key, none, not, ok, ok_bind, refl,
  replicate, required-some, some, sym, take, true, unspecified_encryption, unspecified_integrity, ℕ,
  ◌++◌, ◌+◌, ◌<◌, ◌∙◌, ◌≡◌, ◌≤◌,
}
use ike.Base.Bytes.{Bytes, bytes_equal, bytes_equal_iff, slice_to-ok}
use ike.Message.Container
use ike.Message.Codec
use ike.Security.EncrAesCbc.{BlockMode, decrypt, encrypt}
use ike.Security.Primitives.{Hash}
use ike.Security.Integ.{get_output_length}
use ike.Security.IkeSa.{IkeSaKey}
use ike.Security.IkeSa.Ready.{IsReady}
use ike.EncryptedMessage.{
  Role, calculate_integrity, decrypt_payload, encrypt_msg, encrypt_payload, last_of,
  verify_integrity, without_last,
}
use ike.EncryptedMessage.Sealed.{
  copy_into-whole, encode-sealed, last_of-append, sealed, sealed_chain, sealed_front,
  without_last-append,
}

pub not-not : (b : Bool) → not (not b) ≡ b
not-not true = refl
not-not false = refl

-- The objects of a role, for what it sends.
abbrev pub hash_of : {k : IkeSaKey} → IsReady k → Role → Hash
hash_of w true = w.hash_i
hash_of w false = w.hash_r

abbrev pub block_of_role : {k : IkeSaKey} → IsReady k → Role → BlockMode
block_of_role w true = w.block_i
block_of_role w false = w.block_r

-- The checksum of a role over bytes.
abbrev pub checksum_of : {k : IkeSaKey} → IsReady k → Role → Bytes → Bytes
checksum_of w role b = take (get_output_length w.integ) ((hash_of w role).sum b)

-- They are there.
hash_present :
    (k : IkeSaKey) (w : IsReady k) (role : Role)
    → (if role then k.integ_i else k.integ_r) ≡ some (hash_of w role)
hash_present k w true = w.is_hash_i
hash_present k w false = w.is_hash_r

crypto_of : {k : IkeSaKey} → IsReady k → Role → IkeCrypto
crypto_of w role = record {
  block = block_of_role w role;
  settings = record { iv = none; padding = none };
}

crypto_present :
    (k : IkeSaKey) (w : IsReady k) (role : Role)
    → ((if role then k.encr_i else k.encr_r) ≡ some (crypto_of w role))
      × ((if not role then k.encr_r else k.encr_i) ≡ some (crypto_of w role))
unfolding crypto_of
crypto_present k w true = (w.is_crypto_i, w.is_crypto_i)
crypto_present k w false = (w.is_crypto_r, w.is_crypto_r)

output_fits :
    (k : IkeSaKey) (w : IsReady k) (role : Role) → get_output_length w.integ ≤ (hash_of w role).size
output_fits k w true = w.output_i
output_fits k w false = w.output_r

-- The message with its payloads encrypted as `c`, and the checksum behind them.
module _ (k : IkeSaKey) (w : IsReady k) (role : Role) (m : IkeMessage) (c : Bytes) where
  abbrev pub zeros : Bytes
  zeros = replicate (get_output_length w.integ) 0

  abbrev pub next : ℕ
  next = first_type m.payloads

  abbrev pub signed : Bytes
  signed = sealed_front m.ike_header next (length (c ++ zeros)) ++ c

  abbrev pub checksum : Bytes
  checksum = checksum_of w role signed

  abbrev pub sent_header : IkeHeader
  sent_header = record m.ike_header {
    next_payload = 46;
    payload_bytes = sealed_chain next (c ++ zeros);
  }

  abbrev pub protected : IkeMessage
  protected = sealed sent_header next (c ++ checksum)

module _ (k : IkeSaKey) (w : IsReady k) (role : Role) where
  pub length-checksum : (b : Bytes) → length (checksum_of w role b) ≡ get_output_length w.integ
  length-checksum b = omega (
    arith,
    output_fits k w role,
    (hash_of w role).length-sum b,
    length-take (get_output_length w.integ) ((hash_of w role).sum b),
  )

  pub calculate_integrity-ok :
      (b : Bytes) → calculate_integrity k role b ≡ ok (checksum_of w role b)
  unfolding calculate_integrity
  calculate_integrity-ok b =
      given-some k.integ_info _ w.is_integ
      ∙ required-some no_integrity_key _ _ (hash_present k w role)
      ∙ slice_to-ok ((hash_of w role).sum b) (get_output_length w.integ)
          (omega (arith, output_fits k w role, (hash_of w role).length-sum b))

  pub verify_integrity-ok :
      (b sum : Bytes) → sum ≡ checksum_of w role b → verify_integrity b sum k role ≡ ok tt
  unfolding verify_integrity
  verify_integrity-ok b sum e = rw (calculate_integrity-ok b) (
      let same : bytes_equal sum (checksum_of w role b) ≡ true =
        (bytes_equal_iff sum (checksum_of w role b)).1 e in
      rw same refl)

  pub encrypt_payload-ok :
      (random : ℕ → ℕ → Bytes) (plain : Bytes)
      → encrypt_payload (λ i n. ok (random i n)) plain k role
        ≡ encrypt
            (block_of_role w role)
            (λ i n. ok (random i n))
            (record { iv = none; padding = none })
            plain
  unfolding encrypt_payload crypto_of
  encrypt_payload-ok random plain = given-some _ _ (crypto_present k w role).0

  pub decrypt_payload-ok :
      (c : Bytes)
      → decrypt_payload c k (not role)
        ≡ decrypt (block_of_role w role) (record { iv = none; padding = none }) c
  unfolding decrypt_payload crypto_of
  decrypt_payload-ok c = given-some _ _ (crypto_present k w role).1

module _ (k : IkeSaKey) (w : IsReady k) (role : Role) where
  -- What is left to send, for the cipher text of the payloads.
  pub encrypt_msg-ok :
      (random : ℕ → ℕ → Bytes) (m : IkeMessage) (plain c : Bytes)
      → Container.encode m.payloads ≡ ok plain
      → encrypt
          (block_of_role w role)
          (λ i n. ok (random i n))
          (record { iv = none; padding = none })
          plain
        ≡ ok c
      → 0 < length c
      → length c + get_output_length w.integ < 65532
      → encrypt_msg (λ i n. ok (random i n)) m k role ≡ ok (protected k w role m c)
  unfolding encrypt_msg build_encrypted
  encrypt_msg-ok random m plain c is_plain is_c some_bytes few =
      let zeros_long : length (zeros k w role m c) ≡ get_output_length w.integ =
        length-replicate {A = ℕ} (get_output_length w.integ) 0 in
      let size : length (c ++ zeros k w role m c) ≡ length c + get_output_length w.integ =
        omega (arith, length-append c (zeros k w role m c), zeros_long) in
      required-some unspecified_integrity k.integ_info _ w.is_integ
      ∙ required-some unspecified_encryption k.encr_info _ w.is_encr
      ∙ required-some no_integrity_key k.integ_r _ w.is_hash_r
      ∙ required-some no_encryption_key k.encr_r _ w.is_crypto_r
      ∙ ok_bind (Container.encode m.payloads) _ is_plain
      ∙ ok_bind (encrypt_payload (λ i n. ok (random i n)) plain k role) _
          (encrypt_payload-ok k w role random plain ∙ is_c)
      ∙ ok_bind (Codec.encode (sealed m.ike_header (next k w role m c) (c ++ zeros k w role m c))) _
          (encode-sealed m.ike_header (next k w role m c) (c ++ zeros k w role m c)
            (omega (arith, size)) (omega (arith, size)))
      ∙ ok_bind
          (without_last
            (sealed_front m.ike_header (next k w role m c) (length (c ++ zeros k w role m c))
              ++ (c ++ zeros k w role m c))
            (get_output_length w.integ))
          _
          (ap (λ (b : Bytes). without_last b (get_output_length w.integ))
              (sym (
                append_assoc
                  (sealed_front m.ike_header (next k w role m c) (length (c ++ zeros k w role m c)))
                  c (zeros k w role m c)))
            ∙ without_last-append (signed k w role m c) (zeros k w role m c)
                (get_output_length w.integ) (sym zeros_long))
      ∙ ok_bind (calculate_integrity k role (signed k w role m c)) _
          (calculate_integrity-ok k w role (signed k w role m c))
      ∙ ok_bind (without_last (c ++ zeros k w role m c) (get_output_length w.integ)) _
          (without_last-append c (zeros k w role m c) (get_output_length w.integ) (sym zeros_long))
      ∙ ok_bind (last_of (c ++ zeros k w role m c) (get_output_length w.integ)) _
          (last_of-append c (zeros k w role m c) (get_output_length w.integ) (sym zeros_long))
      ∙ ap (λ (b : Bytes). ok (sealed (sent_header k w role m c) (next k w role m c) (c ++ b)))
          (copy_into-whole (zeros k w role m c) (checksum k w role m c)
            (zeros_long ∙ sym (length-checksum k w role (signed k w role m c))))
