-- ===== src/Security/ChildSa/Keys.antt =====
-- The keys of a Child SA: the key stream of RFC 7296, cut in order.
use ike.Base.{
  arith, false, length, no_deriving_key, no_key_stream, ok, ok_bind, past, refl, required-some,
  some, take, unspecified_encryption, unspecified_pseudorandom, ℕ, ◌*◌, ◌++◌, ◌+◌, ◌<◌, ◌==◌, ◌∙◌,
  ◌≡◌, ◌≤◌,
}
use ike.Base.Bytes.{Bytes, slice_to}
use ike.Security.Primitives.{Hash}
use ike.Security.PrfPlus.{prf_plus}
use ike.Security.PrfPlus.Reference.{blocks, prf_plus-reference}
use ike.Security.Encr.{EncrAesCbc}
use ike.Security.Prf.{PrfType}
use ike.Security.IkeSa.{IkeSaKey, cut}
use ike.Security.IkeSa.Keys.{cut_at, slice_to_all}
use ike.Security.ChildSa.{ChildSaKey, append_keys, generate_key_for_child_sa, integrity_key_length}

-- The keys that were added, one after the other.
pub record Added (k out : ChildSaKey) (e a : ℕ) (stream : Bytes) : Type 0 where
  pub encr_i : Bytes
  pub integ_i : Bytes
  pub encr_r : Bytes
  pub integ_r : Bytes
  pub is_out : out ≡ record k {
    initiator_to_responder_encryption_key = k.initiator_to_responder_encryption_key ++ encr_i;
    initiator_to_responder_integrity_key = k.initiator_to_responder_integrity_key ++ integ_i;
    responder_to_initiator_encryption_key = k.responder_to_initiator_encryption_key ++ encr_r;
    responder_to_initiator_integrity_key = k.responder_to_initiator_integrity_key ++ integ_r;
  }
  pub whole : encr_i ++ (integ_i ++ (encr_r ++ integ_r)) ≡ stream
  pub encr_i_length : length encr_i ≡ e
  pub integ_i_length : length integ_i ≡ a
  pub encr_r_length : length encr_r ≡ e
  pub integ_r_length : length integ_r ≡ a

append_keys-steps :
    (e a : ℕ) (k : ChildSaKey) (b b1 b2 b3 f1 f2 f3 f4 : Bytes)
    → cut b e ≡ ok (f1, b1)
    → cut b1 a ≡ ok (f2, b2)
    → cut b2 e ≡ ok (f3, b3)
    → slice_to b3 a ≡ ok f4
    → append_keys e a k b
      ≡ ok (record k {
        initiator_to_responder_encryption_key = k.initiator_to_responder_encryption_key ++ f1;
        initiator_to_responder_integrity_key = k.initiator_to_responder_integrity_key ++ f2;
        responder_to_initiator_encryption_key = k.responder_to_initiator_encryption_key ++ f3;
        responder_to_initiator_integrity_key = k.responder_to_initiator_integrity_key ++ f4;
      })
unfolding append_keys
append_keys-steps e a k b b1 b2 b3 f1 f2 f3 f4 e1 e2 e3 e4 = rw e1 (rw e2 (rw e3 (rw e4 refl)))

append_keys-ok :
    (e a : ℕ) (k : ChildSaKey) (stream : Bytes)
    → length stream ≡ (e + a) * 2
    → (out : ChildSaKey) × (append_keys e a k stream ≡ ok out) × Added k out e a stream
append_keys-ok e a k stream h =
    let c1 = cut_at stream e (omega (arith, h)) in
    let c2 = cut_at c1.rest a (omega (arith, h, c1.rest_length)) in
    let c3 = cut_at c2.rest e (omega (arith, h, c1.rest_length, c2.rest_length)) in
    let last : length c3.rest ≡ a =
      omega (arith, h, c1.rest_length, c2.rest_length, c3.rest_length) in
    (
      _,
      append_keys-steps e a k stream c1.rest c2.rest c3.rest c1.front c2.front c3.front c3.rest
          c1.is_cut c2.is_cut c3.is_cut (slice_to_all c3.rest a last),
      record {
        encr_i = c1.front;
        integ_i = c2.front;
        encr_r = c3.front;
        integ_r = c3.rest;
        is_out = refl;
        whole = rw (c3.whole) (rw (c2.whole) (c1.whole));
        encr_i_length = c1.front_length;
        integ_i_length = c2.front_length;
        encr_r_length = c3.front_length;
        integ_r_length = last;
      },
    )

-- With a pseudorandom function and its key in the IKE SA and a cipher in the Child SA, where all keys
-- together are at most 255 blocks, four keys of the algorithms' lengths are added, each behind those
-- that are there: for initiator to responder the encryption and the integrity key, then the two for the
-- other direction. Together they are the key stream of RFC 7296 for the nonces.
pub generate_key_for_child_sa-Added :
    (k : ChildSaKey) (ike_sa : IkeSaKey) (nonce : Bytes) (prf : PrfType) (encr : EncrAesCbc)
    (h : Hash)
    → ike_sa.prf_info ≡ some prf
    → ike_sa.prf_d ≡ some h
    → k.encr_k_info ≡ some encr
    → 0 < h.size
    → 0 < encr.key_length
    → (encr.key_length + integrity_key_length k.integ_k_info) * 2 ≤ 255 * h.size
    → (out : ChildSaKey) × (generate_key_for_child_sa k ike_sa nonce ≡ ok out)
      × Added k out encr.key_length
          (integrity_key_length k.integ_k_info)
          (take ((encr.key_length + integrity_key_length k.integ_k_info) * 2) (blocks h nonce 255))
unfolding generate_key_for_child_sa
generate_key_for_child_sa-Added k ike_sa nonce prf encr h is_prf is_h is_encr some_size some_key
      few =
    let e = encr.key_length in
    let a = integrity_key_length k.integ_k_info in
    let stream = take ((e + a) * 2) (blocks h nonce 255) in
    let (is_stream, l) = prf_plus-reference h nonce ((e + a) * 2) some_size few in
    let (out, is_out, added) = append_keys-ok e a k stream l in
    let there : (length stream == 0) ≡ false = ground (arith, l) in
    (
      out,
      required-some unspecified_pseudorandom ike_sa.prf_info _ is_prf
          ∙ required-some unspecified_encryption k.encr_k_info _ is_encr
          ∙ required-some no_deriving_key ike_sa.prf_d _ is_h
          ∙ ok_bind (prf_plus h nonce ((e + a) * 2)) _ is_stream
          ∙ past (length stream == 0) no_key_stream _ there
          ∙ is_out,
      added,
    )
