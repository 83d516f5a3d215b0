-- ===== src/Security/IkeSa/Derivation.antt =====
-- `GenerateKeyForIKESA` on chosen algorithms: it succeeds, and all objects are there.
use native.Mathlib.Nat.{mul-le-mul_left}
use ike.Base.{
  arith, false, length, none, ok, past, refl, required-some, some, take, ℕ, ◌*◌, ◌<◌, ◌==◌, ◌∙◌,
  ◌≡◌, ◌≤◌,
}
use ike.Base.Bytes.{Bytes}
use ike.Security.Primitives.{Hash, Primitives}
use ike.Security.PrfPlus.Reference.{blocks, prf_plus-reference}
use ike.Security.Prf
use ike.Security.Prf.{PrfType, prf_init}
use ike.Security.Integ
use ike.Security.Integ.{IntegType, integ_init}
use ike.Security.Encr.{EncrAesCbc}
use ike.Security.IkeSa.Ready.{
  IsChosen, IsReady, crypto_ready, integ_length, integ_ready, prf_lengths,
}
use ike.Security.IkeSa.{
  IkeSaKey, SaKeys, concatenate_nonce_and_spi, cut_keys, generate_key_for_ike_sa, ike_key_stream,
  set_objects, total_key_length,
}
use ike.Security.IkeSa.Keys.{KeyLengths, cut_keys-ok, joined}

-- The key lengths of the chosen algorithms, and their sum.
abbrev pub key_total : PrfType → IntegType → EncrAesCbc → ℕ
key_total prf integ encr =
    total_key_length (Prf.get_key_length prf) (Integ.get_key_length integ) encr.key_length

-- The pseudorandom function under SKEYSEED.
abbrev pub seeded : Primitives → PrfType → Bytes → Bytes → Hash
seeded c prf nonce shared_key = prf_init c prf ((prf_init c prf nonce).sum shared_key)

-- The stream has the length that was asked for.
stream_ready :
    (c : Primitives) (prf : PrfType) (nonce shared_key : Bytes) (i r total : ℕ)
    → Prf.IsRegistered prf
    → 0 < total
    → total ≤ 224
    → (ike_key_stream c prf nonce shared_key i r total
        ≡ ok (
            take total
              (blocks (seeded c prf nonce shared_key) (concatenate_nonce_and_spi nonce i r) 255)))
      × (length (
            take total
              (blocks (seeded c prf nonce shared_key) (concatenate_nonce_and_spi nonce i r) 255))
          ≡ total)
unfolding ike_key_stream
stream_ready c prf nonce shared_key i r total known some_bytes few =
    let h = seeded c prf nonce shared_key in
    let seed = concatenate_nonce_and_spi nonce i r in
    let sizes = prf_lengths c prf ((prf_init c prf nonce).sum shared_key) known in
    let room : 255 * 20 ≤ 255 * h.size = mul-le-mul_left 255 (sizes.0) in
    let (e, l) = prf_plus-reference h seed total (omega (arith, sizes.0)) (omega (arith, room)) in
    (
      rw e (
          let full : (length (take total (blocks h seed 255)) == 0) ≡ false = ground (arith, l) in
          rw full refl),
      l,
    )

-- The record with these keys and, under each of them, the object that is named after it.
abbrev pub ready_key : Primitives → EncrAesCbc → IntegType → PrfType → IkeSaKey → SaKeys → IkeSaKey
ready_key c encr integ prf k keys = record k {
  keys = keys;
  prf_d = some (prf_init c prf keys.sk_d);
  integ_i = integ_init c integ keys.sk_ai;
  integ_r = integ_init c integ keys.sk_ar;
  encr_i =
      some (record { block = c.aes keys.sk_ei; settings = record { iv = none; padding = none } });
  encr_r =
      some (record { block = c.aes keys.sk_er; settings = record { iv = none; padding = none } });
  prf_i = some (prf_init c prf keys.sk_pi);
  prf_r = some (prf_init c prf keys.sk_pr);
}

-- What is derived from a nonce, a shared key and two SPIs.
pub record Derived (c : Primitives) (k : IkeSaKey) (chosen : IsChosen k) (nonce shared_key : Bytes)
    (i r : ℕ) : Type 0 where
  pub ready : IkeSaKey
  pub is_derived : generate_key_for_ike_sa c k nonce shared_key i r ≡ ok ready
  pub is_ready : IsReady ready
  pub objects : ready ≡ ready_key c chosen.encr chosen.integ chosen.prf k ready.keys
  pub key_lengths :
      KeyLengths
        (Prf.get_key_length chosen.prf)
        (Integ.get_key_length chosen.integ)
        chosen.encr.key_length
        ready.keys
  pub is_stream :
      joined ready.keys
      ≡ take
          (key_total chosen.prf chosen.integ chosen.encr)
          (blocks (seeded c chosen.prf nonce shared_key) (concatenate_nonce_and_spi nonce i r) 255)

-- The objects under keys of the right lengths.
objects_ready :
    (c : Primitives) (k : IkeSaKey) (w : IsChosen k) (keys : SaKeys)
    → KeyLengths (Prf.get_key_length w.prf) (Integ.get_key_length w.integ) w.encr.key_length keys
    → (ready : IkeSaKey) × (set_objects c w.encr w.integ w.prf k keys ≡ ok ready)
      × IsReady ready
      × (ready.keys ≡ keys)
      × (ready ≡ ready_key c w.encr w.integ w.prf k ready.keys)
unfolding set_objects
objects_ready c k w keys l =
    let (hash_i, is_i, out_i, out, few) =
      integ_ready c w.integ keys.sk_ai w.integ_registered l.length_ai in
    let (hash_r, is_r, out_r, _, _) =
      integ_ready c w.integ keys.sk_ar w.integ_registered l.length_ar in
    (
      ready_key c w.encr w.integ w.prf k keys,
      rw (crypto_ready c w.encr keys.sk_ei w.encr_registered l.length_ei)
          (rw (crypto_ready c w.encr keys.sk_er w.encr_registered l.length_er) refl),
      record {
        encr = w.encr;
        integ = w.integ;
        hash_i = hash_i;
        hash_r = hash_r;
        block_i = c.aes keys.sk_ei;
        block_r = c.aes keys.sk_er;
        is_encr = w.is_encr;
        is_integ = w.is_integ;
        is_hash_i = is_i;
        is_hash_r = is_r;
        is_crypto_i = refl;
        is_crypto_r = refl;
        output_i = out_i;
        output_r = out_r;
        output_some = out;
        output_few = few;
      },
      refl,
      refl,
    )

-- The steps of the derivation.
derivation :
    (c : Primitives) (k : IkeSaKey) (w : IsChosen k) (nonce shared_key stream : Bytes) (i r : ℕ)
    (keys : SaKeys) {ready : IkeSaKey}
    → (length nonce == 0) ≡ false
    → (length shared_key == 0) ≡ false
    → ike_key_stream c w.prf nonce shared_key i r (key_total w.prf w.integ w.encr) ≡ ok stream
    → cut_keys (Prf.get_key_length w.prf) (Integ.get_key_length w.integ) w.encr.key_length stream
      ≡ ok keys
    → set_objects c w.encr w.integ w.prf k keys ≡ ok ready
    → generate_key_for_ike_sa c k nonce shared_key i r ≡ ok ready
unfolding generate_key_for_ike_sa
derivation c k w nonce shared_key stream i r keys n s is_stream is_keys is_ready =
    required-some _ _ _ w.is_encr
    ∙ required-some _ _ _ w.is_integ
    ∙ required-some _ _ _ w.is_prf
    ∙ required-some _ _ _ w.is_dh
    ∙ past _ _ _ n
    ∙ past _ _ _ s
    ∙ rw is_stream (rw is_keys is_ready)

-- With algorithms of the tables, a nonce and a shared key, the keys of an IKE SA are derived: all
-- objects that messages need are there, each under the key that is meant for it, the keys have the
-- lengths of the algorithms, and one after the other they are the key stream of RFC 7296 for the seed
-- of nonce and SPIs, under the key that the nonce and the shared key give.
pub generate_key-Derived :
    (c : Primitives) (k : IkeSaKey) (w : IsChosen k) (nonce shared_key : Bytes) (i r : ℕ)
    → 0 < length nonce
    → 0 < length shared_key
    → Derived c k w nonce shared_key i r
generate_key-Derived c k w nonce shared_key i r some_nonce some_key =
    let d = Prf.get_key_length w.prf in
    let a = Integ.get_key_length w.integ in
    let (big, big_d, few_d) = prf_lengths c w.prf nonce w.prf_registered in
    let few_a = integ_length w.integ w.integ_registered in
    let few_e : w.encr.key_length ≤ 32 = ground (arith, w.encr_registered) in
    let (is_stream, l) =
      stream_ready c w.prf nonce shared_key i r (key_total w.prf w.integ w.encr) w.prf_registered
        (omega (arith, big_d)) (omega (arith, few_d, few_a, few_e)) in
    let stream =
      take (key_total w.prf w.integ w.encr)
        (blocks (seeded c w.prf nonce shared_key) (concatenate_nonce_and_spi nonce i r) 255) in
    let (keys, is_keys, whole, lengths) = cut_keys-ok d a w.encr.key_length stream l in
    let (ready, is_ready_key, is_ready, same, objects) = objects_ready c k w keys lengths in
    let nonce_there : (length nonce == 0) ≡ false = ground arith in
    let key_there : (length shared_key == 0) ≡ false = ground arith in
    record {
      ready = ready;
      is_derived =
          derivation c k w nonce shared_key stream i r keys nonce_there key_there is_stream is_keys
            is_ready_key;
      is_ready = is_ready;
      objects = objects;
      key_lengths = rw same lengths;
      is_stream = rw same whole;
    }
