-- ===== src/Security/IkeSa.antt =====
-- security/security.go: the keys of an IKE SA.
pub mod Keys
pub mod Ready
pub mod Derivation
pub mod Agreement
pub mod Initiator
pub mod Refusal
pub mod Choice
use ike.Base.{
  Error, List, Option, Result, [], err, given, length, no_diffie_hellman, no_encryption,
  no_integrity, no_key_stream, no_nonce, no_pseudorandom, no_shared_key, none, ok, reject_if,
  required, some, unspecified_diffie_hellman, unspecified_encryption, unspecified_integrity,
  unspecified_pseudorandom, unsupported_diffie_hellman, unsupported_encryption,
  unsupported_pseudorandom, ℕ, ◌++◌, ◌+◌, ◌==◌, ◌>>=◌, ◌>>◌, ◌∷◌,
}
use ike.Base.Bytes.{Bytes, put_uint64, slice_from, slice_to}
use ike.Message.Types
use ike.Message.SecurityAssociation.{Proposal, Transform, empty_proposal}
use ike.Security.Primitives.{Hash, Primitives}
use ike.Security.Integers.{set_bytes}
use ike.Security.Random.{generate_random_number}
use ike.Security.PrfPlus.{prf_plus}
use ike.Security.Prf
use ike.Security.Prf.{PrfType, prf_init}
use ike.Security.Integ
use ike.Security.Integ.{IntegType, integ_init}
use ike.Security.Encr
use ike.Security.Encr.{EncrAesCbc, IkeCrypto, new_crypto}
use ike.Security.Dh
use ike.Security.Dh.{DhType, get_public_value, get_shared_key}

-- The keys of `IKESAKey`
pub record SaKeys : Type 0 where
  pub sk_d : Bytes
  pub sk_ai : Bytes
  pub sk_ar : Bytes
  pub sk_ei : Bytes
  pub sk_er : Bytes
  pub sk_pi : Bytes
  pub sk_pr : Bytes

pub record IkeSaKey : Type 0 where
  pub dh_info : Option DhType
  pub encr_info : Option EncrAesCbc
  pub integ_info : Option IntegType
  pub prf_info : Option PrfType
  pub prf_d : Option Hash
  pub integ_i : Option Hash
  pub integ_r : Option Hash
  pub encr_i : Option IkeCrypto
  pub encr_r : Option IkeCrypto
  pub prf_i : Option Hash
  pub prf_r : Option Hash
  pub keys : SaKeys

abbrev pub no_keys : SaKeys
no_keys = record {
  sk_d = [];
  sk_ai = [];
  sk_ar = [];
  sk_ei = [];
  sk_er = [];
  sk_pi = [];
  sk_pr = [];
}

-- `new(IKESAKey)`
abbrev pub empty : IkeSaKey
empty = record {
  dh_info = none;
  encr_info = none;
  integ_info = none;
  prf_info = none;
  prf_d = none;
  integ_i = none;
  integ_r = none;
  encr_i = none;
  encr_r = none;
  prf_i = none;
  prf_r = none;
  keys = no_keys;
}

abbrev pub concatenate_nonce_and_spi : Bytes → ℕ → ℕ → Bytes
concatenate_nonce_and_spi nonce spi_initiator spi_responder =
    nonce ++ (put_uint64 spi_initiator ++ put_uint64 spi_responder)

unfoldable pub to_proposal : IkeSaKey → Result Proposal
to_proposal k = do
  dh ← given k.dh_info
  prf ← given k.prf_info
  encr ← given k.encr_info
  encr_transform ← Encr.to_transform encr
  integ ← given k.integ_info
  ok (record empty_proposal {
    protocol_id = Types.type_ike;
    diffie_hellman_group = Dh.to_transform dh ∷ [];
    pseudorandom_function = Prf.to_transform prf ∷ [];
    encryption_algorithm = encr_transform ∷ [];
    integrity_algorithm = Integ.to_transform integ ∷ [];
  })

-- The first of a list of transforms.
abbrev pub first : Error → List Transform → Result Transform
first e [] = err e
first e (t ∷ rest) = ok t

-- The first half of `NewIKESAKey`. Its test behind the integrity algorithm is on `EncrInfo` again.
unfoldable pub choose_algorithms : Proposal → Result IkeSaKey
choose_algorithms p = do
  dh_transform ← first no_diffie_hellman p.diffie_hellman_group
  encr_transform ← first no_encryption p.encryption_algorithm
  integ_transform ← first no_integrity p.integrity_algorithm
  prf_transform ← first no_pseudorandom p.pseudorandom_function
  dh ← required unsupported_diffie_hellman (Dh.decode_transform dh_transform)
  encr ← required unsupported_encryption (Encr.decode_transform encr_transform)
  let integ_info = Integ.decode_transform integ_transform
  prf ← required unsupported_pseudorandom (Prf.decode_transform prf_transform)
  ok (record empty {
    dh_info = some dh;
    encr_info = some encr;
    integ_info = integ_info;
    prf_info = some prf;
  })

-- The local public value and the shared key
unfoldable pub calculate_diffie_hellman_materials :
    List (Option ℕ) → IkeSaKey → Bytes → Result (Bytes × Bytes)
calculate_diffie_hellman_materials draws k peer_public_value = do
  secret ← generate_random_number draws
  dh ← given k.dh_info
  shared_key ← get_shared_key dh secret (set_bytes peer_public_value)
  public_value ← get_public_value dh secret
  ok (public_value, shared_key)

-- `keyStream[:n]` and `keyStream[n:]`
unfoldable pub cut : Bytes → ℕ → Result (Bytes × Bytes)
cut b n = do front ← slice_to b n; rest ← slice_from b n; ok (front, rest)

-- The keys of a stream: of length d for SK_d, SK_pi and SK_pr, a for SK_ai and SK_ar, e for SK_ei and
-- SK_er.
unfoldable pub cut_keys : ℕ → ℕ → ℕ → Bytes → Result SaKeys
unfolding cut
cut_keys d a e stream = do
  (sk_d, s) ← cut stream d
  (sk_ai, s) ← cut s a
  (sk_ar, s) ← cut s a
  (sk_ei, s) ← cut s e
  (sk_er, s) ← cut s e
  (sk_pi, s) ← cut s d
  sk_pr ← slice_to s d
  ok (record {
    sk_d = sk_d;
    sk_ai = sk_ai;
    sk_ar = sk_ar;
    sk_ei = sk_ei;
    sk_er = sk_er;
    sk_pi = sk_pi;
    sk_pr = sk_pr;
  })

abbrev pub total_key_length : ℕ → ℕ → ℕ → ℕ
total_key_length d a e = d + (a + (a + (e + (e + (d + d)))))

-- The key stream of `GenerateKeyForIKESA`; of no bytes it is nil.
unfoldable pub ike_key_stream : Primitives → PrfType → Bytes → Bytes → ℕ → ℕ → ℕ → Result Bytes
ike_key_stream c prf nonce shared_key initiator_spi responder_spi total = do
  let skeyseed = (prf_init c prf nonce).sum shared_key
  let seed = concatenate_nonce_and_spi nonce initiator_spi responder_spi
  stream ← prf_plus (prf_init c prf skeyseed) seed total
  reject_if (length stream == 0) no_key_stream
  ok stream

-- The security objects under the keys.
unfoldable pub set_objects :
    Primitives → EncrAesCbc → IntegType → PrfType → IkeSaKey → SaKeys → Result IkeSaKey
set_objects c encr integ prf k keys = do
  encr_i ← new_crypto c encr keys.sk_ei
  encr_r ← new_crypto c encr keys.sk_er
  ok (record k {
    keys = keys;
    prf_d = some (prf_init c prf keys.sk_d);
    integ_i = integ_init c integ keys.sk_ai;
    integ_r = integ_init c integ keys.sk_ar;
    encr_i = some encr_i;
    encr_r = some encr_r;
    prf_i = some (prf_init c prf keys.sk_pi);
    prf_r = some (prf_init c prf keys.sk_pr);
  })

unfoldable pub generate_key_for_ike_sa :
    Primitives → IkeSaKey → Bytes → Bytes → ℕ → ℕ → Result IkeSaKey
unfolding cut_keys ike_key_stream set_objects
generate_key_for_ike_sa c k nonce shared_key initiator_spi responder_spi = do
  encr ← required unspecified_encryption k.encr_info
  integ ← required unspecified_integrity k.integ_info
  prf ← required unspecified_pseudorandom k.prf_info
  dh ← required unspecified_diffie_hellman k.dh_info
  reject_if (length nonce == 0) no_nonce
  reject_if (length shared_key == 0) no_shared_key
  let d = Prf.get_key_length prf
  let a = Integ.get_key_length integ
  let e = encr.key_length
  stream ←
      ike_key_stream c prf nonce shared_key initiator_spi responder_spi (total_key_length d a e)
  keys ← cut_keys d a e stream
  set_objects c encr integ prf k keys

-- `NewIKESAKey`: the keys and the local public value
unfoldable pub new_ike_sa_key :
    Primitives → List (Option ℕ) → Proposal → Bytes → Bytes → ℕ → ℕ → Result (IkeSaKey × Bytes)
new_ike_sa_key c draws p key_exchange_data nonce initiator_spi responder_spi = do
  k ← choose_algorithms p
  (public_value, shared_key) ← calculate_diffie_hellman_materials draws k key_exchange_data
  ready ← generate_key_for_ike_sa c k nonce shared_key initiator_spi responder_spi
  ok (ready, public_value)
