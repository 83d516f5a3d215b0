-- ===== src/Security/ChildSa.antt =====
-- security/security.go: the keys of a Child SA, and the comparison of certificates.
pub mod Keys
pub mod Choice
use ike.Base.{
  Error, List, Option, Result, [], false, given, length, no_deriving_key, no_encryption,
  no_extended_sequence, no_integrity, no_key_stream, none, ok, reject_if, required, some,
  unspecified_encryption, unspecified_pseudorandom, unsupported_diffie_hellman,
  unsupported_encryption, unsupported_integrity, ℕ, ◌*◌, ◌++◌, ◌+◌, ◌==◌, ◌>>=◌, ◌>>◌, ◌∷◌,
}
use ike.Base.Bytes.{Bytes, slice_to}
use ike.Message.Types
use ike.Message.SecurityAssociation.{Proposal, Transform, empty_proposal}
use ike.Security.PrfPlus.{prf_plus}
use ike.Security.Integ
use ike.Security.Integ.{IntegType}
use ike.Security.Encr
use ike.Security.Encr.{EncrAesCbc}
use ike.Security.Dh
use ike.Security.Dh.{DhType}
use ike.Security.Esn
use ike.Security.Esn.{Esn}
use ike.Security.IkeSa.{IkeSaKey, cut, first}

pub record ChildSaKey : Type 0 where
  pub spi : ℕ
  pub dh_info : Option DhType
  pub encr_k_info : Option EncrAesCbc
  pub integ_k_info : Option IntegType
  pub esn_info : Esn
  pub initiator_to_responder_encryption_key : Bytes
  pub responder_to_initiator_encryption_key : Bytes
  pub initiator_to_responder_integrity_key : Bytes
  pub responder_to_initiator_integrity_key : Bytes

-- `new(ChildSAKey)`
abbrev pub empty : ChildSaKey
empty = record {
  spi = 0;
  dh_info = none;
  encr_k_info = none;
  integ_k_info = none;
  esn_info = record { need_esn = false };
  initiator_to_responder_encryption_key = [];
  responder_to_initiator_encryption_key = [];
  initiator_to_responder_integrity_key = [];
  responder_to_initiator_integrity_key = [];
}

-- The list of a transform that need not be there.
abbrev pub listed {ℓ} : {A : Type ℓ} → (A → Transform) → Option A → List Transform
listed to none = []
listed to (some a) = to a ∷ []

unfoldable pub to_proposal : ChildSaKey → Result Proposal
to_proposal k = do
  encr ← given k.encr_k_info
  encr_k_transform ← Encr.to_transform_child_sa encr
  ok (record empty_proposal {
    protocol_id = Types.type_esp;
    diffie_hellman_group = listed Dh.to_transform k.dh_info;
    encryption_algorithm = encr_k_transform ∷ [];
    integrity_algorithm = listed Integ.to_transform_child_sa k.integ_k_info;
    extended_sequence_numbers = Esn.to_transform k.esn_info ∷ [];
  })

-- `if len(l) == 1 { … }`: the one transform must be known; of several, none is taken.
abbrev pub only_one {ℓ} :
    {A : Type ℓ} → Error → (Transform → Option A) → List Transform → Result (Option A)
only_one e known [] = ok none
only_one e known (t ∷ []) = do a ← required e (known t); ok (some a)
only_one e known (t ∷ u ∷ rest) = ok none

unfoldable pub new_child_sa_key_by_proposal : Proposal → Result ChildSaKey
new_child_sa_key_by_proposal p = do
  encr_transform ← first no_encryption p.encryption_algorithm
  integ_transform ← first no_integrity p.integrity_algorithm
  esn_transform ← first no_extended_sequence p.extended_sequence_numbers
  dh ← only_one unsupported_diffie_hellman Dh.decode_transform p.diffie_hellman_group
  encr ← required unsupported_encryption (Encr.decode_transform_child_sa encr_transform)
  integ ← only_one unsupported_integrity Integ.decode_transform_child_sa p.integrity_algorithm
  esn ← Esn.decode_transform esn_transform
  ok (record empty { dh_info = dh; encr_k_info = some encr; integ_k_info = integ; esn_info = esn })

-- `lengthIntegrityKeyIPSec`
abbrev pub integrity_key_length : Option IntegType → ℕ
integrity_key_length none = 0
integrity_key_length (some t) = Integ.get_key_length t

-- The four keys of a stream, behind those that are there.
unfoldable pub append_keys : ℕ → ℕ → ChildSaKey → Bytes → Result ChildSaKey
append_keys e a k stream = do
  (encr_i, s) ← cut stream e
  (integ_i, s) ← cut s a
  (encr_r, s) ← cut s e
  integ_r ← slice_to s a
  ok (record k {
    initiator_to_responder_encryption_key = k.initiator_to_responder_encryption_key ++ encr_i;
    initiator_to_responder_integrity_key = k.initiator_to_responder_integrity_key ++ integ_i;
    responder_to_initiator_encryption_key = k.responder_to_initiator_encryption_key ++ encr_r;
    responder_to_initiator_integrity_key = k.responder_to_initiator_integrity_key ++ integ_r;
  })

unfoldable pub generate_key_for_child_sa : ChildSaKey → IkeSaKey → Bytes → Result ChildSaKey
unfolding append_keys
generate_key_for_child_sa k ike_sa nonce = do
  prf ← required unspecified_pseudorandom ike_sa.prf_info
  encr ← required unspecified_encryption k.encr_k_info
  prf_d ← required no_deriving_key ike_sa.prf_d
  let e = encr.key_length
  let a = integrity_key_length k.integ_k_info
  stream ← prf_plus prf_d nonce ((e + a) * 2)
  reject_if (length stream == 0) no_key_stream
  append_keys e a k stream
