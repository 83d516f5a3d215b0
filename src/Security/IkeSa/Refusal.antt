-- ===== src/Security/IkeSa/Refusal.antt =====
-- `NewIKESAKey` on an integrity algorithm that it does not know.
use ike.Base.{
  Error, List, Option, Result, [], err, no_diffie_hellman, no_encryption, no_integrity,
  no_pseudorandom, none, ok, ok_bind, refl, required-some, some, unspecified_integrity,
  unsupported_diffie_hellman, unsupported_encryption, unsupported_pseudorandom, ℕ, ◌>>=◌, ◌∙◌, ◌∷◌,
  ◌≡◌,
}
use ike.Base.Bytes.{Bytes}
use ike.Message.SecurityAssociation.{Proposal, Transform}
use ike.Security.Primitives.{Primitives}
use ike.Security.Prf
use ike.Security.Prf.{PrfType}
use ike.Security.Integ
use ike.Security.Encr
use ike.Security.Encr.{EncrAesCbc}
use ike.Security.Dh
use ike.Security.Dh.{DhType}
use ike.Security.IkeSa
use ike.Security.IkeSa.{
  IkeSaKey, calculate_diffie_hellman_materials, choose_algorithms, first, generate_key_for_ike_sa,
  new_ike_sa_key,
}

-- The first transforms of a proposal, for the four algorithms.
pub record Begins (p : Proposal) (dh_t encr_t integ_t prf_t : Transform) : Type 0 where
  pub dh_rest : List Transform
  pub encr_rest : List Transform
  pub integ_rest : List Transform
  pub prf_rest : List Transform
  pub dh_list : p.diffie_hellman_group ≡ dh_t ∷ dh_rest
  pub encr_list : p.encryption_algorithm ≡ encr_t ∷ encr_rest
  pub integ_list : p.integrity_algorithm ≡ integ_t ∷ integ_rest
  pub prf_list : p.pseudorandom_function ≡ prf_t ∷ prf_rest

first-some {κ} :
    {B : Type κ} (why : Error) (l : List Transform) (f : Transform → Result B) {t : Transform}
    {rest : List Transform}
    → l ≡ t ∷ rest
    → (first why l >>= f) ≡ f t
first-some why [] f e = cc
first-some why (x ∷ l) f e = cc

-- The key with all but the integrity algorithm.
abbrev pub without_integrity : DhType → EncrAesCbc → PrfType → IkeSaKey
without_integrity dh encr prf = record IkeSa.empty {
  dh_info = some dh;
  encr_info = some encr;
  prf_info = some prf;
}

chosen_without :
    (p : Proposal) (dh_t encr_t integ_t prf_t : Transform) (dh : DhType) (encr : EncrAesCbc)
    (prf : PrfType)
    → Begins p dh_t encr_t integ_t prf_t
    → Dh.decode_transform dh_t ≡ some dh
    → Encr.decode_transform encr_t ≡ some encr
    → Integ.decode_transform integ_t ≡ none
    → Prf.decode_transform prf_t ≡ some prf
    → choose_algorithms p ≡ ok (without_integrity dh encr prf)
unfolding choose_algorithms
chosen_without p dh_t encr_t integ_t prf_t dh encr prf b is_dh is_encr is_integ is_prf =
    first-some no_diffie_hellman p.diffie_hellman_group _ b.dh_list
    ∙ first-some no_encryption p.encryption_algorithm _ b.encr_list
    ∙ first-some no_integrity p.integrity_algorithm _ b.integ_list
    ∙ first-some no_pseudorandom p.pseudorandom_function _ b.prf_list
    ∙ required-some unsupported_diffie_hellman (Dh.decode_transform dh_t) _ is_dh
    ∙ required-some unsupported_encryption (Encr.decode_transform encr_t) _ is_encr
    ∙ required-some unsupported_pseudorandom (Prf.decode_transform prf_t) _ is_prf
    ∙ rw is_integ refl

-- An integrity algorithm that is not known, first in its list, is not refused where the algorithms are
-- chosen, with the other three known: the Diffie-Hellman values are computed, and if that succeeds,
-- the derivation of the keys fails with the error that no integrity algorithm was specified.
pub unsupported_integrity_late :
    (c : Primitives) (draws : List (Option ℕ)) (p : Proposal) (peer nonce : Bytes) (i r : ℕ)
    (dh_t encr_t integ_t prf_t : Transform) (dh : DhType) (encr : EncrAesCbc) (prf : PrfType)
    → Begins p dh_t encr_t integ_t prf_t
    → Dh.decode_transform dh_t ≡ some dh
    → Encr.decode_transform encr_t ≡ some encr
    → Integ.decode_transform integ_t ≡ none
    → Prf.decode_transform prf_t ≡ some prf
    → (choose_algorithms p ≡ ok (without_integrity dh encr prf))
      × (new_ike_sa_key c draws p peer nonce i r ≡ (
          calculate_diffie_hellman_materials draws (without_integrity dh encr prf) peer
          >>= λ values. err unspecified_integrity))
unfolding new_ike_sa_key generate_key_for_ike_sa
unsupported_integrity_late c draws p peer nonce i r dh_t encr_t integ_t prf_t dh encr prf b is_dh
      is_encr is_integ is_prf =
    let chosen =
      chosen_without p dh_t encr_t integ_t prf_t dh encr prf b is_dh is_encr is_integ is_prf in
    (chosen, ok_bind (choose_algorithms p) _ chosen ∙ refl)
