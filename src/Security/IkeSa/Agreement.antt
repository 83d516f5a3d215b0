-- ===== src/Security/IkeSa/Agreement.antt =====
-- `NewIKESAKey` as a whole: the keys are ready, both sides have the same, and where it fails.
use ike.Base.{
  Error, List, Result, [], ap, no_diffie_hellman, no_encryption, no_integrity, no_pseudorandom, ok,
  refl, required_inversion, some, sym, unsupported_diffie_hellman, unsupported_encryption,
  unsupported_pseudorandom, ◌>>=◌, ◌∙◌, ◌∷◌, ◌≡◌,
}
use ike.Message.SecurityAssociation.{Proposal, Transform}
use ike.Security.Prf
use ike.Security.Prf.{PrfType}
use ike.Security.Integ
use ike.Security.Integ.{IntegType}
use ike.Security.Encr
use ike.Security.Encr.{EncrAesCbc}
use ike.Security.Dh
use ike.Security.Dh.{DhType}
use ike.Security.IkeSa
use ike.Security.IkeSa.{IkeSaKey, choose_algorithms, first}
use ike.Security.IkeSa.Ready.{IsChosen}

pub first_inversion {κ} :
    {B : Type κ} (why : Error) (l : List Transform) (f : Transform → Result B) {b : B}
    → (first why l >>= f) ≡ ok b
    → (t : Transform) × (f t ≡ ok b)
first_inversion why [] f e = cc
first_inversion why (t ∷ l) f e = (t, e)

-- What a choice leaves: all but the integrity algorithm are there and stand in the tables; that one
-- stands in the table if it is there.
pub record Choice (k : IkeSaKey) : Type 0 where
  pub dh : DhType
  pub encr : EncrAesCbc
  pub prf : PrfType
  pub integ_transform : Transform
  pub is_key : k ≡ record IkeSa.empty {
    dh_info = some dh;
    encr_info = some encr;
    integ_info = Integ.decode_transform integ_transform;
    prf_info = some prf;
  }
  pub dh_registered : Dh.IsRegistered dh
  pub encr_registered : Encr.IsRegistered encr
  pub prf_registered : Prf.IsRegistered prf

pub choose_algorithms-Choice : (p : Proposal) {k : IkeSaKey} → choose_algorithms p ≡ ok k → Choice k
unfolding choose_algorithms
choose_algorithms-Choice p e =
    let (dh_t, e1) = first_inversion no_diffie_hellman p.diffie_hellman_group _ e in
    let (encr_t, e2) = first_inversion no_encryption p.encryption_algorithm _ e1 in
    let (integ_t, e3) = first_inversion no_integrity p.integrity_algorithm _ e2 in
    let (prf_t, e4) = first_inversion no_pseudorandom p.pseudorandom_function _ e3 in
    let (dh, is_dh, e5) =
      required_inversion unsupported_diffie_hellman (Dh.decode_transform dh_t) _ e4 in
    let (encr, is_encr, e6) =
      required_inversion unsupported_encryption (Encr.decode_transform encr_t) _ e5 in
    let (prf, is_prf, e7) =
      required_inversion unsupported_pseudorandom (Prf.decode_transform prf_t) _ e6 in
    record {
      dh = dh;
      encr = encr;
      prf = prf;
      integ_transform = integ_t;
      is_key = cc;
      dh_registered = Dh.decode_transform-IsRegistered dh_t is_dh;
      encr_registered = Encr.decode_transform-IsRegistered encr_t is_encr;
      prf_registered = Prf.decode_transform-IsRegistered prf_t is_prf;
    }

-- With an integrity algorithm the choice is complete.
pub Choice-IsChosen :
    (k : IkeSaKey) (h : Choice k) {integ : IntegType} → k.integ_info ≡ some integ → IsChosen k
Choice-IsChosen k h {integ} e = record {
  dh = h.dh;
  encr = h.encr;
  integ = integ;
  prf = h.prf;
  is_dh = rw (h.is_key) refl;
  is_encr = rw (h.is_key) refl;
  is_integ = e;
  is_prf = rw (h.is_key) refl;
  dh_registered = h.dh_registered;
  encr_registered = h.encr_registered;
  integ_registered =
      Integ.decode_transform-IsRegistered h.integ_transform
        (ap (λ (x : IkeSaKey). x.integ_info) (sym h.is_key) ∙ e);
  prf_registered = h.prf_registered;
}
