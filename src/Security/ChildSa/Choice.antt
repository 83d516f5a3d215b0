-- ===== src/Security/ChildSa/Choice.antt =====
-- The choice of a Child SA's algorithms from a proposal.
use ike.Base.Bytes.{Bytes}
use ike.Security.Primitives.{Hash}
use ike.Security.Prf.{PrfType}
use ike.Security.IkeSa.{IkeSaKey}
use ike.Security.ChildSa.Keys.{generate_key_for_child_sa-Added}
use ike.Base.{
  List, Option, Option-cases, Result, [], ap, arith, bind_inversion, err, given-some, inl, inr,
  length, nil_of_length, no_encryption, no_extended_sequence, no_integrity, none, ok, refl,
  required_inversion, some, subst, sym, unsupported_diffie_hellman, unsupported_encryption,
  unsupported_integrity, ◌<◌, ◌∙◌, ◌∷◌, ◌≡◌, ◌≤◌,
}
use ike.Message.Types
use ike.Message.SecurityAssociation.{Proposal, Transform, empty_proposal}
use ike.Security.Integ
use ike.Security.Integ.{IntegType}
use ike.Security.Encr
use ike.Security.Encr.{EncrAesCbc, sent, sent_transform}
use ike.Security.Dh
use ike.Security.Dh.{DhType}
use ike.Security.Esn
use ike.Security.Esn.{Esn}
use ike.Security.IkeSa.Agreement.{first_inversion}
use ike.Security.ChildSa
use ike.Security.ChildSa.{
  ChildSaKey, generate_key_for_child_sa, listed, new_child_sa_key_by_proposal, only_one,
}

-- None, or an algorithm of the table.
abbrev pub Listed {ℓ} : {A : Type ℓ} → (A → Type 0) → Option A → Type 0
Listed P none = Unit
Listed P (some a) = P a

-- The algorithms stand in the tables.
pub record IsChosen (k : ChildSaKey) : Type 0 where
  pub encr : EncrAesCbc
  pub is_encr : k.encr_k_info ≡ some encr
  pub encr_registered : Encr.IsRegistered encr
  pub integ_registered : Listed Integ.IsRegistered k.integ_k_info
  pub dh_registered : Listed Dh.IsRegistered k.dh_info

-- The algorithms alone, with no SPI and no keys.
abbrev pub algorithms : ChildSaKey → ChildSaKey
algorithms k = record ChildSa.empty {
  dh_info = k.dh_info;
  encr_k_info = k.encr_k_info;
  integ_k_info = k.integ_k_info;
  esn_info = k.esn_info;
}

-- What the other side makes of the proposal.
abbrev pub answer : ChildSaKey → Option IntegType → Result ChildSaKey
answer k none = err no_integrity
answer k (some t) = ok (algorithms k)

dh_again :
    (o : Option DhType)
    → Listed Dh.IsRegistered o
    → only_one unsupported_diffie_hellman Dh.decode_transform (listed Dh.to_transform o) ≡ ok o
dh_again none h = refl
dh_again (some t) h = rw (Dh.decode_transform-to_transform t h) refl

proposed : ChildSaKey → EncrAesCbc → Proposal
proposed k encr = record empty_proposal {
  protocol_id = Types.type_esp;
  diffie_hellman_group = listed Dh.to_transform k.dh_info;
  encryption_algorithm = sent_transform encr ∷ [];
  integrity_algorithm = listed Integ.to_transform_child_sa k.integ_k_info;
  extended_sequence_numbers = Esn.to_transform k.esn_info ∷ [];
}

proposes : (k : ChildSaKey) (w : IsChosen k) → ChildSa.to_proposal k ≡ ok (proposed k w.encr)
unfolding ChildSa.to_proposal proposed
proposes k w =
    given-some k.encr_k_info _ w.is_encr
    ∙ rw ((sent w.encr w.encr_registered).is_sent_child_sa) refl

answers_none :
    (k : ChildSaKey) (encr : EncrAesCbc)
    → k.integ_k_info ≡ none
    → new_child_sa_key_by_proposal (proposed k encr) ≡ err no_integrity
unfolding new_child_sa_key_by_proposal proposed
answers_none k encr e = rw e refl

answers_some :
    (k : ChildSaKey) (w : IsChosen k) (t : IntegType)
    → k.integ_k_info ≡ some t
    → Integ.IsRegistered t
    → new_child_sa_key_by_proposal (proposed k w.encr) ≡ ok (algorithms k)
unfolding new_child_sa_key_by_proposal proposed
answers_some k w t e h = rw e (
    rw (dh_again k.dh_info w.dh_registered) (
      rw ((sent w.encr w.encr_registered).back_child_sa) (
        rw (Integ.decode_child_sa-to_child_sa t h)
          (rw (Esn.decode_transform-to_transform k.esn_info) (rw (w.is_encr) refl)))))

-- From what is proposed for a Child SA with algorithms of the tables, the other side takes the same
-- algorithms if there is one for integrity; a proposal without one, which can be made, is refused.
pub child_negotiation :
    (k : ChildSaKey)
    → IsChosen k
    → (p : Proposal) × (ChildSa.to_proposal k ≡ ok p)
      × (new_child_sa_key_by_proposal p ≡ answer k k.integ_k_info)
child_negotiation k w = (
  proposed k w.encr,
  proposes k w,
  elim (Option-cases k.integ_k_info) [
    | inl missing ↦ answers_none k w.encr missing ∙ ap (answer k) (sym missing)
    | inr (t, found) ↦
        answers_some k w t found (subst (Listed Integ.IsRegistered) found w.integ_registered)
        ∙ ap (answer k) (sym found)
  ],
)

same_child : {x y : ChildSaKey} → ok x ≡ ok y → x ≡ y
same_child e = cc

several_none :
    (l : List Transform) (t u : Transform) (rest : List Transform) {o : Option IntegType}
    → l ≡ t ∷ u ∷ rest
    → only_one unsupported_integrity Integ.decode_transform_child_sa l ≡ ok o
    → o ≡ none
several_none [] t u rest e h = cc
several_none (x ∷ []) t u rest e h = cc
several_none (x ∷ y ∷ l) t u rest e h = cc

-- What is chosen from a proposal with several integrity algorithms: a cipher of the table, nothing for
-- integrity, and no keys.
record Unprotected (k : ChildSaKey) : Type 0 where
  encr : EncrAesCbc
  dh : Option DhType
  esn : Esn
  registered : Encr.IsRegistered encr
  is_key : k ≡ record ChildSa.empty { dh_info = dh; encr_k_info = some encr; esn_info = esn }

several-Unprotected :
    (p : Proposal) (t u : Transform) (rest : List Transform) {k : ChildSaKey}
    → p.integrity_algorithm ≡ t ∷ u ∷ rest
    → new_child_sa_key_by_proposal p ≡ ok k
    → Unprotected k
unfolding new_child_sa_key_by_proposal
several-Unprotected p t u rest {k} e h =
    let (encr_t, h1) = first_inversion no_encryption p.encryption_algorithm _ h in
    let (integ_t, h2) = first_inversion no_integrity p.integrity_algorithm _ h1 in
    let (esn_t, h3) = first_inversion no_extended_sequence p.extended_sequence_numbers _ h2 in
    let (dh, _, h4) =
      bind_inversion
        (only_one unsupported_diffie_hellman Dh.decode_transform p.diffie_hellman_group) _ h3 in
    let (encr, is_encr, h5) =
      required_inversion unsupported_encryption (Encr.decode_transform_child_sa encr_t) _ h4 in
    let (integ, is_integ, h6) =
      bind_inversion
        (only_one unsupported_integrity Integ.decode_transform_child_sa p.integrity_algorithm) _
        h5 in
    let (esn, _, h7) = bind_inversion (Esn.decode_transform esn_t) _ h6 in
    let gone : integ ≡ none = several_none p.integrity_algorithm t u rest e is_integ in
    record {
      encr = encr;
      dh = dh;
      esn = esn;
      registered = Encr.decode_transform_child_sa-IsRegistered encr_t is_encr;
      is_key =
          same_child (sym h7)
          ∙ ap
              (λ (o : Option IntegType). record ChildSa.empty {
                dh_info = dh;
                encr_k_info = some encr;
                integ_k_info = o;
                esn_info = esn;
              })
              gone;
    }

-- A Child SA without integrity, and its keys.
abbrev unprotected : EncrAesCbc → Option DhType → Esn → ChildSaKey
unprotected encr dh esn = record ChildSa.empty {
  dh_info = dh;
  encr_k_info = some encr;
  esn_info = esn;
}

abbrev UnprotectedKeys : ChildSaKey → IkeSaKey → Bytes → Type 0
UnprotectedKeys k ike_sa nonce =
    (k.integ_k_info ≡ none)
    × (out : ChildSaKey) × (generate_key_for_child_sa k ike_sa nonce ≡ ok out)
    × (0 < length out.initiator_to_responder_encryption_key)
    × (0 < length out.responder_to_initiator_encryption_key)
    × (out.initiator_to_responder_integrity_key ≡ [])
    × (out.responder_to_initiator_integrity_key ≡ [])

table_length :
    (encr : EncrAesCbc) → Encr.IsRegistered encr → (0 < encr.key_length) × (encr.key_length ≤ 32)
table_length encr h = (ground (arith, h), ground (arith, h))

unprotected_keys :
    (encr : EncrAesCbc) (dh : Option DhType) (esn : Esn) (ike_sa : IkeSaKey) (nonce : Bytes)
    (prf : PrfType) (h : Hash)
    → Encr.IsRegistered encr
    → ike_sa.prf_info ≡ some prf
    → ike_sa.prf_d ≡ some h
    → 0 < h.size
    → UnprotectedKeys (unprotected encr dh esn) ike_sa nonce
unprotected_keys encr dh esn ike_sa nonce prf h known is_prf is_h some_size =
    let (some_key, few) = table_length encr known in
    let (out, is_out, added) =
      generate_key_for_child_sa-Added (unprotected encr dh esn) ike_sa nonce prf encr h is_prf is_h
        refl some_size some_key (omega (arith, few, some_size)) in
    let no_i : added.integ_i ≡ [] = nil_of_length added.integ_i added.integ_i_length in
    let no_r : added.integ_r ≡ [] = nil_of_length added.integ_r added.integ_r_length in
    (
      refl,
      out,
      is_out,
      rw added.is_out (omega (arith, added.encr_i_length, some_key)),
      rw added.is_out (omega (arith, added.encr_r_length, some_key)),
      rw added.is_out no_i,
      rw added.is_out no_r,
    )

-- Of two or more integrity algorithms in a proposal none is taken, known or not: a Child SA that comes
-- out has no integrity algorithm; and keys are generated for it under an IKE SA with a pseudorandom
-- function and its key, a hash of at least one byte: encryption keys for both directions, but no byte
-- of an integrity key.
pub several_integrity :
    (p : Proposal) (t u : Transform) (rest : List Transform) {k : ChildSaKey} (ike_sa : IkeSaKey)
    (nonce : Bytes) (prf : PrfType) (h : Hash)
    → p.integrity_algorithm ≡ t ∷ u ∷ rest
    → new_child_sa_key_by_proposal p ≡ ok k
    → ike_sa.prf_info ≡ some prf
    → ike_sa.prf_d ≡ some h
    → 0 < h.size
    → (k.integ_k_info ≡ none)
      × (out : ChildSaKey) × (generate_key_for_child_sa k ike_sa nonce ≡ ok out)
      × (0 < length out.initiator_to_responder_encryption_key)
      × (0 < length out.responder_to_initiator_encryption_key)
      × (out.initiator_to_responder_integrity_key ≡ [])
      × (out.responder_to_initiator_integrity_key ≡ [])
several_integrity p t u rest {k} ike_sa nonce prf h several made is_prf is_h some_size =
    let w = several-Unprotected p t u rest several made in
    subst (λ (y : ChildSaKey). UnprotectedKeys y ike_sa nonce) (sym w.is_key)
      (unprotected_keys w.encr w.dh w.esn ike_sa nonce prf h w.registered is_prf is_h some_size)
