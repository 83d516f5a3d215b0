-- ===== src/Security/IkeSa/Choice.antt =====
-- The choice of algorithms: what one side proposes, the other chooses.
use ike.Base.{[], arith, given-some, inl, inr, map, ok, refl, ℕ, ◌<◌, ◌^◌, ◌∙◌, ◌∷◌, ◌≡◌}
use ike.Base.Bytes.{Bytes}
use ike.Message.Types
use ike.Message.SecurityAssociation.{Proposal, SecurityAssociation, Transform, empty_proposal}
use ike.Message.SecurityAssociation
use ike.Message.SecurityAssociation.Transforms.{TransformFits, Tv}
use ike.Message.SecurityAssociation.RoundTrip.{AllProposalsFit, association_round_trip}
use ike.Message.SecurityAssociation.Reader
use ike.Message.SecurityAssociation.Proposals.{forget_proposal}
use ike.Security.Registry.{plain}
use ike.Security.Prf
use ike.Security.Integ
use ike.Security.Encr.{EncrAesCbc, sent, sent_transform}
use ike.Security.Dh
use ike.Security.IkeSa
use ike.Security.IkeSa.{IkeSaKey, choose_algorithms, to_proposal}
use ike.Security.IkeSa.Ready.{IsChosen}

-- The algorithms alone, with no keys.
abbrev pub algorithms : IkeSaKey → IkeSaKey
algorithms k = record IkeSa.empty {
  dh_info = k.dh_info;
  encr_info = k.encr_info;
  integ_info = k.integ_info;
  prf_info = k.prf_info;
}

-- The proposal for four transforms.
abbrev proposal_of : Transform → Transform → Transform → Transform → Proposal
proposal_of dh prf encr integ = record empty_proposal {
  protocol_id = Types.type_ike;
  diffie_hellman_group = dh ∷ [];
  pseudorandom_function = prf ∷ [];
  encryption_algorithm = encr ∷ [];
  integrity_algorithm = integ ∷ [];
}

abbrev proposed : (k : IkeSaKey) → IsChosen k → Proposal
proposed k w =
    proposal_of (Dh.to_transform w.dh) (Prf.to_transform w.prf) (sent_transform w.encr)
      (Integ.to_transform w.integ)

proposes : (k : IkeSaKey) (w : IsChosen k) → to_proposal k ≡ ok (proposed k w)
unfolding to_proposal
proposes k w =
    given-some k.dh_info _ w.is_dh
    ∙ given-some k.prf_info _ w.is_prf
    ∙ given-some k.encr_info _ w.is_encr
    ∙ rw ((sent w.encr w.encr_registered).is_sent) (given-some k.integ_info _ w.is_integ)

chooses : (k : IkeSaKey) (w : IsChosen k) → choose_algorithms (proposed k w) ≡ ok (algorithms k)
unfolding choose_algorithms
chooses k w = rw (Dh.decode_transform-to_transform w.dh w.dh_registered) (
    rw ((sent w.encr w.encr_registered).back) (
      rw (Integ.decode_transform-to_transform w.integ w.integ_registered) (
        rw (Prf.decode_transform-to_transform w.prf w.prf_registered)
          (rw (w.is_dh, w.is_encr, w.is_integ, w.is_prf) refl))))

-- The payload of a proposal with three transforms that have no attribute, and a cipher.
payload_of : ℕ → ℕ → EncrAesCbc → ℕ → SecurityAssociation
payload_of dh prf encr integ = record {
  proposals = proposal_of (plain 4 dh) (plain 2 prf) (sent_transform encr) (plain 3 integ) ∷ [];
}

plain-fits : (kind id : ℕ) → id < 2 ^ 16 → TransformFits (plain kind id)
plain-fits kind id h =
    inl (record { id = h; absent = refl; no_format = refl; no_type = refl; no_value = refl })

payload_fits :
    (dh prf : ℕ) (encr : EncrAesCbc) (integ : ℕ)
    → dh < 2 ^ 16
    → prf < 2 ^ 16
    → Tv (sent_transform encr)
    → integ < 2 ^ 16
    → AllProposalsFit (payload_of dh prf encr integ).proposals
unfolding payload_of
payload_fits dh prf encr integ hd hp he hi = (
  record {
    spi_fits = omega arith;
    encr = ((refl, inr (inl he)), tt);
    prf = ((refl, plain-fits 2 prf hp), tt);
    integ = ((refl, plain-fits 3 integ hi), tt);
    dh = ((refl, plain-fits 4 dh hd), tt);
    esn = tt;
  },
  tt,
)

written :
    (dh prf : ℕ) (encr : EncrAesCbc) (integ : ℕ)
    → (b : Bytes) × (SecurityAssociation.marshal (payload_of dh prf encr integ) ≡ ok b)
unfolding payload_of SecurityAssociation.marshal SecurityAssociation.append_proposals
    SecurityAssociation.proposal_bytes SecurityAssociation.append_transforms
    SecurityAssociation.transform_bytes SecurityAssociation.attribute_bytes
written dh prf encr integ = (_, refl)

-- The proposal with the transforms written out.
plain_proposal :
    (k : IkeSaKey) (w : IsChosen k)
    → record { proposals = proposed k w ∷ [] }
      ≡ payload_of
          (Dh.transform_id w.dh)
          (Prf.transform_id w.prf)
          w.encr
          (Integ.transform_id w.integ)
unfolding payload_of
plain_proposal k w =
    rw (Dh.to_transform-plain w.dh).0
      (rw (Prf.to_transform-plain w.prf).0 (rw (Integ.to_transform-plain w.integ).0 refl))

payload_kept :
    (dh prf : ℕ) (encr : EncrAesCbc) (integ : ℕ)
    → ok (record { proposals = map forget_proposal (payload_of dh prf encr integ).proposals })
      ≡ ok (payload_of dh prf encr integ)
unfolding payload_of
payload_kept dh prf encr integ = refl

-- What is proposed with algorithms of the tables arrives as it was sent, in the only proposal of a
-- Security Association, and the other side chooses from it the same algorithms.
pub negotiation :
    (k : IkeSaKey)
    → IsChosen k
    → (p : Proposal) × (b : Bytes) × (to_proposal k ≡ ok p)
      × (SecurityAssociation.marshal (record { proposals = p ∷ [] }) ≡ ok b)
      × (Reader.unmarshal SecurityAssociation.empty b ≡ ok (record { proposals = p ∷ [] }))
      × (choose_algorithms p ≡ ok (algorithms k))
negotiation k w =
    let same = plain_proposal k w in
    let (b, is_b) =
      written (Dh.transform_id w.dh) (Prf.transform_id w.prf) w.encr (Integ.transform_id w.integ) in
    let fits =
      payload_fits (Dh.transform_id w.dh) (Prf.transform_id w.prf) w.encr
        (Integ.transform_id w.integ) (Dh.to_transform-plain w.dh).1 (Prf.to_transform-plain w.prf).1
        (sent w.encr w.encr_registered).fits (Integ.to_transform-plain w.integ).1 in
    (
      proposed k w,
      b,
      proposes k w,
      rw same is_b,
      association_round_trip
            (payload_of (Dh.transform_id w.dh) (Prf.transform_id w.prf) w.encr
              (Integ.transform_id w.integ))
            fits is_b
          ∙ (rw same (payload_kept _ _ _ _)),
      chooses k w,
    )
