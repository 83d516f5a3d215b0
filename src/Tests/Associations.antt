-- ===== src/Tests/Associations.antt =====
-- Security Associations of message/payload_securityassociation.go.
use ike.Base.{[], arith, inl, inr, ok, panic, refl, true, ◌∷◌, ◌≡◌}
use ike.Base.Bytes.{Bytes}
use ike.Message.SecurityAssociation.{Proposal, SecurityAssociation, Transform}
use ike.Message.SecurityAssociation
use ike.Message.SecurityAssociation.Reader
use ike.Message.SecurityAssociation.Proposals.{ProposalFits}
use ike.Message.SecurityAssociation.RoundTrip.{association_round_trip}
use ike.Message.SecurityAssociation.Safety.{unmarshal_spi-Overrun}

-- A proposal with an encryption algorithm of a 256-bit key, and a pseudorandom function with an
-- attribute of variable length.
abbrev encryption : Transform
encryption = record {
  transform_type = 1;
  transform_id = 12;
  attribute_present = true;
  attribute_format = 1;
  attribute_type = 14;
  attribute_value = 256;
  variable_length_attribute_value = [];
}

abbrev prf_with_value : Bytes → Transform
prf_with_value v = record {
  transform_type = 2;
  transform_id = 2;
  attribute_present = true;
  attribute_format = 0;
  attribute_type = 14;
  attribute_value = 0;
  variable_length_attribute_value = v;
}

abbrev a_proposal : Bytes → Proposal
a_proposal v = record {
  proposal_number = 1;
  protocol_id = 1;
  spi = 5 ∷ 6 ∷ [];
  encryption_algorithm = encryption ∷ [];
  pseudorandom_function = prf_with_value v ∷ [];
  integrity_algorithm = [];
  diffie_hellman_group = [];
  extended_sequence_numbers = [];
}

abbrev an_association : Bytes → SecurityAssociation
an_association v = record { proposals = a_proposal v ∷ [] }

abbrev association_bytes : Bytes
association_bytes =
    0 ∷ 0 ∷ 0 ∷ 36 ∷ 1 ∷ 1 ∷ 2 ∷ 2 ∷ 5 ∷ 6 ∷ 3 ∷ 0 ∷ 0 ∷ 12 ∷ 1 ∷ 0 ∷ 0 ∷ 12 ∷ 128 ∷ 14 ∷ 1 ∷ 0 ∷ 0
    ∷ 0 ∷ 0 ∷ 14 ∷ 2 ∷ 0 ∷ 0 ∷ 2 ∷ 0 ∷ 14 ∷ 0 ∷ 2 ∷ 9 ∷ 9 ∷ []

marshal_association :
    SecurityAssociation.marshal (an_association (9 ∷ 9 ∷ [])) ≡ ok association_bytes
unfolding SecurityAssociation.marshal SecurityAssociation.append_proposals
    SecurityAssociation.proposal_bytes SecurityAssociation.append_transforms
    SecurityAssociation.transform_bytes SecurityAssociation.attribute_bytes
    SecurityAssociation.tlv_bytes
marshal_association = refl

association_round_trip_example :
    Reader.unmarshal SecurityAssociation.empty association_bytes ≡ ok (an_association [])
association_round_trip_example =
    association_round_trip (an_association (9 ∷ 9 ∷ [])) (fits, tt) marshal_association
  where
    fits : ProposalFits (a_proposal (9 ∷ 9 ∷ []))
    fits = record {
      spi_fits = omega arith;
      encr = (
        (
          refl,
          inr (
              inl (record {
                id = omega arith;
                present = refl;
                format = refl;
                kind = omega arith;
                value = omega arith;
              })),
        ),
        tt,
      );
      prf = (
        (
          refl,
          inr (
              inr (record {
                id = omega arith;
                present = refl;
                format = refl;
                kind = omega arith;
                no_value = refl;
                some_value = omega arith;
                length_fits = omega arith;
              })),
        ),
        tt,
      );
      integ = tt;
      dh = tt;
      esn = tt;
    }

unmarshal_spi-Overrun_example :
    Reader.unmarshal SecurityAssociation.empty (0 ∷ 0 ∷ 0 ∷ 9 ∷ 1 ∷ 1 ∷ 2 ∷ 0 ∷ 5 ∷ 6 ∷ []) ≡ panic
unmarshal_spi-Overrun_example =
    unmarshal_spi-Overrun SecurityAssociation.empty 0 0 0 9 1 1 2 0 (5 ∷ 6 ∷ []) (omega arith)
      (omega arith) (omega arith) (inl (omega arith))
