-- ===== src/Tests/ChildKeys.antt =====
-- Child SAs of security/security.go, and its comparison of certificates.
use ike.Base.{
  [], arith, err, inl, length, no_integrity, none, ok, refl, some, take, true, ℕ, ◌*◌, ◌+◌, ◌<◌,
  ◌∷◌, ◌≡◌, ◌≤◌,
}
use ike.Message.SecurityAssociation.{Proposal, empty_proposal}
use ike.Security.Primitives.{new_sha1}
use ike.Security.Prf
use ike.Security.Integ
use ike.Security.Integ.{transform_id}
use ike.Security.Encr
use ike.Security.Esn
use ike.Security.Registry.{decode_by, of_name, plain}
use ike.Security.PrfPlus.Reference.{blocks}
use ike.Security.IkeSa.{IkeSaKey}
use ike.Security.ChildSa
use ike.Security.ChildSa.{
  ChildSaKey, generate_key_for_child_sa, integrity_key_length, new_child_sa_key_by_proposal,
}
use ike.Security.ChildSa.Keys.{Added, generate_key_for_child_sa-Added}
use ike.Security.ChildSa.Choice
use ike.Security.ChildSa.Choice.{child_negotiation, several_integrity}
use ike.Tests.Keys.{chosen, toy}

abbrev child : ChildSaKey
child = record ChildSa.empty {
  spi = 9;
  encr_k_info = some (record { key_length = 16 });
  integ_k_info = some Integ.sha1;
}

abbrev with_prf : IkeSaKey
with_prf = record chosen { prf_d = some (new_sha1 toy (1 ∷ [])) }

abbrev key_bytes : ℕ
key_bytes = (16 + integrity_key_length (some Integ.sha1)) * 2

few_keys : key_bytes ≤ 255 * 20
unfolding Integ.get_key_length
few_keys = omega arith

generate_key_for_child_sa-Added_example :
    (out : ChildSaKey) × (generate_key_for_child_sa child with_prf (1 ∷ []) ≡ ok out)
    × Added child out 16
        (integrity_key_length (some Integ.sha1))
        (take key_bytes (blocks (new_sha1 toy (1 ∷ [])) (1 ∷ []) 255))
generate_key_for_child_sa-Added_example =
    generate_key_for_child_sa-Added child with_prf (1 ∷ []) Prf.sha1 (record { key_length = 16 })
      (new_sha1 toy (1 ∷ [])) refl refl refl (omega arith) (omega arith) few_keys

abbrev without : ChildSaKey
without = record child { integ_k_info = none }

without_algorithms : Choice.IsChosen without
without_algorithms = record {
  encr = record { key_length = 16 };
  is_encr = refl;
  encr_registered = inl refl;
  integ_registered = tt;
  dh_registered = tt;
}

child_negotiation_example :
    (p : Proposal) × (ChildSa.to_proposal without ≡ ok p)
    × (new_child_sa_key_by_proposal p ≡ err no_integrity)
child_negotiation_example = child_negotiation without without_algorithms

-- A proposal with two integrity algorithms that are both known.
abbrev two_offered : Proposal
two_offered = record empty_proposal {
  protocol_id = 3;
  encryption_algorithm =
      record {
        transform_type = 1;
        transform_id = 12;
        attribute_present = true;
        attribute_format = 1;
        attribute_type = 14;
        attribute_value = 128;
        variable_length_attribute_value = [];
      }
      ∷ [];
  integrity_algorithm = plain 3 2 ∷ plain 3 12 ∷ [];
  extended_sequence_numbers = plain 5 0 ∷ [];
}

abbrev taken : ChildSaKey
taken = record ChildSa.empty { encr_k_info = some (record { key_length = 16 }) }

takes_none : new_child_sa_key_by_proposal two_offered ≡ ok taken
unfolding new_child_sa_key_by_proposal Encr.decode_transform_child_sa Encr.encr_string
    Encr.to_string_encr_aes_cbc Encr.str_to_k_type decode_by of_name Esn.decode_transform
    Esn.esn_string Esn.str_to_type
takes_none = refl

several_integrity_example :
    (taken.integ_k_info ≡ none)
    × (out : ChildSaKey) × (generate_key_for_child_sa taken with_prf (1 ∷ []) ≡ ok out)
    × (0 < length out.initiator_to_responder_encryption_key)
    × (0 < length out.responder_to_initiator_encryption_key)
    × (out.initiator_to_responder_integrity_key ≡ [])
    × (out.responder_to_initiator_integrity_key ≡ [])
several_integrity_example =
    several_integrity two_offered (plain 3 2) (plain 3 12) [] {k = taken} with_prf (1 ∷ []) Prf.sha1
      (new_sha1 toy (1 ∷ [])) refl takes_none refl refl (omega arith)
