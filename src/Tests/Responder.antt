-- ===== src/Tests/Responder.antt =====
-- `NewIKESAKey` of security/security.go, as the responder runs it on the initiator's value.
use ike.Base.{
  List, Option, [], arith, err, length, none, ok, ok_bind, refl, some, true, unspecified_integrity,
  ℕ, ◌<◌, ◌>>=◌, ◌∙◌, ◌∷◌, ◌≡◌,
}
use ike.Base.Bytes.{Bytes}
use ike.Message.SecurityAssociation.{Proposal, Transform, empty_proposal}
use ike.Security.Integers.{exp, set_bytes}
use ike.Security.Prf
use ike.Security.Integ
use ike.Security.Encr
use ike.Security.Dh
use ike.Security.Dh.{
  get_public_value, get_shared_key, group2, group2_prime, group_of, group_shared_key, transform_id,
}
use ike.Security.Dh.Laws.{fixed_bytes, length-shared_key, shared_key-ok}
use ike.Security.Registry.{decode_by, of_name, plain}
use ike.Security.Random.{first_large, generate_random_number, random_number_minimum}
use ike.Security.IkeSa.{
  calculate_diffie_hellman_materials, choose_algorithms, generate_key_for_ike_sa, new_ike_sa_key,
}
use ike.Security.IkeSa.Ready.{IsReady}
use ike.Security.IkeSa.Derivation.{Derived, generate_key-Derived}
use ike.Security.IkeSa.Initiator.{initiator_agreement, new_ike_sa_key-IsReady}
use ike.Security.IkeSa.Refusal.{Begins, unsupported_integrity_late, without_integrity}
use ike.Tests.Keys.{chosen, chosen_algorithms, toy}
use ike.Tests.Exchange.{
  fits, modp, secret, sends_i, sends_r, value_i, value_i-IsPublic, value_r, value_r-IsPublic,
}

-- The transform of AES-CBC with keys of 128 bits.
abbrev pub aes128 : Transform
aes128 = record {
  transform_type = 1;
  transform_id = 12;
  attribute_present = true;
  attribute_format = 1;
  attribute_type = 14;
  attribute_value = 128;
  variable_length_attribute_value = [];
}

-- An offer with this transform for integrity.
abbrev pub offer_with : ℕ → Proposal
offer_with integ = record empty_proposal {
  protocol_id = 1;
  diffie_hellman_group = plain 4 2 ∷ [];
  pseudorandom_function = plain 2 2 ∷ [];
  encryption_algorithm = aes128 ∷ [];
  integrity_algorithm = plain 3 integ ∷ [];
}

abbrev pub offer : Proposal
offer = offer_with 2

pub accepts : choose_algorithms offer ≡ ok chosen
unfolding choose_algorithms Dh.decode_transform Dh.dh_string Dh.str_to_type Encr.decode_transform
    Encr.encr_string Encr.to_string_encr_aes_cbc Encr.str_to_type Integ.decode_transform
    Integ.integ_string Integ.str_to_type Prf.decode_transform Prf.prf_string Prf.str_to_type
    decode_by of_name
accepts = refl

abbrev pub draws : List (Option ℕ)
draws = some secret ∷ []

-- The key that both sides compute.
abbrev pub shared : Bytes
shared = fixed_bytes modp (exp (set_bytes value_i) secret group2_prime)

large : random_number_minimum < secret
unfolding random_number_minimum
large = omega arith

some_shared : 0 < length shared
unfolding group_of
some_shared = rw (length-shared_key modp fits (set_bytes value_i) secret) (omega arith)

materials : calculate_diffie_hellman_materials draws chosen value_i ≡ ok (value_r, shared)
unfolding calculate_diffie_hellman_materials get_shared_key group_of
materials =
    ok_bind (generate_random_number draws) _ (first_large [] secret [] tt large)
    ∙ ok_bind (group_shared_key modp secret (set_bytes value_i)) _
        (shared_key-ok modp fits secret (set_bytes value_i) value_i-IsPublic)
    ∙ ok_bind (get_public_value group2 secret) _ sends_r

-- What the responder derives.
pub made : Derived toy chosen chosen_algorithms (1 ∷ []) shared 3 4
made =
    generate_key-Derived toy chosen chosen_algorithms (1 ∷ []) shared 3 4 (omega arith) some_shared

pub responds : new_ike_sa_key toy draws offer value_i (1 ∷ []) 3 4 ≡ ok (made.ready, value_r)
unfolding new_ike_sa_key
responds =
    ok_bind (choose_algorithms offer) _ accepts
    ∙ ok_bind (calculate_diffie_hellman_materials draws chosen value_i) _ materials
    ∙ ok_bind (generate_key_for_ike_sa toy chosen (1 ∷ []) shared 3 4) _ made.is_derived

new_ike_sa_key-IsReady_example : IsReady made.ready
new_ike_sa_key-IsReady_example =
    new_ike_sa_key-IsReady toy draws offer value_i (1 ∷ []) 3 4 responds

initiator_agreement_example :
    (get_shared_key group2 2 (set_bytes value_r) >>= λ key.
    generate_key_for_ike_sa toy chosen (1 ∷ []) key 3 4)
    ≡ ok made.ready
initiator_agreement_example =
    initiator_agreement toy draws offer value_i (1 ∷ []) 3 4 2 chosen group2 accepts refl sends_i
      responds value_r-IsPublic

-- Integrity algorithm 7 is not known.
begins : Begins (offer_with 7) (plain 4 2) aes128 (plain 3 7) (plain 2 2)
begins = record {
  dh_rest = [];
  encr_rest = [];
  integ_rest = [];
  prf_rest = [];
  dh_list = refl;
  encr_list = refl;
  integ_list = refl;
  prf_list = refl;
}

knows_dh : Dh.decode_transform (plain 4 2) ≡ some group2
unfolding Dh.decode_transform Dh.dh_string Dh.str_to_type decode_by of_name
knows_dh = refl

knows_encr : Encr.decode_transform aes128 ≡ some (record { key_length = 16 })
unfolding Encr.decode_transform Encr.encr_string Encr.to_string_encr_aes_cbc Encr.str_to_type
    decode_by of_name
knows_encr = refl

knows_no_integ : Integ.decode_transform (plain 3 7) ≡ none
unfolding Integ.decode_transform Integ.integ_string decode_by of_name
knows_no_integ = refl

knows_prf : Prf.decode_transform (plain 2 2) ≡ some Prf.sha1
unfolding Prf.decode_transform Prf.prf_string Prf.str_to_type decode_by of_name
knows_prf = refl

unsupported_integrity_late_example :
    (choose_algorithms (offer_with 7)
      ≡ ok (without_integrity group2 (record { key_length = 16 }) Prf.sha1))
    × (new_ike_sa_key toy draws (offer_with 7) value_i (1 ∷ []) 3 4 ≡ (
        calculate_diffie_hellman_materials draws
          (without_integrity group2 (record { key_length = 16 }) Prf.sha1)
          value_i
        >>= λ values. err unspecified_integrity))
unsupported_integrity_late_example =
    unsupported_integrity_late toy draws (offer_with 7) value_i (1 ∷ []) 3 4 (plain 4 2) aes128
      (plain 3 7) (plain 2 2) group2 (record { key_length = 16 }) Prf.sha1 begins knows_dh
      knows_encr knows_no_integ knows_prf
