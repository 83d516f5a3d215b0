-- ===== src/Tests/Keys.antt =====
-- Algorithms and keys of security/security.go, with hashes of zeros and a cipher that adds 7.
use ike.Base.{
  [], arith, inl, length, length-replicate, none, ok, refl, replicate, some, take, ℕ, ◌^◌, ◌∷◌, ◌≡◌,
}
use ike.Base.Bytes.{Bytes}
use ike.Message.SecurityAssociation.{Proposal, SecurityAssociation}
use ike.Message.SecurityAssociation
use ike.Message.SecurityAssociation.Reader
use ike.Security.Primitives.{Primitives, new_sha1}
use ike.Security.Prf
use ike.Security.Integ
use ike.Security.Dh.{group2}
use ike.Security.PrfPlus.{prf_plus}
use ike.Security.PrfPlus.Reference.{blocks, prf_plus-reference}
use ike.Security.Random.{first_large, generate_random_number, random_number_minimum}
use ike.Security.IkeSa
use ike.Security.IkeSa.{IkeSaKey, choose_algorithms, to_proposal}
use ike.Security.IkeSa.Ready.{IsChosen, IsReady}
use ike.Security.IkeSa.Derivation.{Derived, generate_key-Derived}
use ike.Security.IkeSa.Choice.{negotiation}
use ike.Tests.Ciphers.{shift_mode}

abbrev pub toy : Primitives
toy = record {
  hmac_sha1 = λ key m. replicate 20 0;
  hmac_sha256 = λ key m. replicate 32 0;
  aes = λ key. shift_mode;
  length-hmac_sha1 = λ key m. length-replicate {A = ℕ} 20 0;
  length-hmac_sha256 = λ key m. length-replicate {A = ℕ} 32 0;
}

abbrev pub chosen : IkeSaKey
chosen = record IkeSa.empty {
  dh_info = some group2;
  encr_info = some (record { key_length = 16 });
  integ_info = some Integ.sha1;
  prf_info = some Prf.sha1;
}

abbrev pub chosen_algorithms : IsChosen chosen
chosen_algorithms = record {
  dh = group2;
  encr = record { key_length = 16 };
  integ = Integ.sha1;
  prf = Prf.sha1;
  is_dh = refl;
  is_encr = refl;
  is_integ = refl;
  is_prf = refl;
  dh_registered = inl refl;
  encr_registered = inl refl;
  integ_registered = inl refl;
  prf_registered = inl refl;
}

abbrev pub ready : IkeSaKey
ready = record chosen {
  integ_i = some (new_sha1 toy (replicate 20 1));
  integ_r = some (new_sha1 toy (replicate 20 2));
  encr_i = some (record { block = shift_mode; settings = record { iv = none; padding = none } });
  encr_r = some (record { block = shift_mode; settings = record { iv = none; padding = none } });
}

unfoldable pub all_ready : IsReady ready
unfolding Integ.get_output_length
all_ready = record {
  encr = record { key_length = 16 };
  integ = Integ.sha1;
  hash_i = new_sha1 toy (replicate 20 1);
  hash_r = new_sha1 toy (replicate 20 2);
  block_i = shift_mode;
  block_r = shift_mode;
  is_encr = refl;
  is_integ = refl;
  is_hash_i = refl;
  is_hash_r = refl;
  is_crypto_i = refl;
  is_crypto_r = refl;
  output_i = omega arith;
  output_r = omega arith;
  output_some = omega arith;
  output_few = omega arith;
}

generate_key-Derived_example : Derived toy chosen chosen_algorithms (1 ∷ []) (2 ∷ []) 3 4
generate_key-Derived_example =
    generate_key-Derived toy chosen chosen_algorithms (1 ∷ []) (2 ∷ []) 3 4 (omega arith)
      (omega arith)

negotiation_example :
    (p : Proposal) × (b : Bytes) × (to_proposal chosen ≡ ok p)
    × (SecurityAssociation.marshal (record { proposals = p ∷ [] }) ≡ ok b)
    × (Reader.unmarshal SecurityAssociation.empty b ≡ ok (record { proposals = p ∷ [] }))
    × (choose_algorithms p ≡ ok chosen)
negotiation_example = negotiation chosen chosen_algorithms

prf_plus-reference_example :
    (prf_plus (new_sha1 toy []) (5 ∷ []) 50 ≡ ok (take 50 (blocks (new_sha1 toy []) (5 ∷ []) 255)))
    × (length (take 50 (blocks (new_sha1 toy []) (5 ∷ []) 255)) ≡ 50)
prf_plus-reference_example =
    prf_plus-reference (new_sha1 toy []) (5 ∷ []) 50 (omega arith) (omega arith)

first_large_example : generate_random_number (some 5 ∷ some (2 ^ 128) ∷ none ∷ []) ≡ ok (2 ^ 128)
unfolding random_number_minimum
first_large_example = first_large (5 ∷ []) (2 ^ 128) (none ∷ []) (omega arith, tt) (omega arith)
