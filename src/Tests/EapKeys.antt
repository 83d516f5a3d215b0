-- ===== src/Tests/EapKeys.antt =====
-- The keys and the MAC of EAP-AKA', of eap/eap_aka_prime.go and eap/eap.go.
use ike.Base.Bytes.{Bytes}
use ike.Eap.AkaPrime.Attribute.{EapAkaPrimeAttr, at_mac, attribute_bytes, set_attr, set_fixed}
use ike.Eap.AkaPrime.{EapAkaPrime, find_attr, get_attrs_keys, put_attr}
use ike.Base.{
  [], bad_key_length, length, ok, refl, reject_if, replicate, some, take, ◌++◌, ◌==◌, ◌>>=◌, ◌>>◌,
  ◌||◌, ◌∷◌, ◌≡◌,
}
use ike.Eap.Mac.Laws.{Zeroed, mac_again, with_mac, zero_mac}
use ike.Security.Primitives.{new_sha256}
use ike.Security.PrfPlus.{prf_plus}
use ike.Eap.Packet
use ike.Eap.Packet.{Eap, aka_prime}
use ike.Eap.AkaPrime
use ike.Eap.AkaPrime.Prf.{
  eap_aka_prime_prf, eap_aka_prime_prf-prf_plus, joined_keys, key_lengths, prf_label, with_lengths,
}
use ike.Eap.Mac.{calc_eap_aka_prime_at_mac}
use ike.Tests.Keys.{toy}

abbrev ik : Bytes
ik = 1 ∷ 2 ∷ []

abbrev ck : Bytes
ck = 3 ∷ []

abbrev name : Bytes
name = 65 ∷ []

eap_aka_prime_prf-prf_plus_example :
    (eap_aka_prime_prf toy ik ck name >>= λ k. with_lengths (key_lengths k) (joined_keys k)) ≡ (
      reject_if (length ik == 0 || length ck == 0) bad_key_length
      >> (prf_plus (new_sha256 toy (ik ++ ck)) (prf_label ++ name) 208 >>= λ mk.
          with_lengths (16 ∷ 32 ∷ 32 ∷ 64 ∷ 64 ∷ []) mk))
eap_aka_prime_prf-prf_plus_example = eap_aka_prime_prf-prf_plus toy ik ck name

abbrev mac_attr : Bytes → EapAkaPrimeAttr
mac_attr v = record { attr_type = 11; size = 5; reserved = 0; value = v }

-- EAP-AKA' data with a MAC of these bytes.
abbrev data_with : Bytes → EapAkaPrime
data_with v = record {
  sub_type = 1;
  reserved = 0;
  attributes = mac_attr v ∷ [];
  attribute_order = some (11 ∷ []);
}

abbrev packet_with : Bytes → Eap
packet_with v = record { code = 1; identifier = 7; eap_type_data = some (aka_prime (data_with v)) }

abbrev zeros : Bytes
zeros = replicate 16 0

abbrev nines : Bytes
nines = replicate 16 9

-- The packet with zeros, as it is written.
abbrev zeros_bytes : Bytes
zeros_bytes = 1 ∷ 7 ∷ 0 ∷ 28 ∷ 50 ∷ 1 ∷ 0 ∷ 0 ∷ 11 ∷ 5 ∷ 0 ∷ 0 ∷ zeros

writes_zeros :
    Packet.marshal (record (packet_with nines) {
      eap_type_data = some (aka_prime (with_mac zero_mac (data_with nines)));
    })
    ≡ ok zeros_bytes
unfolding Packet.marshal Packet.optional_data Packet.marshal_data AkaPrime.marshal
    AkaPrime.append_attributes get_attrs_keys find_attr put_attr attribute_bytes
writes_zeros = refl

sets_fives :
    AkaPrime.set (with_mac zero_mac (data_with nines)) at_mac (replicate 16 5)
    ≡ ok (data_with (replicate 16 5))
unfolding AkaPrime.set set_attr set_fixed put_attr find_attr
sets_fives = refl

abbrev zeroed : Eap
zeroed = record (packet_with nines) {
  eap_type_data = some (aka_prime (with_mac zero_mac (data_with nines)));
}

mac_again_example :
    Zeroed (data_with nines) (with_mac zero_mac (data_with nines))
    × (calc_eap_aka_prime_at_mac toy (packet_with nines) (4 ∷ [])
        ≡ ok (zeroed, take 16 (toy.hmac_sha256 (4 ∷ []) zeros_bytes)))
    × (calc_eap_aka_prime_at_mac toy (packet_with (replicate 16 5)) (4 ∷ [])
        ≡ ok (zeroed, take 16 (toy.hmac_sha256 (4 ∷ []) zeros_bytes)))
mac_again_example =
    mac_again toy (packet_with nines) (4 ∷ []) (replicate 16 5) (data_with nines)
      (data_with (replicate 16 5)) refl writes_zeros sets_fives
