-- ===== src/Tests/Packets.antt =====
-- The packets of eap/.
use ike.Base.{
  Returns, [], arith, err, if◌then◌else◌, length, ltb, none, ok, refl, some, too_long, ◌+◌, ◌>>=◌,
  ◌∷◌, ◌≡◌,
}
use ike.Base.Bytes.{Bytes, uint16}
use ike.Eap.Expanded.{EapExpanded}
use ike.Eap.AkaPrime
use ike.Eap.AkaPrime.Reader
use ike.Eap.AkaPrime.Attribute.{EapAkaPrimeAttr, set_attr}
use ike.Eap.AkaPrime.{EapAkaPrime, find_attr, get_attrs_keys, sort_keys}
use ike.Eap.AkaPrime.Attributes.{IsReadable}
use ike.Eap.AkaPrime.RoundTrip.{Listed, aka_prime_round_trip}
use ike.Eap.AkaPrime.Safety.{aka_prime-Returns}
use ike.Eap.Packet
use ike.Eap.Packet.{Eap, expanded}
use ike.Eap.Packet.Laws.{packet-Returns, packet_round_trip}

-- EAP-5G of 3GPP.
abbrev an_expanded : EapExpanded
an_expanded = record { vendor_id = 10415; vendor_type = 3; vendor_data = 1 ∷ 0 ∷ [] }

-- A message with AT_KDF, then an attribute cut short.
aka_prime-Returns_example :
    Returns (Reader.unmarshal AkaPrime.empty (50 ∷ 1 ∷ 0 ∷ 0 ∷ 24 ∷ 1 ∷ 0 ∷ 1 ∷ 1 ∷ 5 ∷ 0 ∷ []))
aka_prime-Returns_example =
    aka_prime-Returns AkaPrime.empty (50 ∷ 1 ∷ 0 ∷ 0 ∷ 24 ∷ 1 ∷ 0 ∷ 1 ∷ 1 ∷ 5 ∷ 0 ∷ [])

abbrev a_packet : Eap
a_packet = record { code = 1; identifier = 7; eap_type_data = some (expanded an_expanded) }

packet_round_trip_example :
    (rest : Bytes) × (Packet.marshal_data (expanded an_expanded) ≡ ok (254 ∷ rest))
    × ((Packet.marshal a_packet >>= Packet.unmarshal Packet.empty)
        ≡ (if ltb 65535 (5 + length rest) then err too_long else ok a_packet))
unfolding Packet.type_of
packet_round_trip_example = packet_round_trip 1 7 (expanded an_expanded) (omega arith, omega arith)

packet-Returns_example : Returns (Packet.unmarshal Packet.empty (1 ∷ 7 ∷ 0 ∷ 5 ∷ 50 ∷ []))
packet-Returns_example = packet-Returns Packet.empty (1 ∷ 7 ∷ 0 ∷ 5 ∷ 50 ∷ [])

-- Identity data with AT_RES of 5 bytes, so with padding, and AT_KDF, set in this order.
abbrev a_res : EapAkaPrimeAttr
a_res = record {
  attr_type = 3;
  size = 3;
  reserved = 40;
  value = 1 ∷ 2 ∷ 3 ∷ 4 ∷ 5 ∷ 0 ∷ 0 ∷ 0 ∷ [];
}

abbrev a_kdf : EapAkaPrimeAttr
a_kdf = record { attr_type = 24; size = 1; reserved = 1; value = [] }

abbrev aka_data : EapAkaPrime
aka_data = record {
  sub_type = 1;
  reserved = 0;
  attributes = a_kdf ∷ a_res ∷ [];
  attribute_order = none;
}

aka_list :
    Listed aka_data.attributes
      (3 ∷ 24 ∷ [])
      ((a_res, 1 ∷ 2 ∷ 3 ∷ 4 ∷ 5 ∷ []) ∷ (a_kdf, 0 ∷ 1 ∷ []) ∷ [])
unfolding set_attr find_attr uint16
aka_list = (refl, refl, res_readable, (refl, refl, kdf_readable, tt))
  where
    res_readable : IsReadable 3 (1 ∷ 2 ∷ 3 ∷ 4 ∷ 5 ∷ [])
    res_readable = record {
      bytes = (omega arith, (omega arith, (omega arith, (omega arith, (omega arith, tt)))));
      name_fits = λ e. absurd (omega arith);
      code_fits = λ e. absurd (omega arith);
    }

    kdf_readable : IsReadable 24 (0 ∷ 1 ∷ [])
    kdf_readable = record {
      bytes = (omega arith, (omega arith, tt));
      name_fits = λ e. absurd (omega arith);
      code_fits = λ e. absurd (omega arith);
    }

aka_prime_round_trip_example :
    (AkaPrime.marshal aka_data >>= Reader.unmarshal AkaPrime.empty)
    ≡ ok (record {
      sub_type = 1;
      reserved = 0;
      attributes = record a_res { value = 1 ∷ 2 ∷ 3 ∷ 4 ∷ 5 ∷ [] } ∷ a_kdf ∷ [];
      attribute_order = some (3 ∷ 24 ∷ []);
    })
unfolding get_attrs_keys sort_keys
aka_prime_round_trip_example =
    aka_prime_round_trip aka_data AkaPrime.empty
      ((a_res, 1 ∷ 2 ∷ 3 ∷ 4 ∷ 5 ∷ []) ∷ (a_kdf, 0 ∷ 1 ∷ []) ∷ []) (omega arith) aka_list
      ((omega arith, tt), (tt, tt))
