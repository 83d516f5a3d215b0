-- ===== src/Eap/Mac.antt =====
-- eap/eap.go: `CalcEapAkaPrimeAtMAC`.
pub mod Laws
use ike.Base.{Result, bad_eap_type, err, given, ok, some, ◌>>=◌, ◌>>◌}
use ike.Base.Bytes.{Bytes, slice_to}
use ike.Security.Primitives.{Primitives}
use ike.Eap.AkaPrime.{EapAkaPrime, init_mac}
use ike.Eap.Packet
use ike.Eap.Packet.{Eap, EapTypeData, aka_prime, expanded, identity, md5, nak, notification}

-- The packet whose AT_MAC is reset, and the first 16 bytes of its HMAC.
unfoldable pub mac_of : Primitives → Bytes → Eap → EapAkaPrime → Result (Eap × Bytes)
mac_of c key eap x = do
  cleared ← init_mac x
  let ready = record eap { eap_type_data = some (aka_prime cleared) }
  eap_bytes ← Packet.marshal ready
  mac ← slice_to (c.hmac_sha256 key eap_bytes) 16
  ok (ready, mac)

-- A nil `EapTypeData` panics; data of another type are refused.
unfoldable pub mac_of_data : Primitives → Bytes → Eap → EapTypeData → Result (Eap × Bytes)
unfolding mac_of
mac_of_data c key eap (aka_prime x) = mac_of c key eap x
mac_of_data c key eap (identity x) = err bad_eap_type
mac_of_data c key eap (notification x) = err bad_eap_type
mac_of_data c key eap (nak x) = err bad_eap_type
mac_of_data c key eap (md5 x) = err bad_eap_type
mac_of_data c key eap (expanded x) = err bad_eap_type

unfoldable pub calc_eap_aka_prime_at_mac : Primitives → Eap → Bytes → Result (Eap × Bytes)
unfolding mac_of_data
calc_eap_aka_prime_at_mac c eap key = do
  type_data ← given eap.eap_type_data
  mac_of_data c key eap type_data
