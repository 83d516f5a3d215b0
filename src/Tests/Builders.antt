-- ===== src/Tests/Builders.antt =====
-- The builders of message/build.go.
use ike.Base.{[], ok, refl, ◌>>=◌, ◌∷◌, ◌≡◌}
use ike.Base.Bytes.{Bytes}
use ike.Eap.Packet
use ike.Eap.Expanded
use ike.Message.Payload
use ike.Message.Container
use ike.Message.Build.Vendor.{build_eap_5g_nas}
use ike.Message.Build.Laws.{nas_payload, nas_round_trip}

abbrev nas_bytes : Bytes
nas_bytes =
    0 ∷ 0 ∷ 0 ∷ 23 ∷ 1 ∷ 7 ∷ 0 ∷ 19 ∷ 254 ∷ 0 ∷ 40 ∷ 175 ∷ 0 ∷ 0 ∷ 0 ∷ 3 ∷ 2 ∷ 0 ∷ 0 ∷ 3 ∷ 126 ∷ 0
    ∷ 65 ∷ []

nas_encoded : (build_eap_5g_nas [] 7 (126 ∷ 0 ∷ 65 ∷ []) >>= Container.encode) ≡ ok nas_bytes
unfolding build_eap_5g_nas Container.encode Container.encode_from Container.encode_payload
    Container.next_type Payload.marshal Packet.marshal Packet.optional_data Packet.marshal_data
    Expanded.marshal
nas_encoded = refl

nas_round_trip_example :
    Container.decode [] 48 nas_bytes [] ≡ ok (nas_payload 7 (126 ∷ 0 ∷ 65 ∷ []) ∷ [])
nas_round_trip_example = nas_round_trip 7 (126 ∷ 0 ∷ 65 ∷ []) [] nas_encoded
