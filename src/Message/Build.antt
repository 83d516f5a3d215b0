-- ===== src/Message/Build.antt =====
-- message/build.go: functions that append a payload, a proposal, a transform or an attribute. Where
-- the source returns a pointer to what it appended, it is the last element of the new list.
pub mod Laws
pub mod Vendor
use ike.Base.{List, Option, [], if◌then◌else◌, length, none, some, true, ℕ, ◌++◌, ◌==◌, ◌∷◌}
use ike.Base.Bytes.{Bytes}
use ike.Message.SecurityAssociation
use ike.Message.SecurityAssociation.{
  Proposal, SecurityAssociation, Transform, empty_proposal, empty_transform,
}
use ike.Message.KeyExchange
use ike.Message.IdentificationInitiator
use ike.Message.IdentificationResponder
use ike.Message.Certificate
use ike.Message.Authentication
use ike.Message.Nonce
use ike.Message.Notification
use ike.Message.Delete
use ike.Message.TrafficSelector.{IndividualTrafficSelector}
use ike.Message.TrafficSelectorInitiator
use ike.Message.TrafficSelectorResponder
use ike.Message.Encrypted
use ike.Message.Configuration
use ike.Message.Configuration.{Attribute}
use ike.Eap.Packet
use ike.Eap.Expanded
use ike.Message.Payload.{
  IkePayload, authentication, certificate, configuration, delete, encrypted,
  identification_initiator, identification_responder, key_exchange, nonce, notify,
  security_association, traffic_selector_initiator, traffic_selector_responder,
}

-- `TypeNone`, and the notify types of 3GPP
abbrev pub type_none : ℕ
type_none = 0

abbrev pub notify_5g_qos_info : ℕ
notify_5g_qos_info = 55501

abbrev pub notify_nas_tcp_port : ℕ
notify_nas_tcp_port = 55506

abbrev pub bit_dscpi : ℕ
bit_dscpi = 1

abbrev pub bit_dcsi : ℕ
bit_dcsi = 2

-- `Reset` of a container
abbrev pub reset {ℓ} : {A : Type ℓ} → List A → List A
reset container = []

unfoldable pub build_notification : List IkePayload → ℕ → ℕ → Bytes → Bytes → List IkePayload
build_notification container protocol kind spi_bytes data_bytes =
    container
    ++ (notify (record {
      protocol_id = protocol;
      notify_message_type = kind;
      spi = spi_bytes;
      notification_data = data_bytes;
    })
        ∷ [])

unfoldable pub build_certificate : List IkePayload → ℕ → Bytes → List IkePayload
build_certificate container encode data_bytes =
    container
    ++ (certificate (record { certificate_encoding = encode; certificate_data = data_bytes }) ∷ [])

unfoldable pub build_encrypted : List IkePayload → ℕ → Bytes → List IkePayload
build_encrypted container next data_bytes =
    container ++ (encrypted (record { next_payload = next; encrypted_data = data_bytes }) ∷ [])

unfoldable pub build_key_exchange : List IkePayload → ℕ → Bytes → List IkePayload
build_key_exchange container group data_bytes =
    container
    ++ (key_exchange (record { diffie_hellman_group = group; key_exchange_data = data_bytes }) ∷ [])

unfoldable pub build_identification_initiator : List IkePayload → ℕ → Bytes → List IkePayload
build_identification_initiator container kind data_bytes =
    container ++ (identification_initiator (record { id_type = kind; id_data = data_bytes }) ∷ [])

unfoldable pub build_identification_responder : List IkePayload → ℕ → Bytes → List IkePayload
build_identification_responder container kind data_bytes =
    container ++ (identification_responder (record { id_type = kind; id_data = data_bytes }) ∷ [])

unfoldable pub build_authentication : List IkePayload → ℕ → Bytes → List IkePayload
build_authentication container method data_bytes =
    container
    ++ (authentication (record { authentication_method = method; authentication_data = data_bytes })
        ∷ [])

unfoldable pub build_configuration : List IkePayload → ℕ → List IkePayload
build_configuration container kind =
    container ++ (configuration (record { configuration_type = kind; attributes = [] }) ∷ [])

unfoldable pub build_configuration_attribute : List Attribute → ℕ → Bytes → List Attribute
build_configuration_attribute container attribute_type attribute_value =
    container ++ (record { kind = attribute_type; value = attribute_value } ∷ [])

unfoldable pub build_nonce : List IkePayload → Bytes → List IkePayload
build_nonce container data_bytes = container ++ (nonce (record { nonce_data = data_bytes }) ∷ [])

unfoldable pub build_traffic_selector_initiator : List IkePayload → List IkePayload
build_traffic_selector_initiator container =
    container ++ (traffic_selector_initiator TrafficSelectorInitiator.empty ∷ [])

unfoldable pub build_traffic_selector_responder : List IkePayload → List IkePayload
build_traffic_selector_responder container =
    container ++ (traffic_selector_responder TrafficSelectorResponder.empty ∷ [])

unfoldable pub build_individual_traffic_selector :
    List IndividualTrafficSelector → ℕ → ℕ → ℕ → ℕ → Bytes → Bytes → List IndividualTrafficSelector
build_individual_traffic_selector container kind protocol first last from_bytes to_bytes =
    container
    ++ (record {
      ts_type = kind;
      ip_protocol_id = protocol;
      start_port = first;
      end_port = last;
      start_address = from_bytes;
      end_address = to_bytes;
    }
        ∷ [])

unfoldable pub build_security_association : List IkePayload → List IkePayload
build_security_association container =
    container ++ (security_association SecurityAssociation.empty ∷ [])

unfoldable pub build_proposal : List Proposal → ℕ → ℕ → Bytes → List Proposal
build_proposal container number protocol spi_bytes =
    container
    ++ (record empty_proposal { proposal_number = number; protocol_id = protocol; spi = spi_bytes }
        ∷ [])

unfoldable pub build_delete_payload : List IkePayload → ℕ → ℕ → ℕ → List ℕ → List IkePayload
build_delete_payload container protocol size number words =
    container
    ++ (delete
          (record { protocol_id = protocol; spi_size = size; number_of_spi = number; spis = words })
        ∷ [])

-- `transform` before it is appended; `none` where `BuildTransform` returns without appending it.
unfoldable pub new_transform : ℕ → ℕ → Option ℕ → Option ℕ → Bytes → Option Transform
new_transform kind id none attribute_value variable =
    some (record empty_transform { transform_type = kind; transform_id = id })
new_transform kind id (some t) (some v) variable = some (record empty_transform {
  transform_type = kind;
  transform_id = id;
  attribute_present = true;
  attribute_type = t;
  attribute_format = 1;
  attribute_value = v;
})
new_transform kind id (some t) none variable =
    if length variable == 0
    then none
    else some (record empty_transform {
      transform_type = kind;
      transform_id = id;
      attribute_present = true;
      attribute_type = t;
      attribute_format = 0;
      variable_length_attribute_value = variable;
    })

unfoldable pub build_transform :
    List Transform → ℕ → ℕ → Option ℕ → Option ℕ → Bytes → List Transform
build_transform container kind id attribute_type attribute_value variable =
    elim (new_transform kind id attribute_type attribute_value variable) [
      | none ↦ container
      | some t ↦ container ++ (t ∷ [])
    ]
