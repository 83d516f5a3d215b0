-- ===== src/Message/Payload/Laws.antt =====
-- A payload that was written is read back by the parser of its type.
use ike.Base.{arith, length, map, ok, read_wrapped, refl, some, ℕ, ◌<◌, ◌^◌, ◌∙◌, ◌≡◌, ◌≤◌}
use ike.Base.Bytes.{Bytes}
use ike.Message.SecurityAssociation.Proposals.{forget_proposal}
use ike.Message.SecurityAssociation.RoundTrip.{AllProposalsFit}
use ike.Message.SecurityAssociation.RoundTrip
use ike.Message.KeyExchange
use ike.Message.IdentificationInitiator
use ike.Message.IdentificationResponder
use ike.Message.Certificate
use ike.Message.CertificateRequest
use ike.Message.Authentication
use ike.Message.Nonce
use ike.Message.Notification
use ike.Message.Delete.Laws as DeleteLaws
use ike.Message.VendorId
use ike.Message.TrafficSelector.Laws as SelectorLaws
use ike.Message.TrafficSelectorInitiator
use ike.Message.TrafficSelectorResponder
use ike.Message.Encrypted
use ike.Message.Configuration.Laws as ConfigurationLaws
use ike.Eap.Packet.Laws as PacketLaws
use ike.Message.Payload.{
  IkePayload, authentication, certificate, certificate_request, configuration, delete, encrypted,
  identification_initiator, identification_responder, key_exchange, marshal, new_payload, nonce,
  notify, payload_eap, security_association, traffic_selector_initiator, traffic_selector_responder,
  type_of, unmarshal, vendor_id,
}

-- Payloads that the writer and the parser agree on: the fields fit their widths, no part is empty or
-- too long that the parser refuses or panics on so, and an EAP packet is not of EAP-AKA'.
abbrev pub Fits : IkePayload → Type 0
Fits (security_association x) = AllProposalsFit x.proposals
Fits (key_exchange x) = (x.diffie_hellman_group < 2 ^ 16) × (0 < length x.key_exchange_data)
Fits (identification_initiator x) = 0 < length x.id_data
Fits (identification_responder x) = 0 < length x.id_data
Fits (certificate x) = 0 < length x.certificate_data
Fits (certificate_request x) = 0 < length x.certification_authority
Fits (authentication x) = 0 < length x.authentication_data
Fits (nonce x) = Unit
Fits (notify x) = (x.notify_message_type < 2 ^ 16) × (length x.spi ≤ 251)
Fits (delete x) = DeleteLaws.IsWf x
Fits (vendor_id x) = Unit
Fits (traffic_selector_initiator x) =
    (0 < length x.traffic_selectors)
    × (length x.traffic_selectors ≤ 255)
    × SelectorLaws.AllFit x.traffic_selectors
Fits (traffic_selector_responder x) =
    (0 < length x.traffic_selectors)
    × (length x.traffic_selectors ≤ 255)
    × SelectorLaws.AllFit x.traffic_selectors
Fits (encrypted x) = Unit
Fits (configuration x) = (0 < length x.attributes) × ConfigurationLaws.AllFit x.attributes
Fits (payload_eap x) = PacketLaws.DataFits x.eap_type_data

-- What is read back: the values of attributes in a Security Association are lost, and an Encrypted
-- payload notes the next-payload byte.
abbrev pub as_received : ℕ → IkePayload → IkePayload
as_received next (security_association x) =
    security_association (record { proposals = map forget_proposal x.proposals })
as_received next (encrypted x) = encrypted (record x { next_payload = next })
as_received next p = p

-- The parser that the switch takes for the payload's type reads it back.
abbrev pub ReadBack : ℕ → IkePayload → Bytes → Type 0
ReadBack next p d =
    (q : IkePayload) × (new_payload (type_of p) next ≡ some q)
    × ((spare : Bytes) → unmarshal q d spare ≡ ok (as_received next p))

pub payload_round_trip :
    (next : ℕ) (p : IkePayload) {d : Bytes} → Fits p → marshal p ≡ ok d → ReadBack next p d
unfolding marshal unmarshal type_of new_payload
payload_round_trip next (security_association x) h e =
    (_, refl, λ spare. rw (RoundTrip.association_round_trip x h e))
payload_round_trip next (key_exchange x) (g, n) e = (
  _,
  refl,
  λ spare. read_wrapped _ _ key_exchange e (KeyExchange.key_exchange_round_trip x g ∙ ground arith),
)
payload_round_trip next (identification_initiator x) h e = (
  _,
  refl,
  λ spare.
      read_wrapped _ _ identification_initiator e
        (IdentificationInitiator.initiator_id_round_trip x ∙ ground arith),
)
payload_round_trip next (identification_responder x) h e = (
  _,
  refl,
  λ spare.
      read_wrapped _ _ identification_responder e
        (IdentificationResponder.responder_id_round_trip x ∙ ground arith),
)
payload_round_trip next (certificate x) h e = (
  _,
  refl,
  λ spare. read_wrapped _ _ certificate e (Certificate.certificate_round_trip x ∙ ground arith),
)
payload_round_trip next (certificate_request x) h e = (
  _,
  refl,
  λ spare.
      read_wrapped _ _ certificate_request e
        (CertificateRequest.certificate_request_round_trip x ∙ ground arith),
)
payload_round_trip next (authentication x) h e = (
  _,
  refl,
  λ spare.
      read_wrapped _ _ authentication e (Authentication.authentication_round_trip x ∙ ground arith),
)
payload_round_trip next (nonce x) h e =
    (_, refl, λ spare. read_wrapped _ _ nonce e (Nonce.nonce_round_trip x))
payload_round_trip next (notify x) (t, s) e = (
  _,
  refl,
  λ spare. read_wrapped _ _ notify e (Notification.notification_round_trip x t ∙ ground arith),
)
payload_round_trip next (delete x) h e =
    (_, refl, λ spare. read_wrapped _ _ delete e (DeleteLaws.delete_round_trip x spare h))
payload_round_trip next (vendor_id x) h e =
    (_, refl, λ spare. read_wrapped _ _ vendor_id e (VendorId.vendor_id_round_trip x))
payload_round_trip next (traffic_selector_initiator x) (n, m, h) e = (
  _,
  refl,
  λ spare.
      read_wrapped _ _ traffic_selector_initiator e
        (TrafficSelectorInitiator.initiator_selectors_round_trip x m h ∙ ground arith),
)
payload_round_trip next (traffic_selector_responder x) (n, m, h) e = (
  _,
  refl,
  λ spare.
      read_wrapped _ _ traffic_selector_responder e
        (TrafficSelectorResponder.responder_selectors_round_trip x m h ∙ ground arith),
)
payload_round_trip next (encrypted x) h e =
    (_, refl, λ spare. rw (Encrypted.unmarshal_noting x next e))
payload_round_trip next (configuration x) (n, h) e = (
  _,
  refl,
  λ spare.
      read_wrapped _ _ configuration e
        (ConfigurationLaws.configuration_round_trip x h ∙ ground arith),
)
payload_round_trip next (payload_eap x) h e =
    (_, refl, λ spare. rw (PacketLaws.packet_read_back x.code x.identifier x.eap_type_data h e))
