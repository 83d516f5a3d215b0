-- ===== src/Message/Payload.antt =====
-- message/types.go, message/payload_eap.go and the interface `IKEPayload` of message/message.go: a
-- payload is one of the sixteen that implement the interface.
pub mod Laws
pub mod Safety
use ike.Base.{Option, Result, if◌then◌else◌, none, ok, some, ℕ, ◌==◌, ◌>>=◌, ◌>>◌}
use ike.Base.Bytes.{Bytes}
use ike.Message.SecurityAssociation
use ike.Message.SecurityAssociation.{SecurityAssociation}
use ike.Message.SecurityAssociation.Reader
use ike.Message.KeyExchange
use ike.Message.KeyExchange.{KeyExchange}
use ike.Message.IdentificationInitiator
use ike.Message.IdentificationInitiator.{IdentificationInitiator}
use ike.Message.IdentificationResponder
use ike.Message.IdentificationResponder.{IdentificationResponder}
use ike.Message.Certificate
use ike.Message.Certificate.{Certificate}
use ike.Message.CertificateRequest
use ike.Message.CertificateRequest.{CertificateRequest}
use ike.Message.Authentication
use ike.Message.Authentication.{Authentication}
use ike.Message.Nonce
use ike.Message.Nonce.{Nonce}
use ike.Message.Notification
use ike.Message.Notification.{Notification}
use ike.Message.Delete
use ike.Message.Delete.{Delete}
use ike.Message.VendorId
use ike.Message.VendorId.{VendorId}
use ike.Message.TrafficSelectorInitiator
use ike.Message.TrafficSelectorInitiator.{TrafficSelectorInitiator}
use ike.Message.TrafficSelectorResponder
use ike.Message.TrafficSelectorResponder.{TrafficSelectorResponder}
use ike.Message.Encrypted
use ike.Message.Encrypted.{Encrypted}
use ike.Message.Configuration
use ike.Message.Configuration.{Configuration}
use ike.Eap.Packet
use ike.Eap.Packet.{Eap}

pub data IkePayload : Type 0 where
  security_association : SecurityAssociation → IkePayload
  key_exchange : KeyExchange → IkePayload
  identification_initiator : IdentificationInitiator → IkePayload
  identification_responder : IdentificationResponder → IkePayload
  certificate : Certificate → IkePayload
  certificate_request : CertificateRequest → IkePayload
  authentication : Authentication → IkePayload
  nonce : Nonce → IkePayload
  notify : Notification → IkePayload
  delete : Delete → IkePayload
  vendor_id : VendorId → IkePayload
  traffic_selector_initiator : TrafficSelectorInitiator → IkePayload
  traffic_selector_responder : TrafficSelectorResponder → IkePayload
  encrypted : Encrypted → IkePayload
  configuration : Configuration → IkePayload
  payload_eap : Eap → IkePayload

-- `NoNext`
abbrev pub no_next : ℕ
no_next = 0

-- `Type`: `TypeSA` to `TypeEAP` are 33 to 48.
unfoldable pub type_of : IkePayload → ℕ
type_of (security_association x) = 33
type_of (key_exchange x) = 34
type_of (identification_initiator x) = 35
type_of (identification_responder x) = 36
type_of (certificate x) = 37
type_of (certificate_request x) = 38
type_of (authentication x) = 39
type_of (nonce x) = 40
type_of (notify x) = 41
type_of (delete x) = 42
type_of (vendor_id x) = 43
type_of (traffic_selector_initiator x) = 44
type_of (traffic_selector_responder x) = 45
type_of (encrypted x) = 46
type_of (configuration x) = 47
type_of (payload_eap x) = 48

-- `Marshal` of the interface
unfoldable pub marshal : IkePayload → Result Bytes
marshal (security_association x) = SecurityAssociation.marshal x
marshal (key_exchange x) = KeyExchange.marshal x
marshal (identification_initiator x) = IdentificationInitiator.marshal x
marshal (identification_responder x) = IdentificationResponder.marshal x
marshal (certificate x) = Certificate.marshal x
marshal (certificate_request x) = CertificateRequest.marshal x
marshal (authentication x) = Authentication.marshal x
marshal (nonce x) = Nonce.marshal x
marshal (notify x) = Notification.marshal x
marshal (delete x) = Delete.marshal x
marshal (vendor_id x) = VendorId.marshal x
marshal (traffic_selector_initiator x) = TrafficSelectorInitiator.marshal x
marshal (traffic_selector_responder x) = TrafficSelectorResponder.marshal x
marshal (encrypted x) = Encrypted.marshal x
marshal (configuration x) = Configuration.marshal x
marshal (payload_eap x) = Packet.marshal x

-- `Unmarshal` of the interface; Delete also reads the bytes of the array behind its slice.
unfoldable pub unmarshal : IkePayload → Bytes → Bytes → Result IkePayload
unmarshal (security_association x) b spare = do
  y ← Reader.unmarshal x b
  ok (security_association y)
unmarshal (key_exchange x) b spare = do y ← KeyExchange.unmarshal x b; ok (key_exchange y)
unmarshal (identification_initiator x) b spare = do
  y ← IdentificationInitiator.unmarshal x b
  ok (identification_initiator y)
unmarshal (identification_responder x) b spare = do
  y ← IdentificationResponder.unmarshal x b
  ok (identification_responder y)
unmarshal (certificate x) b spare = do y ← Certificate.unmarshal x b; ok (certificate y)
unmarshal (certificate_request x) b spare = do
  y ← CertificateRequest.unmarshal x b
  ok (certificate_request y)
unmarshal (authentication x) b spare = do y ← Authentication.unmarshal x b; ok (authentication y)
unmarshal (nonce x) b spare = do y ← Nonce.unmarshal x b; ok (nonce y)
unmarshal (notify x) b spare = do y ← Notification.unmarshal x b; ok (notify y)
unmarshal (delete x) b spare = do y ← Delete.unmarshal x b spare; ok (delete y)
unmarshal (vendor_id x) b spare = do y ← VendorId.unmarshal x b; ok (vendor_id y)
unmarshal (traffic_selector_initiator x) b spare = do
  y ← TrafficSelectorInitiator.unmarshal x b
  ok (traffic_selector_initiator y)
unmarshal (traffic_selector_responder x) b spare = do
  y ← TrafficSelectorResponder.unmarshal x b
  ok (traffic_selector_responder y)
unmarshal (encrypted x) b spare = do y ← Encrypted.unmarshal x b; ok (encrypted y)
unmarshal (configuration x) b spare = do y ← Configuration.unmarshal x b; ok (configuration y)
unmarshal (payload_eap x) b spare = do y ← Packet.unmarshal x b; ok (payload_eap y)

-- The switch of the chain's parser: a new payload of a known type, to which an Encrypted payload
-- notes the type of its first inner payload.
unfoldable pub new_payload : ℕ → ℕ → Option IkePayload
new_payload kind first_inner =
    if kind == 33
    then some (security_association SecurityAssociation.empty)
    else if kind == 34
    then some (key_exchange KeyExchange.empty)
    else if kind == 35
    then some (identification_initiator IdentificationInitiator.empty)
    else if kind == 36
    then some (identification_responder IdentificationResponder.empty)
    else if kind == 37
    then some (certificate Certificate.empty)
    else if kind == 38
    then some (certificate_request CertificateRequest.empty)
    else if kind == 39
    then some (authentication Authentication.empty)
    else if kind == 40
    then some (nonce Nonce.empty)
    else if kind == 41
    then some (notify Notification.empty)
    else if kind == 42
    then some (delete Delete.empty)
    else if kind == 43
    then some (vendor_id VendorId.empty)
    else if kind == 44
    then some (traffic_selector_initiator TrafficSelectorInitiator.empty)
    else if kind == 45
    then some (traffic_selector_responder TrafficSelectorResponder.empty)
    else if kind == 46
    then some (encrypted (record Encrypted.empty { next_payload = first_inner }))
    else if kind == 47
    then some (configuration Configuration.empty)
    else if kind == 48
    then some (payload_eap Packet.empty)
    else none
