-- ===== src/Message/Payload/Safety.antt =====
-- The payloads' parsers on every input.
use ike.Base.{Result, Returns, Returns-bind, Returns-ne-stuck, ok, returns_ok, stuck, ◌>>=◌, ◌≢◌}
use ike.Base.Bytes.{Bytes}
use ike.Base.Progress.{>>=-ne-stuck}
use ike.Message.SecurityAssociation.Reader
use ike.Message.SecurityAssociation.Safety as AssociationSafety
use ike.Message.KeyExchange
use ike.Message.IdentificationInitiator
use ike.Message.IdentificationResponder
use ike.Message.Certificate
use ike.Message.CertificateRequest
use ike.Message.Authentication
use ike.Message.Nonce
use ike.Message.Notification
use ike.Message.Delete
use ike.Message.Delete.Laws as DeleteLaws
use ike.Message.VendorId
use ike.Message.TrafficSelectorInitiator
use ike.Message.TrafficSelectorResponder
use ike.Message.Encrypted
use ike.Message.Configuration
use ike.Message.Configuration.Safety as ConfigurationSafety
use ike.Eap.Packet
use ike.Eap.Packet.Laws as PacketLaws
use ike.Message.Payload.{
  IkePayload, authentication, certificate, certificate_request, configuration, delete, encrypted,
  identification_initiator, identification_responder, key_exchange, nonce, notify, payload_eap,
  security_association, traffic_selector_initiator, traffic_selector_responder, unmarshal,
  vendor_id,
}

-- The payloads whose parsers never panic: all but Security Association, Notification, Delete and
-- Configuration.
abbrev pub IsSafe : IkePayload → Type 0
IsSafe (security_association x) = ⊥
IsSafe (notify x) = ⊥
IsSafe (delete x) = ⊥
IsSafe (configuration x) = ⊥
IsSafe p = Unit

wrapped-Returns {ℓ κ} :
    {A : Type ℓ} {B : Type κ} (m : Result A) (f : A → B) → Returns m → Returns (m >>= λ y. ok (f y))
wrapped-Returns m f r = Returns-bind m _ r λ y _. returns_ok (f y)

wrapped-ne-stuck {ℓ κ} :
    {A : Type ℓ} {B : Type κ} (m : Result A) (f : A → B) → m ≢ stuck → (m >>= λ y. ok (f y)) ≢ stuck
wrapped-ne-stuck m f r = >>=-ne-stuck m _ r λ y _ e. cc

pub unmarshal_safe-Returns :
    (p : IkePayload) (b spare : Bytes) → IsSafe p → Returns (unmarshal p b spare)
unfolding unmarshal
unmarshal_safe-Returns (security_association x) b spare h = absurd h
unmarshal_safe-Returns (notify x) b spare h = absurd h
unmarshal_safe-Returns (delete x) b spare h = absurd h
unmarshal_safe-Returns (configuration x) b spare h = absurd h
unmarshal_safe-Returns (payload_eap x) b spare h =
    wrapped-Returns (Packet.unmarshal x b) payload_eap (PacketLaws.packet-Returns x b)
unmarshal_safe-Returns (key_exchange x) b spare h =
    wrapped-Returns (KeyExchange.unmarshal x b) key_exchange (KeyExchange.unmarshal-Returns x b)
unmarshal_safe-Returns (identification_initiator x) b spare h =
    wrapped-Returns (IdentificationInitiator.unmarshal x b) identification_initiator
      (IdentificationInitiator.unmarshal-Returns x b)
unmarshal_safe-Returns (identification_responder x) b spare h =
    wrapped-Returns (IdentificationResponder.unmarshal x b) identification_responder
      (IdentificationResponder.unmarshal-Returns x b)
unmarshal_safe-Returns (certificate x) b spare h =
    wrapped-Returns (Certificate.unmarshal x b) certificate (Certificate.unmarshal-Returns x b)
unmarshal_safe-Returns (certificate_request x) b spare h =
    wrapped-Returns (CertificateRequest.unmarshal x b) certificate_request
      (CertificateRequest.unmarshal-Returns x b)
unmarshal_safe-Returns (authentication x) b spare h =
    wrapped-Returns (Authentication.unmarshal x b) authentication
      (Authentication.unmarshal-Returns x b)
unmarshal_safe-Returns (nonce x) b spare h =
    wrapped-Returns (Nonce.unmarshal x b) nonce (Nonce.unmarshal-Returns x b)
unmarshal_safe-Returns (vendor_id x) b spare h =
    wrapped-Returns (VendorId.unmarshal x b) vendor_id (VendorId.unmarshal-Returns x b)
unmarshal_safe-Returns (traffic_selector_initiator x) b spare h =
    wrapped-Returns (TrafficSelectorInitiator.unmarshal x b) traffic_selector_initiator
      (TrafficSelectorInitiator.unmarshal-Returns x b)
unmarshal_safe-Returns (traffic_selector_responder x) b spare h =
    wrapped-Returns (TrafficSelectorResponder.unmarshal x b) traffic_selector_responder
      (TrafficSelectorResponder.unmarshal-Returns x b)
unmarshal_safe-Returns (encrypted x) b spare h =
    wrapped-Returns (Encrypted.unmarshal x b) encrypted (Encrypted.unmarshal-Returns x b)

-- No payload's parser is out of fuel.
pub payload-ne-stuck : (p : IkePayload) (b spare : Bytes) → unmarshal p b spare ≢ stuck
unfolding unmarshal
payload-ne-stuck (security_association x) b spare =
    wrapped-ne-stuck (Reader.unmarshal x b) security_association
      (AssociationSafety.association-ne-stuck x b)
payload-ne-stuck (notify x) b spare =
    wrapped-ne-stuck (Notification.unmarshal x b) notify (Notification.unmarshal-ne-stuck x b)
payload-ne-stuck (delete x) b spare =
    wrapped-ne-stuck (Delete.unmarshal x b spare) delete (DeleteLaws.unmarshal-ne-stuck x b spare)
payload-ne-stuck (configuration x) b spare =
    wrapped-ne-stuck (Configuration.unmarshal x b) configuration
      (ConfigurationSafety.configuration-ne-stuck x b)
payload-ne-stuck (payload_eap x) b spare =
    Returns-ne-stuck _ (unfold unmarshal in unmarshal_safe-Returns (payload_eap x) b spare tt)
payload-ne-stuck (key_exchange x) b spare =
    Returns-ne-stuck _ (unmarshal_safe-Returns (key_exchange x) b spare tt)
payload-ne-stuck (identification_initiator x) b spare =
    Returns-ne-stuck _ (unmarshal_safe-Returns (identification_initiator x) b spare tt)
payload-ne-stuck (identification_responder x) b spare =
    Returns-ne-stuck _ (unmarshal_safe-Returns (identification_responder x) b spare tt)
payload-ne-stuck (certificate x) b spare =
    Returns-ne-stuck _ (unmarshal_safe-Returns (certificate x) b spare tt)
payload-ne-stuck (certificate_request x) b spare =
    Returns-ne-stuck _ (unmarshal_safe-Returns (certificate_request x) b spare tt)
payload-ne-stuck (authentication x) b spare =
    Returns-ne-stuck _ (unmarshal_safe-Returns (authentication x) b spare tt)
payload-ne-stuck (nonce x) b spare =
    Returns-ne-stuck _ (unmarshal_safe-Returns (nonce x) b spare tt)
payload-ne-stuck (vendor_id x) b spare =
    Returns-ne-stuck _ (unmarshal_safe-Returns (vendor_id x) b spare tt)
payload-ne-stuck (traffic_selector_initiator x) b spare =
    Returns-ne-stuck _ (unmarshal_safe-Returns (traffic_selector_initiator x) b spare tt)
payload-ne-stuck (traffic_selector_responder x) b spare =
    Returns-ne-stuck _ (unmarshal_safe-Returns (traffic_selector_responder x) b spare tt)
payload-ne-stuck (encrypted x) b spare =
    Returns-ne-stuck _ (unmarshal_safe-Returns (encrypted x) b spare tt)
