-- ===== src/Message/Build/Laws.antt =====
-- What is built can be sent and is received.
use ike.Base.{
  Bool, List, Option, [], arith, bind_inversion, err, false, if◌then◌else◌, inl, inr, length,
  length-append, ltb, none, ok, refl, some, subst, too_long, true, ℕ, ◌++◌, ◌+◌, ◌<◌, ◌>>=◌, ◌^◌,
  ◌∷◌, ◌≡◌, ◌≢◌, ◌⊎◌,
}
use ike.Base.Bytes.{Bytes, put_uint16}
use ike.Message.SecurityAssociation.{Transform, empty_transform}
use ike.Message.SecurityAssociation.Transforms.{Tlv, TransformFits}
use ike.Eap.Packet.{expanded}
use ike.Message.Payload.{IkePayload, notify, payload_eap, vendor_id}
use ike.Message.Payload
use ike.Message.Container
use ike.Message.Container.Laws.{container_round_trip}
use ike.Message.Build.{build_notification, build_transform, new_transform}
use ike.Message.Build.Vendor.{build_eap_5g_nas, build_notify_5g_qos_info}

-- The payload that carries a NAS message.
abbrev pub nas_payload : ℕ → Bytes → IkePayload
nas_payload id nas_pdu = payload_eap (record {
  code = 1;
  identifier = id;
  eap_type_data = some (
      expanded (record {
        vendor_id = 10415;
        vendor_type = 3;
        vendor_data = 2 ∷ 0 ∷ (put_uint16 (length nas_pdu) ++ nas_pdu);
      }));
})

nas_built :
    (id : ℕ) (nas_pdu : Bytes) (chain : List IkePayload)
    → build_eap_5g_nas [] id nas_pdu ≡ ok chain
    → chain ≡ nas_payload id nas_pdu ∷ []
unfolding build_eap_5g_nas
nas_built id nas_pdu chain e = ground arith

-- A NAS message in a chain of its own that can be built and encoded is received as it was built: an
-- EAP request of the expanded type of 3GPP with the message behind its length.
pub nas_round_trip :
    (id : ℕ) (nas_pdu behind : Bytes) {b : Bytes}
    → (build_eap_5g_nas [] id nas_pdu >>= Container.encode) ≡ ok b
    → Container.decode [] 48 b behind ≡ ok (nas_payload id nas_pdu ∷ [])
unfolding Payload.type_of
nas_round_trip id nas_pdu behind {b} e =
    let (chain, built, sent) = bind_inversion (build_eap_5g_nas [] id nas_pdu) Container.encode e in
    let alone : chain ≡ nas_payload id nas_pdu ∷ [] = nas_built id nas_pdu chain built in
    container_round_trip (nas_payload id nas_pdu ∷ []) behind ((omega arith, omega arith), tt)
      (subst (λ c. Container.encode c ≡ ok b) alone sent)

-- A QoS notification is built exactly if its data, which begin with their own length, have at most
-- 255 bytes; the data are the session, the flows behind their number, the flags, and the code point
-- if it is specified.
pub qos_notification :
    (container : List IkePayload) (session : ℕ) (flows : Bytes) (is_default has_dscp : Bool)
    (dscp : ℕ)
    → let n : ℕ = (if has_dscp then 5 else 4) + length flows in
      build_notify_5g_qos_info container session flows is_default has_dscp dscp ≡ (
        if ltb 255 n
        then err too_long
        else ok (
            container
            ++ (notify (record {
              protocol_id = 0;
              notify_message_type = 55501;
              spi = [];
              notification_data =
                  n
                  ∷ session
                  ∷ length flows
                  ∷ (flows
                      ++ (((if is_default then 2 else 0) + (if has_dscp then 1 else 0))
                          ∷ (if has_dscp then dscp ∷ [] else [])));
            })
                ∷ [])))
unfolding build_notify_5g_qos_info build_notification
qos_notification container session flows true true dscp =
    ground (arith, length-append flows (3 ∷ dscp ∷ []))
qos_notification container session flows true false dscp =
    ground (arith, length-append flows (2 ∷ []))
qos_notification container session flows false true dscp =
    ground (arith, length-append flows (1 ∷ dscp ∷ []))
qos_notification container session flows false false dscp =
    ground (arith, length-append flows (0 ∷ []))

-- The numbers fit their fields.
abbrev pub FitsBelow : ℕ → Option ℕ → Type 0
FitsBelow n none = Unit
FitsBelow n (some x) = x < n

-- A transform that is built is one that the writer of Security Associations and the parser agree
-- on, of the type asked for, where its numbers fit, the attribute type 7 bits; none is built exactly
-- if there is an attribute type with no value of either kind.
pub build_transform-Fits :
    (container : List Transform) (kind id : ℕ) (attribute_type attribute_value : Option ℕ)
    (variable : Bytes)
    → id < 2 ^ 16
    → FitsBelow 128 attribute_type
    → FitsBelow (2 ^ 16) attribute_value
    → 12 + length variable < 2 ^ 16
    → ((build_transform container kind id attribute_type attribute_value variable ≡ container)
        × (attribute_type ≢ none)
        × (attribute_value ≡ none)
        × (length variable ≡ 0))
      ⊎ ((t : Transform) × (build_transform container kind id attribute_type attribute_value
              variable
            ≡ container ++ (t ∷ []))
          × TransformFits t
          × (t.transform_type ≡ kind))
unfolding build_transform new_transform
build_transform-Fits container kind id none v variable hi ht hv hl = inr (
  _,
  refl,
  inl (record { id = hi; absent = refl; no_format = refl; no_type = refl; no_value = refl }),
  refl,
)
build_transform-Fits container kind id (some t) (some v) variable hi ht hv hl = inr (
  _,
  refl,
  inr (inl (record { id = hi; present = refl; format = refl; kind = ht; value = hv })),
  refl,
)
build_transform-Fits container kind id (some t) none [] hi ht hv hl =
    inl (refl, λ e. cc, refl, refl)
build_transform-Fits container kind id (some t) none (x ∷ variable) hi ht hv hl =
    let built : Transform = record empty_transform {
      transform_type = kind;
      transform_id = id;
      attribute_present = true;
      attribute_type = t;
      attribute_format = 0;
      variable_length_attribute_value = x ∷ variable;
    } in
    let fits : Tlv built = record {
      id = hi;
      present = refl;
      format = refl;
      kind = ht;
      no_value = refl;
      some_value = omega arith;
      length_fits = hl;
    } in
    inr (built, ground arith, inr (inr fits), refl)
