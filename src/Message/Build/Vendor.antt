-- ===== src/Message/Build/Vendor.antt =====
-- message/build.go: EAP packets, EAP-5G and the notifications of 3GPP.
use Prim.Native.String.{String}
use text.Mathlib.Text.{◌==◌ as str_eq}
use ike.Base.{
  Bool, List, Option, Result, [], bit_or, empty_data, if◌then◌else◌, length, ltb, none, ok,
  reject_if, some, too_long, ℕ, ◌++◌, ◌+◌, ◌==◌, ◌>>◌, ◌∷◌,
}
use ike.Base.Bytes.{Bytes, put_uint16}
use ike.Eap.Types.{eap_code_failure, eap_code_request, eap_code_success}
use ike.Eap.Packet.{EapTypeData, expanded}
use ike.Eap.Expanded.{EapExpanded, vendor_id_3gpp, vendor_type_eap5g}
use ike.Message.Payload.{IkePayload, payload_eap}
use ike.Message.Build.{
  bit_dcsi, bit_dscpi, build_notification, notify_5g_qos_info, notify_nas_tcp_port, type_none,
}

-- `EAP5GType5GStart`, `EAP5GType5GNAS` and `EAP5GSpareValue`
abbrev pub eap_5g_start : ℕ
eap_5g_start = 1

abbrev pub eap_5g_nas : ℕ
eap_5g_nas = 2

abbrev pub eap_5g_spare : ℕ
eap_5g_spare = 0

-- `BuildEAP`; the data that a caller sets through the pointer is an argument here.
unfoldable pub build_eap : List IkePayload → ℕ → ℕ → Option EapTypeData → List IkePayload
build_eap container kind id type_data =
    container
    ++ (payload_eap (record { code = kind; identifier = id; eap_type_data = type_data }) ∷ [])

unfoldable pub build_eap_success : List IkePayload → ℕ → List IkePayload
unfolding build_eap
build_eap_success container id = build_eap container eap_code_success id none

unfoldable pub build_eap_failure : List IkePayload → ℕ → List IkePayload
unfolding build_eap
build_eap_failure container id = build_eap container eap_code_failure id none

abbrev pub build_eap_expanded : ℕ → ℕ → Bytes → EapExpanded
build_eap_expanded vendor kind data_bytes = record {
  vendor_id = vendor;
  vendor_type = kind;
  vendor_data = data_bytes;
}

unfoldable pub build_eap_5g_start : List IkePayload → ℕ → List IkePayload
unfolding build_eap
build_eap_5g_start container id = build_eap container eap_code_request id (
    some (
      expanded
        (build_eap_expanded vendor_id_3gpp vendor_type_eap5g (eap_5g_start ∷ eap_5g_spare ∷ []))))

unfoldable pub build_eap_5g_nas : List IkePayload → ℕ → Bytes → Result (List IkePayload)
unfolding build_eap
build_eap_5g_nas container id nas_pdu = do
  reject_if (length nas_pdu == 0) empty_data
  reject_if (ltb 0xffff (length nas_pdu)) too_long
  let header = eap_5g_nas ∷ 0 ∷ put_uint16 (length nas_pdu)
  ok (
      build_eap container eap_code_request id
        (some (expanded (build_eap_expanded vendor_id_3gpp vendor_type_eap5g (header ++ nas_pdu)))))

-- The flags of 5G_QOS_INFO: `|=` on a uint8 that is 0.
abbrev pub qos_flags : Bool → Bool → ℕ
qos_flags is_default is_dscp_specified =
    let with_default = if is_default then bit_or 0 bit_dcsi else 0 in
    if is_dscp_specified then bit_or with_default bit_dscpi else with_default

-- `notifyData` behind its length byte
abbrev pub qos_fields : ℕ → Bytes → Bool → Bool → ℕ → Bytes
qos_fields pdu_session_id qfi_list is_default is_dscp_specified dscp =
    pdu_session_id
    ∷ length qfi_list
    ∷ (qfi_list
        ++ (qos_flags is_default is_dscp_specified ∷ (if is_dscp_specified then dscp ∷ [] else [])))

unfoldable pub build_notify_5g_qos_info :
    List IkePayload → ℕ → Bytes → Bool → Bool → ℕ → Result (List IkePayload)
build_notify_5g_qos_info container pdu_session_id qfi_list is_default is_dscp_specified dscp = do
  reject_if (ltb 0xff (length qfi_list)) too_long
  let fields = qos_fields pdu_session_id qfi_list is_default is_dscp_specified dscp
  let notify_data_len = 1 + length fields
  reject_if (ltb 0xff notify_data_len) too_long
  ok (build_notification container type_none notify_5g_qos_info [] (notify_data_len ∷ fields))

abbrev pub notify_nas_ip4_address : ℕ
notify_nas_ip4_address = 55502

abbrev pub notify_up_ip4_address : ℕ
notify_up_ip4_address = 55504

-- `net.ParseIP(s).To4()` is an argument: the four bytes of the address, or nil.
unfoldable pub build_notify_nas_ip4_address :
    (String → Bytes) → List IkePayload → String → List IkePayload
build_notify_nas_ip4_address parse_ip4 container nas_ip_addr =
    if str_eq nas_ip_addr ""
    then container
    else build_notification container type_none notify_nas_ip4_address [] (parse_ip4 nas_ip_addr)

unfoldable pub build_notify_up_ip4_address :
    (String → Bytes) → List IkePayload → String → List IkePayload
build_notify_up_ip4_address parse_ip4 container up_ip_addr =
    if str_eq up_ip_addr ""
    then container
    else build_notification container type_none notify_up_ip4_address [] (parse_ip4 up_ip_addr)

unfoldable pub build_notify_nas_tcp_port : List IkePayload → ℕ → List IkePayload
build_notify_nas_tcp_port container port =
    if port == 0
    then container
    else build_notification container type_none notify_nas_tcp_port [] (put_uint16 port)
