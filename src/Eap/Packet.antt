-- ===== src/Eap/Packet.antt =====
-- eap/eap.go: the EAP packet. `EapTypeData`, an interface, is a data type with a case for each type
-- that implements it.
pub mod Laws
use ike.Base.Bytes.{Bytes, index, put_uint16, slice, slice_from, uint16}
use ike.Base.{
  Option, Result, [], bad_eap_type, err, if◌then◌else◌, length, length_mismatch, ltb, none, not, ok,
  reject_if, some, too_long, too_short, too_small, ℕ, ◌&&◌, ◌++◌, ◌+◌, ◌==◌, ◌>>=◌, ◌>>◌, ◌||◌, ◌∷◌,
}
use ike.Eap.Types.{
  eap_code_request, eap_code_response, eap_type_aka_prime, eap_type_expanded, eap_type_identity,
  eap_type_md5, eap_type_nak, eap_type_notification,
}
use ike.Eap.Identity
use ike.Eap.Identity.{EapIdentity}
use ike.Eap.Notification
use ike.Eap.Notification.{EapNotification}
use ike.Eap.Nak
use ike.Eap.Nak.{EapNak}
use ike.Eap.Md5
use ike.Eap.Md5.{EapMd5}
use ike.Eap.AkaPrime
use ike.Eap.AkaPrime.{EapAkaPrime}
use ike.Eap.AkaPrime.Reader
use ike.Eap.Expanded
use ike.Eap.Expanded.{EapExpanded}

pub data EapTypeData : Type 0 where
  identity : EapIdentity → EapTypeData
  notification : EapNotification → EapTypeData
  nak : EapNak → EapTypeData
  md5 : EapMd5 → EapTypeData
  aka_prime : EapAkaPrime → EapTypeData
  expanded : EapExpanded → EapTypeData

-- `Type`
unfoldable pub type_of : EapTypeData → ℕ
type_of (identity x) = eap_type_identity
type_of (notification x) = eap_type_notification
type_of (nak x) = eap_type_nak
type_of (md5 x) = eap_type_md5
type_of (aka_prime x) = eap_type_aka_prime
type_of (expanded x) = eap_type_expanded

-- `Marshal` of the interface
unfoldable pub marshal_data : EapTypeData → Result Bytes
marshal_data (identity x) = Identity.marshal x
marshal_data (notification x) = Notification.marshal x
marshal_data (nak x) = Nak.marshal x
marshal_data (md5 x) = Md5.marshal x
marshal_data (aka_prime x) = AkaPrime.marshal x
marshal_data (expanded x) = Expanded.marshal x

-- A nil `EapTypeData` is `none`.
pub record Eap : Type 0 where
  pub code : ℕ
  pub identifier : ℕ
  pub eap_type_data : Option EapTypeData

-- `new(EAP)`
abbrev pub empty : Eap
empty = record { code = 0; identifier = 0; eap_type_data = none }

unfoldable pub optional_data : Option EapTypeData → Result Bytes
optional_data none = ok []
optional_data (some d) = marshal_data d

unfoldable pub marshal : Eap → Result Bytes
marshal x = do
  type_data ← optional_data x.eap_type_data
  let data_len = 4 + length type_data
  reject_if (ltb 65535 data_len) too_long
  ok (x.code ∷ x.identifier ∷ (put_uint16 data_len ++ type_data))

-- The switch on the type, and `Unmarshal` of the interface on a new value.
unfoldable pub read_data : ℕ → Bytes → Result EapTypeData
read_data kind b =
    if kind == eap_type_identity
    then (do x ← Identity.unmarshal Identity.empty b; ok (identity x))
    else if kind == eap_type_notification
    then (do x ← Notification.unmarshal Notification.empty b; ok (notification x))
    else if kind == eap_type_nak
    then (do x ← Nak.unmarshal Nak.empty b; ok (nak x))
    else if kind == eap_type_md5
    then (do x ← Md5.unmarshal Md5.empty b; ok (md5 x))
    else if kind == eap_type_aka_prime
    then (do x ← Reader.unmarshal AkaPrime.empty b; ok (aka_prime x))
    else if kind == eap_type_expanded
    then (do x ← Expanded.unmarshal Expanded.empty b; ok (expanded x))
    else err bad_eap_type

-- The type data, for a packet longer than its header.
unfoldable pub read_typed : Eap → ℕ → ℕ → Bytes → Result Eap
read_typed x new_code new_identifier b = do
  kind ← index b 4
  rest ← slice_from b 4
  d ← read_data kind rest
  ok (record { code = new_code; identifier = new_identifier; eap_type_data = some d })

unfoldable pub read_from : Eap → Bytes → Result Eap
read_from x b = do
  reject_if (ltb (length b) 4) too_short
  payload_length ← uint16 (← slice b 2 4)
  reject_if (ltb payload_length 4) too_small
  reject_if (not (length b == payload_length)) length_mismatch
  new_code ← index b 0
  new_identifier ← index b 1
  reject_if
      ((new_code == eap_code_request || new_code == eap_code_response) && ltb payload_length 5)
      too_short
  if payload_length == 4
      then ok (record x { code = new_code; identifier = new_identifier })
      else read_typed x new_code new_identifier b

unfoldable pub unmarshal : Eap → Bytes → Result Eap
unfolding read_from
unmarshal x b = if ltb 0 (length b) then read_from x b else ok x
