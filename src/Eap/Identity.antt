-- ===== src/Eap/Identity.antt =====
-- eap/eap_identity.go: type data of one type byte and bytes that are not looked into.
use ike.Base.Reads.{Returns-index, Returns-slice_from}
use ike.Base.Bytes.{Bytes, index, slice_from}
use ike.Base.{
  Result, Returns, Returns-if, Returns-reject_if, [], arith, bad_eap_type, empty_data, err,
  if◌then◌else◌, length, ltb, ltb→lt, not, ok, reject_if, returns_ok, ◌++◌, ◌==◌, ◌>>=◌, ◌>>◌, ◌∷◌,
  ◌≡◌,
}
use ike.Eap.Types.{eap_type_identity}

pub record EapIdentity : Type 0 where
  pub identity_data : Bytes

-- `new(EapIdentity)`
abbrev pub empty : EapIdentity
empty = record { identity_data = [] }

unfoldable pub marshal : EapIdentity → Result Bytes
marshal x = do
  reject_if (length x.identity_data == 0) empty_data
  ok (eap_type_identity ∷ x.identity_data)

read_from : EapIdentity → Bytes → Result EapIdentity
read_from x b = do
  type_code ← index b 0
  reject_if (not (type_code == eap_type_identity)) bad_eap_type
  rest ← slice_from b 1
  ok (record { identity_data = x.identity_data ++ rest })

unfoldable pub unmarshal : EapIdentity → Bytes → Result EapIdentity
unfolding read_from
unmarshal x b = if ltb 1 (length b) then read_from x b else ok x

unfoldable pub set_identity_data : EapIdentity → Bytes → EapIdentity
set_identity_data x identity = record x { identity_data = identity }

-- A string is the list of its bytes.
unfoldable pub set_identity_data_string : EapIdentity → Bytes → EapIdentity
unfolding set_identity_data
set_identity_data_string x identity = set_identity_data x identity

-- The parser undoes the writer, which refuses to write no data.
pub identity_round_trip :
    (x : EapIdentity)
    → (marshal x >>= unmarshal empty)
      ≡ (if length x.identity_data == 0 then err empty_data else ok x)
unfolding marshal unmarshal slice_from index
identity_round_trip x = ground arith

pub unmarshal-Returns : (x : EapIdentity) (b : Bytes) → Returns (unmarshal x b)
unfolding unmarshal
unmarshal-Returns x b =
    Returns-if (ltb 1 (length b)) _ _
      (λ long. Returns-index b 0 _ (omega (arith, ltb→lt 1 (length b) long)) λ n.
        Returns-reject_if (not (n == eap_type_identity)) _ _ λ _.
          Returns-slice_from b 1 _ (omega (arith, ltb→lt 1 (length b) long)) λ _ _. returns_ok _)
      (λ short. returns_ok x)
