-- ===== src/Eap/Nak.antt =====
-- eap/eap_nak.go: type data of one type byte and bytes that are not looked into.
use ike.Base.Reads.{Returns-index, Returns-slice_from}
use ike.Base.Bytes.{Bytes, index, slice_from}
use ike.Base.{
  Result, Returns, Returns-if, Returns-reject_if, [], arith, bad_eap_type, empty_data, err,
  if◌then◌else◌, length, ltb, ltb→lt, not, ok, reject_if, returns_ok, ◌++◌, ◌==◌, ◌>>=◌, ◌>>◌, ◌∷◌,
  ◌≡◌,
}
use ike.Eap.Types.{eap_type_nak}

pub record EapNak : Type 0 where
  pub nak_data : Bytes

-- `new(EapNak)`
abbrev pub empty : EapNak
empty = record { nak_data = [] }

unfoldable pub marshal : EapNak → Result Bytes
marshal x = do reject_if (length x.nak_data == 0) empty_data; ok (eap_type_nak ∷ x.nak_data)

read_from : EapNak → Bytes → Result EapNak
read_from x b = do
  type_code ← index b 0
  reject_if (not (type_code == eap_type_nak)) bad_eap_type
  rest ← slice_from b 1
  ok (record { nak_data = x.nak_data ++ rest })

unfoldable pub unmarshal : EapNak → Bytes → Result EapNak
unfolding read_from
unmarshal x b = if ltb 1 (length b) then read_from x b else ok x

-- The parser undoes the writer, which refuses to write no data.
pub nak_round_trip :
    (x : EapNak)
    → (marshal x >>= unmarshal empty) ≡ (if length x.nak_data == 0 then err empty_data else ok x)
unfolding marshal unmarshal slice_from index
nak_round_trip x = ground arith

pub unmarshal-Returns : (x : EapNak) (b : Bytes) → Returns (unmarshal x b)
unfolding unmarshal
unmarshal-Returns x b =
    Returns-if (ltb 1 (length b)) _ _
      (λ long. Returns-index b 0 _ (omega (arith, ltb→lt 1 (length b) long)) λ n.
        Returns-reject_if (not (n == eap_type_nak)) _ _ λ _.
          Returns-slice_from b 1 _ (omega (arith, ltb→lt 1 (length b) long)) λ _ _. returns_ok _)
      (λ short. returns_ok x)
