-- ===== src/Message/IdentificationInitiator.antt =====
-- message/payload_identificationinitiator.go: the Identification payload of the initiator.
use ike.Base.{
  Result, Returns, Returns-if, Returns-reject_if, [], arith, err, if◌then◌else◌, leb, length, ltb,
  ok, reject_if, returns_ok, too_short, ℕ, ◌++◌, ◌==◌, ◌>>=◌, ◌>>◌, ◌∷◌, ◌≡◌,
}
use ike.Base.Bytes.{Bytes, index, slice_from}
use ike.Base.Reads.{Returns-index, Returns-slice_from, passed}

pub record IdentificationInitiator : Type 0 where
  pub id_type : ℕ
  pub id_data : Bytes

-- `new(IdentificationInitiator)`
abbrev pub empty : IdentificationInitiator
empty = record { id_type = 0; id_data = [] }

unfoldable pub marshal : IdentificationInitiator → Result Bytes
marshal x = ok (x.id_type ∷ 0 ∷ 0 ∷ 0 ∷ x.id_data)

read_from : IdentificationInitiator → Bytes → Result IdentificationInitiator
read_from x b = do
  reject_if (leb (length b) 4) too_short
  first ← index b 0
  rest ← slice_from b 4
  ok (record { id_type = first; id_data = x.id_data ++ rest })

unfoldable pub unmarshal : IdentificationInitiator → Bytes → Result IdentificationInitiator
unfolding read_from
unmarshal x b = if ltb 0 (length b) then read_from x b else ok x

-- The parser undoes the writer, except that it refuses the payload with no identification data.
pub initiator_id_round_trip :
    (x : IdentificationInitiator)
    → (marshal x >>= unmarshal empty) ≡ (if length x.id_data == 0 then err too_short else ok x)
unfolding marshal unmarshal slice_from index
initiator_id_round_trip x = ground arith

pub unmarshal-Returns : (x : IdentificationInitiator) (b : Bytes) → Returns (unmarshal x b)
unfolding unmarshal
unmarshal-Returns x b =
    Returns-if (ltb 0 (length b)) _ _
      (λ some_bytes. Returns-reject_if (leb (length b) 4) _ _ λ p.
        Returns-index b 0 _ (omega passed)
          λ n. Returns-slice_from b 4 _ (omega passed) λ s l. returns_ok _)
      (λ no_bytes. returns_ok x)
