-- ===== src/Message/Header/Laws.antt =====
-- The header's round trips, its errors, and its flags.
use ike.Base.{
  Bool, Returns, Returns-reject_if, arith, false, length, ltb, not, ok, refl, returns_ok, true, ℕ,
  ◌+◌, ◌<◌, ◌>>=◌, ◌^◌, ◌≡◌,
}
use ike.Base.Bytes.{Bytes, index, slice, slice_from, slice_to, uint32, uint64}
use ike.Base.Bits.{nibbles_split}
use ike.Base.Reads.{
  Returns-index, Returns-slice, Returns-slice_from, Returns-slice_to, Returns-uint32,
  Returns-uint64, passed,
}
use ike.Message.Header.{
  IkeHeader, ike_header_len, is_initiator, is_request, is_responder, is_response, marshal,
  new_header, parse_header,
}

-- Every field fits its width, and the version its two half bytes.
pub record IsWf (h : IkeHeader) : Type 0 where
  pub initiator : h.initiator_spi < 2 ^ 64
  pub responder : h.responder_spi < 2 ^ 64
  pub major : h.major_version < 16
  pub minor : h.minor_version < 16
  pub id : h.message_id < 2 ^ 32
  pub total : ike_header_len + length h.payload_bytes < 2 ^ 32

-- Marshalling a header whose fields fit and parsing the result gives the header back.
pub parse_header-marshal : (h : IkeHeader) → IsWf h → (marshal h >>= parse_header) ≡ ok h
unfolding marshal parse_header uint32 uint64 slice slice_to slice_from index
parse_header-marshal h w = ground (arith, nibbles_split h.major_version h.minor_version)

-- Parsing any bytes whatever returns a header or an error: no read is out of range.
pub parse_header-Returns : (b : Bytes) → Returns (parse_header b)
unfolding parse_header
parse_header-Returns b = Returns-reject_if (ltb (length b) 28) _ _ λ p.
    Returns-slice b 24 28 _ (omega passed) (omega passed) λ s l.
      Returns-uint32 s _ (omega arith) λ n. Returns-reject_if (ltb n 28) _ _ λ q.
        Returns-slice_to b 8 _ (omega passed) λ s l. Returns-uint64 s _ (omega arith) λ n.
          Returns-slice b 8 16 _ (omega passed) (omega passed) λ s l.
            Returns-uint64 s _ (omega arith) λ n. Returns-index b 16 _ (omega passed) λ n.
              Returns-index b 17 _ (omega passed) λ n. Returns-index b 18 _ (omega passed) λ n.
                Returns-index b 19 _ (omega passed) λ n.
                  Returns-slice b 20 24 _ (omega passed) (omega passed) λ s l.
                    Returns-uint32 s _ (omega arith)
                      λ n. Returns-slice_from b 28 _ (omega passed) λ s l. returns_ok _

-- The flags of a new header answer the two questions it was made with, and their negations.
pub new_header_flags :
    (i r x : ℕ) (response initiator : Bool) (m n : ℕ) (b : Bytes)
    → let h : IkeHeader = new_header i r x response initiator m n b in
      (is_response h ≡ response)
      × (is_request h ≡ not response)
      × (is_initiator h ≡ initiator)
      × (is_responder h ≡ not initiator)
unfolding new_header is_response is_request is_initiator is_responder
new_header_flags i r x true true m n b = (refl, refl, refl, refl)
new_header_flags i r x true false m n b = (refl, refl, refl, refl)
new_header_flags i r x false true m n b = (refl, refl, refl, refl)
new_header_flags i r x false false m n b = (refl, refl, refl, refl)
