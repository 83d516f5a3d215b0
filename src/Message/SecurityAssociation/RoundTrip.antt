-- ===== src/Message/SecurityAssociation/RoundTrip.antt =====
-- The parser undoes the writer, but for the values of TLV attributes.
use ike.Base.Bytes.{Bytes, index, slice, slice-append, slice_from, slice_from-eq, slice_to, uint16}
use ike.Base.{
  Bool, List, [], ap, append-nil, append_assoc, arith, bind_inversion, if◌then◌else◌, length,
  length-append, ltb, map, nil_of_length, ok, refl, suc, zero, ℕ, ◌%◌, ◌*◌, ◌++◌, ◌+◌, ◌-◌, ◌/◌,
  ◌<◌, ◌^◌, ◌∙◌, ◌∷◌, ◌≡◌, ◌≤◌,
}
use ike.Message.SecurityAssociation.{
  Proposal, SecurityAssociation, append_proposals, empty, empty_proposal, marshal, proposal_bytes,
  proposal_layout, transform_list,
}
use ike.Message.SecurityAssociation.Reader.{
  read_proposal, read_proposals, read_spi, read_transforms, unmarshal,
}
use ike.Message.SecurityAssociation.Proposals.{
  ProposalFits, bare, forget_proposal, sorted_again, transform_list-AllWritten,
  transforms_round_trip,
}

-- The parts of a proposal's bytes.
module _ (a b c d e f g h : ℕ) (s t behind : Bytes) where
  abbrev front : Bytes
  front = a ∷ b ∷ c ∷ d ∷ e ∷ f ∷ g ∷ h ∷ []

  abbrev whole : Bytes
  whole = front ++ ((s ++ t) ++ behind)

  length_field : slice whole 2 4 ≡ ok (c ∷ d ∷ [])
  unfolding slice slice_to
  length_field = refl

  spi_field : slice whole 8 (8 + length s) ≡ ok s
  spi_field =
      rw (append_assoc s t behind) (slice-append front s (t ++ behind) 8 (8 + length s) refl refl)

  transforms_field : slice whole (8 + length s) (8 + (length s + length t)) ≡ ok t
  transforms_field = rw (append_assoc s t behind) (
      slice-append (front ++ s) t behind (8 + length s) (8 + (length s + length t)) (omega arith)
        (omega arith))

  behind_proposal : slice_from whole (8 + (length s + length t)) ≡ ok behind
  behind_proposal =
      slice_from-eq (front ++ (s ++ t)) behind (8 + (length s + length t))
        (omega (arith, length-append s t))

  -- Reading a proposal whose SPI ends inside it comes down to reading its transforms.
  read_proposal_parts :
      {p : Proposal}
      → c * 256 + d ≡ 8 + (length s + length t)
      → g ≡ length s
      → length s < 248
      → read_transforms
          (length t)
          (record empty_proposal { proposal_number = e; protocol_id = f; spi = s })
          t
        ≡ ok p
      → read_proposal whole ≡ ok (p, behind)
  unfolding read_proposal read_spi uint16 index
  read_proposal_parts size spi_size small read = ground (
    arith,
    length_field,
    spi_field,
    transforms_field,
    behind_proposal,
    length-append (s ++ t) behind,
    length-append s t,
    nil_of_length s,
  )

-- A proposal that the writer accepts is read back, whatever is behind it.
proposal_round_trip :
    (more : Bool) (p : Proposal) {b : Bytes}
    → ProposalFits p
    → proposal_bytes more p ≡ ok b
    → (8 ≤ length b)
      × ((behind : Bytes) → read_proposal (b ++ behind) ≡ ok (forget_proposal p, behind))
unfolding proposal_bytes
proposal_round_trip more p {b} w e =
    let (d, written, back) =
      transforms_round_trip (transform_list p) [] (transform_list-AllWritten p w) in
    let layout : b ≡ proposal_layout more p d = ground arith in
    let size : 8 + (length p.spi + length d) < 2 ^ 16 = ground arith in
    let n = 8 + (length p.spi + length d) in
    rw layout (
      omega arith,
      λ behind.
          read_proposal_parts (if more then 2 else 0) 0 (n / 256 % 256) (n % 256) p.proposal_number
            p.protocol_id (length p.spi) (length (transform_list p)) p.spi d behind (omega arith)
            refl w.spi_fits (back (length d) (bare p) (omega arith) ∙ ap ok (sorted_again p w)),
    )

abbrev pub AllProposalsFit : List Proposal → Type 0
AllProposalsFit [] = Unit
AllProposalsFit (p ∷ rest) = ProposalFits p × AllProposalsFit rest

read_proposals_step :
    (fuel : ℕ) (out : List Proposal) (b : Bytes) {p : Proposal} {behind : Bytes}
    → read_proposal b ≡ ok (p, behind)
    → (0 < length b) × (length b ≤ fuel)
    → read_proposals fuel out b ≡ read_proposals (fuel - 1) (out ++ (p ∷ [])) behind
unfolding read_proposals
read_proposals_step fuel out [] e h = absurd (omega arith)
read_proposals_step zero out (c ∷ b) e h = absurd (omega arith)
read_proposals_step (suc fuel) out (c ∷ b) e h =
    let less : suc fuel - 1 ≡ fuel = omega arith in rw (e, less)

proposals_round_trip :
    (all : List Proposal) (out : Bytes) {b : Bytes}
    → AllProposalsFit all
    → append_proposals out all ≡ ok b
    → (d : Bytes) × (b ≡ out ++ d)
      × ((fuel : ℕ) (before : List Proposal)
          → length d ≤ fuel
          → read_proposals fuel before d ≡ ok (before ++ map forget_proposal all))
unfolding append_proposals
proposals_round_trip [] out h e = (
  [],
  ground (arith, append-nil out),
  λ fuel before f. rw append-nil (unfold read_proposals in refl),
)
proposals_round_trip (p ∷ rest) out (hp, hrest) e =
    let (d, written, rest_written) = bind_inversion (proposal_bytes (ltb 0 (length rest)) p) _ e in
    let (long, back) = proposal_round_trip (ltb 0 (length rest)) p hp written in
    let (r, is_r, rest_back) = proposals_round_trip rest (out ++ d) hrest rest_written in
    (
      d ++ r,
      is_r ∙ append_assoc out d r,
      λ fuel before f.
          read_proposals_step fuel before (d ++ r) (back r) (omega (arith, length-append d r))
          ∙ rest_back (fuel - 1) (before ++ (forget_proposal p ∷ []))
              (omega (arith, length-append d r))
          ∙ ap ok (append_assoc before (forget_proposal p ∷ []) (map forget_proposal rest)),
    )

-- A Security Association that fits and that the writer accepts, the parser reads back with all of its
-- fields, but for the variable-length values of attributes, which are lost. It fits where SPIs have at
-- most 247 bytes, and each transform is in the list of its type, has an identifier of 16 bits and one
-- of three attributes: none, with its format, type and value 0; type and value, of format 1, with a
-- type below 128 and a value of 16 bits; or type, length and value, of format 0, with a type below
-- 128, a value field of 0, and a variable-length value of at least one byte that ends, behind the 12
-- bytes of the transform, within 16 bits.
pub association_round_trip :
    (x : SecurityAssociation) {b : Bytes}
    → AllProposalsFit x.proposals
    → marshal x ≡ ok b
    → unmarshal empty b ≡ ok (record { proposals = map forget_proposal x.proposals })
unfolding marshal unmarshal
association_round_trip x h e =
    let (d, is_d, back) = proposals_round_trip x.proposals [] h e in
    rw is_d (rw (back (length d) [] (omega arith)))
