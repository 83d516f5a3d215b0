-- ===== src/Message/SecurityAssociation/Safety.antt =====
-- The parser's loops end on every input, and where the parser panics.
use ike.Base.Reads.{passed}
use ike.Base.Progress.{
  >>=-ne-stuck, Shrinks, Shrinks-bind, Shrinks-ne-stuck, Shrinks-reject_if, Shrinks-slice_from,
  if-ne-stuck, index-ne-stuck, reject_if-ne-stuck, slice-ne-stuck, uint16-ne-stuck,
}
use ike.Base.Bytes.{Bytes, IsByte, index, slice, slice-ok, slice_crossed, slice_to, uint16}
use ike.Base.{
  Bool-cases, List, Result, [], arith, bit_and, err, if◌then◌else◌, inl, inr, length, ltb, not, ok,
  panic, refl, stuck, suc, too_short, zero, ℕ, ◌%◌, ◌&&◌, ◌*◌, ◌++◌, ◌+◌, ◌/◌, ◌<◌, ◌==◌, ◌∷◌, ◌≡◌,
  ◌≢◌, ◌≤◌, ◌⊎◌,
}
use ike.Message.SecurityAssociation.{Proposal, SecurityAssociation, Transform}
use ike.Message.SecurityAssociation.Reader.{
  add_transform, read_attribute, read_proposal, read_proposals, read_spi, read_tlv, read_transform,
  read_transforms, read_tv, unmarshal,
}

read_tlv-ne-stuck : (t : Transform) (n : ℕ) (b : Bytes) → read_tlv t n b ≢ stuck
unfolding read_tlv
read_tlv-ne-stuck t n b = reject_if-ne-stuck (ltb (length b) 12) _ _ (
    >>=-ne-stuck (slice b 10 12) _ (slice-ne-stuck b 10 12) λ s _.
      >>=-ne-stuck (uint16 s) _ (uint16-ne-stuck s) λ size _.
        reject_if-ne-stuck (not ((12 + size) % 65536 == n)) _ _
          (>>=-ne-stuck (slice b 12 ((12 + size) % 65536)) _ (slice-ne-stuck b 12 _) λ _ _ e. cc))

read_tv-ne-stuck : (t : Transform) (b : Bytes) → read_tv t b ≢ stuck
unfolding read_tv
read_tv-ne-stuck t b = reject_if-ne-stuck (ltb (length b) 12) _ _ (
    >>=-ne-stuck (slice b 10 12) _ (slice-ne-stuck b 10 12)
      λ s _. >>=-ne-stuck (uint16 s) _ (uint16-ne-stuck s) λ value _ e. cc)

read_attribute-ne-stuck : (t : Transform) (n : ℕ) (b : Bytes) → read_attribute t n b ≢ stuck
unfolding read_attribute
read_attribute-ne-stuck t n b = reject_if-ne-stuck (ltb (length b) 10) _ _ (
    >>=-ne-stuck (index b 8) _ (index-ne-stuck b 8) λ head _.
      >>=-ne-stuck (slice b 8 10) _ (slice-ne-stuck b 8 10) λ s _.
        >>=-ne-stuck (uint16 s) _ (uint16-ne-stuck s) λ kind _.
          if-ne-stuck (bit_and head 0x80 / 128 == 0) _ _ (read_tlv-ne-stuck _ n b)
            (read_tv-ne-stuck _ b))

read_transform-Shrinks : (b : Bytes) → Shrinks b (read_transform b)
unfolding read_transform
read_transform-Shrinks b = Shrinks-reject_if b (ltb (length b) 8) _ _ λ _.
    Shrinks-bind b (slice b 2 4) _ (slice-ne-stuck b 2 4) λ s.
      Shrinks-bind b (uint16 s) _ (uint16-ne-stuck s) λ n.
        Shrinks-reject_if b (ltb n 8) _ _ λ eight. Shrinks-reject_if b (ltb (length b) n) _ _ λ _.
          Shrinks-bind b (index b 4) _ (index-ne-stuck b 4) λ kind.
            Shrinks-bind b (slice b 6 8) _ (slice-ne-stuck b 6 8) λ s.
              Shrinks-bind b (uint16 s) _ (uint16-ne-stuck s) λ id.
                Shrinks-bind b _ _
                  (if-ne-stuck (ltb 8 n) _ _ (read_attribute-ne-stuck _ n b) (λ e. cc))
                  λ t. Shrinks-slice_from b n t (omega passed)

read_transforms-ne-stuck :
    (fuel : ℕ) (p : Proposal) (b : Bytes) → length b ≤ fuel → read_transforms fuel p b ≢ stuck
unfolding read_transforms
read_transforms-ne-stuck fuel p [] h = λ e. cc
read_transforms-ne-stuck zero p (c ∷ b) h = absurd (omega arith)
read_transforms-ne-stuck (suc fuel) p (c ∷ b) h =
    Shrinks-ne-stuck (c ∷ b) (read_transform (c ∷ b)) _ (read_transform-Shrinks (c ∷ b))
      λ t behind l. read_transforms-ne-stuck fuel (add_transform p t) behind (omega arith)

read_spi-ne-stuck : (n : ℕ) (b : Bytes) → read_spi n b ≢ stuck
unfolding read_spi
read_spi-ne-stuck n b =
    reject_if-ne-stuck (ltb (length b) ((8 + n) % 256)) _ _ (slice-ne-stuck b 8 ((8 + n) % 256))

read_proposal-Shrinks : (b : Bytes) → Shrinks b (read_proposal b)
unfolding read_proposal
read_proposal-Shrinks b = Shrinks-reject_if b (ltb (length b) 8) _ _ λ _.
    Shrinks-bind b (slice b 2 4) _ (slice-ne-stuck b 2 4) λ s.
      Shrinks-bind b (uint16 s) _ (uint16-ne-stuck s) λ n.
        Shrinks-reject_if b (ltb n 8) _ _ λ eight. Shrinks-reject_if b (ltb (length b) n) _ _ λ _.
          Shrinks-bind b (index b 4) _ (index-ne-stuck b 4) λ number.
            Shrinks-bind b (index b 5) _ (index-ne-stuck b 5) λ protocol.
              Shrinks-bind b (index b 6) _ (index-ne-stuck b 6) λ size.
                Shrinks-bind b _ _
                  (if-ne-stuck (ltb 0 size) _ _ (read_spi-ne-stuck size b) (λ e. cc))
                  λ spi.
                    Shrinks-bind b (slice b ((8 + size) % 256) n) _ (slice-ne-stuck b _ n) λ ts.
                      Shrinks-bind b _ _ (read_transforms-ne-stuck (length ts) _ ts (omega arith))
                        λ p. Shrinks-slice_from b n p (omega passed)

read_proposals-ne-stuck :
    (fuel : ℕ) (out : List Proposal) (b : Bytes)
    → length b ≤ fuel
    → read_proposals fuel out b ≢ stuck
unfolding read_proposals
read_proposals-ne-stuck fuel out [] h = λ e. cc
read_proposals-ne-stuck zero out (c ∷ b) h = absurd (omega arith)
read_proposals-ne-stuck (suc fuel) out (c ∷ b) h =
    Shrinks-ne-stuck (c ∷ b) (read_proposal (c ∷ b)) _ (read_proposal-Shrinks (c ∷ b))
      λ p behind l. read_proposals-ne-stuck fuel (out ++ (p ∷ [])) behind (omega arith)

-- Both loops of the parser end on every input: the fuel is enough.
pub association-ne-stuck : (x : SecurityAssociation) (b : Bytes) → unmarshal x b ≢ stuck
unfolding unmarshal
association-ne-stuck x b =
    >>=-ne-stuck (read_proposals (length b) x.proposals b) _
      (read_proposals-ne-stuck (length b) x.proposals b (omega arith)) λ _ _ e. cc

length_field : (a b c d : ℕ) (r : Bytes) → slice (a ∷ b ∷ c ∷ d ∷ r) 2 4 ≡ ok (c ∷ d ∷ [])
unfolding slice slice_to
length_field a b c d r = refl

-- The SPI ends behind its proposal of n bytes, or its end wraps.
abbrev pub Overrun : ℕ → ℕ → Type 0
Overrun n size = (n < 8 + size) ⊎ (248 ≤ size)

-- An SPI whose end does not wrap is refused where the payload ends before it.
abbrev pub overrun_result {ℓ} : {A : Type ℓ} → ℕ → Bytes → Result A
overrun_result size r = if ltb size 248 && ltb (length r) size then err too_short else panic

module _ (a b c d e f g h : ℕ) (r : Bytes) where
  abbrev whole : Bytes
  whole = a ∷ b ∷ c ∷ d ∷ e ∷ f ∷ g ∷ h ∷ r

  read_proposal-Overrun :
      IsByte g
      → 8 ≤ c * 256 + d
      → c * 256 + d ≤ 8 + length r
      → Overrun (c * 256 + d) g
      → read_proposal whole ≡ overrun_result g r
  unfolding read_proposal read_spi uint16 index
  read_proposal-Overrun byte small long over = ground (
    arith,
    length_field a b c d (e ∷ f ∷ g ∷ h ∷ r),
    slice-ok whole 8 ((8 + g) % 256),
    slice_crossed whole 8 ((8 + g) % 256),
    slice_crossed whole ((8 + g) % 256) (c * 256 + d),
  )

-- A first proposal that is there as a whole, but whose SPI ends behind it or has 248 bytes or more,
-- makes the parser panic, whatever bytes stand behind it, but for one case: an SPI of less than 248
-- bytes that ends behind the whole payload is refused. The SPI is tested against the payload, not
-- against its proposal, and the end of one of 248 bytes or more, a uint8, is before its beginning.
pub unmarshal_spi-Overrun :
    (x : SecurityAssociation) (a b c d e f g h : ℕ) (r : Bytes)
    → IsByte g
    → 8 ≤ c * 256 + d
    → c * 256 + d ≤ 8 + length r
    → Overrun (c * 256 + d) g
    → unmarshal x (a ∷ b ∷ c ∷ d ∷ e ∷ f ∷ g ∷ h ∷ r) ≡ overrun_result g r
unfolding unmarshal read_proposals
unmarshal_spi-Overrun x a b c d e f g h r byte small long over =
    rw (read_proposal-Overrun a b c d e f g h r byte small long over)
      (elim (Bool-cases (ltb g 248 && ltb (length r) g)) [
        | inl refused ↦ rw refused refl
        | inr panics ↦ rw panics refl
      ])
