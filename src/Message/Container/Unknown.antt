-- ===== src/Message/Container/Unknown.antt =====
-- A payload of an unknown type at the front of a chain.
use ike.Base.{
  List, [], arith, err, if◌then◌else◌, length, length-append, ltb, none, ok, refl, same_bind, suc,
  unknown_critical, zero, ℕ, ◌%◌, ◌*◌, ◌++◌, ◌+◌, ◌/◌, ◌∷◌, ◌≡◌, ◌≤◌,
}
use ike.Base.Bytes.{
  Bytes, IsByte, index, put_uint16, slice, slice_from, slice_from-eq, slice_to, uint16,
}
use ike.Base.Bits.{critical_bit}
use ike.Message.Payload.{IkePayload, new_payload}
use ike.Message.Container.{append_read, decode, decode_from, decode_round, decode_unknown}
use ike.Message.Container.Safety.{decode_round-Smaller}

-- More fuel than there are bytes changes nothing.
same_fuel :
    (f g : ℕ) (container : List IkePayload) (kind : ℕ) (b behind : Bytes)
    → length b ≤ f
    → length b ≤ g
    → decode_from f container kind b behind ≡ decode_from g container kind b behind
unfolding decode_from
same_fuel f g container kind [] behind hf hg = refl
same_fuel zero g container kind (c ∷ b) behind hf hg = absurd (omega arith)
same_fuel (suc f) zero container kind (c ∷ b) behind hf hg = absurd (omega arith)
same_fuel (suc f) (suc g) container kind (c ∷ b) behind hf hg =
    same_bind (decode_round kind (c ∷ b) behind) _ _ λ x e.
      let l = decode_round-Smaller kind (c ∷ b) behind e in
      same_fuel f g (append_read container x.read) x.next x.rest behind (omega arith) (omega arith)

module _ (kind first flags n : ℕ) (d r behind : Bytes) where
  abbrev framed : Bytes
  framed = first ∷ flags ∷ (put_uint16 n ++ (d ++ r))

  unknown_round :
      IsByte flags
      → n ≡ 4 + length d
      → n ≤ 65535
      → new_payload kind first ≡ none
      → decode_round kind framed behind ≡ (
          if ltb flags 128
          then ok (record { read = none; next = first; rest = r })
          else err unknown_critical)
  unfolding decode_round decode_unknown slice slice_to index uint16
  unknown_round byte en few unknown =
      let field : n / 256 % 256 * 256 + n % 256 ≡ n = omega arith in
      let after : slice_from framed n ≡ ok r =
        slice_from-eq ((first ∷ flags ∷ put_uint16 n) ++ d) r n (omega arith) in
      rw field (ground (arith, critical_bit flags byte, length-append d r, unknown, after))

-- A payload of an unknown type at the front of a chain is passed over if its critical bit is
-- clear, as if the chain began behind it with the type that it names; else the chain is refused.
pub unknown_payload :
    (container : List IkePayload) (kind first flags : ℕ) (d r behind : Bytes)
    → IsByte flags
    → 4 + length d ≤ 65535
    → new_payload kind first ≡ none
    → decode container kind (first ∷ flags ∷ (put_uint16 (4 + length d) ++ (d ++ r))) behind
      ≡ (if ltb flags 128 then decode container first r behind else err unknown_critical)
unfolding decode decode_from append_read
unknown_payload container kind first flags d r behind byte few unknown =
    let e = unknown_round kind first flags (4 + length d) d r behind byte refl few unknown in
    rw e (
      ground (
        arith,
        length-append d r,
        same_fuel (suc (suc (suc (length (d ++ r))))) (length r) container first r behind,
      ))
