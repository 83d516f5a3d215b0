-- ===== src/Message/Container/Safety.antt =====
-- The parser of chains on every input.
use ike.Base.{
  Bool-cases, List, Option, [], arith, bit_and, drop, inl, inr, length, ltb, none, ok, some, stuck,
  subst, suc, zero, ℕ, ◌++◌, ◌/◌, ◌<◌, ◌==◌, ◌∷◌, ◌≡◌, ◌≢◌, ◌≤◌,
}
use ike.Base.Bytes.{Bytes, index, slice, slice_from, slice_from-length, uint16}
use ike.Base.Reads.{le_of_not_ltb}
use ike.Base.Progress.{
  Ends, Ends-bind, Ends-ne-stuck, Ends-reject_if, index-ne-stuck, slice-ne-stuck,
  slice_from-ne-stuck, uint16-ne-stuck,
}
use ike.Message.Payload.{IkePayload, new_payload}
use ike.Message.Payload
use ike.Message.Payload.Safety.{payload-ne-stuck}
use ike.Message.Container.{
  Round, append_read, decode, decode_from, decode_known, decode_round, decode_unknown,
}

-- A round leaves fewer bytes.
abbrev Smaller : Bytes → Round → Type 0
Smaller b x = length x.rest < length b

decode_known-Ends :
    (p : IkePayload) (n first : ℕ) (b behind : Bytes)
    → 4 ≤ n
    → Ends (Smaller b) (decode_known p n first b behind)
unfolding decode_known
decode_known-Ends p n first b behind h =
    Ends-bind (Smaller b) (slice b 4 n) _ (slice-ne-stuck b 4 n) λ body _.
      Ends-bind (Smaller b) (Payload.unmarshal p body (drop n b ++ behind)) _
        (payload-ne-stuck p body (drop n b ++ behind))
        λ q _.
          Ends-bind (Smaller b) (slice_from b n) _ (slice_from-ne-stuck b n)
            λ after e. omega (arith, slice_from-length b n e)

decode_unknown-Ends :
    (critical n first : ℕ) (b : Bytes)
    → 4 ≤ n
    → Ends (Smaller b) (decode_unknown critical n first b)
unfolding decode_unknown
decode_unknown-Ends critical n first b h = elim (Bool-cases (critical == 0)) [
  | inl skipped ↦ rw skipped (
      Ends-bind (Smaller b) (slice_from b n) _ (slice_from-ne-stuck b n)
        λ after e. omega (arith, slice_from-length b n e))
  | inr refused ↦ rw refused tt
]

decode_round-Ends : (kind : ℕ) (b behind : Bytes) → Ends (Smaller b) (decode_round kind b behind)
unfolding decode_round
decode_round-Ends kind b behind = Ends-reject_if (Smaller b) (ltb (length b) 4) _ _ λ _.
    Ends-bind (Smaller b) (slice b 2 4) _ (slice-ne-stuck b 2 4) λ s _.
      Ends-bind (Smaller b) (uint16 s) _ (uint16-ne-stuck s) λ n _.
        Ends-reject_if (Smaller b) (ltb n 4) _ _ λ big.
          Ends-reject_if (Smaller b) (ltb (length b) n) _ _ λ _.
            Ends-bind (Smaller b) (index b 1) _ (index-ne-stuck b 1) λ flags _.
              Ends-bind (Smaller b) (index b 0) _ (index-ne-stuck b 0) λ first _.
                by_kind (bit_and flags 0x80 / 128) n first (new_payload kind first)
                  (le_of_not_ltb n 4 big)
  where
    by_kind :
        (critical n first : ℕ) (fresh : Option IkePayload)
        → 4 ≤ n
        → Ends (Smaller b) (elim fresh [
          | none ↦ decode_unknown critical n first b
          | some p ↦ decode_known p n first b behind
        ])
    by_kind critical n first none h = decode_unknown-Ends critical n first b h
    by_kind critical n first (some p) h = decode_known-Ends p n first b behind h

decode_from-ne-stuck :
    (fuel : ℕ) (container : List IkePayload) (kind : ℕ) (b behind : Bytes)
    → length b ≤ fuel
    → decode_from fuel container kind b behind ≢ stuck
unfolding decode_from
decode_from-ne-stuck fuel container kind [] behind h = λ e. cc
decode_from-ne-stuck zero container kind (c ∷ b) behind h = absurd (omega arith)
decode_from-ne-stuck (suc fuel) container kind (c ∷ b) behind h =
    Ends-ne-stuck (Smaller (c ∷ b)) (decode_round kind (c ∷ b) behind) _
      (decode_round-Ends kind (c ∷ b) behind)
      λ x l.
        decode_from-ne-stuck fuel (append_read container x.read) x.next x.rest behind (omega arith)

-- The parser of chains ends on every input, and so does every loop of the payloads' parsers within:
-- the fuel is enough.
pub container-ne-stuck :
    (container : List IkePayload) (kind : ℕ) (b behind : Bytes)
    → decode container kind b behind ≢ stuck
unfolding decode
container-ne-stuck container kind b behind =
    decode_from-ne-stuck (length b) container kind b behind (omega arith)

pub decode_round-Smaller :
    (kind : ℕ) (b behind : Bytes) {x : Round}
    → decode_round kind b behind ≡ ok x
    → length x.rest < length b
decode_round-Smaller kind b behind e = subst (Ends (Smaller b)) e (decode_round-Ends kind b behind)
