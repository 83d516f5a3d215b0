-- ===== src/Message/Container/Reach.antt =====
-- The rounds that the parser of chains reaches: unknown payloads, and where no panic can happen.
use ike.Base.Reads.{
  Returns-index, Returns-slice, Returns-slice_from, Returns-uint16, le_of_not_ltb, passed,
}
use ike.Base.{
  List, Option, Returns, Returns-bind, Returns-if, Returns-reject_if, [], arith, bit_and, drop, inl,
  inr, length, ltb, none, ok, refl, returns_err, returns_ok, some, suc, unknown_critical, zero, ℕ,
  ◌++◌, ◌/◌, ◌<◌, ◌==◌, ◌∷◌, ◌≡◌, ◌≢◌, ◌≤◌, ◌⊎◌,
}
use ike.Base.Bytes.{Bytes}
use ike.Message.Payload.{
  IkePayload, configuration, delete, new_payload, notify, security_association,
}
use ike.Message.Payload.Safety.{IsSafe, unmarshal_safe-Returns}
use ike.Message.Container.Safety.{decode_round-Smaller}
use ike.Message.Container.{
  Round, append_read, decode, decode_from, decode_known, decode_round, decode_unknown,
}

-- From a payload of type `kind` at the front of `b`, the parser gets to one of type `k` at `c`. Where
-- no bytes are left it reads none, whatever the type that the payload before named.
pub data Reaches (behind : Bytes) : ℕ → Bytes → ℕ → Bytes → Type 0 where
  reach_here : (kind : ℕ) (b : Bytes) → 0 < length b → Reaches behind kind b kind b
  reach_next :
      (kind : ℕ) (b : Bytes) (x : Round) (k : ℕ) (c : Bytes)
      → 0 < length b
      → decode_round kind b behind ≡ ok x
      → Reaches behind x.next x.rest k c
      → Reaches behind kind b k c

-- A payload that is reached is the first, or is reached from what the first round leaves.
pub Reaches-cases :
    {behind : Bytes} {kind : ℕ} {b : Bytes} {k : ℕ} {c : Bytes}
    → Reaches behind kind b k c
    → ((k ≡ kind) × (0 < length b))
      ⊎ ((0 < length b)
          × (x : Round) × (decode_round kind b behind ≡ ok x)
          × Reaches behind x.next x.rest k c)
Reaches-cases (reach_here kind b some_bytes) = inl (refl, some_bytes)
Reaches-cases (reach_next kind b x k c some_bytes e r) = inr (some_bytes, x, e, r)

-- The types whose parsers never panic.
abbrev pub IsSafeType : ℕ → Type 0
IsSafeType k = (k ≢ 33) × (k ≢ 41) × (k ≢ 42) × (k ≢ 47)

new_payload-IsSafe :
    (kind first : ℕ) (p : IkePayload) → IsSafeType kind → new_payload kind first ≡ some p → IsSafe p
unfolding new_payload
new_payload-IsSafe kind first (security_association x) h e = ground arith
new_payload-IsSafe kind first (notify x) h e = ground arith
new_payload-IsSafe kind first (delete x) h e = ground arith
new_payload-IsSafe kind first (configuration x) h e = ground arith
new_payload-IsSafe kind first _ h e = tt

-- The part of a round behind its checks, which bound the payload's length.
module _ (n first : ℕ) (b : Bytes) (four : 4 ≤ n) (inside : n ≤ length b) where
  decode_known-Returns :
      (p : IkePayload) (behind : Bytes) → IsSafe p → Returns (decode_known p n first b behind)
  unfolding decode_known
  decode_known-Returns p behind safe = Returns-slice b 4 n _ four inside λ body _.
      Returns-bind _ _ (unmarshal_safe-Returns p body (drop n b ++ behind) safe)
        λ q _. Returns-slice_from b n _ inside λ after _. returns_ok _

  decode_unknown-Returns : (critical : ℕ) → Returns (decode_unknown critical n first b)
  unfolding decode_unknown
  decode_unknown-Returns critical =
      Returns-if (critical == 0) _ _ (λ _. Returns-slice_from b n _ inside λ after _. returns_ok _)
        (λ _. returns_err unknown_critical)

  by_kind-Returns :
      (critical : ℕ) (behind : Bytes) (fresh : Option IkePayload)
      → ((p : IkePayload) → fresh ≡ some p → IsSafe p)
      → Returns (elim fresh [
        | none ↦ decode_unknown critical n first b
        | some p ↦ decode_known p n first b behind
      ])
  by_kind-Returns critical behind none h = decode_unknown-Returns critical
  by_kind-Returns critical behind (some p) h = decode_known-Returns p behind (h p refl)

decode_round-Returns :
    (kind : ℕ) (b behind : Bytes) → IsSafeType kind → Returns (decode_round kind b behind)
unfolding decode_round
decode_round-Returns kind b behind safe = Returns-reject_if (ltb (length b) 4) _ _ λ long.
    Returns-slice b 2 4 _ (omega arith) (omega passed) λ s l.
      Returns-uint16 s _ (omega arith) λ n _. Returns-reject_if (ltb n 4) _ _ λ big.
        Returns-reject_if (ltb (length b) n) _ _ λ inside.
          Returns-index b 1 _ (omega passed) λ flags. Returns-index b 0 _ (omega passed) λ first.
            by_kind-Returns n first b (le_of_not_ltb n 4 big) (le_of_not_ltb (length b) n inside)
              (bit_and flags 0x80 / 128) behind (new_payload kind first)
              λ p e. new_payload-IsSafe kind first p safe e

decode_from-Returns :
    (fuel : ℕ) (container : List IkePayload) (kind : ℕ) (b behind : Bytes)
    → length b ≤ fuel
    → ((k : ℕ) (c : Bytes) → Reaches behind kind b k c → IsSafeType k)
    → Returns (decode_from fuel container kind b behind)
unfolding decode_from
decode_from-Returns fuel container kind [] behind f safe = returns_ok container
decode_from-Returns zero container kind (c ∷ b) behind f safe = absurd (omega arith)
decode_from-Returns (suc fuel) container kind (c ∷ b) behind f safe =
    Returns-bind (decode_round kind (c ∷ b) behind) _
      (decode_round-Returns kind (c ∷ b) behind
        (safe kind (c ∷ b) (reach_here kind (c ∷ b) (omega arith))))
      λ x e.
        decode_from-Returns fuel (append_read container x.read) x.next x.rest behind
          (omega (arith, decode_round-Smaller kind (c ∷ b) behind e))
          λ k d r. safe k d (reach_next kind (c ∷ b) x k d (omega arith) e r)

-- The parser of chains panics on no bytes in which it reads only payloads of other types than Security
-- Association, Notification, Delete and Configuration: it returns payloads or an error. A type that
-- is named where no bytes are left is not read.
pub safe_container-Returns :
    (container : List IkePayload) (kind : ℕ) (b behind : Bytes)
    → ((k : ℕ) (c : Bytes) → Reaches behind kind b k c → IsSafeType k)
    → Returns (decode container kind b behind)
unfolding decode
safe_container-Returns container kind b behind safe =
    decode_from-Returns (length b) container kind b behind (omega arith) safe
