-- ===== src/Message/Configuration/Safety.antt =====
-- Where the Configuration parser returns, and where it panics.
use ike.Base.Progress.{Shrinks, Shrinks-ne-stuck}
use ike.Base.{
  List, Result, [], arith, drop, err, if◌then◌else◌, leb, length, length-drop, length_mismatch, ltb,
  ok, panic, stuck, suc, take, too_short, zero, ℕ, ◌%◌, ◌*◌, ◌++◌, ◌+◌, ◌<◌, ◌∷◌, ◌≡◌, ◌≢◌, ◌≤◌,
}
use ike.Base.Bytes.{
  Bytes, IsByte, index, slice, slice_from, slice_from-ok, slice_to, slice_to-ok, slice_to-panic,
  uint16,
}
use ike.Message.Configuration.{Attribute, Configuration, read_attribute, read_attributes, unmarshal}

-- What a round answers on 4 bytes and more: the attribute if its value is there; else an error, or
-- a panic where the wrapped length test passes nevertheless.
abbrev round_answer : ℕ → ℕ → Bytes → Result (Attribute × Bytes)
round_answer tag size r =
    if leb size (length r)
    then ok (record { kind = tag; value = take size r }, drop size r)
    else if ltb (4 + length r) ((4 + size) % 65536)
    then err length_mismatch
    else panic

read_attribute_answer :
    (t u h l : ℕ) (r : Bytes)
    → read_attribute (t ∷ u ∷ h ∷ l ∷ r) ≡ round_answer (t * 256 + u) (h * 256 + l) r
unfolding read_attribute slice slice_to slice_from uint16
read_attribute_answer t u h l r = ground (
  arith,
  slice_to-ok r (h * 256 + l),
  slice_from-ok r (h * 256 + l),
  slice_to-panic r (h * 256 + l),
)

read_attribute_short : (b : Bytes) → length b < 4 → read_attribute b ≡ err too_short
unfolding read_attribute
read_attribute_short b h = ground arith

round_answer-Shrinks :
    (t u h l : ℕ) (r : Bytes)
    → Shrinks (t ∷ u ∷ h ∷ l ∷ r) (round_answer (t * 256 + u) (h * 256 + l) r)
round_answer-Shrinks t u h l r = ground (arith, length-drop (h * 256 + l) r)

read_attribute-Shrinks : (b : Bytes) → Shrinks b (read_attribute b)
read_attribute-Shrinks [] = rw (read_attribute_short [] (omega arith)) tt
read_attribute-Shrinks (t ∷ []) = rw (read_attribute_short (t ∷ []) (omega arith)) tt
read_attribute-Shrinks (t ∷ u ∷ []) = rw (read_attribute_short (t ∷ u ∷ []) (omega arith)) tt
read_attribute-Shrinks (t ∷ u ∷ h ∷ []) =
    rw (read_attribute_short (t ∷ u ∷ h ∷ []) (omega arith)) tt
read_attribute-Shrinks (t ∷ u ∷ h ∷ l ∷ r) =
    rw (read_attribute_answer t u h l r) (round_answer-Shrinks t u h l r)

read_attributes-ne-stuck :
    (fuel : ℕ) (out : List Attribute) (b : Bytes)
    → length b ≤ fuel
    → read_attributes fuel out b ≢ stuck
unfolding read_attributes
read_attributes-ne-stuck fuel out [] h = λ e. cc
read_attributes-ne-stuck zero out (c ∷ b) h = absurd (omega arith)
read_attributes-ne-stuck (suc fuel) out (c ∷ b) h =
    Shrinks-ne-stuck (c ∷ b) (read_attribute (c ∷ b)) _ (read_attribute-Shrinks (c ∷ b))
      λ a behind l. read_attributes-ne-stuck fuel (out ++ (a ∷ [])) behind (omega arith)

-- The parser's loop ends on every input: the fuel is enough.
pub configuration-ne-stuck : (x : Configuration) (b : Bytes) → unmarshal x b ≢ stuck
unfolding unmarshal index slice_from
configuration-ne-stuck x [] = λ e. ground arith
configuration-ne-stuck x (a ∷ []) = λ e. ground arith
configuration-ne-stuck x (a ∷ b ∷ []) = λ e. ground arith
configuration-ne-stuck x (a ∷ b ∷ c ∷ []) = λ e. ground arith
configuration-ne-stuck x (a ∷ b ∷ c ∷ d ∷ r) =
    λ e. ground (arith, read_attributes-ne-stuck (length r) x.attributes r (omega arith))

-- An attribute whose length field says 65532 or more, with less behind it, makes the parser panic:
-- the uint16 sum in its length test wraps.
pub unmarshal_wrapped_length :
    (x : Configuration) (c p q s t u h l : ℕ) (r : Bytes)
    → IsByte h
    → IsByte l
    → 65532 ≤ h * 256 + l
    → length r < h * 256 + l
    → unmarshal x (c ∷ p ∷ q ∷ s ∷ t ∷ u ∷ h ∷ l ∷ r) ≡ panic
unfolding unmarshal index slice_from read_attributes
unmarshal_wrapped_length x c p q s t u h l r hb lb big short =
    ground (arith, read_attribute_answer t u h l r)
