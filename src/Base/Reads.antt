-- ===== src/Base/Reads.antt =====
-- Rules that prove that code returns: one for each kind of read, at a place shown to be in range.
use ike.Base.{
  Result, Returns, [], arith, drop, false, leb, length, length-drop, length-take, ltb, not, ok,
  refl, returns_ok, take, ℕ, ◌-◌, ◌<◌, ◌==◌, ◌>>=◌, ◌∷◌, ◌≡◌, ◌≤◌,
}
use ike.Base.Bytes.{
  Bytes, index, index-ok, slice, slice-ok, slice_from, slice_from-ok, slice_to, slice_to-ok, uint16,
  uint32, uint64,
}

module _ {ℓ} {B : Type ℓ} where
  pub Returns-index :
      (b : Bytes) (i : ℕ) (f : ℕ → Result B)
      → i < length b
      → ((n : ℕ) → Returns (f n))
      → Returns (index b i >>= f)
  Returns-index b i f h k = rw (index-ok b i h) (k _)

  pub Returns-slice_from :
      (b : Bytes) (lo : ℕ) (f : Bytes → Result B)
      → lo ≤ length b
      → ((s : Bytes) → length s ≡ length b - lo → Returns (f s))
      → Returns (slice_from b lo >>= f)
  Returns-slice_from b lo f h k = rw (slice_from-ok b lo h) (k (drop lo b) (length-drop lo b))

  pub Returns-slice_to :
      (b : Bytes) (hi : ℕ) (f : Bytes → Result B)
      → hi ≤ length b
      → ((s : Bytes) → length s ≡ hi → Returns (f s))
      → Returns (slice_to b hi >>= f)
  Returns-slice_to b hi f h k =
      rw (slice_to-ok b hi h) (k (take hi b) (omega (arith, length-take hi b)))

  pub Returns-slice :
      (b : Bytes) (lo hi : ℕ) (f : Bytes → Result B)
      → lo ≤ hi
      → hi ≤ length b
      → ((s : Bytes) → length s ≡ hi - lo → Returns (f s))
      → Returns (slice b lo hi >>= f)
  Returns-slice b lo hi f p h k = rw (slice-ok b lo hi p h) (
      k (take (hi - lo) (drop lo b))
        (omega (arith, length-take (hi - lo) (drop lo b), length-drop lo b)))

  pub Returns-uint16 :
      (s : Bytes) (f : ℕ → Result B)
      → 2 ≤ length s
      → ((n : ℕ) → uint16 s ≡ ok n → Returns (f n))
      → Returns (uint16 s >>= f)
  unfolding uint16
  Returns-uint16 [] f h k = absurd (omega arith)
  Returns-uint16 (a ∷ []) f h k = absurd (omega arith)
  Returns-uint16 (a ∷ b ∷ r) f h k = k _ refl

  pub Returns-uint32 :
      (s : Bytes) (f : ℕ → Result B)
      → 4 ≤ length s
      → ((n : ℕ) → Returns (f n))
      → Returns (uint32 s >>= f)
  unfolding uint32
  Returns-uint32 [] f h k = absurd (omega arith)
  Returns-uint32 (a ∷ []) f h k = absurd (omega arith)
  Returns-uint32 (a ∷ b ∷ []) f h k = absurd (omega arith)
  Returns-uint32 (a ∷ b ∷ c ∷ []) f h k = absurd (omega arith)
  Returns-uint32 (a ∷ b ∷ c ∷ d ∷ r) f h k = k _

  pub Returns-uint64 :
      (s : Bytes) (f : ℕ → Result B)
      → 8 ≤ length s
      → ((n : ℕ) → Returns (f n))
      → Returns (uint64 s >>= f)
  unfolding uint64
  Returns-uint64 (a ∷ b ∷ c ∷ d ∷ e ∷ g ∷ h ∷ i ∷ r) f l k = k _
  Returns-uint64 _ f l k = absurd (omega arith)

pub slice_from-Returns : (b : Bytes) (lo : ℕ) → lo ≤ length b → Returns (slice_from b lo)
slice_from-Returns b lo h = rw (slice_from-ok b lo h) (returns_ok _)

pub le_of_not_ltb : (a b : ℕ) → ltb a b ≡ false → b ≤ a
le_of_not_ltb a b h = ground arith

pub lt_of_not_leb : (a b : ℕ) → leb a b ≡ false → b < a
lt_of_not_leb a b h = ground arith

pub eq_of_not_ne : (a b : ℕ) → not (a == b) ≡ false → a ≡ b
eq_of_not_ne a b h = ground arith

-- For `omega`: arithmetic, and the tests that a passed check leaves behind.
pub ruleset passed = (arith, le_of_not_ltb, lt_of_not_leb, eq_of_not_ne)

pub slice_to-Returns : (b : Bytes) (hi : ℕ) → hi ≤ length b → Returns (slice_to b hi)
slice_to-Returns b hi h = rw (slice_to-ok b hi h) (returns_ok _)
