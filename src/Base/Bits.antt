-- ===== src/Base/Bits.antt =====
-- Facts about `bit_and` and `bit_or` on bytes, checked on every value.
use ike.Base.{
  ==_iff, Bool, arith, bit_and, bit_or, false, if◌then◌else◌, refl, suc, true, zero, ℕ, ◌%◌, ◌&&◌,
  ◌*◌, ◌+◌, ◌/◌, ◌<◌, ◌==◌, ◌^◌, ◌≡◌,
}

holds_below : ℕ → (ℕ → Bool) → Bool
holds_below zero test = true
holds_below (suc top) test = if test top then holds_below top test else false

look_up :
    (limit : ℕ) (test : ℕ → Bool) (x : ℕ)
    → holds_below limit test ≡ true
    → x < limit
    → test x ≡ true
unfolding holds_below
look_up zero test x table below = absurd (omega arith)
look_up (suc top) test x table below = ground (arith, look_up top test x)

-- Two numbers below 16 in one byte.
abbrev nibbles : ℕ → ℕ → ℕ
nibbles hi lo = bit_or (hi * 16 % 256) (bit_and lo 0x0f)

nibble_table : holds_below 16 (λ hi. holds_below 16 (λ lo. nibbles hi lo == hi * 16 + lo)) ≡ true
unfolding holds_below
nibble_table = refl

nibbles-eq : (hi lo : ℕ) → hi < 16 → lo < 16 → nibbles hi lo ≡ hi * 16 + lo
nibbles-eq hi lo h l = (==_iff _ _).0 (
    look_up 16 (λ lo. nibbles hi lo == hi * 16 + lo) lo
      (look_up 16 (λ hi. holds_below 16 (λ lo. nibbles hi lo == hi * 16 + lo)) hi nibble_table h) l)

low_nibble_table : holds_below 256 (λ x. bit_and x 0x0f == x % 16) ≡ true
unfolding holds_below
low_nibble_table = refl

-- `x & 0x0F`
pub low_nibble : (x : ℕ) → x < 256 → bit_and x 0x0f ≡ x % 16
low_nibble x h = (==_iff _ _).0 (look_up 256 _ x low_nibble_table h)

-- `(hi << 4) | (lo & 0x0F)` splits into `hi` and `lo` again.
pub nibbles_split :
    (hi lo : ℕ)
    → hi < 16
    → lo < 16
    → (nibbles hi lo / 16 ≡ hi) × (bit_and (nibbles hi lo) 0x0f ≡ lo) × (nibbles hi lo < 256)
nibbles_split hi lo h l =
    rw (nibbles-eq hi lo h l)
      (omega arith, omega (arith, low_nibble (hi * 16 + lo) (omega arith)), omega arith)

low_fifteen_table : holds_below 32768 (λ x. bit_and x 0x7fff == x) ≡ true
unfolding holds_below
low_fifteen_table = refl

-- `x & 0x7fff` keeps what fits 15 bits.
pub low_fifteen : (x : ℕ) → x < 2 ^ 15 → bit_and x 0x7fff ≡ x
low_fifteen x h = (==_iff _ _).0 (look_up 32768 _ x low_fifteen_table h)

-- The head of a transform's attribute: the format in the top bit of 16, a type below 128 under it.
pub record Head (t : ℕ) : Type 0 where
  pub tv : bit_or 32768 t ≡ 32768 + t
  pub tlv : bit_or 0 t ≡ t
  pub type_tv : bit_and (32768 + t) 0x7f ≡ t
  pub type_tlv : bit_and t 0x7f ≡ t

head_table :
    holds_below 128 (λ t.
      (bit_or 32768 t == 32768 + t)
      && ((bit_or 0 t == t) && ((bit_and (32768 + t) 0x7f == t) && (bit_and t 0x7f == t))))
    ≡ true
unfolding holds_below
head_table = refl

pub attribute-Head : (t : ℕ) → t < 128 → Head t
attribute-Head t h =
    let e = look_up 128 _ t head_table h in
    record {
      tv = ground arith;
      tlv = ground arith;
      type_tv = ground arith;
      type_tlv = ground arith;
    }

critical_table : holds_below 256 (λ x. bit_and x 0x80 / 128 == x / 128) ≡ true
unfolding holds_below
critical_table = refl

-- `(x & 0x80) >> 7` is the top bit.
pub critical_bit : (x : ℕ) → x < 256 → bit_and x 0x80 / 128 ≡ x / 128
critical_bit x h = (==_iff _ _).0 (look_up 256 _ x critical_table h)
