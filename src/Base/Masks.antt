-- ===== src/Base/Masks.antt =====
-- `x & (1<<k - 1)` and `q<<k | r` as arithmetic, for fields too wide for a table.
use Prim.Native.Nat.{digits, bitwise, bit_and-bitwise, bit_or-bitwise, min, max}
use ike.Base.{
  ap, arith, bit_and, bit_or, refl, suc, zero, ℕ, ◌%◌, ◌*◌, ◌+◌, ◌-◌, ◌/◌, ◌<◌, ◌^◌, ◌∙◌, ◌≡◌, ◌≤◌,
}
use native.Mathlib.Nat.{
  pow-suc, one-le-pow, div-add-mod, mul-add-mod_self_left, mod-eq_of_lt, mod-lt,
}

-- The digits do not depend on the fuel, if there is enough.
module _ (tail : ℕ → ℕ) (op : ℕ → ℕ → ℕ) where
  fuel_irrelevant : (f g x y : ℕ) → x ≤ f → x ≤ g → digits tail op f x y ≡ digits tail op g x y
  fuel_irrelevant zero zero zero y hf hg = refl
  fuel_irrelevant (suc f) (suc g) zero y hf hg = refl
  fuel_irrelevant zero (suc g) zero y hf hg = refl
  fuel_irrelevant (suc f) zero zero y hf hg = refl
  fuel_irrelevant (suc f) (suc g) (suc x) y hf hg =
      let half : ℕ = suc x / 2 in
      ap (λ (t : ℕ). t * 2 + op (suc x % 2) (y % 2))
        (fuel_irrelevant f g half (y / 2) (omega arith) (omega arith))
  fuel_irrelevant _ _ (suc x) y hf hg = absurd (omega arith)

  lowest_digit :
      (x y : ℕ)
      → bitwise tail op (suc x) y ≡ bitwise tail op (suc x / 2) (y / 2) * 2 + op (suc x % 2) (y % 2)
  lowest_digit x y =
      ap (λ (t : ℕ). t * 2 + op (suc x % 2) (y % 2))
        (fuel_irrelevant x (suc x / 2) (suc x / 2) (y / 2) (omega arith) (omega arith))

and_digit : (x y : ℕ) → bit_and x y ≡ bit_and (x / 2) (y / 2) * 2 + min (x % 2) (y % 2)
and_digit zero y = simp bit_and-bitwise (omega arith)
and_digit (suc x) y = simp bit_and-bitwise (lowest_digit (λ _. zero) min x y)

or_digit : (x y : ℕ) → bit_or x y ≡ bit_or (x / 2) (y / 2) * 2 + max (x % 2) (y % 2)
or_digit zero y = simp bit_or-bitwise (omega arith)
or_digit (suc x) y = simp bit_or-bitwise (lowest_digit (λ d. d) max x y)

and_nothing : (f x : ℕ) → x ≤ f → bit_and x 0 ≡ 0
and_nothing f zero h = refl
and_nothing zero (suc x) h = absurd (omega arith)
and_nothing (suc f) (suc x) h =
    omega (arith, and_digit (suc x) 0, and_nothing f (suc x / 2) (omega arith))

or_nothing : (f x : ℕ) → x ≤ f → bit_or x 0 ≡ x
or_nothing f zero h = refl
or_nothing zero (suc x) h = absurd (omega arith)
or_nothing (suc f) (suc x) h =
    omega (arith, or_digit (suc x) 0, or_nothing f (suc x / 2) (omega arith))

mod_double : (x p : ℕ) → 0 < p → x % (p * 2) ≡ x / 2 % p * 2 + x % 2
mod_double x p h =
    let low : ℕ = x / 2 % p * 2 + x % 2 in
    let split : x ≡ p * 2 * (x / 2 / p) + low = omega (arith, div-add-mod (x / 2) p) in
    ap (λ (t : ℕ). t % (p * 2)) split
    ∙ mul-add-mod_self_left (p * 2) (x / 2 / p) low
    ∙ mod-eq_of_lt (omega (arith, mod-lt (x / 2) h))

pub bit_and_ones : (k x : ℕ) → bit_and x (2 ^ k - 1) ≡ x % 2 ^ k
bit_and_ones zero x = rw (and_nothing x x (omega arith)) (omega arith)
bit_and_ones (suc k) x =
    let digit = and_digit x (2 ^ suc k - 1) in
    let half : (2 ^ suc k - 1) / 2 ≡ 2 ^ k - 1 = omega (arith, pow-suc 2 k, one-le-pow k 2) in
    let odd : (2 ^ suc k - 1) % 2 ≡ 1 = omega (arith, pow-suc 2 k, one-le-pow k 2) in
    digit
    ∙ rw (half, odd, bit_and_ones k (x / 2), pow-suc)
        (omega (arith, mod_double x (2 ^ k) (one-le-pow k 2 (omega arith))))

pub bit_or_high : (k q r : ℕ) → r < 2 ^ k → bit_or (q * 2 ^ k) r ≡ q * 2 ^ k + r
bit_or_high zero q r h =
    let none_left : r ≡ 0 = omega arith in
    rw none_left (omega (arith, or_nothing (q * 1) (q * 1) (omega arith)))
bit_or_high (suc k) q r h =
    let double : q * 2 ^ suc k ≡ 2 * (q * 2 ^ k) =
      omega (arith, ap (λ (t : ℕ). q * t) (pow-suc 2 k)) in
    let half : q * 2 ^ suc k / 2 ≡ q * 2 ^ k = omega (arith, double) in
    let even : q * 2 ^ suc k % 2 ≡ 0 = omega (arith, double) in
    or_digit (q * 2 ^ suc k) r
    ∙ rw (half, even, bit_or_high k q (r / 2) (omega (arith, pow-suc 2 k))) (omega (arith, double))
