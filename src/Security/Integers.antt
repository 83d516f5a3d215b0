-- ===== src/Security/Integers.antt =====
-- math/big as dh/ uses it: `Exp` modulo a number, `Bytes` and `SetBytes`, and their laws.
use native.Mathlib.Nat.{
  add-mul, div-add-mod', div-lt_iff_lt-mul, mod-lt, mul-add-mod_self_right, mul-suc, mul_assoc,
  mul_comm, mul_right_comm, pow-suc, pow-zero,
}
use ike.Base.{
  ==_iff, Bool-cases, [], ap, arith, if◌then◌else◌, inl, inr, length, length-append, refl,
  replicate, subst, suc, sym, zero, ℕ, ◌%◌, ◌*◌, ◌++◌, ◌+◌, ◌/◌, ◌<◌, ◌==◌, ◌^◌, ◌∙◌, ◌∷◌, ◌≡◌, ◌≤◌,
}
use ike.Base.Bytes.{Bytes}

-- `new(big.Int).Exp(base, exponent, modulus)` for a modulus above 0
unfoldable pub exp : ℕ → ℕ → ℕ → ℕ
exp base exponent modulus = base ^ exponent % modulus

-- The digits of n in base 256, most significant first, without leading zeros.
unfoldable digits : ℕ → ℕ → Bytes
digits zero n = []
digits (suc fuel) n =
    let rest = digits fuel (n / 256) in if n == 0 then [] else rest ++ ((n % 256) ∷ [])

-- `Bytes`
unfoldable pub int_bytes : ℕ → Bytes
unfolding digits
int_bytes n = digits n n

unfoldable set_digits : ℕ → Bytes → ℕ
set_digits n [] = n
set_digits n (x ∷ b) = set_digits (n * 256 + x) b

-- `SetBytes`
unfoldable pub set_bytes : Bytes → ℕ
unfolding set_digits
set_bytes b = set_digits 0 b

set_digits-append :
    (n : ℕ) (b : Bytes) (x : ℕ) → set_digits n (b ++ (x ∷ [])) ≡ set_digits n b * 256 + x
unfolding set_digits
set_digits-append n [] x = refl
set_digits-append n (y ∷ b) x = set_digits-append (n * 256 + y) b x

set_digits-digits : (fuel n : ℕ) → n ≤ fuel → set_digits 0 (digits fuel n) ≡ n
unfolding digits set_digits
set_digits-digits zero n h = omega arith
set_digits-digits (suc fuel) n h = elim (Bool-cases (n == 0)) [
  | inl e ↦ ground arith
  | inr e ↦ rw e (
      rw (set_digits-append 0 (digits fuel (n / 256)) (n % 256))
        (rw (set_digits-digits fuel (n / 256) (omega (arith, (==_iff n 0).1))) (omega arith)))
]

set_digits-zeros : (k : ℕ) (b : Bytes) → set_digits 0 (replicate k 0 ++ b) ≡ set_digits 0 b
unfolding set_digits
set_digits-zeros zero b = refl
set_digits-zeros (suc k) b = set_digits-zeros k b

-- Leading zeros do not count.
pub set_bytes-padded : (k n : ℕ) → set_bytes (replicate k 0 ++ int_bytes n) ≡ n
unfolding set_bytes int_bytes
set_bytes-padded k n = set_digits-zeros k (digits n n) ∙ set_digits-digits n n (omega arith)

length-digits : (fuel n k : ℕ) → n < 256 ^ k → length (digits fuel n) ≤ k
unfolding digits
length-digits zero n k h = omega arith
length-digits (suc fuel) n zero h = ground (arith, pow-zero 256)
length-digits (suc fuel) n (suc k) h =
    let small : n / 256 < 256 ^ k =
      (div-lt_iff_lt-mul {k = 256} {x = n} {y = 256 ^ k} (omega arith)).1
        (subst (λ (t : ℕ). n < t) (pow-suc 256 k) h) in
    let ih : length (digits fuel (n / 256)) ≤ k = length-digits fuel (n / 256) k small in
    ground (arith, ih, length-append (digits fuel (n / 256)) ((n % 256) ∷ []))

pub length-int_bytes : (n k : ℕ) → n < 256 ^ k → length (int_bytes n) ≤ k
unfolding int_bytes
length-int_bytes n k h = length-digits n n k h

mul-mod : (x y m : ℕ) → x % m * y % m ≡ x * y % m
mul-mod x y m =
    let split : x / m * y * m + x % m * y ≡ x * y =
      rw (mul_right_comm (x / m) y m)
        (sym (add-mul (x / m * m) (x % m) y) ∙ ap (λ (t : ℕ). t * y) (div-add-mod' x m)) in
    sym (mul-add-mod_self_right (x / m * y) m (x % m * y)) ∙ ap (λ (t : ℕ). t % m) split

pow-mod : (x e m : ℕ) → (x % m) ^ e % m ≡ x ^ e % m
pow-mod x zero m = rw (pow-zero x) (rw (pow-zero (x % m)) refl)
pow-mod x (suc e) m = rw (pow-suc (x % m) e) (
    rw (pow-suc x e) (
      sym (mul-mod ((x % m) ^ e) (x % m) m)
      ∙ ap (λ (t : ℕ). t * (x % m) % m) (pow-mod x e m)
      ∙ mul-mod (x ^ e) (x % m) m
      ∙ ap (λ (t : ℕ). t % m) (mul_comm (x ^ e) (x % m))
      ∙ mul-mod x (x ^ e) m
      ∙ ap (λ (t : ℕ). t % m) (mul_comm x (x ^ e))))

pow-add : (x a b : ℕ) → x ^ (a + b) ≡ x ^ a * x ^ b
pow-add x a zero = let e : a + 0 ≡ a = omega arith in rw e (rw (pow-zero x) (omega arith))
pow-add x a (suc b) =
    let e : a + suc b ≡ suc (a + b) = omega arith in
    rw e
      (rw (pow-suc x (a + b)) (rw (pow-suc x b) (rw (pow-add x a b) (mul_assoc (x ^ a) (x ^ b) x))))

pow-mul : (x a b : ℕ) → (x ^ a) ^ b ≡ x ^ (a * b)
pow-mul x a zero =
    let e : a * 0 ≡ 0 = omega arith in rw e (rw (pow-zero (x ^ a)) (sym (pow-zero x)))
pow-mul x a (suc b) =
    rw (pow-suc (x ^ a) b) (rw (mul-suc a b) (rw (pow-add x (a * b) a) (rw (pow-mul x a b) refl)))

-- Two exponents in either order.
pub exp_comm : (g a b m : ℕ) → exp (exp g a m) b m ≡ exp (exp g b m) a m
unfolding exp
exp_comm g a b m =
    pow-mod (g ^ a) b m
    ∙ ap (λ (t : ℕ). t % m)
        (pow-mul g a b ∙ ap (λ (t : ℕ). g ^ t) (mul_comm a b) ∙ sym (pow-mul g b a))
    ∙ sym (pow-mod (g ^ b) a m)

pub exp-lt : (g a m : ℕ) → 0 < m → exp g a m < m
unfolding exp
exp-lt g a m h = mod-lt (g ^ a) h

-- A square doubles the exponent.
pub exp-square : (g n m : ℕ) → exp (exp g n m) 2 m ≡ exp g (n * 2) m
unfolding exp
exp-square g n m = pow-mod (g ^ n) 2 m ∙ ap (λ (t : ℕ). t % m) (pow-mul g n 2)
