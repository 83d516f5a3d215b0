-- ===== src/Tests/Exchange.antt =====
-- A Diffie-Hellman exchange of security/security.go and security/dh in the group of 1024 bits, and the
-- keys that the responder derives.
use ike.Base.Bytes.{Bytes}
use native.Mathlib.Nat.{mul_assoc, mul_comm, pow-suc, pow-zero}
use ike.Base.{ap, arith, inl, length, ok, refl, suc, sym, zero, ℕ, ◌*◌, ◌+◌, ◌<◌, ◌^◌, ◌∙◌, ◌≡◌}
use ike.Security.Integers.{exp, exp-square, set_bytes}
use ike.Security.Dh.{Group, get_public_value, get_shared_key, group2, group2_prime, group_of}
use ike.Security.Dh.Laws.{
  GroupFits, IsPublic, fixed_bytes, public_value-ok, registered-GroupFits, set_bytes-fixed_bytes,
  shared_key_agreement,
}

abbrev pub modp : Group
modp = group_of group2

pub fits : GroupFits modp
fits = registered-GroupFits group2 (inl refl)

-- n squarings.
unfoldable squarings : ℕ → ℕ → ℕ
unfolding group2_prime exp
squarings zero x = x
squarings (suc n) x = squarings n (exp x 2 group2_prime)

squarings-exp : (n x k : ℕ) → squarings n (exp x k group2_prime) ≡ exp x (k * 2 ^ n) group2_prime
unfolding squarings
squarings-exp zero x k = let e : k * 2 ^ 0 ≡ k = omega (arith, pow-zero 2) in rw e refl
squarings-exp (suc n) x k =
    let e : k * 2 * 2 ^ n ≡ k * 2 ^ suc n =
      mul_assoc k 2 (2 ^ n) ∙ ap (λ (t : ℕ). k * t) (mul_comm 2 (2 ^ n) ∙ sym (pow-suc 2 n)) in
    rw (exp-square x k group2_prime)
      (squarings-exp n x (k * 2) ∙ ap (λ (t : ℕ). exp x t group2_prime) e)

-- The number that the responder sends for its secret, the least that may be drawn.
abbrev pub secret : ℕ
secret = 2 ^ 128

answered-IsPublic : (1 < squarings 128 2) × (squarings 128 2 + 1 < group2_prime)
unfolding squarings group2_prime
answered-IsPublic = (omega arith, omega arith)

two : exp 2 1 group2_prime ≡ 2
unfolding exp group2_prime
two = refl

answered : squarings 128 2 ≡ exp 2 secret group2_prime
answered =
    ap (λ (t : ℕ). squarings 128 t) (sym two)
    ∙ squarings-exp 128 2 1
    ∙ ap (λ (t : ℕ). exp 2 t group2_prime) (omega arith)

-- The initiator's value for the secret 2, which is the number 4, and the responder's.
abbrev pub value_i : Bytes
value_i = fixed_bytes modp (exp 2 2 group2_prime)

abbrev pub value_r : Bytes
value_r = fixed_bytes modp (exp 2 secret group2_prime)

number_i : set_bytes value_i ≡ 4
unfolding exp group2_prime
number_i = set_bytes-fixed_bytes modp (exp 2 2 group2_prime)

pub value_i-IsPublic : IsPublic modp (set_bytes value_i)
unfolding group_of group2_prime
value_i-IsPublic = rw number_i (omega arith, omega arith)

pub value_r-IsPublic : IsPublic modp (set_bytes value_r)
unfolding group_of
value_r-IsPublic =
    rw (set_bytes-fixed_bytes modp (exp 2 secret group2_prime))
      (rw (sym answered) answered-IsPublic)

pub sends_i : get_public_value group2 2 ≡ ok value_i
unfolding get_public_value group_of
sends_i = public_value-ok modp fits 2

pub sends_r : get_public_value group2 secret ≡ ok value_r
unfolding get_public_value group_of
sends_r = public_value-ok modp fits secret

shared_key_agreement_example :
    (key : Bytes) × (get_shared_key group2 2 (set_bytes value_r) ≡ ok key)
    × (get_shared_key group2 secret (set_bytes value_i) ≡ ok key)
    × (length key ≡ (group_of group2).factor_bytes_length)
shared_key_agreement_example =
    shared_key_agreement group2 2 secret value_i value_r (inl refl) sends_i sends_r value_i-IsPublic
      value_r-IsPublic
