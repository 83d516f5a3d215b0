-- ===== src/Security/Dh/Laws.antt =====
-- Diffie-Hellman: both sides compute the same key, of the length of the prime.
use ike.Base.{
  Bool-cases, ap, arith, bad_public_value, err, false, inl, inr, leb, length, length-append,
  length-replicate, ok, refl, replicate, sym, true, ℕ, ◌++◌, ◌+◌, ◌-◌, ◌<◌, ◌^◌, ◌||◌, ◌∙◌, ◌≡◌,
  ◌≤◌, ◌⊎◌,
}
use ike.Base.Bytes.{Bytes}
use ike.Security.Integers.{
  exp, exp-lt, exp_comm, int_bytes, length-int_bytes, set_bytes, set_bytes-padded,
}
use ike.Security.Dh.{
  DhType, Group, IsRegistered, get_public_value, get_shared_key, group14, group14_prime, group2,
  group2_prime, group_of, group_public_value, group_shared_key, prepend_zero,
}

-- The prime is not 0 and its bytes fit the length that is kept of it.
pub record GroupFits (t : Group) : Type 0 where
  pub above : 0 < t.factor
  pub fits : t.factor ≤ 256 ^ t.factor_bytes_length

-- A public value that `GetSharedKey` takes.
abbrev pub IsPublic : Group → ℕ → Type 0
IsPublic t v = (1 < v) × (v + 1 < t.factor)

prepend_zero-fits :
    (n m k : ℕ)
    → n < m
    → m ≤ 256 ^ k
    → (length (int_bytes n) ≤ k)
      × (prepend_zero k (int_bytes n) ≡ ok (replicate (k - length (int_bytes n)) 0 ++ int_bytes n))
unfolding prepend_zero
prepend_zero-fits n m k h l =
    let few : length (int_bytes n) ≤ k = length-int_bytes n k (omega arith) in (few, ground arith)

-- The number that is padded.
abbrev pub fixed_bytes : Group → ℕ → Bytes
fixed_bytes t n = replicate (t.factor_bytes_length - length (int_bytes n)) 0 ++ int_bytes n

length-fixed_bytes :
    (t : Group) (n : ℕ)
    → length (int_bytes n) ≤ t.factor_bytes_length
    → length (fixed_bytes t n) ≡ t.factor_bytes_length
length-fixed_bytes t n h = omega (
  arith,
  length-append (replicate (t.factor_bytes_length - length (int_bytes n)) 0) (int_bytes n),
  length-replicate {A = ℕ} (t.factor_bytes_length - length (int_bytes n)) 0,
)

module _ (t : Group) (w : GroupFits t) where
  padded_exp :
      (b e : ℕ)
      → prepend_zero t.factor_bytes_length (int_bytes (exp b e t.factor))
        ≡ ok (fixed_bytes t (exp b e t.factor))
  padded_exp b e =
      (prepend_zero-fits (exp b e t.factor) t.factor t.factor_bytes_length
        (exp-lt b e t.factor w.above) w.fits).1

  pub public_value-ok :
      (secret : ℕ)
      → group_public_value t secret ≡ ok (fixed_bytes t (exp t.generator secret t.factor))
  unfolding group_public_value
  public_value-ok secret = padded_exp t.generator secret

  pub shared_key-ok :
      (secret v : ℕ)
      → IsPublic t v
      → group_shared_key t secret v ≡ ok (fixed_bytes t (exp v secret t.factor))
  unfolding group_shared_key
  shared_key-ok secret v h =
      let good : (leb v 1 || leb (t.factor - 1) v) ≡ false = ground arith in
      rw good (padded_exp v secret)

  pub length-shared_key :
      (v secret : ℕ) → length (fixed_bytes t (exp v secret t.factor)) ≡ t.factor_bytes_length
  length-shared_key v secret = length-fixed_bytes t (exp v secret t.factor) (
      (prepend_zero-fits (exp v secret t.factor) t.factor t.factor_bytes_length
        (exp-lt v secret t.factor w.above) w.fits).0)

-- The value on the wire is the number.
pub set_bytes-fixed_bytes : (t : Group) (n : ℕ) → set_bytes (fixed_bytes t n) ≡ n
set_bytes-fixed_bytes t n = set_bytes-padded (t.factor_bytes_length - length (int_bytes n)) n

-- `GetSharedKey` refuses every other value.
pub bad_value :
    (t : Group) (secret v : ℕ)
    → (v ≤ 1) ⊎ (t.factor ≤ v + 1)
    → group_shared_key t secret v ≡ err bad_public_value
unfolding group_shared_key
bad_value t secret v h =
    let bad : (leb v 1 || leb (t.factor - 1) v) ≡ true = ground arith in rw bad refl

group2_fits : GroupFits (group_of group2)
unfolding group_of group2_prime
group2_fits = record { above = omega arith; fits = omega arith }

group14_fits : GroupFits (group_of group14)
unfolding group_of group14_prime
group14_fits = record { above = omega arith; fits = omega arith }

pub registered-GroupFits : (t : DhType) → IsRegistered t → GroupFits (group_of t)
registered-GroupFits t (inl e) = rw e group2_fits
registered-GroupFits t (inr e) = rw e group14_fits

pub ok_injective : {x y : Bytes} → ok x ≡ ok y → x ≡ y
ok_injective e = cc

-- The number that was sent.
sent_number :
    (t : Group) (w : GroupFits t) (secret : ℕ) {v : Bytes}
    → group_public_value t secret ≡ ok v
    → set_bytes v ≡ exp t.generator secret t.factor
sent_number t w secret e =
    ap set_bytes (ok_injective (sym e ∙ public_value-ok t w secret)) ∙ set_bytes-fixed_bytes t _

-- Two sides that exchange their public values, each of which the other side takes, compute the same
-- key, which has the length of the prime.
pub shared_key_agreement :
    (t : DhType) (a b : ℕ) (value_a value_b : Bytes)
    → IsRegistered t
    → get_public_value t a ≡ ok value_a
    → get_public_value t b ≡ ok value_b
    → IsPublic (group_of t) (set_bytes value_a)
    → IsPublic (group_of t) (set_bytes value_b)
    → (key : Bytes) × (get_shared_key t a (set_bytes value_b) ≡ ok key)
      × (get_shared_key t b (set_bytes value_a) ≡ ok key)
      × (length key ≡ (group_of t).factor_bytes_length)
unfolding get_public_value get_shared_key
shared_key_agreement t a b value_a value_b known sent_a sent_b good_a good_b =
    let g = group_of t in
    let w = registered-GroupFits t known in
    let number_a : set_bytes value_a ≡ exp g.generator a g.factor = sent_number g w a sent_a in
    let number_b : set_bytes value_b ≡ exp g.generator b g.factor = sent_number g w b sent_b in
    (
      fixed_bytes g (exp (set_bytes value_b) a g.factor),
      shared_key-ok g w a (set_bytes value_b) good_b,
      shared_key-ok g w b (set_bytes value_a) good_a
          ∙ rw (number_a, number_b, exp_comm g.generator a b g.factor) refl,
      length-shared_key g w (set_bytes value_b) a,
    )

-- A value out of range is refused, and so is each of them by either group.
pub get_shared_key-refuses :
    (t : DhType) (secret v : ℕ)
    → (v ≤ 1) ⊎ ((group_of t).factor ≤ v + 1)
    → get_shared_key t secret v ≡ err bad_public_value
unfolding get_shared_key
get_shared_key-refuses t secret v h = bad_value (group_of t) secret v h

-- A key is computed for values in range only.
pub shared_key-IsPublic :
    (t : DhType) (secret v : ℕ) {key : Bytes}
    → get_shared_key t secret v ≡ ok key
    → IsPublic (group_of t) v
unfolding get_shared_key group_shared_key
shared_key-IsPublic t secret v e = elim (Bool-cases (leb v 1 || leb ((group_of t).factor - 1) v)) [
  | inl bad ↦ absurd (ground (arith, bad, e))
  | inr good ↦ ground (arith, good)
]
