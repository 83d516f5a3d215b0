-- ===== src/Security/Random.antt =====
-- security/security.go: `GenerateRandomNumber`. What `rand.Int` answers, draw after draw, is an
-- argument, none for its error.
use ike.Base.Bytes.{Bytes, index}
use ike.Base.{
  Bool-cases, List, Option, Result, [], arith, err, false, if◌then◌else◌, inl, inr, ltb, ltb-no,
  map, none, ok, random_failed, some, stuck, ℕ, ◌++◌, ◌<◌, ◌>>=◌, ◌∷◌, ◌≡◌, ◌≤◌,
}

-- 32 digits F
unfoldable pub random_number_minimum : ℕ
random_number_minimum = 0xffffffff_ffffffff_ffffffff_ffffffff

-- The loop: it draws until a number is above the minimum.
unfoldable pub generate_random_number : List (Option ℕ) → Result ℕ
generate_random_number [] = stuck
generate_random_number (none ∷ draws) = err random_failed
generate_random_number (some number ∷ draws) =
    let again = generate_random_number draws in
    if ltb random_number_minimum number then ok number else again

-- `io.ReadFull` of one byte
unfoldable pub generate_random_uint8 : (ℕ → Result Bytes) → Result ℕ
generate_random_uint8 random = do number ← random 1; index number 0

-- The draws before the first that is above the minimum are passed over.
abbrev pub AllSmall : List ℕ → Type 0
AllSmall [] = Unit
AllSmall (n ∷ draws) = (n ≤ random_number_minimum) × AllSmall draws

-- The loop ends at the first draw above the minimum, and returns it, however many smaller numbers
-- were drawn before, if no draw failed.
pub first_large :
    (before : List ℕ) (number : ℕ) (after : List (Option ℕ))
    → AllSmall before
    → random_number_minimum < number
    → generate_random_number (map (λ n. some n) before ++ (some number ∷ after)) ≡ ok number
unfolding generate_random_number
first_large [] number after h large = ground arith
first_large (n ∷ before) number after (small, h) large =
    let ih = first_large before number after h large in
    let no_end : ltb random_number_minimum n ≡ false = ltb-no random_number_minimum n small in
    rw no_end ih

pub random_number-above :
    (draws : List (Option ℕ)) {n : ℕ}
    → generate_random_number draws ≡ ok n
    → random_number_minimum < n
unfolding generate_random_number
random_number-above [] e = cc
random_number-above (none ∷ draws) e = cc
random_number-above (some m ∷ draws) e = elim (Bool-cases (ltb random_number_minimum m)) [
  | inl large ↦ ground arith
  | inr small ↦ random_number-above draws (ground arith)
]
