-- ===== src/Security/PrfPlus/Reference.antt =====
-- The key stream of RFC 7296, Section 2.13, and that `PrfPlus` is its front.
use native.Mathlib.Nat.{le-add_right, mul-le-mul_right, lt_of_mul-lt-mul_right, suc-mul}
use native.Mathlib.Decide.{dec_lt}
use ike.Base.{
  [], ap, arith, false, length, length-append, length-take, ltb, ltb-no, lt→ltb, ok, refl, suc, sym,
  take, true, zero, ℕ, ◌%◌, ◌*◌, ◌++◌, ◌+◌, ◌-◌, ◌<◌, ◌∙◌, ◌∷◌, ◌≡◌, ◌≤◌,
}
use ike.Base.Bytes.{Bytes, slice_from, slice_from-eq, slice_to, slice_to-ok}
use ike.Security.Primitives.{Hash}
use ike.Security.PrfPlus.{prf_plus, prf_rounds, round_input}

-- T1 = prf (K, S | 0x01), Tn = prf (K, Tn-1 | S | n)
unfoldable pub block_of : Hash → Bytes → ℕ → Bytes
block_of prf s zero = []
block_of prf s (suc n) = prf.sum (block_of prf s n ++ (s ++ (suc n ∷ [])))

-- T1 | T2 | … | Tn
unfoldable pub blocks : Hash → Bytes → ℕ → Bytes
unfolding block_of
blocks prf s zero = []
blocks prf s (suc n) = blocks prf s n ++ block_of prf s (suc n)

take-append_front : (n : ℕ) (xs ys : Bytes) → n ≤ length xs → take n (xs ++ ys) ≡ take n xs
take-append_front zero xs ys h = refl
take-append_front (suc n) [] ys h = absurd (omega arith)
take-append_front (suc n) (x ∷ xs) ys h = rw (take-append_front n xs ys (omega arith)) refl

module _ (prf : Hash) (s : Bytes) where
  pub length-blocks : (n : ℕ) → length (blocks prf s n) ≡ n * prf.size
  unfolding blocks block_of
  length-blocks zero = omega arith
  length-blocks (suc n) = omega (
    arith,
    suc-mul n prf.size,
    length-blocks n,
    length-append (blocks prf s n) (block_of prf s (suc n)),
    prf.length-sum (block_of prf s n ++ (s ++ (suc n ∷ []))),
  )

  -- More blocks do not change the front.
  pub front_of_more :
      (stream_len k more : ℕ)
      → stream_len ≤ k * prf.size
      → take stream_len (blocks prf s (k + more)) ≡ take stream_len (blocks prf s k)
  unfolding blocks
  front_of_more stream_len k zero h = let e : k + 0 ≡ k = omega arith in rw e refl
  front_of_more stream_len k (suc more) h =
      let e : k + suc more ≡ suc (k + more) = omega arith in
      let front_bound : k * prf.size ≤ (k + more) * prf.size =
        mul-le-mul_right prf.size (le-add_right k more) in
      let long : stream_len ≤ length (blocks prf s (k + more)) =
        omega (arith, length-blocks (k + more), front_bound) in
      rw e (
        take-append_front stream_len (blocks prf s (k + more)) (block_of prf s (suc (k + more)))
          long
        ∙ front_of_more stream_len k more h)

  -- Out of the loop after k rounds.
  leave :
      (stream_len k n : ℕ)
      → stream_len ≤ k * prf.size
      → k ≤ n
      → slice_to (blocks prf s k) stream_len ≡ ok (take stream_len (blocks prf s n))
  leave stream_len k n h l =
      let e : k + (n - k) ≡ n = omega arith in
      slice_to-ok (blocks prf s k) stream_len (omega (arith, length-blocks k))
      ∙ ap ok (
          sym (front_of_more stream_len k (n - k) h)
          ∙ ap (λ (m : ℕ). take stream_len (blocks prf s m)) e)

  round_done :
      (fuel stream_len i : ℕ) (stream block : Bytes)
      → stream_len ≤ length stream
      → prf_rounds (suc fuel) prf s stream_len i stream block ≡ slice_to stream stream_len
  unfolding prf_rounds
  round_done fuel stream_len i stream block h =
      let done : ltb (length stream) stream_len ≡ false = ltb-no (length stream) stream_len h in
      rw (done, prf_rounds) refl

  -- A round goes on with the block that it added.
  round_more :
      (fuel stream_len i : ℕ) (stream block added : Bytes)
      → length stream < stream_len
      → added ≡ prf.sum (round_input block s i)
      → prf_rounds (suc fuel) prf s stream_len i stream block
        ≡ prf_rounds fuel prf s stream_len (i + 1) (stream ++ added) added
  unfolding prf_rounds
  round_more fuel stream_len i stream block added h e =
      let more : ltb (length stream) stream_len ≡ true = lt→ltb (length stream) stream_len h in
      let cut : slice_from (stream ++ added) (length (stream ++ added) - prf.size) ≡ ok added =
        slice_from-eq stream added _ (
          omega (
            arith,
            length-append stream added,
            ap length e,
            prf.length-sum (round_input block s i),
          )) in
      ground (arith, e, cut)

  -- From round k + 1 on, with enough fuel.
  rounds :
      (fuel stream_len k n : ℕ)
      → 0 < prf.size
      → k ≤ n
      → n < 256
      → stream_len ≤ n * prf.size
      → stream_len ≤ k * prf.size + fuel
      → prf_rounds fuel prf s stream_len (suc k) (blocks prf s k) (block_of prf s k)
        ≡ ok (take stream_len (blocks prf s n))
  unfolding blocks block_of
  rounds zero stream_len k n pos l few enough fuel_enough =
      let done : ltb (length (blocks prf s k)) stream_len ≡ false =
        ltb-no (length (blocks prf s k)) stream_len (omega (arith, length-blocks k)) in
      (unfold prf_rounds in rw done (leave stream_len k n (omega arith) l))
  rounds (suc fuel) stream_len k n pos l few enough fuel_enough =
      elim (dec_lt (k * prf.size) stream_len) [
        | yes going ↦
            let below : k < n = lt_of_mul-lt-mul_right prf.size (omega (arith, going)) in
            let byte : suc k % 256 ≡ suc k = omega arith in
            let next : suc k + 1 ≡ suc (suc k) = omega arith in
            round_more fuel stream_len (suc k) (blocks prf s k) (block_of prf s k)
              (block_of prf s (suc k)) (omega (arith, length-blocks k)) (rw byte (refl))
            ∙ rw next (
                rounds fuel stream_len (suc k) n pos below few enough
                  (omega (arith, suc-mul k prf.size)))
        | no over ↦
            round_done fuel stream_len (suc k) (blocks prf s k) (block_of prf s k)
              (omega (arith, length-blocks k))
            ∙ leave stream_len k n (omega arith) l
      ]

-- For a length of at most 255 blocks, `PrfPlus` ends, and its result is the front of that length of
-- the stream of RFC 7296.
pub prf_plus-reference :
    (prf : Hash) (s : Bytes) (stream_len : ℕ)
    → 0 < prf.size
    → stream_len ≤ 255 * prf.size
    → (prf_plus prf s stream_len ≡ ok (take stream_len (blocks prf s 255)))
      × (length (take stream_len (blocks prf s 255)) ≡ stream_len)
unfolding prf_plus
prf_plus-reference prf s stream_len pos h = (
  unfold blocks block_of in
      rounds prf s stream_len stream_len 0 255 pos (omega arith) (omega arith) h (omega arith),
  omega (arith, length-take stream_len (blocks prf s 255), length-blocks prf s 255),
)
