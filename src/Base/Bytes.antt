-- ===== src/Base/Bytes.antt =====
-- Byte slices, and `encoding/binary`'s big-endian reads and writes. Every read that can go out of
-- range panics, as it does in Go. A nil slice and an empty one are the same here.
use ike.Base.{
  Bool, List, Result, [], ap, arith, drop, false, get_or, length, ok, panic, refl, suc, take, true,
  zero, ℕ, ◌%◌, ◌&&◌, ◌*◌, ◌++◌, ◌+◌, ◌-◌, ◌/◌, ◌<◌, ◌==◌, ◌>>=◌, ◌^◌, ◌↔◌, ◌∷◌, ◌≡◌, ◌≤◌,
}

abbrev pub Bytes : Type 0
Bytes = List ℕ

abbrev pub IsByte : ℕ → Type 0
IsByte n = n < 256

abbrev pub AllBytes : Bytes → Type 0
AllBytes [] = Unit
AllBytes (x ∷ xs) = IsByte x × AllBytes xs

-- `b[i]`
unfoldable pub index : Bytes → ℕ → Result ℕ
index [] i = panic
index (x ∷ xs) zero = ok x
index (x ∷ xs) (suc i) = index xs i

-- `b[lo:]`
unfoldable pub slice_from : Bytes → ℕ → Result Bytes
slice_from b zero = ok b
slice_from [] (suc n) = panic
slice_from (x ∷ xs) (suc n) = slice_from xs n

-- `b[:hi]`, within the length
unfoldable pub slice_to : Bytes → ℕ → Result Bytes
slice_to b zero = ok []
slice_to [] (suc n) = panic
slice_to (x ∷ xs) (suc n) = do r ← slice_to xs n; ok (x ∷ r)

-- `b[lo:hi]`, within the length: it panics if `hi < lo` or `len(b) < hi`
unfoldable pub slice : Bytes → ℕ → ℕ → Result Bytes
slice b zero hi = slice_to b hi
slice b (suc lo) zero = panic
slice [] (suc lo) (suc hi) = panic
slice (x ∷ xs) (suc lo) (suc hi) = slice xs lo hi

-- `binary.BigEndian`
unfoldable pub uint16 : Bytes → Result ℕ
uint16 (a ∷ b ∷ _) = ok (a * 256 + b)
uint16 _ = panic

unfoldable pub uint32 : Bytes → Result ℕ
uint32 (a ∷ b ∷ c ∷ d ∷ _) = ok (((a * 256 + b) * 256 + c) * 256 + d)
uint32 _ = panic

unfoldable pub uint64 : Bytes → Result ℕ
uint64 (a ∷ b ∷ c ∷ d ∷ e ∷ f ∷ g ∷ h ∷ _) =
    ok (((((((a * 256 + b) * 256 + c) * 256 + d) * 256 + e) * 256 + f) * 256 + g) * 256 + h)
uint64 _ = panic

abbrev pub put_uint16 : ℕ → Bytes
put_uint16 n = (n / 256 % 256) ∷ (n % 256) ∷ []

abbrev pub put_uint32 : ℕ → Bytes
put_uint32 n = (n / 2 ^ 24 % 256) ∷ (n / 2 ^ 16 % 256) ∷ (n / 2 ^ 8 % 256) ∷ (n % 256) ∷ []

abbrev pub put_uint64 : ℕ → Bytes
put_uint64 n =
    (n / 2 ^ 56 % 256) ∷ (n / 2 ^ 48 % 256) ∷ (n / 2 ^ 40 % 256) ∷ (n / 2 ^ 32 % 256) ∷ put_uint32 n

-- Reads in range.
pub index-ok : (b : Bytes) (i : ℕ) → i < length b → index b i ≡ ok (get_or b i 0)
unfolding index
index-ok [] i h = absurd (omega arith)
index-ok (x ∷ xs) zero h = refl
index-ok (x ∷ xs) (suc i) h = index-ok xs i (omega arith)

pub slice_from-ok : (b : Bytes) (lo : ℕ) → lo ≤ length b → slice_from b lo ≡ ok (drop lo b)
unfolding slice_from
slice_from-ok b zero h = refl
slice_from-ok [] (suc lo) h = absurd (omega arith)
slice_from-ok (x ∷ xs) (suc lo) h = slice_from-ok xs lo (omega arith)

pub slice_from-length :
    (b : Bytes) (lo : ℕ) {r : Bytes} → slice_from b lo ≡ ok r → length r + lo ≡ length b
unfolding slice_from
slice_from-length b zero e = ground arith
slice_from-length [] (suc lo) e = cc
slice_from-length (x ∷ xs) (suc lo) e = omega (arith, slice_from-length xs lo e)

pub slice_to-ok : (b : Bytes) (hi : ℕ) → hi ≤ length b → slice_to b hi ≡ ok (take hi b)
unfolding slice_to
slice_to-ok b zero h = refl
slice_to-ok [] (suc hi) h = absurd (omega arith)
slice_to-ok (x ∷ xs) (suc hi) h = rw (slice_to-ok xs hi (omega arith))

pub slice-ok :
    (b : Bytes) (lo hi : ℕ)
    → lo ≤ hi
    → hi ≤ length b
    → slice b lo hi ≡ ok (take (hi - lo) (drop lo b))
unfolding slice
slice-ok b zero hi p h = let e : hi - 0 ≡ hi = omega arith in rw e (slice_to-ok b hi h)
slice-ok b (suc lo) zero p h = absurd (omega arith)
slice-ok [] (suc lo) (suc hi) p h = absurd (omega arith)
slice-ok (x ∷ xs) (suc lo) (suc hi) p h =
    let e : suc hi - suc lo ≡ hi - lo = omega arith in
    rw e (slice-ok xs lo hi (omega arith) (omega arith))

pub slice_to-panic : (b : Bytes) (hi : ℕ) → length b < hi → slice_to b hi ≡ panic
unfolding slice_to
slice_to-panic b zero h = absurd (omega arith)
slice_to-panic [] (suc hi) h = refl
slice_to-panic (x ∷ xs) (suc hi) h = rw (slice_to-panic xs hi (omega arith))

-- A slice whose bounds cross panics.
pub slice_crossed : (b : Bytes) (lo hi : ℕ) → hi < lo → slice b lo hi ≡ panic
unfolding slice
slice_crossed b zero hi h = absurd (omega arith)
slice_crossed b (suc lo) zero h = refl
slice_crossed [] (suc lo) (suc hi) h = refl
slice_crossed (x ∷ xs) (suc lo) (suc hi) h = slice_crossed xs lo hi (omega arith)

pub slice_from-append : (xs ys : Bytes) → slice_from (xs ++ ys) (length xs) ≡ ok ys
unfolding slice_from
slice_from-append [] [] = refl
slice_from-append [] (y ∷ ys) = refl
slice_from-append (x ∷ xs) ys = slice_from-append xs ys

pub slice_to-append : (xs ys : Bytes) → slice_to (xs ++ ys) (length xs) ≡ ok xs
unfolding slice_to
slice_to-append [] ys = refl
slice_to-append (x ∷ xs) ys = rw (slice_to-append xs ys)

-- The middle of three parts, and what is behind the first of two.
pub slice-append :
    (front middle behind : Bytes) (lo hi : ℕ)
    → lo ≡ length front
    → hi ≡ length front + length middle
    → slice (front ++ (middle ++ behind)) lo hi ≡ ok middle
unfolding slice
slice-append [] middle behind lo hi p q =
    let e : hi ≡ length middle = omega arith in rw (p, e) (slice_to-append middle behind)
slice-append (x ∷ front) middle behind lo zero p q = absurd (omega arith)
slice-append (x ∷ front) middle behind zero (suc hi) p q = absurd (omega arith)
slice-append (x ∷ front) middle behind (suc lo) (suc hi) p q =
    slice-append front middle behind lo hi (omega arith) (omega arith)

pub slice_from-eq :
    (front behind : Bytes) (lo : ℕ)
    → lo ≡ length front
    → slice_from (front ++ behind) lo ≡ ok behind
slice_from-eq front behind lo e = rw e (slice_from-append front behind)

-- What was written is read back.
pub uint16-put : (n : ℕ) (r : Bytes) → n < 2 ^ 16 → uint16 (put_uint16 n ++ r) ≡ ok n
unfolding uint16
uint16-put n r h = ap ok (omega arith)

pub uint32-put : (n : ℕ) (r : Bytes) → n < 2 ^ 32 → uint32 (put_uint32 n ++ r) ≡ ok n
unfolding uint32
uint32-put n r h = ap ok (omega arith)

pub uint64-put : (n : ℕ) (r : Bytes) → n < 2 ^ 64 → uint64 (put_uint64 n ++ r) ≡ ok n
unfolding uint64
uint64-put n r h = ap ok (omega arith)

pub uint16-ok : (b : Bytes) → 2 ≤ length b → (n : ℕ) × (uint16 b ≡ ok n)
unfolding uint16
uint16-ok [] h = absurd (omega arith)
uint16-ok (x ∷ []) h = absurd (omega arith)
uint16-ok (x ∷ y ∷ r) h = (_, refl)

-- `bytes.Equal` and `hmac.Equal`
unfoldable pub bytes_equal : Bytes → Bytes → Bool
bytes_equal [] [] = true
bytes_equal [] (y ∷ ys) = false
bytes_equal (x ∷ xs) [] = false
bytes_equal (x ∷ xs) (y ∷ ys) = (x == y) && bytes_equal xs ys

-- Equal bytes are found equal, and no others.
pub bytes_equal_iff : (a b : Bytes) → (bytes_equal a b ≡ true) ↔ (a ≡ b)
unfolding bytes_equal
bytes_equal_iff [] [] = (λ _. refl, λ _. refl)
bytes_equal_iff [] (y ∷ ys) = (λ e. cc, λ e. cc)
bytes_equal_iff (x ∷ xs) [] = (λ e. cc, λ e. cc)
bytes_equal_iff (x ∷ xs) (y ∷ ys) = let ih = bytes_equal_iff xs ys in ground (arith, ih)
