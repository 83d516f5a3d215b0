-- ===== src/Base/Progress.antt =====
-- Loops of the form `for len(b) > 0`: a round consumes bytes, so the number of bytes is fuel enough.
use ike.Base.{
  Bool, Error, Result, Returns, [], arith, err, false, if◌then◌else◌, length, ok, panic, refl,
  reject_if, returns_err, stuck, suc, true, zero, ℕ, ◌<◌, ◌>>=◌, ◌>>◌, ◌∷◌, ◌≡◌, ◌≢◌,
}
use ike.Base.Bytes.{Bytes, index, slice, slice_from, slice_from-length, slice_to, uint16, uint32}

-- A round that returns an item leaves fewer bytes, and no round is out of fuel.
abbrev pub Shrinks {ℓ} : {A : Type ℓ} → Bytes → Result (A × Bytes) → Type 0
Shrinks b (ok (a, behind)) = length behind < length b
Shrinks b (err e) = Unit
Shrinks b panic = Unit
Shrinks b stuck = ⊥

pub >>=-ne-stuck {ℓ κ} :
    {A : Type ℓ} {B : Type κ} (m : Result A) (f : A → Result B)
    → m ≢ stuck
    → ((a : A) → m ≡ ok a → f a ≢ stuck)
    → (m >>= f) ≢ stuck
>>=-ne-stuck (ok a) f h k = k a refl
>>=-ne-stuck (err e) f h k = λ e. cc
>>=-ne-stuck panic f h k = λ e. cc
>>=-ne-stuck stuck f h k = absurd (h refl)

pub Shrinks-ne-stuck {ℓ κ} :
    {A : Type ℓ} {B : Type κ} (b : Bytes) (m : Result (A × Bytes)) (f : A × Bytes → Result B)
    → Shrinks b m
    → ((a : A) (behind : Bytes) → length behind < length b → f (a, behind) ≢ stuck)
    → (m >>= f) ≢ stuck
Shrinks-ne-stuck b (ok (a, behind)) f h k = k a behind h
Shrinks-ne-stuck b (err e) f h k = λ e. cc
Shrinks-ne-stuck b panic f h k = λ e. cc
Shrinks-ne-stuck b stuck f h k = absurd h

pub Shrinks-Returns {ℓ κ} :
    {A : Type ℓ} {B : Type κ} (b : Bytes) (m : Result (A × Bytes)) (f : A × Bytes → Result B)
    → Shrinks b m
    → Returns m
    → ((a : A) (behind : Bytes) → length behind < length b → Returns (f (a, behind)))
    → Returns (m >>= f)
Shrinks-Returns b (ok (a, behind)) f h r k = k a behind h
Shrinks-Returns b (err e) f h r k = returns_err e
Shrinks-Returns b panic f h r k = elim r [ ]
Shrinks-Returns b stuck f h r k = absurd h

pub reject_if-ne-stuck {ℓ} :
    {B : Type ℓ} (test : Bool) (e : Error) (k : Result B)
    → k ≢ stuck
    → (reject_if test e >> k) ≢ stuck
reject_if-ne-stuck true e k h = λ e. cc
reject_if-ne-stuck false e k h = h

-- No read of bytes is out of fuel.
pub index-ne-stuck : (b : Bytes) (i : ℕ) → index b i ≢ stuck
unfolding index
index-ne-stuck [] i = λ e. cc
index-ne-stuck (x ∷ xs) zero = λ e. cc
index-ne-stuck (x ∷ xs) (suc i) = index-ne-stuck xs i

pub slice_from-ne-stuck : (b : Bytes) (lo : ℕ) → slice_from b lo ≢ stuck
unfolding slice_from
slice_from-ne-stuck b zero = λ e. cc
slice_from-ne-stuck [] (suc lo) = λ e. cc
slice_from-ne-stuck (x ∷ xs) (suc lo) = slice_from-ne-stuck xs lo

pub slice_to-ne-stuck : (b : Bytes) (hi : ℕ) → slice_to b hi ≢ stuck
unfolding slice_to
slice_to-ne-stuck b zero = λ e. cc
slice_to-ne-stuck [] (suc hi) = λ e. cc
slice_to-ne-stuck (x ∷ xs) (suc hi) =
    >>=-ne-stuck (slice_to xs hi) _ (slice_to-ne-stuck xs hi) (λ r q e. cc)

pub slice-ne-stuck : (b : Bytes) (lo hi : ℕ) → slice b lo hi ≢ stuck
unfolding slice
slice-ne-stuck b zero hi = slice_to-ne-stuck b hi
slice-ne-stuck b (suc lo) zero = λ e. cc
slice-ne-stuck [] (suc lo) (suc hi) = λ e. cc
slice-ne-stuck (x ∷ xs) (suc lo) (suc hi) = slice-ne-stuck xs lo hi

pub uint16-ne-stuck : (b : Bytes) → uint16 b ≢ stuck
unfolding uint16
uint16-ne-stuck (x ∷ y ∷ b) = λ e. cc
uint16-ne-stuck _ = λ e. cc

pub if-ne-stuck {ℓ} :
    {B : Type ℓ} (test : Bool) (m n : Result B)
    → m ≢ stuck
    → n ≢ stuck
    → (if test then m else n) ≢ stuck
if-ne-stuck true m n hm hn = hm
if-ne-stuck false m n hm hn = hn

-- Rules for a round of a loop.
pub Shrinks-bind {ℓ κ} :
    {X : Type κ} {A : Type ℓ} (b : Bytes) (m : Result X) (f : X → Result (A × Bytes))
    → m ≢ stuck
    → ((x : X) → Shrinks b (f x))
    → Shrinks b (m >>= f)
Shrinks-bind b (ok x) f h k = k x
Shrinks-bind b (err e) f h k = tt
Shrinks-bind b panic f h k = tt
Shrinks-bind b stuck f h k = absurd (h refl)

pub Shrinks-reject_if {ℓ} :
    {A : Type ℓ} (b : Bytes) (test : Bool) (e : Error) (k : Result (A × Bytes))
    → (test ≡ false → Shrinks b k)
    → Shrinks b (reject_if test e >> k)
Shrinks-reject_if b true e k h = tt
Shrinks-reject_if b false e k h = h refl

-- A round that ends by taking what is behind `n` of its bytes.
pub Shrinks-slice_from {ℓ} :
    {A : Type ℓ} (b : Bytes) (n : ℕ) (a : A)
    → 0 < n
    → Shrinks b (slice_from b n >>= λ behind. ok (a, behind))
Shrinks-slice_from b n a h = go (slice_from b n) refl
  where
    go : (m : Result Bytes) → slice_from b n ≡ m → Shrinks b (m >>= λ behind. ok (a, behind))
    go (ok r) e = omega (arith, slice_from-length b n e)
    go (err x) e = tt
    go panic e = tt
    go stuck e = absurd (slice_from-ne-stuck b n e)

-- A result that is not out of fuel, and whose value has a property.
abbrev pub Ends {ℓ} : {A : Type ℓ} → (A → Type 0) → Result A → Type 0
Ends holds (ok a) = holds a
Ends holds (err e) = Unit
Ends holds panic = Unit
Ends holds stuck = ⊥

pub Ends-bind {ℓ κ} :
    {X : Type κ} {A : Type ℓ} (holds : A → Type 0) (m : Result X) (f : X → Result A)
    → m ≢ stuck
    → ((x : X) → m ≡ ok x → Ends holds (f x))
    → Ends holds (m >>= f)
Ends-bind holds (ok x) f h k = k x refl
Ends-bind holds (err e) f h k = tt
Ends-bind holds panic f h k = tt
Ends-bind holds stuck f h k = absurd (h refl)

pub Ends-reject_if {ℓ} :
    {A : Type ℓ} (holds : A → Type 0) (test : Bool) (e : Error) (k : Result A)
    → (test ≡ false → Ends holds k)
    → Ends holds (reject_if test e >> k)
Ends-reject_if holds true e k h = tt
Ends-reject_if holds false e k h = h refl

-- The next round starts from a value that has the property.
pub Ends-ne-stuck {ℓ κ} :
    {A : Type ℓ} {B : Type κ} (holds : A → Type 0) (m : Result A) (f : A → Result B)
    → Ends holds m
    → ((a : A) → holds a → f a ≢ stuck)
    → (m >>= f) ≢ stuck
Ends-ne-stuck holds (ok a) f h k = k a h
Ends-ne-stuck holds (err e) f h k = λ e. cc
Ends-ne-stuck holds panic f h k = λ e. cc
Ends-ne-stuck holds stuck f h k = absurd h

pub uint32-ne-stuck : (b : Bytes) → uint32 b ≢ stuck
unfolding uint32
uint32-ne-stuck (x ∷ y ∷ z ∷ w ∷ b) = λ e. cc
uint32-ne-stuck _ = λ e. cc
