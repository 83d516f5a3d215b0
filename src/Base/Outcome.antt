-- ===== src/Base/Outcome.antt =====
-- Results of Go code: a value, an `error`, a run-time panic (an index or a slice out of range), or
-- a loop of the model that is out of fuel. The text of an error is not kept, only which check
-- made it; `errors.Wrapf` passes its cause on.
use mathlib.Core.Path.{◌≡◌, refl}
use mathlib.Core.Logic.{◌≢◌}
use ike.Base.Tests.{if◌then◌else◌}
use mathlib.Core.Bool.{Bool, true, false}
use mathlib.Core.Option.{Option, none, some}

pub data Error : Type 0 where
  too_short too_small length_mismatch too_long : Error
  empty_payload unknown_critical bad_count : Error
  no_transform no_attribute no_selector bad_address bad_selector_length bad_selector_type : Error
  empty_data bad_eap_type bad_value_size bad_attribute unsupported_attribute not_found : Error
  no_encryption no_pseudorandom no_integrity no_diffie_hellman no_extended_sequence : Error
  unsupported_encryption unsupported_pseudorandom unsupported_integrity : Error
  unsupported_diffie_hellman unsupported_extended_sequence : Error
  unspecified_encryption unspecified_pseudorandom unspecified_integrity : Error
  unspecified_diffie_hellman no_nonce no_shared_key no_deriving_key bad_key_length : Error
  bad_public_value no_integrity_key no_encryption_key need_key other_payload : Error
  invalid_checksum random_failed no_key_stream : Error

pub data Result {ℓ} (A : Type ℓ) : Type ℓ where
  ok : A → Result A
  err : Error → Result A
  panic : Result A
  stuck : Result A

infixl 5 ◌>>=◌ ◌>>◌
abbrev pub ◌>>=◌ {ℓ κ} : {A : Type ℓ} {B : Type κ} → Result A → (A → Result B) → Result B
panic >>= next = panic
stuck >>= next = stuck
err e >>= next = err e
ok a >>= next = next a

abbrev pub ◌>>◌ {ℓ} : {B : Type ℓ} → Result (Unit {0}) → Result B → Result B
check >> rest = check >>= λ done. rest

-- `if test { return errors.Errorf(…) }`
abbrev pub reject_if : Bool → Error → Result (Unit {0})
reject_if true e = err e
reject_if false e = ok tt

-- The code returns, with a value or an error: it neither panics nor loops.
pub data Returns {ℓ} {A : Type ℓ} : Result A → Type ℓ where
  returns_ok : (a : A) → Returns (ok a)
  returns_err : (e : Error) → Returns (err e)

pub Returns-bind {ℓ κ} :
    {A : Type ℓ} {B : Type κ} (m : Result A) (f : A → Result B)
    → Returns m
    → ((a : A) → m ≡ ok a → Returns (f a))
    → Returns (m >>= f)
Returns-bind (ok a) f r k = k a refl
Returns-bind (err e) f r k = returns_err e
Returns-bind panic f r k = elim r [ ]
Returns-bind stuck f r k = elim r [ ]

-- After a check, the rest may use that it passed.
pub Returns-reject_if {ℓ} :
    {B : Type ℓ} (test : Bool) (e : Error) (k : Result B)
    → (test ≡ false → Returns k)
    → Returns (reject_if test e >> k)
Returns-reject_if true e k h = returns_err e
Returns-reject_if false e k h = h refl

pub Returns-if {ℓ} :
    {B : Type ℓ} (test : Bool) (m n : Result B)
    → (test ≡ true → Returns m)
    → (test ≡ false → Returns n)
    → Returns (if test then m else n)
Returns-if true m n yes_case no_case = yes_case refl
Returns-if false m n yes_case no_case = no_case refl

pub Returns-ne-panic {ℓ} : {A : Type ℓ} (r : Result A) → Returns r → r ≢ panic
Returns-ne-panic (ok a) h e = cc
Returns-ne-panic (err x) h e = cc
Returns-ne-panic panic h e = elim h [ ]
Returns-ne-panic stuck h e = elim h [ ]

pub Returns-ne-stuck {ℓ} : {A : Type ℓ} (r : Result A) → Returns r → r ≢ stuck
Returns-ne-stuck (ok a) h e = cc
Returns-ne-stuck (err x) h e = cc
Returns-ne-stuck panic h e = elim h [ ]
Returns-ne-stuck stuck h e = elim h [ ]

-- Inversion of a successful bind.
pub bind_inversion {κ ℓ} :
    {B : Type κ} {A : Type ℓ} (first : Result A) (next : A → Result B) {out : B}
    → (first >>= next) ≡ ok out
    → (middle : A) × (first ≡ ok middle) × (next middle ≡ ok out)
bind_inversion stuck next e = cc
bind_inversion panic next e = cc
bind_inversion (err why) next e = cc
bind_inversion (ok middle) next e = (middle, refl, e)

-- A parser that undoes the writer `m`, whose result is wrapped.
pub read_wrapped {ℓ κ ι} :
    {C : Type ι} {A : Type ℓ} {B : Type κ} (m : Result C) (u : C → Result A) (f : A → B) {d : C}
    {x : A}
    → m ≡ ok d
    → (m >>= u) ≡ ok x
    → (u d >>= λ y. ok (f y)) ≡ ok (f x)
read_wrapped (ok b) u f e h = cc
read_wrapped (err e) u f w h = cc
read_wrapped panic u f w h = cc
read_wrapped stuck u f w h = cc

-- Two continuations that agree on the value agree.
pub same_bind {ℓ κ} :
    {A : Type ℓ} {B : Type κ} (m : Result A) (f g : A → Result B)
    → ((a : A) → m ≡ ok a → f a ≡ g a)
    → (m >>= f) ≡ (m >>= g)
same_bind (ok a) f g h = h a refl
same_bind (err e) f g h = refl
same_bind panic f g h = refl
same_bind stuck f g h = refl

-- A step that succeeds is followed by the rest.
pub ok_bind {ℓ κ} :
    {A : Type ℓ} {B : Type κ} (m : Result A) (f : A → Result B) {a : A} → m ≡ ok a → (m >>= f) ≡ f a
ok_bind stuck f e = cc
ok_bind panic f e = cc
ok_bind (err why) f e = cc
ok_bind (ok b) f e = cc

-- `if x == nil { return errors.Errorf(…) }`
abbrev pub required {ℓ} : {A : Type ℓ} → Error → Option A → Result A
required e none = err e
required e (some a) = ok a

-- A method of a nil interface panics.
abbrev pub given {ℓ} : {A : Type ℓ} → Option A → Result A
given none = panic
given (some a) = ok a

pub required-some {ℓ κ} :
    {A : Type ℓ} {B : Type κ} (why : Error) (o : Option A) (f : A → Result B) {a : A}
    → o ≡ some a
    → (required why o >>= f) ≡ f a
required-some why none f e = cc
required-some why (some b) f e = cc

pub past {ℓ} :
    {B : Type ℓ} (test : Bool) (why : Error) (m : Result B)
    → test ≡ false
    → (reject_if test why >> m) ≡ m
past true why m e = cc
past false why m e = refl

pub given-some {ℓ κ} :
    {A : Type ℓ} {B : Type κ} (o : Option A) (f : A → Result B) {a : A}
    → o ≡ some a
    → (given o >>= f) ≡ f a
given-some none f e = cc
given-some (some b) f e = cc

-- Inversion of the tests for nil.
pub required_inversion {ℓ κ} :
    {A : Type ℓ} {B : Type κ} (why : Error) (o : Option A) (f : A → Result B) {b : B}
    → (required why o >>= f) ≡ ok b
    → (a : A) × (o ≡ some a) × (f a ≡ ok b)
required_inversion why none f e = cc
required_inversion why (some a) f e = (a, refl, e)

pub reject_if_inversion {ℓ} :
    {B : Type ℓ} (test : Bool) (why : Error) (m : Result B) {b : B}
    → (reject_if test why >> m) ≡ ok b
    → (test ≡ false) × (m ≡ ok b)
reject_if_inversion true why m e = cc
reject_if_inversion false why m e = (refl, e)

pub given_inversion {ℓ κ} :
    {A : Type ℓ} {B : Type κ} (o : Option A) (f : A → Result B) {b : B}
    → (given o >>= f) ≡ ok b
    → (a : A) × (o ≡ some a) × (f a ≡ ok b)
given_inversion none f e = cc
given_inversion (some a) f e = (a, refl, e)
