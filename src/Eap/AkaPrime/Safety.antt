-- ===== src/Eap/AkaPrime/Safety.antt =====
-- The parser of EAP-AKA' on every input.
use ike.Base.{
  Bool, Bool-cases, Error, List, Result, Returns, Returns-bind, Returns-reject_if, [], arith, drop,
  err, false, if◌then◌else◌, inl, inr, length, length-drop, length-take, ltb, not, ok, panic,
  reject_if, returns_err, returns_ok, stuck, suc, take, true, zero, ℕ, ◌%◌, ◌*◌, ◌+◌, ◌-◌, ◌/◌,
  ◌==◌, ◌>>=◌, ◌>>◌, ◌||◌, ◌∷◌, ◌≡◌, ◌≤◌,
}
use ike.Base.Bytes.{Bytes, uint16, uint16-ok}
use ike.Base.Reads.{
  Returns-index, Returns-slice, Returns-slice_from, Returns-uint16, le_of_not_ltb, passed,
}
use ike.Eap.AkaPrime.Attribute.{
  EapAkaPrimeAttr, at_autn, at_auts, at_checkcode, at_kdf, at_kdf_input, at_mac, at_notification,
  at_rand, at_res,
}
use ike.Eap.AkaPrime.{EapAkaPrime, order_after, put_attr}
use ike.Eap.AkaPrime.Reader.{
  read_attribute, read_attributes, read_auts, read_checkcode, read_fixed, read_full, read_padded,
  read_short, unmarshal,
}

-- A read that returns, and leaves no more than `n` bytes.
abbrev Leaves {ℓ} : {A : Type ℓ} → ℕ → Result (A × Bytes) → Type 0
Leaves n (ok (a, behind)) = length behind ≤ n
Leaves n (err e) = Unit
Leaves n panic = ⊥
Leaves n stuck = ⊥

Leaves-read_full {ℓ} :
    {B : Type ℓ} (bound n : ℕ) (b : Bytes) (f : Bytes × Bytes → Result (B × Bytes))
    → ((s behind : Bytes) → length s ≡ n → length behind ≤ length b → Leaves bound (f (s, behind)))
    → Leaves bound (read_full n b >>= f)
unfolding read_full
Leaves-read_full bound n b f k = elim (Bool-cases (ltb (length b) n)) [
  | inl short ↦ rw short tt
  | inr fits ↦ rw fits (
      k (take n b) (drop n b) (omega (arith, length-take n b, le_of_not_ltb (length b) n fits))
        (omega (arith, length-drop n b)))
]

Leaves-reject_if {ℓ} :
    {B : Type ℓ} (bound : ℕ) (test : Bool) (e : Error) (k : Result (B × Bytes))
    → Leaves bound k
    → Leaves bound (reject_if test e >> k)
Leaves-reject_if bound true e k h = tt
Leaves-reject_if bound false e k h = h

Leaves-uint16 {ℓ} :
    {B : Type ℓ} (bound : ℕ) (s : Bytes) (f : ℕ → Result (B × Bytes))
    → length s ≡ 2
    → ((n : ℕ) → Leaves bound (f n))
    → Leaves bound (uint16 s >>= f)
Leaves-uint16 bound s f h k = let (n, e) = uint16-ok s (omega arith) in rw e (k n)

Leaves-if {ℓ} :
    {B : Type ℓ} (bound : ℕ) (test : Bool) (m n : Result (B × Bytes))
    → Leaves bound m
    → Leaves bound n
    → Leaves bound (if test then m else n)
Leaves-if bound true m n hm hn = hm
Leaves-if bound false m n hm hn = hn

-- The optional padding.
Leaves-padding :
    (bound : ℕ) (test : Bool) (n : ℕ) (b : Bytes)
    (f : Bytes × Bytes → Result (EapAkaPrimeAttr × Bytes))
    → ((s behind : Bytes) → length behind ≤ length b → Leaves bound (f (s, behind)))
    → Leaves bound ((if test then read_full n b else ok ([], b)) >>= f)
Leaves-padding bound true n b f k = Leaves-read_full bound n b f λ s behind _ l. k s behind l
Leaves-padding bound false n b f k = k [] b (omega arith)

read_fixed-Leaves : (kind len : ℕ) (b : Bytes) → Leaves (length b) (read_fixed kind len b)
unfolding read_fixed
read_fixed-Leaves kind len b = Leaves-reject_if (length b) (not (len == 5)) _ _ (
    Leaves-read_full (length b) 2 b _
      λ _ after _ p. Leaves-read_full (length b) 16 after _ λ _ behind _ q. omega arith)

read_padded-Leaves :
    (unit kind len : ℕ) (b : Bytes) → Leaves (length b) (read_padded unit kind len b)
unfolding read_padded
read_padded-Leaves unit kind len b = Leaves-read_full (length b) 2 b _ λ field after two p.
    Leaves-uint16 (length b) field _ two λ number.
      Leaves-read_full (length b) (number / unit) after _ λ read after_value _ q.
        Leaves-padding (length b) (ltb 0 ((len * 4 % 256 + 2 * 65536 - number / unit - 4) % 65536))
          ((len * 4 % 256 + 2 * 65536 - number / unit - 4) % 65536) after_value
          (λ (_, behind).
            ok (record { attr_type = kind; size = len; reserved = number; value = read }, behind))
          λ _ behind r. omega arith

read_short-Leaves : (kind len : ℕ) (b : Bytes) → Leaves (length b) (read_short kind len b)
unfolding read_short
read_short-Leaves kind len b =
    Leaves-read_full (length b) 2 b _
      λ field behind two p. Leaves-uint16 (length b) field _ two λ number. p

read_checkcode-Leaves : (len : ℕ) (b : Bytes) → Leaves (length b) (read_checkcode len b)
unfolding read_checkcode
read_checkcode-Leaves len b =
    Leaves-read_full (length b) 2 b _
      λ _ after _ p. Leaves-read_full (length b) _ after _ λ _ behind _ q. omega arith

read_auts-Leaves : (len : ℕ) (b : Bytes) → Leaves (length b) (read_auts len b)
unfolding read_auts
read_auts-Leaves len b =
    Leaves-reject_if (length b) (not (len == 4)) _ _
      (Leaves-read_full (length b) 14 b _ λ _ behind _ q. q)

read_attribute-Leaves : (kind len : ℕ) (b : Bytes) → Leaves (length b) (read_attribute kind len b)
unfolding read_attribute
read_attribute-Leaves kind len b =
    Leaves-if _ (kind == at_mac || kind == at_rand || kind == at_autn) _ _
      (read_fixed-Leaves kind len b)
      (Leaves-if _ (kind == at_kdf_input) _ _ (read_padded-Leaves 1 kind len b) (
        Leaves-if _ (kind == at_res) _ _ (read_padded-Leaves 8 kind len b) (
          Leaves-if _ (kind == at_kdf) _ _ (read_short-Leaves kind len b) (
            Leaves-if _ (kind == at_checkcode) _ _ (read_checkcode-Leaves len b) (
              Leaves-if _ (kind == at_notification) _ _ (read_short-Leaves kind len b)
                (Leaves-if _ (kind == at_auts) _ _ (read_auts-Leaves len b) (omega arith)))))))

Leaves-Returns {ℓ κ} :
    {A : Type ℓ} {B : Type κ} (bound : ℕ) (m : Result (A × Bytes)) (f : A × Bytes → Result B)
    → Leaves bound m
    → ((a : A) (behind : Bytes) → length behind ≤ bound → Returns (f (a, behind)))
    → Returns (m >>= f)
Leaves-Returns bound (ok (a, behind)) f h k = k a behind h
Leaves-Returns bound (err e) f h k = returns_err e
Leaves-Returns bound panic f h k = absurd h
Leaves-Returns bound stuck f h k = absurd h

read_attributes-Returns :
    (fuel : ℕ) (stored : List EapAkaPrimeAttr) (order : List ℕ) (b : Bytes)
    → length b ≤ fuel
    → Returns (read_attributes fuel stored order b)
unfolding read_attributes
read_attributes-Returns fuel stored order [] h = returns_ok _
read_attributes-Returns fuel stored order (kind ∷ []) h = returns_ok _
read_attributes-Returns zero stored order (kind ∷ len ∷ b) h = absurd (omega arith)
read_attributes-Returns (suc fuel) stored order (kind ∷ len ∷ b) h =
    Leaves-Returns (length b) (read_attribute kind len b) _ (read_attribute-Leaves kind len b)
      λ a behind l.
        read_attributes-Returns fuel (put_attr a stored) (order_after a stored order) behind
          (omega arith)

-- The EAP-AKA' parser returns on all bytes: its loop ends, and no read is out of range.
pub aka_prime-Returns : (x : EapAkaPrime) (b : Bytes) → Returns (unmarshal x b)
unfolding unmarshal
aka_prime-Returns x b = Returns-reject_if (ltb (length b) 4) _ _ λ p.
    Returns-index b 0 _ (omega passed) λ kind. Returns-reject_if (not (kind == 50)) _ _ λ _.
      Returns-index b 1 _ (omega passed) λ _.
        Returns-slice b 2 4 _ (omega arith) (omega passed) λ s l.
          Returns-uint16 s _ (omega arith) λ _ _. Returns-slice_from b 4 _ (omega passed) λ rest _.
            Returns-bind (read_attributes (length rest) [] [] rest) _
              (read_attributes-Returns (length rest) [] [] rest (omega arith)) λ _ _. returns_ok _
