-- ===== src/Security/EncrAesCbc/Laws.antt =====
-- Decryption undoes encryption.
use ike.Base.{
  Option, [], append_assoc, arith, length, length-append, none, ok, refl, replicate, some, subst,
  sym, take, ℕ, ◌%◌, ◌++◌, ◌+◌, ◌-◌, ◌<◌, ◌>>=◌, ◌∙◌, ◌∷◌, ◌≡◌, ◌≤◌,
}
use ike.Base.Bytes.{Bytes, index, slice_from-eq, slice_to, slice_to-append}
use ike.Security.Padding.{pkcs7_padding, set_last}
use ike.Security.EncrAesCbc.{BlockMode, crypt, decrypt, encrypt, padded, remove_padding, vector}

-- The source of random bytes fills what it is given, at each read.
abbrev pub Fills : (ℕ → ℕ → Bytes) → Type 0
Fills random = (i n : ℕ) → length (random i n) ≡ n

set_last-append :
    (s : Bytes) (v : ℕ)
    → 0 < length s
    → (front : Bytes) × (set_last s v ≡ ok (front ++ (v ∷ []))) × (length front + 1 ≡ length s)
unfolding set_last
set_last-append [] v h = absurd (omega arith)
set_last-append (x ∷ []) v h = ([], refl, refl)
set_last-append (x ∷ y ∷ s) v h =
    let (front, e, l) = set_last-append (y ∷ s) v (omega arith) in
    (x ∷ front, rw e refl, omega arith)

-- The padded text fills whole blocks, and its padding can be removed.
pkcs7_padding-16 :
    (random : ℕ → Bytes) (plain : Bytes)
    → ((n : ℕ) → length (random n) ≡ n)
    → (front : Bytes) × (n : ℕ) × (pkcs7_padding (λ k. ok (random k)) plain 16
        ≡ ok (plain ++ (front ++ (n ∷ []))))
      × (length front ≡ n)
      × (n < 16)
      × ((length plain + (n + 1)) % 16 ≡ 0)
unfolding pkcs7_padding
pkcs7_padding-16 random plain fills =
    let room : ℕ = 16 - length plain % 16 in
    let (front, e, l) =
      set_last-append (random room) ((room - 1) % 256) (omega (arith, fills room)) in
    (
      front,
      (room - 1) % 256,
      ground (arith, e),
      omega (arith, fills room),
      omega arith,
      omega arith,
    )

index-last : (s : Bytes) (n : ℕ) → index (s ++ (n ∷ [])) (length s) ≡ ok n
unfolding index
index-last [] n = refl
index-last (x ∷ s) n = index-last s n

remove_padding-append :
    (plain front : Bytes) (n : ℕ)
    → length front ≡ n
    → remove_padding (plain ++ (front ++ (n ∷ []))) ≡ ok plain
unfolding remove_padding
remove_padding-append plain front n l =
    let whole : Bytes = plain ++ (front ++ (n ∷ [])) in
    let total : length whole ≡ length plain + (n + 1) =
      omega (arith, length-append plain (front ++ (n ∷ [])), length-append front (n ∷ [])) in
    let before : length (plain ++ front) ≡ length plain + (n + 1) - 1 =
      omega (arith, length-append plain front) in
    let last : index whole (length plain + (n + 1) - 1) ≡ ok n =
      rw (sym before)
        (rw (sym (append_assoc plain front (n ∷ []))) (index-last (plain ++ front) n)) in
    let rest : length plain + (n + 1) - (n + 1) ≡ length plain = omega arith in
    let cut : slice_to whole (length plain + (n + 1) - (n + 1)) ≡ ok plain =
      rw rest (slice_to-append plain (front ++ (n ∷ []))) in
    rw total (ground (arith, last, cut))

slice_to-eq : (v r : Bytes) (n : ℕ) → n ≡ length v → slice_to (v ++ r) n ≡ ok v
slice_to-eq v r n e = rw e (slice_to-append v r)

-- The vector is none, or a block.
abbrev pub IvFits : Option Bytes → Type 0
IvFits none = Unit
IvFits (some v) = length v ≡ 16

-- The cipher text of whole blocks behind the vector that it was encrypted with.
decrypt_blocks_back :
    (mode : BlockMode) (v text : Bytes)
    → length v ≡ 16
    → length text % 16 ≡ 0
    → (crypt mode.encrypt_blocks v text ≡ ok (mode.encrypt_blocks v text))
      × (crypt mode.decrypt_blocks v (mode.encrypt_blocks v text) ≡ ok text)
unfolding crypt
decrypt_blocks_back mode v text lv lt =
    (ground arith, ground (arith, mode.length-encrypt v text, mode.decrypt-encrypt v text lv lt))

-- The vector that the decrypter takes.
abbrev chosen : Option Bytes → Bytes → Bytes
chosen none random_block = random_block
chosen (some v) random_block = v

chosen-length :
    (iv : Option Bytes) (s : Bytes) → IvFits iv → length s ≡ 16 → length (chosen iv s) ≡ 16
chosen-length none s h l = l
chosen-length (some v) s h l = h

take-prefix : (v r : Bytes) → take (length v) (v ++ r) ≡ v
take-prefix [] r = refl
take-prefix (x ∷ v) r = rw (take-prefix v r) refl

vector-chosen :
    (random : ℕ → Bytes) (iv : Option Bytes)
    → IvFits iv
    → vector (λ k. ok (random k)) iv ≡ ok (chosen iv (random 16), chosen iv (random 16))
unfolding vector
vector-chosen random none h = refl
vector-chosen random (some v) h =
    let all : take 16 (v ++ replicate 16 0) ≡ v =
      subst (λ (k : ℕ). take k (v ++ replicate 16 0) ≡ v) h (take-prefix v (replicate 16 0)) in
    rw all refl

decrypt_framed :
    (mode : BlockMode) (iv : Option Bytes) (s text : Bytes)
    → IvFits iv
    → length s ≡ 16
    → length text % 16 ≡ 0
    → decrypt mode
        (record { iv = iv; padding = none })
        (chosen iv s ++ mode.encrypt_blocks (chosen iv s) text)
      ≡ remove_padding text
unfolding decrypt
decrypt_framed mode none s text h l whole = ground (
  arith,
  length-append s (mode.encrypt_blocks s text),
  slice_to-eq s (mode.encrypt_blocks s text) 16,
  slice_from-eq s (mode.encrypt_blocks s text) 16,
  mode.length-encrypt s text,
  decrypt_blocks_back mode s text l whole,
)
decrypt_framed mode (some v) s text h l whole = ground (
  arith,
  length-append v (mode.encrypt_blocks v text),
  slice_from-eq v (mode.encrypt_blocks v text) 16,
  mode.length-encrypt v text,
  decrypt_blocks_back mode v text h whole,
)

-- The cipher text of a text, which can be decrypted, and is at most two blocks longer.
pub encryption :
    (mode : BlockMode) (random : ℕ → ℕ → Bytes) (iv : Option Bytes) (plain : Bytes)
    → Fills random
    → IvFits iv
    → (c : Bytes) × (encrypt mode
          (λ i k. ok (random i k))
          (record { iv = iv; padding = none })
          plain
        ≡ ok c)
      × (decrypt mode (record { iv = iv; padding = none }) c ≡ ok plain)
      × (0 < length c)
      × (length c ≤ length plain + 32)
unfolding encrypt padded
encryption mode random iv plain fills h =
    let (front, n, e, l, small, whole) = pkcs7_padding-16 (random 0) plain (fills 0) in
    let text : Bytes = plain ++ (front ++ (n ∷ [])) in
    let size : length text ≡ length plain + (n + 1) =
      omega (arith, length-append plain (front ++ (n ∷ [])), length-append front (n ∷ [])) in
    let filled : length text % 16 ≡ 0 = omega (arith, size) in
    let v : Bytes = chosen iv (random 1 16) in
    let block : length v ≡ 16 = chosen-length iv (random 1 16) h (fills 1 16) in
    let long : length (v ++ mode.encrypt_blocks v text) ≡ 16 + length text =
      omega (arith, length-append v (mode.encrypt_blocks v text), mode.length-encrypt v text) in
    (
      v ++ mode.encrypt_blocks v text,
      rw e (
          rw (vector-chosen (random 1) iv h)
            (rw ((decrypt_blocks_back mode v text block filled).0) refl)),
      decrypt_framed mode iv (random 1 16) text h (fills 1 16) filled
          ∙ remove_padding-append plain front n l,
      omega (arith, long),
      omega (arith, long, size, small),
    )

-- Decryption undoes encryption for a text of any length, with a vector of one block or a random one,
-- where the padding is the cipher's own and the source of random bytes fills what it is given.
pub decryption_round_trip :
    (mode : BlockMode) (random : ℕ → ℕ → Bytes) (iv : Option Bytes) (plain : Bytes)
    → Fills random
    → IvFits iv
    → (encrypt mode (λ i k. ok (random i k)) (record { iv = iv; padding = none }) plain
        >>= decrypt mode (record { iv = iv; padding = none }))
      ≡ ok plain
decryption_round_trip mode random iv plain fills h =
    let (c, is_c, back, some_bytes, few) = encryption mode random iv plain fills h in rw is_c back
