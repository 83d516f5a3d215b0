-- ===== src/Tests/Ciphers.antt =====
-- The cipher of security/encr/encr_aes_cbc.go, with a block mode that adds 7 to each byte.
use ike.Base.{
  [], ap, arith, length, length-replicate, none, ok, panic, refl, replicate, suc, ◌+◌, ◌-◌, ◌>>=◌,
  ◌↔◌, ◌∷◌, ◌≡◌,
}
use ike.Base.Bytes.{Bytes}
use ike.Security.EncrAesCbc.{BlockMode, decrypt, encrypt}
use ike.Security.EncrAesCbc.Laws.{decryption_round_trip}
use ike.Security.EncrAesCbc.Panics.{decrypt-panic_iff}

pub shift_up : Bytes → Bytes
shift_up [] = []
shift_up (x ∷ s) = (x + 7) ∷ shift_up s

unfoldable pub shift_down : Bytes → Bytes
shift_down [] = []
shift_down (x ∷ s) = (x - 7) ∷ shift_down s

pub shift_down-up : (s : Bytes) → shift_down (shift_up s) ≡ s
unfolding shift_down shift_up
shift_down-up [] = refl
shift_down-up (x ∷ s) =
    let same : x + 7 - 7 ≡ x = omega arith in rw same (rw (shift_down-up s) refl)

pub length-shift_up : (s : Bytes) → length (shift_up s) ≡ length s
unfolding shift_up
length-shift_up [] = refl
length-shift_up (x ∷ s) = ap suc (length-shift_up s)

pub length-shift_down : (s : Bytes) → length (shift_down s) ≡ length s
unfolding shift_down
length-shift_down [] = refl
length-shift_down (x ∷ s) = ap suc (length-shift_down s)

abbrev pub shift_mode : BlockMode
shift_mode = record {
  encrypt_blocks = λ iv p. shift_up p;
  decrypt_blocks = λ iv p. shift_down p;
  decrypt-encrypt = λ iv p l w. shift_down-up p;
  length-encrypt = λ iv p. length-shift_up p;
  length-decrypt = λ iv p. length-shift_down p;
}

decryption_round_trip_example :
    (encrypt shift_mode
        (λ i k. ok (replicate k i))
        (record { iv = none; padding = none })
        (1 ∷ 2 ∷ [])
      >>= decrypt shift_mode (record { iv = none; padding = none }))
    ≡ ok (1 ∷ 2 ∷ [])
decryption_round_trip_example =
    decryption_round_trip shift_mode (λ i k. replicate k i) none (1 ∷ 2 ∷ [])
      (λ i n. length-replicate n i) tt

abbrev one_block : Bytes
one_block = replicate 16 5

decrypt-panic_iff_example :
    (decrypt shift_mode (record { iv = none; padding = none }) one_block ≡ panic)
    ↔ (length one_block ≡ 16)
decrypt-panic_iff_example = decrypt-panic_iff shift_mode none one_block tt
