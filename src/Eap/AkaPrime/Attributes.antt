-- ===== src/Eap/AkaPrime/Attributes.antt =====
-- An attribute of EAP-AKA' that was set and written is read back.
use ike.Base.{
  ==_iff, Bool-cases, [], append_assoc, arith, drop, false, if◌then◌else◌, inl, inr, length,
  length-append, length-replicate, ltb, nil_of_length, ok, refl, replicate, take, ℕ, ◌%◌, ◌*◌, ◌++◌,
  ◌+◌, ◌-◌, ◌/◌, ◌<◌, ◌==◌, ◌>>=◌, ◌||◌, ◌∷◌, ◌≡◌, ◌≢◌, ◌≤◌,
}
use ike.Base.Bytes.{AllBytes, Bytes, put_uint16, uint16}
use ike.Eap.AkaPrime.Attribute.{
  EapAkaPrimeAttr, at_auts, at_checkcode, at_kdf_input, at_res, padding_bytes, set_attr, set_auts,
  set_checkcode, set_fixed, set_kdf_input, set_res, set_short,
}
use ike.Eap.AkaPrime.Reader.{
  read_attribute, read_auts, read_checkcode, read_fixed, read_full, read_padded, read_short,
}

-- What is behind the type and the size.
abbrev pub attribute_body : EapAkaPrimeAttr → Bytes
attribute_body a = (if a.attr_type == at_auts then [] else put_uint16 a.reserved) ++ a.value

-- What is read back of an attribute that was set to `v`: the value without its padding.
abbrev pub as_read : Bytes → EapAkaPrimeAttr → EapAkaPrimeAttr
as_read v a =
    if a.attr_type == at_kdf_input || a.attr_type == at_res then record a { value = v } else a

take-append : (s r : Bytes) → take (length s) (s ++ r) ≡ s
take-append [] r = refl
take-append (x ∷ s) r = rw (take-append s r)

drop-append : (s r : Bytes) → drop (length s) (s ++ r) ≡ r
drop-append [] r = refl
drop-append (x ∷ s) r = rw (drop-append s r)

read_full-append : (n : ℕ) (s r : Bytes) → n ≡ length s → read_full n (s ++ r) ≡ ok (s, r)
unfolding read_full
read_full-append n s r e =
    rw e (ground (arith, length-append s r, take-append s r, drop-append s r))

read_two : (p q : ℕ) (r : Bytes) → read_full 2 (p ∷ q ∷ r) ≡ ok (p ∷ q ∷ [], r)
read_two p q r = read_full-append 2 (p ∷ q ∷ []) r refl

fixed_back :
    (kind : ℕ) (v r : Bytes)
    → (kind ≢ at_auts) × (kind ≢ at_kdf_input) × (kind ≢ at_res)
    → (set_fixed kind v >>= λ a. read_fixed kind a.size (attribute_body a ++ r))
      ≡ (set_fixed kind v >>= λ a. ok (as_read v a, r))
unfolding set_fixed read_fixed
fixed_back kind v r h = ground (arith, read_two 0 0 (v ++ r), read_full-append 16 v r)

auts_back :
    (v r : Bytes)
    → (set_auts v >>= λ a. read_auts a.size (attribute_body a ++ r))
      ≡ (set_auts v >>= λ a. ok (as_read v a, r))
unfolding set_auts read_auts
auts_back v r = ground (arith, read_full-append 14 v r)

short_back :
    (kind : ℕ) (v r : Bytes)
    → (kind ≢ at_auts) × (kind ≢ at_kdf_input) × (kind ≢ at_res)
    → AllBytes v
    → (set_short kind v >>= λ a. read_short kind a.size (attribute_body a ++ r))
      ≡ (set_short kind v >>= λ a. ok (as_read v a, r))
unfolding set_short read_short uint16
short_back kind [] r h all = ground arith
short_back kind (p ∷ []) r h all = ground arith
short_back kind (p ∷ q ∷ []) r h (hp, (hq, _)) = ground (arith, read_two p q r)
short_back kind (p ∷ q ∷ s ∷ v) r h all = ground arith

checkcode_back :
    (v r : Bytes)
    → length v % 4 ≡ 0
    → length v ≤ 248
    → (set_checkcode v >>= λ a. read_checkcode a.size (attribute_body a ++ r))
      ≡ (set_checkcode v >>= λ a. ok (as_read v a, r))
unfolding set_checkcode read_checkcode
checkcode_back v r m l = ground (arith, read_two 0 0 (v ++ r), read_full-append (length v) v r)

-- A value with padding behind it, whose size counts both: the padding is dropped.
padded_back :
    (unit kind size n : ℕ) (v zeros r : Bytes)
    → n / unit ≡ length v
    → n < 65536
    → size * 4 ≡ 4 + (length v + length zeros)
    → size * 4 < 256
    → read_padded unit kind size (put_uint16 n ++ (v ++ (zeros ++ r)))
      ≡ ok (record { attr_type = kind; size = size; reserved = n; value = v }, r)
unfolding read_padded uint16
padded_back unit kind size n v zeros r e few total small =
    let field : n / 256 % 256 * 256 + n % 256 ≡ n = omega arith in
    let padding : (size * 4 % 256 + 2 * 65536 - length v - 4) % 65536 ≡ length zeros =
      omega arith in
    rw (read_two (n / 256 % 256) (n % 256) (v ++ (zeros ++ r))) (
      rw (field, e)
        (rw (read_full-append (length v) v (zeros ++ r) refl) (
          rw padding
            (ground (arith, read_full-append (length zeros) zeros r, nil_of_length zeros)))))

kdf_input_back :
    (v r : Bytes)
    → length v ≤ 248
    → (set_kdf_input v >>= λ a. read_padded 1 at_kdf_input a.size (attribute_body a ++ r))
      ≡ (set_kdf_input v >>= λ a. ok (as_read v a, r))
unfolding set_kdf_input
kdf_input_back v r l =
    let zeros : Bytes = replicate (padding_bytes (4 + length v)) 0 in
    let count : length zeros ≡ padding_bytes (4 + length v) =
      length-replicate (padding_bytes (4 + length v)) 0 in
    rw (append_assoc v zeros r) (
      padded_back 1 at_kdf_input ((4 + length v + padding_bytes (4 + length v)) / 4 % 256)
        (length v % 65536) v zeros r (omega arith) (omega arith) (omega (arith, count))
        (omega arith))

res_back :
    (v r : Bytes)
    → (set_res v >>= λ a. read_padded 8 at_res a.size (attribute_body a ++ r))
      ≡ (set_res v >>= λ a. ok (as_read v a, r))
unfolding set_res
res_back v r = elim (Bool-cases (ltb 128 (length v * 8) || ltb (length v * 8) 32)) [
  | inl refused ↦ rw refused refl
  | inr range ↦
      let zeros : Bytes = replicate (padding_bytes (4 + length v)) 0 in
      let count : length zeros ≡ padding_bytes (4 + length v) =
        length-replicate (padding_bytes (4 + length v)) 0 in
      let bounds : (4 ≤ length v) × (length v ≤ 16) = ground arith in
      let back =
        padded_back 8 at_res ((4 + length v + padding_bytes (4 + length v)) / 4) (length v * 8) v
          zeros r (omega arith) (omega (arith, bounds.1)) (omega (arith, count))
          (omega (arith, bounds.1)) in
      ground (arith, range, append_assoc v zeros r, back)
]

-- The values that the parser can read back: the uint8 size in words must not wrap in bytes, and a
-- checkcode fills whole words.
pub record IsReadable (kind : ℕ) (v : Bytes) : Type 0 where
  pub bytes : AllBytes v
  pub name_fits : kind ≡ at_kdf_input → length v ≤ 248
  pub code_fits : kind ≡ at_checkcode → (length v % 4 ≡ 0) × (length v ≤ 248)

-- The types but AT_MAC, AT_RAND and AT_AUTN.
rest_round_trip :
    (kind : ℕ) (v r : Bytes)
    → IsReadable kind v
    → ((kind == 11) ≡ false) × ((kind == 1) ≡ false) × ((kind == 2) ≡ false)
    → (set_attr kind v >>= λ a. read_attribute kind a.size (attribute_body a ++ r))
      ≡ (set_attr kind v >>= λ a. ok (as_read v a, r))
unfolding set_attr read_attribute
rest_round_trip kind v r w (e11, e1, e2) = elim (Bool-cases (kind == 4)) [
  | inl e ↦ rw ((==_iff kind 4).0 e) (auts_back v r)
  | inr e4 ↦ elim (Bool-cases (kind == 23)) [
    | inl e ↦ let k = (==_iff kind 23).0 e in rw k (kdf_input_back v r (w.name_fits k))
    | inr e23 ↦ elim (Bool-cases (kind == 3)) [
      | inl e ↦ rw ((==_iff kind 3).0 e) (res_back v r)
      | inr e3 ↦ elim (Bool-cases (kind == 24)) [
        | inl e ↦
            rw ((==_iff kind 24).0 e)
              (short_back 24 v r (omega arith, omega arith, omega arith) w.bytes)
        | inr e24 ↦ elim (Bool-cases (kind == 12)) [
          | inl e ↦
              rw ((==_iff kind 12).0 e)
                (short_back 12 v r (omega arith, omega arith, omega arith) w.bytes)
          | inr e12 ↦ elim (Bool-cases (kind == 134)) [
            | inl e ↦
                let k = (==_iff kind 134).0 e in
                rw k (checkcode_back v r (w.code_fits k).0 (w.code_fits k).1)
            | inr e134 ↦ rw (e11, e1, e2, e4, e23, e3, e24, e12, e134) refl
          ]
        ]
      ]
    ]
  ]
]

-- An attribute that can be set to a value and that the parser can read is written and read back,
-- whatever is behind it: only the padding of AT_KDF_INPUT and AT_RES is lost.
pub attribute_round_trip :
    (kind : ℕ) (v r : Bytes)
    → IsReadable kind v
    → (set_attr kind v >>= λ a. read_attribute kind a.size (attribute_body a ++ r))
      ≡ (set_attr kind v >>= λ a. ok (as_read v a, r))
unfolding set_attr read_attribute
attribute_round_trip kind v r w = elim (Bool-cases (kind == 11)) [
  | inl e ↦ rw ((==_iff kind 11).0 e) (fixed_back 11 v r (omega arith, omega arith, omega arith))
  | inr e11 ↦ elim (Bool-cases (kind == 1)) [
    | inl e ↦ rw ((==_iff kind 1).0 e) (fixed_back 1 v r (omega arith, omega arith, omega arith))
    | inr e1 ↦ elim (Bool-cases (kind == 2)) [
      | inl e ↦ rw ((==_iff kind 2).0 e) (fixed_back 2 v r (omega arith, omega arith, omega arith))
      | inr e2 ↦ rest_round_trip kind v r w (e11, e1, e2)
    ]
  ]
]
