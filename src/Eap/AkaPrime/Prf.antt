-- ===== src/Eap/AkaPrime/Prf.antt =====
-- eap/eap_aka_prime.go: `EapAkaPrimePRF`, the keys of EAP-AKA' (RFC 9048, Section 3.4.1). A Go string is
-- its bytes.
use ike.Security.PrfPlus.{prf_plus}
use ike.Base.{
  Bool-cases, List, Result, [], ap, arith, bad_key_length, drop, false, inl, inr, length,
  length-drop, length-take, ltb, ltb-no, ok, refl, reject_if, suc, sym, take, too_short, zero, ℕ,
  ◌%◌, ◌*◌, ◌++◌, ◌+◌, ◌<◌, ◌==◌, ◌>>=◌, ◌>>◌, ◌||◌, ◌∙◌, ◌∷◌, ◌≡◌, ◌≤◌,
}
use ike.Base.Bytes.{Bytes, slice, slice-ok}
use ike.Security.Primitives.{Primitives, new_sha256}
use ike.Security.PrfPlus.Reference.{
  block_of, blocks, front_of_more, length-blocks, prf_plus-reference,
}

pub record EapKeys : Type 0 where
  pub k_encr : Bytes
  pub k_aut : Bytes
  pub k_re : Bytes
  pub msk : Bytes
  pub emsk : Bytes

-- "EAP-AKA'"
abbrev pub prf_label : Bytes
prf_label = 69 ∷ 65 ∷ 80 ∷ 45 ∷ 65 ∷ 75 ∷ 65 ∷ 39 ∷ []

-- `208/32 + 1`
abbrev pub prf_rounds_number : ℕ
prf_rounds_number = 7

-- The loop from round i + 1, for the rounds that are left: the key material so far and its last block.
unfoldable pub mk_rounds : ℕ → Primitives → Bytes → Bytes → ℕ → Bytes → Bytes → Bytes
mk_rounds zero c key s_base i mk prev = mk
mk_rounds (suc left) c key s_base i mk prev =
    let sha = c.hmac_sha256 key (prev ++ (s_base ++ (((i + 1) % 256) ∷ []))) in
    mk_rounds left c key s_base (i + 1) (mk ++ sha) sha

unfoldable pub eap_aka_prime_prf : Primitives → Bytes → Bytes → Bytes → Result EapKeys
unfolding mk_rounds
eap_aka_prime_prf c ik_prime ck_prime identity = do
  reject_if (length ik_prime == 0 || length ck_prime == 0) bad_key_length
  let mk = mk_rounds prf_rounds_number c (ik_prime ++ ck_prime) (prf_label ++ identity) 0 [] []
  reject_if (ltb (length mk) 208) too_short
  k_encr ← slice mk 0 16
  k_aut ← slice mk 16 48
  k_re ← slice mk 48 80
  msk ← slice mk 80 144
  emsk ← slice mk 144 208
  ok (record { k_encr = k_encr; k_aut = k_aut; k_re = k_re; msk = msk; emsk = emsk })

-- The lengths of the keys in their order.
abbrev pub key_lengths : EapKeys → List ℕ
key_lengths k = length k.k_encr ∷ length k.k_aut ∷ length k.k_re ∷ length k.msk ∷ length k.emsk ∷ []

-- The keys in their order.
abbrev pub joined_keys : EapKeys → Bytes
joined_keys k = k.k_encr ++ (k.k_aut ++ (k.k_re ++ (k.msk ++ k.emsk)))

-- Keys one after the other, with their lengths.
abbrev pub with_lengths : List ℕ → Bytes → Result (List ℕ × Bytes)
with_lengths lengths mk = ok (lengths, mk)

take-nil : (n : ℕ) → take {A = ℕ} n [] ≡ []
take-nil zero = refl
take-nil (suc n) = refl

take-split : (a b n : ℕ) (xs : Bytes) → n ≡ a + b → take n xs ≡ take a xs ++ take b (drop a xs)
take-split zero b n xs e = ap (λ (m : ℕ). take m xs) (e ∙ omega arith)
take-split (suc a) b n [] e = rw (take-nil n) (rw (take-nil b) refl)
take-split (suc a) b zero (x ∷ xs) e = absurd (omega arith)
take-split (suc a) b (suc n) (x ∷ xs) e = rw (take-split a b n xs (omega arith)) refl

drop-nil : (n : ℕ) → drop {A = ℕ} n [] ≡ []
drop-nil zero = refl
drop-nil (suc n) = refl

drop-drop : (a b n : ℕ) (xs : Bytes) → n ≡ a + b → drop b (drop a xs) ≡ drop n xs
drop-drop zero b n xs e = ap (λ (m : ℕ). drop m xs) (sym (e ∙ omega arith))
drop-drop (suc a) zero n [] e = sym (drop-nil n)
drop-drop (suc a) (suc b) n [] e = sym (drop-nil n)
drop-drop (suc a) b zero (x ∷ xs) e = absurd (omega arith)
drop-drop (suc a) b (suc n) (x ∷ xs) e = drop-drop a b n xs (omega arith)

part : (mk : Bytes) (a n : ℕ) → a + n ≤ length mk → length (take n (drop a mk)) ≡ n
part mk a n h = omega (arith, length-take {A = ℕ} n (drop a mk), length-drop a mk)

-- The five parts of 208 bytes.
parts :
    (mk : Bytes)
    → 208 ≤ length mk
    → (k : EapKeys) × (slice mk 0 16 ≡ ok k.k_encr)
      × (slice mk 16 48 ≡ ok k.k_aut)
      × (slice mk 48 80 ≡ ok k.k_re)
      × (slice mk 80 144 ≡ ok k.msk)
      × (slice mk 144 208 ≡ ok k.emsk)
      × (joined_keys k ≡ take 208 mk)
      × (key_lengths k ≡ 16 ∷ 32 ∷ 32 ∷ 64 ∷ 64 ∷ [])
parts mk h = (
  record {
    k_encr = take 16 (drop 0 mk);
    k_aut = take 32 (drop 16 mk);
    k_re = take 32 (drop 48 mk);
    msk = take 64 (drop 80 mk);
    emsk = take 64 (drop 144 mk);
  },
  slice-ok mk 0 16 (omega arith) (omega arith),
  slice-ok mk 16 48 (omega arith) (omega arith),
  slice-ok mk 48 80 (omega arith) (omega arith),
  slice-ok mk 80 144 (omega arith) (omega arith),
  slice-ok mk 144 208 (omega arith) (omega arith),
  sym (
      take-split 16 192 208 mk (omega arith)
      ∙ ap (λ (t : Bytes). take 16 mk ++ t)
          (take-split 32 160 192 (drop 16 mk) (omega arith)
            ∙ rw (drop-drop 16 32 48 mk (omega arith)) (
                ap (λ (t : Bytes). take 32 (drop 16 mk) ++ t)
                  (take-split 32 128 160 (drop 48 mk) (omega arith)
                    ∙ rw (drop-drop 48 32 80 mk (omega arith)) (
                        ap (λ (t : Bytes). take 32 (drop 48 mk) ++ t)
                          (take-split 64 64 128 (drop 80 mk) (omega arith)
                            ∙ rw (drop-drop 80 64 144 mk (omega arith)) refl)))))),
  rw
      (
        part mk 0 16 (omega arith),
        part mk 16 32 (omega arith),
        part mk 48 32 (omega arith),
        part mk 80 64 (omega arith),
        part mk 144 64 (omega arith),
      )
      refl,
)

-- The rounds are those of the key stream.
mk_rounds-blocks :
    (left : ℕ) (c : Primitives) (key s : Bytes) (i : ℕ)
    → i + left < 256
    → mk_rounds left c key s i (blocks (new_sha256 c key) s i) (block_of (new_sha256 c key) s i)
      ≡ blocks (new_sha256 c key) s (i + left)
unfolding mk_rounds blocks block_of
mk_rounds-blocks zero c key s i few = let e : i + 0 ≡ i = omega arith in rw e refl
mk_rounds-blocks (suc left) c key s i few =
    let byte : (i + 1) % 256 ≡ suc i = omega arith in
    let next : i + 1 ≡ suc i = omega arith in
    let sum : i + suc left ≡ suc i + left = omega arith in
    rw (byte, next, sum) (mk_rounds-blocks left c key s (suc i) (omega arith))

-- The keys of EAP-AKA' have 16, 32, 32, 64 and 64 bytes, and one after the other they are the 208 bytes
-- that `PrfPlus` gives under IK' | CK' for the seed "EAP-AKA'" | identity; without a byte of IK' or
-- of CK' there is an error.
pub eap_aka_prime_prf-prf_plus :
    (c : Primitives) (ik_prime ck_prime identity : Bytes)
    → (eap_aka_prime_prf c ik_prime ck_prime identity >>= λ k.
        with_lengths (key_lengths k) (joined_keys k))
      ≡ (reject_if (length ik_prime == 0 || length ck_prime == 0) bad_key_length
          >> (prf_plus (new_sha256 c (ik_prime ++ ck_prime)) (prf_label ++ identity) 208 >>= λ mk.
              ok (16 ∷ 32 ∷ 32 ∷ 64 ∷ 64 ∷ [], mk)))
unfolding eap_aka_prime_prf
eap_aka_prime_prf-prf_plus c ik_prime ck_prime identity =
    let key = ik_prime ++ ck_prime in
    let s = prf_label ++ identity in
    let h = new_sha256 c key in
    let mk = blocks h s 7 in
    let long : length mk ≡ 7 * 32 = length-blocks h s 7 in
    let rounds : mk_rounds 7 c key s 0 [] [] ≡ mk =
      unfold blocks block_of in mk_rounds-blocks 7 c key s 0 (omega arith) in
    let (k, e1, e2, e3, e4, e5, whole, lengths) = parts mk (omega (arith, long)) in
    let enough : ltb (length mk) 208 ≡ false = ltb-no (length mk) 208 (omega (arith, long)) in
    let stream : prf_plus h s 208 ≡ ok (joined_keys k) =
      (prf_plus-reference h s 208 (omega arith) (omega arith)).0
      ∙ ap ok (front_of_more h s 208 7 248 (omega arith) ∙ sym whole) in
    elim (Bool-cases (length ik_prime == 0 || length ck_prime == 0)) [
      | inl missing ↦ rw missing refl
      | inr there ↦ rw there (
          rw rounds
            (rw enough (rw e1 (rw e2 (rw e3 (rw e4 (rw e5 (rw stream (rw lengths refl)))))))))
    ]
