-- ===== src/Eap/Md5.antt =====
-- eap/eap_md5.go: the MD5 challenge.
use ike.Base.Reads.{
  Returns-index, Returns-slice, eq_of_not_ne, le_of_not_ltb, passed, slice_from-Returns,
}
use ike.Base.Bytes.{Bytes, index, slice, slice-append, slice_from, slice_from-eq}
use ike.Base.{
  Result, Returns, Returns-bind, Returns-if, Returns-reject_if, [], arith, bad_eap_type,
  bad_value_size, err, if◌then◌else◌, length, length-append, ltb, ltb→lt, nil_of_length, not, ok,
  reject_if, returns_ok, too_short, ℕ, ◌++◌, ◌+◌, ◌==◌, ◌>>=◌, ◌>>◌, ◌∷◌, ◌≡◌,
}
use ike.Eap.Types.{eap_type_md5}

abbrev pub eap_md5_challenge_size : ℕ
eap_md5_challenge_size = 16

abbrev pub eap_md5_header_len : ℕ
eap_md5_header_len = 2

abbrev pub eap_md5_min_len : ℕ
eap_md5_min_len = 3

-- The name, a string, is the list of its bytes.
pub record EapMd5 : Type 0 where
  pub value_size : ℕ
  pub value : Bytes
  pub name : Bytes

-- `new(EapMD5)`
abbrev pub empty : EapMd5
empty = record { value_size = 0; value = []; name = [] }

unfoldable pub marshal : EapMd5 → Result Bytes
marshal x = do
  reject_if (not (x.value_size == eap_md5_challenge_size)) bad_value_size
  reject_if (not (length x.value == eap_md5_challenge_size)) bad_value_size
  ok (eap_type_md5 ∷ x.value_size ∷ (x.value ++ x.name))

-- The whole receiver is written.
unfoldable pub unmarshal : EapMd5 → Bytes → Result EapMd5
unmarshal x b = do
  reject_if (ltb (length b) eap_md5_min_len) too_short
  actual_type ← index b 0
  reject_if (not (actual_type == eap_type_md5)) bad_eap_type
  size ← index b 1
  reject_if (not (size == eap_md5_challenge_size)) bad_value_size
  reject_if (ltb (length b) (eap_md5_header_len + size)) too_short
  challenge ← slice b 2 18
  rest ← if ltb 18 (length b) then slice_from b 18 else ok []
  ok (record { value_size = size; value = challenge; name = rest })

unfoldable pub set_challenge_value : EapMd5 → Bytes → Result EapMd5
set_challenge_value x challenge = do
  reject_if (not (length challenge == eap_md5_challenge_size)) bad_value_size
  ok (record x { value_size = eap_md5_challenge_size; value = challenge })

unfoldable pub set_name : EapMd5 → Bytes → EapMd5
set_name x new_name = record x { name = new_name }

-- A challenge and a name that are set on any receiver are written and read back; a challenge of
-- another size than 16 is refused.
pub challenge_round_trip :
    (x y : EapMd5) (challenge new_name : Bytes)
    → (set_challenge_value x challenge >>= λ z. marshal (set_name z new_name) >>= unmarshal y) ≡ (
        if length challenge == 16
        then ok (record { value_size = 16; value = challenge; name = new_name })
        else err bad_value_size)
unfolding set_challenge_value set_name marshal unmarshal index
challenge_round_trip x y challenge new_name = ground (
  arith,
  slice-append (4 ∷ 16 ∷ []) challenge new_name 2 18,
  slice_from-eq (4 ∷ 16 ∷ challenge) new_name 18,
  length-append challenge new_name,
  nil_of_length new_name,
)

pub md5_round_trip :
    (x : EapMd5) → x.value_size ≡ 16 → length x.value ≡ 16 → (marshal x >>= unmarshal empty) ≡ ok x
unfolding marshal unmarshal index
md5_round_trip x s l = ground (
  arith,
  slice-append (4 ∷ 16 ∷ []) x.value x.name 2 18,
  slice_from-eq (4 ∷ 16 ∷ x.value) x.name 18,
  length-append x.value x.name,
  nil_of_length x.name,
)

pub unmarshal-Returns : (x : EapMd5) (b : Bytes) → Returns (unmarshal x b)
unfolding unmarshal
unmarshal-Returns x b = Returns-reject_if (ltb (length b) 3) _ _ λ three.
    Returns-index b 0 _ (omega passed) λ kind. Returns-reject_if (not (kind == 4)) _ _ λ _.
      Returns-index b 1 _ (omega passed) λ size. Returns-reject_if (not (size == 16)) _ _ λ is_16.
        Returns-reject_if (ltb (length b) (2 + size)) _ _ λ long.
          Returns-slice b 2 18 _ (omega arith)
            (omega (passed, le_of_not_ltb _ _ long, eq_of_not_ne size 16 is_16))
            λ _ _.
              Returns-bind _ _
                (Returns-if (ltb 18 (length b)) _ _
                  (λ more. slice_from-Returns b 18 (omega (arith, ltb→lt 18 (length b) more)))
                  (λ _. returns_ok []))
                λ _ _. returns_ok _
