-- ===== src/Security/EncrAesCbc/Panics.antt =====
-- Where decryption panics.
use ike.Base.{
  ==_iff, Bool-cases, Option, Returns, Returns-ne-panic, Returns-reject_if, arith, drop, false, inl,
  inr, length, length-drop, length-take, ltb, none, not, panic, some, take, true, ◌%◌, ◌&&◌, ◌+◌,
  ◌-◌, ◌<◌, ◌==◌, ◌>>=◌, ◌↔◌, ◌≡◌, ◌≢◌,
}
use ike.Base.Bytes.{Bytes, slice_from-ok, slice_to-ok}
use ike.Base.Reads.{
  Returns-index, Returns-slice_from, Returns-slice_to, eq_of_not_ne, passed, slice_to-Returns,
}
use ike.Security.EncrAesCbc.{BlockMode, crypt, decrypt, remove_padding}
use ike.Security.EncrAesCbc.Laws.{IvFits}

remove_padding-Returns : (s : Bytes) → 0 < length s → Returns (remove_padding s)
unfolding remove_padding
remove_padding-Returns s h =
    let full : (length s == 0) ≡ false = ground arith in
    rw full (
      Returns-index s (length s - 1) _ (omega arith) λ n.
        Returns-reject_if (ltb (length s) (n + 1)) _ _
          λ p. slice_to-Returns s (length s - (n + 1)) (omega arith))

-- Behind the first block and its vector.
crypt-Returns :
    (mode : BlockMode) (v e : Bytes)
    → length v ≡ 16
    → length e % 16 ≡ 0
    → 0 < length e
    → Returns (crypt mode.decrypt_blocks v e >>= remove_padding)
unfolding crypt
crypt-Returns mode v e lv le pos =
    let whole : ((length v == 16) && (length e % 16 == 0)) ≡ true = ground arith in
    rw whole
      (remove_padding-Returns (mode.decrypt_blocks v e) (omega (arith, mode.length-decrypt v e)))

long-Returns :
    (mode : BlockMode) (iv : Option Bytes) (c : Bytes)
    → IvFits iv
    → length c ≢ 16
    → Returns (decrypt mode (record { iv = iv; padding = none }) c)
unfolding decrypt
long-Returns mode none c h n = Returns-reject_if (ltb (length c) 16) _ _ λ long.
    Returns-slice_to c 16 _ (omega passed) λ v lv. Returns-slice_from c 16 _ (omega passed) λ e le.
      Returns-reject_if (not (length e % 16 == 0)) _ _
        λ whole. crypt-Returns mode v e lv (eq_of_not_ne (length e % 16) 0 whole) (omega passed)
long-Returns mode (some v) c h n = Returns-reject_if (ltb (length c) 16) _ _ λ long.
    Returns-slice_from c 16 _ (omega passed) λ e le.
      Returns-reject_if (not (length e % 16 == 0)) _ _
        λ whole. crypt-Returns mode v e h (eq_of_not_ne (length e % 16) 0 whole) (omega passed)

one_block :
    (mode : BlockMode) (iv : Option Bytes) (c : Bytes)
    → IvFits iv
    → length c ≡ 16
    → decrypt mode (record { iv = iv; padding = none }) c ≡ panic
unfolding decrypt crypt remove_padding
one_block mode none c h l = ground (
  arith,
  slice_to-ok c 16,
  slice_from-ok c 16,
  length-take 16 c,
  length-drop 16 c,
  mode.length-decrypt (take 16 c) (drop 16 c),
)
one_block mode (some v) c h l =
    ground (arith, slice_from-ok c 16, length-drop 16 c, mode.length-decrypt v (drop 16 c))

-- With a vector of one block or the one in the text, decryption panics exactly on a text of one
-- block, which holds no byte of padding; on all other texts it returns.
pub decrypt-panic_iff :
    (mode : BlockMode) (iv : Option Bytes) (c : Bytes)
    → IvFits iv
    → (decrypt mode (record { iv = iv; padding = none }) c ≡ panic) ↔ (length c ≡ 16)
decrypt-panic_iff mode iv c h = (
  λ e. elim (Bool-cases (length c == 16)) [
    | inl same ↦ (==_iff (length c) 16).0 same
    | inr other ↦ absurd (Returns-ne-panic _ (long-Returns mode iv c h (ground arith)) e)
  ],
  one_block mode iv c h,
)
