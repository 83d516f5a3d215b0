-- ===== src/Security/Padding.antt =====
-- security/lib/lib.go: padding. The source of random bytes is an argument: what `rand.Read` answers
-- for a slice of n bytes.
use ike.Base.{
  Result, [], bad_value_size, if◌then◌else◌, length, ltb, ok, panic, reject_if, suc, zero, ℕ, ◌%◌,
  ◌++◌, ◌-◌, ◌==◌, ◌>>=◌, ◌>>◌, ◌∷◌,
}
use ike.Base.Bytes.{Bytes}

-- `s[len(s)-1] = v`
unfoldable pub set_last : Bytes → ℕ → Result Bytes
set_last [] v = panic
set_last (x ∷ []) v = ok (v ∷ [])
set_last (x ∷ y ∷ s) v = do rest ← set_last (y ∷ s) v; ok (x ∷ rest)

-- `PKCS7Padding`; a block size of 0 divides by zero.
unfoldable pub pkcs7_padding : (ℕ → Result Bytes) → Bytes → ℕ → Result Bytes
pkcs7_padding random plain_text zero = panic
pkcs7_padding random plain_text (suc n) = do
  let block_size = suc n
  let room = block_size - length plain_text % block_size
  let padding = if room == 0 then block_size else room
  reject_if (ltb 255 padding) bad_value_size
  text ← random padding
  padding_text ← set_last text ((padding - 1) % 256)
  ok (plain_text ++ padding_text)
