-- ===== src/Security/EncrAesCbc.antt =====
-- security/encr/encr_aes_cbc.go: `Encrypt` and `Decrypt`. The block mode of crypto/cipher under one key
-- is an argument.
pub mod Laws
pub mod Panics
use ike.Base.{
  Option, Result, bad_value_size, if◌then◌else◌, length, length_mismatch, ltb, none, not, ok, panic,
  reject_if, replicate, some, take, too_short, ℕ, ◌%◌, ◌&&◌, ◌++◌, ◌+◌, ◌-◌, ◌==◌, ◌>>=◌, ◌>>◌, ◌≡◌,
}
use ike.Base.Bytes.{Bytes, index, slice_from, slice_to}
use ike.Security.Padding.{pkcs7_padding}

abbrev pub block_size : ℕ
block_size = 16

-- `CryptBlocks` of the encrypter and the decrypter for an initialization vector. Decrypting undoes
-- encrypting on whole blocks, and both keep the length.
pub record BlockMode : Type 0 where
  pub encrypt_blocks : Bytes → Bytes → Bytes
  pub decrypt_blocks : Bytes → Bytes → Bytes
  pub decrypt-encrypt :
      (iv p : Bytes)
      → length iv ≡ 16
      → length p % 16 ≡ 0
      → decrypt_blocks iv (encrypt_blocks iv p) ≡ p
  pub length-encrypt : (iv p : Bytes) → length (encrypt_blocks iv p) ≡ length p
  pub length-decrypt : (iv p : Bytes) → length (decrypt_blocks iv p) ≡ length p

pub record EncrAesCbcCrypto : Type 0 where
  pub iv : Option Bytes
  pub padding : Option Bytes

-- The block mode panics on a vector of another size, and on a part of a block.
unfoldable pub crypt : (Bytes → Bytes → Bytes) → Bytes → Bytes → Result Bytes
crypt blocks iv text =
    if (length iv == block_size) && (length text % block_size == 0)
    then ok (blocks iv text)
    else panic

unfoldable pub padded : (ℕ → Result Bytes) → Option Bytes → Bytes → Result Bytes
padded random none plain_text = pkcs7_padding random plain_text block_size
padded random (some p) plain_text = ok (plain_text ++ p)

-- The vector, and the first block of the cipher text, into which it is read or copied.
unfoldable pub vector : (ℕ → Result Bytes) → Option Bytes → Result (Bytes × Bytes)
vector random none = do s ← random block_size; ok (s, s)
vector random (some v) = ok (v, take block_size (v ++ replicate block_size 0))

-- Random bytes are read twice: for the padding, read 0, and for the vector, read 1.
unfoldable pub encrypt :
    BlockMode → (ℕ → ℕ → Result Bytes) → EncrAesCbcCrypto → Bytes → Result Bytes
encrypt mode random x plain_text = do
  text ← padded (random 0) x.padding plain_text
  (initialization_vector, front) ← vector (random 1) x.iv
  encrypted ← crypt mode.encrypt_blocks initialization_vector text
  ok (front ++ encrypted)

-- The padding is as long as its last byte says.
unfoldable pub remove_padding : Bytes → Result Bytes
remove_padding plain_text = do
  last ← if length plain_text == 0 then panic else index plain_text (length plain_text - 1)
  let padding = last + 1
  reject_if (ltb (length plain_text) padding) bad_value_size
  slice_to plain_text (length plain_text - padding)

unfoldable pub decrypt : BlockMode → EncrAesCbcCrypto → Bytes → Result Bytes
decrypt mode x cipher_text = do
  reject_if (ltb (length cipher_text) block_size) too_short
  initialization_vector ← elim x.iv [ none ↦ slice_to cipher_text block_size | some v ↦ ok v ]
  encrypted_message ← slice_from cipher_text block_size
  reject_if (not (length encrypted_message % block_size == 0)) length_mismatch
  plain_text ← crypt mode.decrypt_blocks initialization_vector encrypted_message
  remove_padding plain_text
