-- ===== src/Security/Primitives.antt =====
-- What security/ takes from crypto/: HMAC with SHA-1 and SHA-256, and AES in CBC mode, as an
-- argument of the code that uses them; and a `hash.Hash` that was made with a key.
use ike.Base.{length, ℕ, ◌≡◌}
use ike.Base.Bytes.{Bytes}
use ike.Security.EncrAesCbc.{BlockMode}

-- A `hash.Hash` as the code uses it, which resets one before it writes to it: what `Sum(nil)`
-- answers for the bytes that were written, and `Size`.
pub record Hash : Type 0 where
  pub size : ℕ
  pub sum : Bytes → Bytes
  pub length-sum : (m : Bytes) → length (sum m) ≡ size

-- Under a key and for a text, `hmac.New` with `Write` and `Sum(nil)`; under a key, the block cipher of
-- `aes.NewCipher` in the block mode.
pub record Primitives : Type 0 where
  pub hmac_sha1 : Bytes → Bytes → Bytes
  pub hmac_sha256 : Bytes → Bytes → Bytes
  pub aes : Bytes → BlockMode
  pub length-hmac_sha1 : (key m : Bytes) → length (hmac_sha1 key m) ≡ 20
  pub length-hmac_sha256 : (key m : Bytes) → length (hmac_sha256 key m) ≡ 32

-- `hmac.New(sha1.New, key)` and `hmac.New(sha256.New, key)`
abbrev pub new_sha1 : Primitives → Bytes → Hash
new_sha1 c key = record { size = 20; sum = c.hmac_sha1 key; length-sum = c.length-hmac_sha1 key }

abbrev pub new_sha256 : Primitives → Bytes → Hash
new_sha256 c key = record {
  size = 32;
  sum = c.hmac_sha256 key;
  length-sum = c.length-hmac_sha256 key;
}
