-- ===== src/Message/Types.antt =====
-- message/types.go: the identifiers of the transforms that security/ knows.
use ike.Base.{ℕ}

abbrev pub encr_aes_cbc : ℕ
encr_aes_cbc = 12

abbrev pub prf_hmac_sha1 : ℕ
prf_hmac_sha1 = 2

abbrev pub prf_hmac_sha2_256 : ℕ
prf_hmac_sha2_256 = 5

abbrev pub auth_hmac_sha1_96 : ℕ
auth_hmac_sha1_96 = 2

abbrev pub auth_hmac_sha2_256_128 : ℕ
auth_hmac_sha2_256_128 = 12

abbrev pub dh_1024_bit_modp : ℕ
dh_1024_bit_modp = 2

abbrev pub dh_2048_bit_modp : ℕ
dh_2048_bit_modp = 14

abbrev pub esn_disable : ℕ
esn_disable = 0

abbrev pub esn_enable : ℕ
esn_enable = 1

abbrev pub attribute_format_use_tv : ℕ
attribute_format_use_tv = 1

abbrev pub attribute_type_key_length : ℕ
attribute_type_key_length = 14

-- Protocols of a proposal
abbrev pub type_ike : ℕ
type_ike = 1

abbrev pub type_esp : ℕ
type_esp = 3
