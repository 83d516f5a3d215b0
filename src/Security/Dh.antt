-- ===== src/Security/Dh.antt =====
-- security/dh: the Diffie-Hellman groups. The methods of the two types have the same text, which is
-- translated once, on the fields that both have.
pub mod Laws
use Prim.Native.String.{String}
use text.Mathlib.Text.{◌==◌ as str_eq}
use text.Mathlib.TextEquality.{eq_iff}
use ike.Base.{
  Option, Result, arith, bad_public_value, if◌then◌else◌, inl, inr, leb, length, ltb, none, ok,
  panic, refl, reject_if, replicate, some, ℕ, ◌++◌, ◌-◌, ◌<◌, ◌==◌, ◌>>=◌, ◌>>◌, ◌^◌, ◌||◌, ◌≡◌,
  ◌⊎◌,
}
use ike.Base.Bytes.{Bytes}
use ike.Message.Types
use ike.Message.SecurityAssociation.{Transform, type_diffie_hellman_group}
use ike.Security.Integers.{exp, int_bytes}
use ike.Security.Registry.{
  Attribute, Namer, decode_by, decode_by-named, no_attributes, of_name, plain, transform_of,
}

-- `Group2PrimeString` and `Group14PrimeString`, as `SetString` reads them
unfoldable pub group2_prime : ℕ
group2_prime =
    0xFFFFFFFF_FFFFFFFF_C90FDAA2_2168C234_C4C6628B_80DC1CD1_29024E08_8A67CC74_020BBEA6_3B139B22_514A0879_8E3404DD_EF9519B3_CD3A431B_302B0A6D_F25F1437_4FE1356D_6D51C245_E485B576_625E7EC6_F44C42E9_A637ED6B_0BFF5CB6_F406B7ED_EE386BFB_5A899FA5_AE9F2411_7C4B1FE6_49286651_ECE65381_FFFFFFFF_FFFFFFFF

unfoldable pub group14_prime : ℕ
group14_prime =
    0xFFFFFFFF_FFFFFFFF_C90FDAA2_2168C234_C4C6628B_80DC1CD1_29024E08_8A67CC74_020BBEA6_3B139B22_514A0879_8E3404DD_EF9519B3_CD3A431B_302B0A6D_F25F1437_4FE1356D_6D51C245_E485B576_625E7EC6_F44C42E9_A637ED6B_0BFF5CB6_F406B7ED_EE386BFB_5A899FA5_AE9F2411_7C4B1FE6_49286651_ECE45B3D_C2007CB8_A163BF05_98DA4836_1C55D39A_69163FA8_FD24CF5F_83655D23_DCA3AD96_1C62F356_208552BB_9ED52907_7096966D_670C354E_4ABC9804_F1746C08_CA18217C_32905E46_2E36CE3B_E39E772C_180E8603_9B2783A2_EC07A28F_B5C55DF0_6F4C52C9_DE2BCBF6_95581718_3995497C_EA956AE5_15D22618_98FA0510_15728E5A_8AACAA68_FFFFFFFF_FFFFFFFF

-- The fields of `Dh1024BitModp` and `DH2048BitModp`
pub record Group : Type 0 where
  pub factor : ℕ
  pub generator : ℕ
  pub factor_bytes_length : ℕ

pub data DhType : Type 0 where
  dh_1024_bit_modp : Group → DhType
  dh_2048_bit_modp : Group → DhType

abbrev pub group2 : DhType
group2 =
    dh_1024_bit_modp (record { factor = group2_prime; generator = 2; factor_bytes_length = 128 })

abbrev pub group14 : DhType
group14 =
    dh_2048_bit_modp (record { factor = group14_prime; generator = 2; factor_bytes_length = 256 })

-- `make([]byte, n)` before the bytes; a negative size panics.
unfoldable pub prepend_zero : ℕ → Bytes → Result Bytes
prepend_zero size b = if ltb size (length b) then panic else ok (replicate (size - length b) 0 ++ b)

-- `GetSharedKey`: the value of the peer is refused unless it is above 1 and below p - 1.
unfoldable pub group_shared_key : Group → ℕ → ℕ → Result Bytes
unfolding prepend_zero
group_shared_key t secret peer_public_value = do
  reject_if (leb peer_public_value 1 || leb (t.factor - 1) peer_public_value) bad_public_value
  prepend_zero t.factor_bytes_length (int_bytes (exp peer_public_value secret t.factor))

-- `GetPublicValue`
unfoldable pub group_public_value : Group → ℕ → Result Bytes
unfolding prepend_zero
group_public_value t secret =
    prepend_zero t.factor_bytes_length (int_bytes (exp t.generator secret t.factor))

unfoldable pub group_of : DhType → Group
group_of (dh_1024_bit_modp t) = t
group_of (dh_2048_bit_modp t) = t

unfoldable pub get_shared_key : DhType → ℕ → ℕ → Result Bytes
get_shared_key t secret peer = group_shared_key (group_of t) secret peer

unfoldable pub get_public_value : DhType → ℕ → Result Bytes
get_public_value t secret = group_public_value (group_of t) secret

-- `dhString`
unfoldable pub dh_string : ℕ → Option Namer
dh_string id =
    if id == Types.dh_1024_bit_modp
    then some (λ kind value bytes. "DH_1024_BIT_MODP")
    else (if id == Types.dh_2048_bit_modp
        then some (λ kind value bytes. "DH_2048_BIT_MODP")
        else none)

unfoldable pub str_to_type : String → Option DhType
str_to_type algo =
    if str_eq algo "DH_1024_BIT_MODP"
    then some group2
    else (if str_eq algo "DH_2048_BIT_MODP" then some group14 else none)

unfoldable pub transform_id : DhType → ℕ
transform_id (dh_1024_bit_modp t) = Types.dh_1024_bit_modp
transform_id (dh_2048_bit_modp t) = Types.dh_2048_bit_modp

unfoldable pub get_attribute : DhType → Attribute
get_attribute (dh_1024_bit_modp t) = no_attributes
get_attribute (dh_2048_bit_modp t) = no_attributes

unfoldable pub decode_transform : Transform → Option DhType
decode_transform t = decode_by dh_string str_to_type t

unfoldable pub to_transform : DhType → Transform
unfolding transform_id get_attribute
to_transform t = transform_of type_diffie_hellman_group (transform_id t) (get_attribute t)

-- The algorithms that have a name.
abbrev pub IsRegistered : DhType → Type 0
IsRegistered t = (t ≡ group2) ⊎ (t ≡ group14)

pub str_to_type-IsRegistered :
    (algo : String) {t : DhType} → str_to_type algo ≡ some t → IsRegistered t
unfolding str_to_type
str_to_type-IsRegistered algo e = ground arith

pub decode_transform-to_transform :
    (t : DhType) → IsRegistered t → decode_transform (to_transform t) ≡ some t
unfolding decode_transform decode_by of_name to_transform transform_of transform_id get_attribute
    dh_string str_to_type
decode_transform-to_transform t (inl e) = rw e refl
decode_transform-to_transform t (inr e) = rw e refl

pub to_transform-plain :
    (t : DhType) → (to_transform t ≡ plain 4 (transform_id t)) × (transform_id t < 2 ^ 16)
unfolding to_transform transform_of transform_id get_attribute
to_transform-plain (dh_1024_bit_modp t) = (refl, omega arith)
to_transform-plain (dh_2048_bit_modp t) = (refl, omega arith)

pub decode_transform-IsRegistered :
    (t : Transform) {a : DhType} → decode_transform t ≡ some a → IsRegistered a
unfolding decode_transform
decode_transform-IsRegistered t e =
    let (s, named) = decode_by-named dh_string str_to_type t e in str_to_type-IsRegistered s named
