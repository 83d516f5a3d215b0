-- ===== src/Security/IkeSa/Ready.antt =====
-- Algorithms that were chosen, and keys that are ready.
use ike.Base.{arith, inl, inr, length, none, ok, some, ◌<◌, ◌≡◌, ◌≤◌}
use ike.Base.Bytes.{Bytes}
use ike.Security.EncrAesCbc.{BlockMode}
use ike.Security.Primitives.{Hash, Primitives, new_sha1, new_sha256}
use ike.Security.Prf
use ike.Security.Dh
use ike.Security.Encr
use ike.Security.Prf.{PrfType, prf_init}
use ike.Security.Integ
use ike.Security.Integ.{IntegType, integ_init}
use ike.Security.Encr.{EncrAesCbc, new_crypto}
use ike.Security.Dh.{DhType}
use ike.Security.IkeSa.{IkeSaKey}

-- The algorithms are there, and stand in the tables.
pub record IsChosen (k : IkeSaKey) : Type 0 where
  pub dh : DhType
  pub encr : EncrAesCbc
  pub integ : IntegType
  pub prf : PrfType
  pub is_dh : k.dh_info ≡ some dh
  pub is_encr : k.encr_info ≡ some encr
  pub is_integ : k.integ_info ≡ some integ
  pub is_prf : k.prf_info ≡ some prf
  pub dh_registered : Dh.IsRegistered dh
  pub encr_registered : Encr.IsRegistered encr
  pub integ_registered : Integ.IsRegistered integ
  pub prf_registered : Prf.IsRegistered prf

-- Everything that the encryption of messages needs is there.
pub record IsReady (k : IkeSaKey) : Type 0 where
  pub encr : EncrAesCbc
  pub integ : IntegType
  pub hash_i : Hash
  pub hash_r : Hash
  pub block_i : BlockMode
  pub block_r : BlockMode
  pub is_encr : k.encr_info ≡ some encr
  pub is_integ : k.integ_info ≡ some integ
  pub is_hash_i : k.integ_i ≡ some hash_i
  pub is_hash_r : k.integ_r ≡ some hash_r
  pub is_crypto_i :
      k.encr_i ≡ some (record { block = block_i; settings = record { iv = none; padding = none } })
  pub is_crypto_r :
      k.encr_r ≡ some (record { block = block_r; settings = record { iv = none; padding = none } })
  pub output_i : Integ.get_output_length integ ≤ hash_i.size
  pub output_r : Integ.get_output_length integ ≤ hash_r.size
  pub output_some : 0 < Integ.get_output_length integ
  pub output_few : Integ.get_output_length integ ≤ 16

pub prf_lengths :
    (c : Primitives) (t : PrfType) (key : Bytes)
    → Prf.IsRegistered t
    → (20 ≤ (prf_init c t key).size) × (20 ≤ Prf.get_key_length t) × (Prf.get_key_length t ≤ 32)
unfolding prf_init Prf.get_key_length
prf_lengths c t key (inl e) = rw e (omega arith, omega arith, omega arith)
prf_lengths c t key (inr e) = rw e (omega arith, omega arith, omega arith)

pub integ_ready :
    (c : Primitives) (t : IntegType) (key : Bytes)
    → Integ.IsRegistered t
    → length key ≡ Integ.get_key_length t
    → (h : Hash) × (integ_init c t key ≡ some h)
      × (Integ.get_output_length t ≤ h.size)
      × (0 < Integ.get_output_length t)
      × (Integ.get_output_length t ≤ 16)
unfolding integ_init Integ.get_key_length Integ.get_output_length
integ_ready c t key (inl e) l =
    (new_sha1 c key, ground arith, ground arith, ground arith, ground arith)
integ_ready c t key (inr e) l =
    (new_sha256 c key, ground arith, ground arith, ground arith, ground arith)

pub integ_length : (t : IntegType) → Integ.IsRegistered t → Integ.get_key_length t ≤ 32
unfolding Integ.get_key_length
integ_length t (inl e) = ground arith
integ_length t (inr e) = ground arith

pub crypto_ready :
    (c : Primitives) (t : EncrAesCbc) (key : Bytes)
    → Encr.IsRegistered t
    → length key ≡ t.key_length
    → new_crypto c t key
      ≡ ok (record { block = c.aes key; settings = record { iv = none; padding = none } })
unfolding new_crypto
crypto_ready c t key h l = ground arith
