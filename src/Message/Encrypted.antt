-- ===== src/Message/Encrypted.antt =====
-- message/payload_encrypted.go: the Encrypted payload, whose data is not looked into here.
use ike.Base.{
  Result, Returns, [], arith, empty_data, err, if◌then◌else◌, length, ok, reject_if, returns_ok, ℕ,
  ◌++◌, ◌==◌, ◌>>=◌, ◌>>◌, ◌≡◌,
}
use ike.Base.Bytes.{Bytes}

pub record Encrypted : Type 0 where
  pub next_payload : ℕ
  pub encrypted_data : Bytes

-- `new(Encrypted)`
abbrev pub empty : Encrypted
empty = record { next_payload = 0; encrypted_data = [] }

unfoldable pub marshal : Encrypted → Result Bytes
marshal x = do reject_if (length x.encrypted_data == 0) empty_data; ok x.encrypted_data

unfoldable pub unmarshal : Encrypted → Bytes → Result Encrypted
unmarshal x b = ok (record x { encrypted_data = x.encrypted_data ++ b })

-- The parser, started with the type of the first inner payload, undoes the writer; the writer
-- refuses the payload with no data.
pub encrypted_round_trip :
    (x : Encrypted)
    → (marshal x >>= unmarshal (record empty { next_payload = x.next_payload }))
      ≡ (if length x.encrypted_data == 0 then err empty_data else ok x)
unfolding marshal unmarshal
encrypted_round_trip x = ground arith

pub unmarshal-Returns : (x : Encrypted) (b : Bytes) → Returns (unmarshal x b)
unfolding unmarshal
unmarshal-Returns x b = returns_ok _

-- The parser keeps the next payload that was noted before it.
pub unmarshal_noting :
    (x : Encrypted) (n : ℕ) {d : Bytes}
    → marshal x ≡ ok d
    → unmarshal (record empty { next_payload = n }) d ≡ ok (record x { next_payload = n })
unfolding marshal unmarshal
unmarshal_noting x n e = ground arith
