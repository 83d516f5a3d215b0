-- ===== src/Message/KeyExchange.antt =====
-- message/payload_keyexchange.go: the Key Exchange payload.
use ike.Base.{
  Result, Returns, Returns-if, Returns-reject_if, [], arith, err, if◌then◌else◌, leb, length, ltb,
  ok, reject_if, returns_ok, too_short, ℕ, ◌++◌, ◌<◌, ◌==◌, ◌>>=◌, ◌>>◌, ◌^◌, ◌∷◌, ◌≡◌,
}
use ike.Base.Bytes.{Bytes, index, put_uint16, slice_from, slice_to, uint16}
use ike.Base.Reads.{Returns-slice_from, Returns-slice_to, Returns-uint16, passed}

pub record KeyExchange : Type 0 where
  pub diffie_hellman_group : ℕ
  pub key_exchange_data : Bytes

-- `new(KeyExchange)`
abbrev pub empty : KeyExchange
empty = record { diffie_hellman_group = 0; key_exchange_data = [] }

unfoldable pub marshal : KeyExchange → Result Bytes
marshal x = ok (put_uint16 x.diffie_hellman_group ++ (0 ∷ 0 ∷ x.key_exchange_data))

read_from : KeyExchange → Bytes → Result KeyExchange
read_from x b = do
  reject_if (leb (length b) 4) too_short
  first ← uint16 (← slice_to b 2)
  rest ← slice_from b 4
  ok (record { diffie_hellman_group = first; key_exchange_data = x.key_exchange_data ++ rest })

unfoldable pub unmarshal : KeyExchange → Bytes → Result KeyExchange
unfolding read_from
unmarshal x b = if ltb 0 (length b) then read_from x b else ok x

-- For a group that fits 16 bits, the parser undoes the writer, except that it refuses the payload
-- with no key exchange data.
pub key_exchange_round_trip :
    (x : KeyExchange)
    → x.diffie_hellman_group < 2 ^ 16
    → (marshal x >>= unmarshal empty)
      ≡ (if length x.key_exchange_data == 0 then err too_short else ok x)
unfolding marshal unmarshal uint16 slice_to slice_from index
key_exchange_round_trip x h = ground arith

pub unmarshal-Returns : (x : KeyExchange) (b : Bytes) → Returns (unmarshal x b)
unfolding unmarshal
unmarshal-Returns x b =
    Returns-if (ltb 0 (length b)) _ _
      (λ some_bytes. Returns-reject_if (leb (length b) 4) _ _ λ p.
        Returns-slice_to b 2 _ (omega passed) λ s l.
          Returns-uint16 s _ (omega arith)
            λ n _. Returns-slice_from b 4 _ (omega passed) λ s l. returns_ok _)
      (λ no_bytes. returns_ok x)
