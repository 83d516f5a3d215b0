-- ===== src/Security/PrfPlus.antt =====
-- security/lib/lib.go: `PrfPlus`, the key stream of a pseudorandom function.
pub mod Reference
use ike.Base.{
  Result, [], false, if◌then◌else◌, length, ltb, stuck, suc, true, zero, ℕ, ◌%◌, ◌++◌, ◌+◌, ◌-◌,
  ◌>>=◌, ◌∷◌,
}
use ike.Base.Bytes.{Bytes, slice_from, slice_to}
use ike.Security.Primitives.{Hash}

-- The bytes that a round hashes: the block before, the seed, and the number of the round as a byte.
abbrev pub round_input : Bytes → Bytes → ℕ → Bytes
round_input block s i = block ++ (s ++ ((i % 256) ∷ []))

-- The loop of `PrfPlus` from round i: the stream so far and its last block.
unfoldable pub prf_rounds : ℕ → Hash → Bytes → ℕ → ℕ → Bytes → Bytes → Result Bytes
prf_rounds zero prf s stream_len i stream block =
    if ltb (length stream) stream_len then stuck else slice_to stream stream_len
prf_rounds (suc fuel) prf s stream_len i stream block =
    let longer = stream ++ prf.sum (round_input block s i) in
    elim (ltb (length stream) stream_len) [
      | true ↦ slice_from longer (length longer - prf.size) >>= λ last.
          prf_rounds fuel prf s stream_len (i + 1) longer last
      | false ↦ slice_to stream stream_len
    ]

-- Each round adds a byte at least, so `stream_len` rounds are enough.
unfoldable pub prf_plus : Hash → Bytes → ℕ → Result Bytes
prf_plus prf s stream_len = prf_rounds stream_len prf s stream_len 1 [] []
