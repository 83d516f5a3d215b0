-- ===== src/Message/Delete.antt =====
-- message/payload_delete.go: the Delete payload, whose SPIs are read and written four bytes at a
-- time.
pub mod Laws
use ike.Base.{
  List, Result, [], bad_count, if◌then◌else◌, leb, length, length_mismatch, ltb, not, ok, panic,
  reject_if, replicate, too_short, ℕ, ◌*◌, ◌++◌, ◌+◌, ◌-◌, ◌==◌, ◌>>=◌, ◌>>◌, ◌∷◌,
}
use ike.Base.Bytes.{
  Bytes, index, put_uint16, put_uint32, slice, slice_from, slice_to, uint16, uint32,
}

pub record Delete : Type 0 where
  pub protocol_id : ℕ
  pub spi_size : ℕ
  pub number_of_spi : ℕ
  pub spis : List ℕ

-- `new(Delete)`
abbrev pub empty : Delete
empty = record { protocol_id = 0; spi_size = 0; number_of_spi = 0; spis = [] }

-- `binary.BigEndian.PutUint32` into `make([]byte, SPISize)`: it panics below 4 bytes.
unfoldable pub spi_bytes : ℕ → ℕ → Result Bytes
spi_bytes size v = if ltb size 4 then panic else ok (put_uint32 v ++ replicate (size - 4) 0)

unfoldable pub append_spis : ℕ → Bytes → List ℕ → Result Bytes
append_spis size out [] = ok out
append_spis size out (v ∷ vs) = do s ← spi_bytes size v; append_spis size (out ++ s) vs

unfoldable pub marshal : Delete → Result Bytes
marshal x = do
  reject_if (not (length x.spis == x.number_of_spi)) bad_count
  let header = x.protocol_id ∷ x.spi_size ∷ put_uint16 x.number_of_spi
  if ltb 0 x.number_of_spi then append_spis x.spi_size header x.spis else ok header

-- The round of the loop below that finds fewer than 4 bytes left in `b`.
unfoldable pub read_last : Bytes → Result (List ℕ)
read_last b = do last ← slice_to b 4; v ← uint32 last; ok (v ∷ [])

-- `for i := 0; i < len(b); i += 4 { binary.BigEndian.Uint32(b[i : i+4]) }`. The last slice may pass
-- the length of `b`: up to the capacity it reads `spare`, the bytes of the array behind `b`.
unfoldable pub read_spis : Bytes → Bytes → Result (List ℕ)
read_spis [] spare = ok []
read_spis (p ∷ q ∷ r ∷ s ∷ b) spare = do
  v ← uint32 (p ∷ q ∷ r ∷ s ∷ [])
  vs ← read_spis b spare
  ok (v ∷ vs)
read_spis b spare = do last ← slice_to (b ++ spare) 4; v ← uint32 last; ok (v ∷ [])

read_from : Delete → Bytes → Bytes → Result Delete
read_from x b spare = do
  reject_if (leb (length b) 3) too_short
  size ← index b 1
  number ← uint16 (← slice b 2 4)
  reject_if (ltb (length b) (4 + size * number)) length_mismatch
  protocol ← index b 0
  rest ← slice_from b 4
  read ← read_spis rest spare
  ok (record {
    protocol_id = protocol;
    spi_size = size;
    number_of_spi = number;
    spis = x.spis ++ read;
  })

unfoldable pub unmarshal : Delete → Bytes → Bytes → Result Delete
unfolding read_from
unmarshal x b spare = if ltb 0 (length b) then read_from x b spare else ok x
