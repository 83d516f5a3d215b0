-- ===== src/Message/TrafficSelector.antt =====
-- message/payload_trafficselectorinitiator.go: one traffic selector, and the loops over selectors,
-- which message/payload_trafficselectorresponder.go repeats word for word.
pub mod Laws
pub mod Safety
use ike.Base.Bytes.{Bytes, index, put_uint16, slice, slice_from, uint16}
use ike.Base.{
  List, Result, [], bad_address, bad_selector_length, bad_selector_type, err, if◌then◌else◌, length,
  ltb, not, ok, reject_if, suc, too_long, too_short, zero, ℕ, ◌++◌, ◌+◌, ◌==◌, ◌>>=◌, ◌>>◌, ◌∷◌,
}

abbrev pub ts_ipv4_addr_range : ℕ
ts_ipv4_addr_range = 7

abbrev pub ts_ipv6_addr_range : ℕ
ts_ipv6_addr_range = 8

pub record IndividualTrafficSelector : Type 0 where
  pub ts_type : ℕ
  pub ip_protocol_id : ℕ
  pub start_port : ℕ
  pub end_port : ℕ
  pub start_address : Bytes
  pub end_address : Bytes

-- The bytes of a selector of `data_len` bytes.
abbrev pub selector_layout : IndividualTrafficSelector → ℕ → Bytes
selector_layout s data_len =
    s.ts_type
    ∷ s.ip_protocol_id
    ∷ (put_uint16 data_len
        ++ (put_uint16 s.start_port
            ++ (put_uint16 s.end_port ++ (s.start_address ++ s.end_address))))

-- The writer's case for addresses of `size` bytes.
abbrev pub sized_selector : ℕ → IndividualTrafficSelector → Result Bytes
sized_selector size s = do
  reject_if (not (length s.start_address == size)) bad_address
  reject_if (not (length s.end_address == size)) bad_address
  let data_len = 8 + (length s.start_address + length s.end_address)
  reject_if (ltb 0xffff data_len) too_long
  ok (selector_layout s data_len)

unfoldable pub selector_bytes : IndividualTrafficSelector → Result Bytes
selector_bytes s =
    if s.ts_type == ts_ipv4_addr_range
    then sized_selector 4 s
    else if s.ts_type == ts_ipv6_addr_range
    then sized_selector 16 s
    else err bad_selector_type

unfoldable pub append_selectors : Bytes → List IndividualTrafficSelector → Result Bytes
append_selectors out [] = ok out
append_selectors out (s ∷ more) = do d ← selector_bytes s; append_selectors (out ++ d) more

-- The reader's case for addresses of `size` bytes: the selector, and the bytes behind it.
unfoldable pub read_sized : ℕ → Bytes → Result (IndividualTrafficSelector × Bytes)
read_sized size b = do
  selector_length ← uint16 (← slice b 2 4)
  reject_if (not (selector_length == 8 + (size + size))) bad_selector_length
  reject_if (ltb (length b) selector_length) too_short
  kind ← index b 0
  protocol ← index b 1
  first_port ← uint16 (← slice b 4 6)
  last_port ← uint16 (← slice b 6 8)
  first_address ← slice b 8 (8 + size)
  last_address ← slice b (8 + size) (8 + (size + size))
  behind ← slice_from b (8 + (size + size))
  ok (
    record {
      ts_type = kind;
      ip_protocol_id = protocol;
      start_port = first_port;
      end_port = last_port;
      start_address = first_address;
      end_address = last_address;
    },
    behind,
  )

-- `switch trafficSelectorType`
unfoldable pub read_typed : ℕ → Bytes → Result (IndividualTrafficSelector × Bytes)
read_typed kind b =
    if kind == ts_ipv4_addr_range
    then read_sized 4 b
    else if kind == ts_ipv6_addr_range
    then read_sized 16 b
    else err bad_selector_type

unfoldable pub read_selector : Bytes → Result (IndividualTrafficSelector × Bytes)
read_selector b = do reject_if (ltb (length b) 4) too_short; kind ← index b 0; read_typed kind b

-- `for ; numberOfSPI > 0; numberOfSPI--`
unfoldable pub read_selectors :
    ℕ → List IndividualTrafficSelector → Bytes → Result (List IndividualTrafficSelector)
read_selectors zero out b = ok out
read_selectors (suc n) out b = do
  (s, behind) ← read_selector b
  read_selectors n (out ++ (s ∷ [])) behind
