-- ===== src/Message/TrafficSelector/Laws.antt =====
-- Selectors read back, and the reader's loop returns.
use ike.Base.Bytes.{Bytes, index, slice, slice-append, slice_from, slice_from-eq, slice_to, uint16}
use ike.Base.{
  List, [], append-nil, append_assoc, arith, inl, inr, length, length-append, ok, refl, ℕ, ◌%◌,
  ◌++◌, ◌+◌, ◌/◌, ◌<◌, ◌^◌, ◌∷◌, ◌≡◌, ◌≤◌, ◌⊎◌,
}
use ike.Message.TrafficSelector.{
  IndividualTrafficSelector, append_selectors, read_selector, read_selectors, read_sized,
  read_typed, selector_bytes, selector_layout, ts_ipv4_addr_range, ts_ipv6_addr_range,
}

-- What a selector with addresses of `size` bytes needs to be written and read back.
pub record Sized (size : ℕ) (s : IndividualTrafficSelector) : Type 0 where
  pub start_fits : s.start_port < 2 ^ 16
  pub end_fits : s.end_port < 2 ^ 16
  pub start_size : length s.start_address ≡ size
  pub end_size : length s.end_address ≡ size

abbrev pub SelectorFits : IndividualTrafficSelector → Type 0
SelectorFits s =
    ((s.ts_type ≡ ts_ipv4_addr_range) × Sized 4 s) ⊎ ((s.ts_type ≡ ts_ipv6_addr_range) × Sized 16 s)

abbrev pub AllFit : List IndividualTrafficSelector → Type 0
AllFit [] = Unit
AllFit (s ∷ more) = SelectorFits s × AllFit more

-- The parts of a selector's bytes: length, ports, addresses of `size` bytes, and what is behind.
module _ (p q r s t u v w size : ℕ) (a b behind : Bytes) where
  abbrev front : Bytes
  front = p ∷ q ∷ r ∷ s ∷ t ∷ u ∷ v ∷ w ∷ []

  abbrev whole : Bytes
  whole = front ++ ((a ++ b) ++ behind)

  length_field : slice whole 2 4 ≡ ok (r ∷ s ∷ [])
  unfolding slice slice_to
  length_field = refl

  first_port_field : slice whole 4 6 ≡ ok (t ∷ u ∷ [])
  unfolding slice slice_to
  first_port_field = refl

  last_port_field : slice whole 6 8 ≡ ok (v ∷ w ∷ [])
  unfolding slice slice_to
  last_port_field = refl

  first_address_field : length a ≡ size → slice whole 8 (8 + size) ≡ ok a
  first_address_field ha =
      rw (append_assoc a b behind)
        (slice-append front a (b ++ behind) 8 (8 + size) refl (omega arith))

  last_address_field :
      length a ≡ size → length b ≡ size → slice whole (8 + size) (8 + (size + size)) ≡ ok b
  last_address_field ha hb = rw (append_assoc a b behind) (
      slice-append (front ++ a) b behind (8 + size) (8 + (size + size)) (omega arith) (omega arith))

  behind_addresses :
      length a ≡ size → length b ≡ size → slice_from whole (8 + (size + size)) ≡ ok behind
  behind_addresses ha hb =
      slice_from-eq (front ++ (a ++ b)) behind (8 + (size + size))
        (omega (arith, length-append a b))

-- A written selector is read back, whatever is behind it.
read_sized-layout :
    (size : ℕ) (s : IndividualTrafficSelector) (behind : Bytes)
    → size ≤ 16
    → Sized size s
    → read_sized size (selector_layout s (8 + (size + size)) ++ behind) ≡ ok (s, behind)
unfolding read_sized uint16 index
read_sized-layout size s behind small z =
    let p = s.ts_type in
    let q = s.ip_protocol_id in
    let n = 8 + (size + size) in
    let nh = n / 256 % 256 in
    let nl = n % 256 in
    let sh = s.start_port / 256 % 256 in
    let sl = s.start_port % 256 in
    let eh = s.end_port / 256 % 256 in
    let el = s.end_port % 256 in
    let a = s.start_address in
    let b = s.end_address in
    ground (
      arith,
      length_field p q nh nl sh sl eh el size a b behind,
      first_port_field p q nh nl sh sl eh el size a b behind,
      last_port_field p q nh nl sh sl eh el size a b behind,
      first_address_field p q nh nl sh sl eh el size a b behind z.start_size,
      last_address_field p q nh nl sh sl eh el size a b behind z.start_size z.end_size,
      behind_addresses p q nh nl sh sl eh el size a b behind z.start_size z.end_size,
      length-append (a ++ b) behind,
      length-append a b,
    )

selector_bytes-layout :
    (s : IndividualTrafficSelector)
    → SelectorFits s
    → (d : Bytes) × (selector_bytes s ≡ ok d)
      × ((behind : Bytes) → read_selector (d ++ behind) ≡ ok (s, behind))
unfolding selector_bytes read_selector read_typed index
selector_bytes-layout s (inl (v4, z)) = (
  selector_layout s (8 + (4 + 4)),
  ground arith,
  λ behind. ground (arith, read_sized-layout 4 s behind (omega arith) z),
)
selector_bytes-layout s (inr (v6, z)) = (
  selector_layout s (8 + (16 + 16)),
  ground arith,
  λ behind. ground (arith, read_sized-layout 16 s behind (omega arith) z),
)

-- The writer's loop gives bytes that the reader's loop reads back, `out` first.
pub selectors_round_trip :
    (all : List IndividualTrafficSelector) (out : Bytes)
    → AllFit all
    → (d : Bytes) × (append_selectors out all ≡ ok (out ++ d))
      × ((before : List IndividualTrafficSelector)
          → read_selectors (length all) before d ≡ ok (before ++ all))
unfolding append_selectors read_selectors
selectors_round_trip [] out h = ([], rw append-nil, λ before. rw append-nil)
selectors_round_trip (s ∷ more) out (hs, hmore) =
    let (d, written, back) = selector_bytes-layout s hs in
    let (e, rest_written, rest_back) = selectors_round_trip more (out ++ d) hmore in
    (
      d ++ e,
      ground (arith, append_assoc out d e),
      λ before.
          ground (arith, back e, rest_back (before ++ (s ∷ [])), append_assoc before (s ∷ []) more),
    )
