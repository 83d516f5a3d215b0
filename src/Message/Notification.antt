-- ===== src/Message/Notification.antt =====
-- message/payload_notification.go: the Notify payload.
use ike.Base.Progress.{
  >>=-ne-stuck, if-ne-stuck, index-ne-stuck, reject_if-ne-stuck, slice-ne-stuck,
  slice_from-ne-stuck, uint16-ne-stuck,
}
use ike.Base.{
  Bool-cases, Result, [], arith, err, false, get_or, if◌then◌else◌, inl, inr, length, length-append,
  length_mismatch, ltb, ok, panic, refl, reject_if, stuck, suc, too_long, too_short, ℕ, ◌%◌, ◌*◌,
  ◌++◌, ◌+◌, ◌/◌, ◌<◌, ◌>>=◌, ◌>>◌, ◌^◌, ◌↔◌, ◌∷◌, ◌≡◌, ◌≢◌, ◌≤◌,
}
use ike.Base.Bytes.{
  AllBytes, Bytes, IsByte, index, put_uint16, slice, slice_crossed, slice_from, slice_from-append,
  slice_from-ok, slice_to, slice_to-append, slice_to-ok, uint16, uint16-put,
}

pub record Notification : Type 0 where
  pub protocol_id : ℕ
  pub notify_message_type : ℕ
  pub spi : Bytes
  pub notification_data : Bytes

-- `new(Notification)`
abbrev pub empty : Notification
empty = record { protocol_id = 0; notify_message_type = 0; spi = []; notification_data = [] }

unfoldable pub marshal : Notification → Result Bytes
marshal x = do
  reject_if (ltb 255 (length x.spi)) too_long
  ok (
      x.protocol_id
      ∷ length x.spi
      ∷ (put_uint16 x.notify_message_type ++ (x.spi ++ x.notification_data)))

-- `spiSize` is a uint8, so `4+spiSize` wraps at 256.
read_from : Notification → Bytes → Result Notification
read_from x b = do
  reject_if (ltb (length b) 4) too_short
  spi_size ← index b 1
  let spi_end = (4 + spi_size) % 256
  reject_if (ltb (length b) spi_end) length_mismatch
  protocol ← index b 0
  kind ← uint16 (← slice b 2 4)
  spi_bytes ← slice b 4 spi_end
  rest ← slice_from b spi_end
  ok (record {
    protocol_id = protocol;
    notify_message_type = kind;
    spi = x.spi ++ spi_bytes;
    notification_data = x.notification_data ++ rest;
  })

unfoldable pub unmarshal : Notification → Bytes → Result Notification
unfolding read_from
unmarshal x b = if ltb 0 (length b) then read_from x b else ok x

third_and_fourth : (a b c d : ℕ) (r : Bytes) → slice (a ∷ b ∷ c ∷ d ∷ r) 2 4 ≡ ok (c ∷ d ∷ [])
unfolding slice slice_to
third_and_fourth a b c d r = refl

-- Reading a payload of at least 4 bytes: either the SPI's end wraps, or it is as it should be.
read_long :
    (x : Notification) (p l t u : ℕ) (r : Bytes)
    → IsByte l
    → read_from x (p ∷ l ∷ t ∷ u ∷ r) ≡ (
        if ltb 251 l then panic else if ltb (length r) l then err length_mismatch else (do
          spi_bytes ← slice_to r l
          rest ← slice_from r l
          ok (record {
            protocol_id = p;
            notify_message_type = t * 256 + u;
            spi = x.spi ++ spi_bytes;
            notification_data = x.notification_data ++ rest;
          })))
unfolding read_from index uint16
read_long x p l t u r h = elim (Bool-cases (ltb 251 l)) [
  | inl big ↦
      ground
        (arith, third_and_fourth p l t u r, slice_crossed (p ∷ l ∷ t ∷ u ∷ r) 4 ((4 + l) % 256))
  | inr small ↦
      let e : (4 + l) % 256 ≡ suc (suc (suc (suc l))) = ground arith in
      let long : ltb (suc (suc (suc (suc (length r))))) 4 ≡ false = ground arith in
      let same : ltb (suc (suc (suc (suc (length r))))) (suc (suc (suc (suc l))))
          ≡ ltb (length r) l =
        ground arith in
      unfold slice slice_from slice_to in
      rw (small, e, long, same)
        (elim (Bool-cases (ltb (length r) l)) [ inl short ↦ rw short | inr fits ↦ rw fits ])
]

-- For a message type that fits 16 bits, the parser undoes the writer for an SPI of at most 251 bytes; for 252 to 255 bytes the parser
-- panics, since its uint8 end of the SPI wraps; the writer refuses longer ones.
pub notification_round_trip :
    (x : Notification)
    → x.notify_message_type < 2 ^ 16
    → (marshal x >>= unmarshal empty) ≡ (
        if ltb 255 (length x.spi)
        then err too_long
        else if ltb 251 (length x.spi)
        then panic
        else ok x)
unfolding marshal unmarshal
notification_round_trip x h = ground (
  arith,
  uint16-put x.notify_message_type [],
  length-append x.spi x.notification_data,
  read_long empty x.protocol_id (length x.spi) (x.notify_message_type / 256 % 256)
      (x.notify_message_type % 256) (x.spi ++ x.notification_data),
  slice_to-append x.spi x.notification_data,
  slice_from-append x.spi x.notification_data,
)

-- On bytes, the parser panics exactly on an input of at least 4 bytes whose SPI size is 252 to 255.
pub notification-panic_iff :
    (x : Notification) (b : Bytes)
    → AllBytes b
    → (unmarshal x b ≡ panic) ↔ (4 ≤ length b) × (252 ≤ get_or b 1 0)
unfolding unmarshal read_from index
notification-panic_iff x [] h = (λ e. cc, λ l. absurd (omega arith))
notification-panic_iff x (p ∷ []) h = (λ e. ground arith, λ l. absurd (omega arith))
notification-panic_iff x (p ∷ l ∷ []) h = (λ e. ground arith, λ l. absurd (omega arith))
notification-panic_iff x (p ∷ l ∷ t ∷ []) h = (λ e. ground arith, λ l. absurd (omega arith))
notification-panic_iff x (p ∷ l ∷ t ∷ u ∷ r) h = (
  λ e. ground (arith, read_long x p l t u r h.1.0, slice_to-ok r l, slice_from-ok r l),
  λ q. ground (arith, read_long x p l t u r h.1.0),
)

pub unmarshal-ne-stuck : (x : Notification) (b : Bytes) → unmarshal x b ≢ stuck
unfolding unmarshal read_from
unmarshal-ne-stuck x b =
    if-ne-stuck (ltb 0 (length b)) _ _
      (reject_if-ne-stuck _ _ _ (
        >>=-ne-stuck (index b 1) _ (index-ne-stuck b 1) λ size _. reject_if-ne-stuck _ _ _ (
          >>=-ne-stuck (index b 0) _ (index-ne-stuck b 0) λ protocol _.
            >>=-ne-stuck (slice b 2 4) _ (slice-ne-stuck b 2 4) λ s _.
              >>=-ne-stuck (uint16 s) _ (uint16-ne-stuck s) λ kind _.
                >>=-ne-stuck (slice b 4 ((4 + size) % 256)) _
                  (slice-ne-stuck b 4 ((4 + size) % 256))
                  λ spi _.
                    >>=-ne-stuck (slice_from b ((4 + size) % 256)) _
                      (slice_from-ne-stuck b ((4 + size) % 256)) λ rest _ e. cc)))
      (λ e. cc)
