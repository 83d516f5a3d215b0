-- ===== src/Eap/Packet/Laws.antt =====
-- Round trips of EAP packets, and their parser on every input.
use ike.Base.Reads.{Returns-index, Returns-slice, Returns-slice_from, Returns-uint16, passed}
use ike.Base.{
  Option, Result, Returns, Returns-bind, Returns-if, Returns-reject_if, ap, arith, err, false,
  if◌then◌else◌, length, ltb, nil_of_length, none, not, ok, panic, returns_err, returns_ok, some,
  stuck, sym, too_long, ℕ, ◌%◌, ◌&&◌, ◌++◌, ◌+◌, ◌/◌, ◌<◌, ◌==◌, ◌>>=◌, ◌^◌, ◌||◌, ◌∙◌, ◌∷◌, ◌≡◌,
}
use ike.Base.Bytes.{Bytes, index, put_uint32, slice, slice_from, slice_to, uint16}
use ike.Eap.Types.{
  eap_code_request, eap_code_response, eap_type_aka_prime, eap_type_expanded, eap_type_identity,
  eap_type_md5, eap_type_nak, eap_type_notification,
}
use ike.Eap.Identity
use ike.Eap.Notification
use ike.Eap.Nak
use ike.Eap.Md5
use ike.Eap.AkaPrime
use ike.Eap.AkaPrime.Safety
use ike.Eap.Expanded
use ike.Eap.Packet.{
  Eap, EapTypeData, aka_prime, empty, expanded, identity, marshal, marshal_data, md5, nak,
  notification, optional_data, read_data, read_from, read_typed, type_of, unmarshal,
}

-- Data that the writer accepts whole; EAP-AKA' is left out.
abbrev pub Fits : EapTypeData → Type 0
Fits (identity x) = 0 < length x.identity_data
Fits (notification x) = 0 < length x.notification_data
Fits (nak x) = 0 < length x.nak_data
Fits (md5 x) = (x.value_size ≡ 16) × (length x.value ≡ 16)
Fits (aka_prime x) = ⊥
Fits (expanded x) = (x.vendor_id < 2 ^ 24) × (x.vendor_type < 2 ^ 32)

-- A packet has data, which fits.
abbrev pub DataFits : Option EapTypeData → Type 0
DataFits none = ⊥
DataFits (some d) = Fits d

-- The first byte of the data is its type.
marshal_data_head :
    (d : EapTypeData) → Fits d → (rest : Bytes) × (marshal_data d ≡ ok (type_of d ∷ rest))
unfolding marshal_data type_of Identity.marshal Notification.marshal Nak.marshal Md5.marshal
    Expanded.marshal
marshal_data_head (identity x) h = (x.identity_data, ground arith)
marshal_data_head (notification x) h = (x.notification_data, ground arith)
marshal_data_head (nak x) h = (x.nak_data, ground arith)
marshal_data_head (md5 x) h = (x.value_size ∷ (x.value ++ x.name), ground arith)
marshal_data_head (aka_prime x) h = absurd h
marshal_data_head (expanded x) (v, t) =
    let y : ℕ = Expanded.type_and_vendor_id x in
    let tag : Expanded.type_and_vendor_id x / 2 ^ 24 % 256 ≡ 254 =
      omega (arith, Expanded.type_and_vendor_id-eq x v) in
    (
      (y / 2 ^ 16 % 256)
          ∷ (y / 2 ^ 8 % 256)
          ∷ (y % 256)
          ∷ (put_uint32 x.vendor_type ++ x.vendor_data),
      ground (arith, tag, nil_of_length x.vendor_data),
    )

-- A parser whose result is wrapped.
wrapped {ℓ κ} :
    {A : Type ℓ} {B : Type κ} (m : Result Bytes) (u : Bytes → Result A) (f : A → B) (x : A)
    → (m >>= u) ≡ ok x
    → (m >>= λ b. u b >>= λ y. ok (f y)) ≡ ok (f x)
wrapped (ok b) u f x h = rw h
wrapped (err e) u f x h = cc
wrapped panic u f x h = cc
wrapped stuck u f x h = cc

data_round_trip : (d : EapTypeData) → Fits d → (marshal_data d >>= read_data (type_of d)) ≡ ok d
unfolding marshal_data type_of read_data
data_round_trip (identity x) h =
    wrapped (Identity.marshal x) (Identity.unmarshal Identity.empty) identity x
      (Identity.identity_round_trip x ∙ ground arith)
data_round_trip (notification x) h =
    wrapped (Notification.marshal x) (Notification.unmarshal Notification.empty) notification x
      (Notification.eap_notification_round_trip x ∙ ground arith)
data_round_trip (nak x) h =
    wrapped (Nak.marshal x) (Nak.unmarshal Nak.empty) nak x (Nak.nak_round_trip x ∙ ground arith)
data_round_trip (md5 x) h =
    wrapped (Md5.marshal x) (Md5.unmarshal Md5.empty) md5 x (Md5.md5_round_trip x h.0 h.1)
data_round_trip (aka_prime x) h = absurd h
data_round_trip (expanded x) (v, t) =
    wrapped (Expanded.marshal x) (Expanded.unmarshal Expanded.empty) expanded x
      (Expanded.expanded_round_trip x v t)

-- Data of another type than EAP-AKA' that fits is written, its type first; and an EAP packet with
-- it is written and read back whole, but for one longer than 65535 bytes, which the writer refuses.
-- It fits where identity, notification or Nak data is not empty, an MD5 value has 16 bytes and says
-- so, and an expanded type has a vendor of 24 bits and a type of 32.
pub packet_round_trip :
    (c i : ℕ) (d : EapTypeData)
    → Fits d
    → (rest : Bytes) × (marshal_data d ≡ ok (type_of d ∷ rest))
      × ((marshal (record { code = c; identifier = i; eap_type_data = some d }) >>= unmarshal empty)
          ≡ (if ltb 65535 (5 + length rest)
              then err too_long
              else ok (record { code = c; identifier = i; eap_type_data = some d })))
unfolding marshal unmarshal optional_data read_from read_typed slice slice_to slice_from uint16
    index
packet_round_trip c i d h =
    let (rest, e) = marshal_data_head d h in
    let back : (read_data (type_of d) (type_of d ∷ rest)) ≡ ok d =
      ap (λ m. m >>= read_data (type_of d)) (sym e) ∙ data_round_trip d h in
    (rest, e, rw e (ground (arith, back)))

-- A packet that was written is read back.
pub packet_read_back :
    (c i : ℕ) (type_data : Option EapTypeData) {b : Bytes}
    → DataFits type_data
    → marshal (record { code = c; identifier = i; eap_type_data = type_data }) ≡ ok b
    → unmarshal empty b ≡ ok (record { code = c; identifier = i; eap_type_data = type_data })
unfolding marshal optional_data
packet_read_back c i none h e = absurd h
packet_read_back c i (some d) h e =
    let (rest, w, back) = packet_round_trip c i d h in ground (arith, w, back)

read_data-Returns : (kind : ℕ) (b : Bytes) → Returns (read_data kind b)
unfolding read_data
read_data-Returns kind b =
    Returns-if (kind == eap_type_identity) _ _
      (λ _. Returns-bind _ _ (Identity.unmarshal-Returns Identity.empty b) λ _ _. returns_ok _)
      λ _.
        Returns-if (kind == eap_type_notification) _ _
          (λ _.
            Returns-bind _ _ (Notification.unmarshal-Returns Notification.empty b)
              λ _ _. returns_ok _)
          λ _.
            Returns-if (kind == eap_type_nak) _ _
              (λ _. Returns-bind _ _ (Nak.unmarshal-Returns Nak.empty b) λ _ _. returns_ok _)
              λ _.
                Returns-if (kind == eap_type_md5) _ _
                  (λ _. Returns-bind _ _ (Md5.unmarshal-Returns Md5.empty b) λ _ _. returns_ok _)
                  λ _.
                    Returns-if (kind == eap_type_aka_prime) _ _
                      (λ _.
                        Returns-bind _ _ (Safety.aka_prime-Returns AkaPrime.empty b)
                          λ _ _. returns_ok _)
                      λ _.
                        Returns-if (kind == eap_type_expanded) _ _
                          (λ _.
                            Returns-bind _ _ (Expanded.unmarshal-Returns Expanded.empty b)
                              λ _ _. returns_ok _)
                          λ _. returns_err _

read_typed-Returns : (x : Eap) (c i : ℕ) (b : Bytes) → 4 < length b → Returns (read_typed x c i b)
unfolding read_typed
read_typed-Returns x c i b h = Returns-index b 4 _ h λ kind.
    Returns-slice_from b 4 _ (omega arith)
      λ rest _. Returns-bind _ _ (read_data-Returns kind rest) λ _ _. returns_ok _

long_packet : (n m : ℕ) → ltb m 4 ≡ false → not (n == m) ≡ false → (m == 4) ≡ false → 4 < n
long_packet n m p q r = ground arith

read_from-Returns : (x : Eap) (b : Bytes) → Returns (read_from x b)
unfolding read_from
read_from-Returns x b = Returns-reject_if (ltb (length b) 4) _ _ λ p.
    Returns-slice b 2 4 _ (omega arith) (omega passed) λ s l.
      Returns-uint16 s _ (omega arith) λ n _. Returns-reject_if (ltb n 4) _ _ λ q.
        Returns-reject_if (not (length b == n)) _ _ λ same. Returns-index b 0 _ (omega passed) λ c.
          Returns-index b 1 _ (omega passed) λ i.
            Returns-reject_if ((c == eap_code_request || c == eap_code_response) && ltb n 5) _ _
              λ _.
                Returns-if (n == 4) _ _ (λ _. returns_ok _)
                  λ long. read_typed-Returns x c i b (long_packet (length b) n q same long)

-- Parsing any bytes whatever as an EAP packet returns a packet or an error, whichever of the six
-- types of data they hold.
pub packet-Returns : (x : Eap) (b : Bytes) → Returns (unmarshal x b)
unfolding unmarshal
packet-Returns x b =
    Returns-if (ltb 0 (length b)) _ _ (λ _. read_from-Returns x b) λ _. returns_ok x
