-- ===== src/Message/Container/Laws.antt =====
-- Chains of payloads: the parser reads back what the writer wrote, and skips what it does not know.
use ike.Base.{
  List, [], append-nil, append_assoc, arith, bind_inversion, drop, length, length-append, ok, refl,
  some, suc, zero, ℕ, ◌%◌, ◌*◌, ◌++◌, ◌+◌, ◌/◌, ◌<◌, ◌∙◌, ◌∷◌, ◌≡◌, ◌≤◌,
}
use ike.Base.Bytes.{Bytes, index, put_uint16, slice, slice-append, slice_from-eq, slice_to, uint16}
use ike.Message.Payload.{IkePayload, new_payload, type_of}
use ike.Message.Payload
use ike.Message.Payload.Laws.{Fits, as_received, payload_round_trip}
use ike.Message.Container.{
  Round, append_read, decode, decode_from, decode_known, decode_round, encode, encode_from,
  encode_payload, first_type, next_type,
}

abbrev pub AllFit : List IkePayload → Type 0
AllFit [] = Unit
AllFit (p ∷ more) = Fits p × AllFit more

-- What is read back of a chain.
abbrev pub received : List IkePayload → List IkePayload
received [] = []
received (p ∷ more) = as_received (next_type p more) p ∷ received more

-- What the writer puts before a payload's bytes.
encode_payload_bytes :
    (next : ℕ) (p : IkePayload) {e : Bytes}
    → encode_payload next p ≡ ok e
    → (d : Bytes) × (Payload.marshal p ≡ ok d)
      × (4 + length d ≤ 65535)
      × (e ≡ next ∷ 0 ∷ (put_uint16 (4 + length d) ++ d))
unfolding encode_payload
encode_payload_bytes next p h =
    let (d, m, k) = bind_inversion (Payload.marshal p) _ h in (d, m, ground arith, ground arith)

module _ (next kind n : ℕ) (d r behind : Bytes) (q result : IkePayload) where
  abbrev framed : Bytes
  framed = next ∷ 0 ∷ (put_uint16 n ++ (d ++ r))

  decode_known-framed :
      n ≡ 4 + length d
      → ((spare : Bytes) → Payload.unmarshal q d spare ≡ ok result)
      → decode_known q n next framed behind
        ≡ ok (record { read = some result; next = next; rest = r })
  unfolding decode_known
  decode_known-framed en back =
      let front : Bytes = next ∷ 0 ∷ put_uint16 n in
      rw (slice-append front d r 4 n refl en)
        (rw (back (drop n framed ++ behind)) (rw (slice_from-eq (front ++ d) r n (omega arith))))

  known_round :
      n ≡ 4 + length d
      → n ≤ 65535
      → new_payload kind next ≡ some q
      → ((spare : Bytes) → Payload.unmarshal q d spare ≡ ok result)
      → decode_round kind framed behind ≡ ok (record { read = some result; next = next; rest = r })
  unfolding decode_round slice slice_to index uint16
  known_round en few fresh back =
      let field : n / 256 % 256 * 256 + n % 256 ≡ n = omega arith in
      rw field (ground (arith, length-append d r, fresh, decode_known-framed en back))

-- One payload that was written is read back by a round, whatever is behind it.
round_trip :
    (next : ℕ) (p : IkePayload) (r behind : Bytes) {e : Bytes}
    → Fits p
    → encode_payload next p ≡ ok e
    → decode_round (type_of p) (e ++ r) behind
      ≡ ok (record { read = some (as_received next p); next = next; rest = r })
round_trip next p r behind h w =
    let (d, m, few, is_e) = encode_payload_bytes next p w in
    let (q, fresh, back) = payload_round_trip next p h m in
    rw is_e (known_round next (type_of p) (4 + length d) d r behind q _ refl few fresh back)

-- A written payload has 4 bytes or more.
encode_payload-length :
    (next : ℕ) (p : IkePayload) {e : Bytes} → encode_payload next p ≡ ok e → 4 ≤ length e
encode_payload-length next p w =
    let (d, m, few, is_e) = encode_payload_bytes next p w in rw is_e (omega arith)

decode_from_step :
    (fuel : ℕ) (container : List IkePayload) (kind : ℕ) (b behind : Bytes) {x : Round}
    → 0 < length b
    → decode_round kind b behind ≡ ok x
    → decode_from (suc fuel) container kind b behind
      ≡ decode_from fuel (append_read container x.read) x.next x.rest behind
unfolding decode_from
decode_from_step fuel container kind [] behind h e = absurd (omega arith)
decode_from_step fuel container kind (c ∷ b) behind h e = rw e

-- The loop goes on behind a payload that was written.
chain_step :
    (fuel next : ℕ) (p : IkePayload) (container result : List IkePayload) (x d behind : Bytes)
    → Fits p
    → encode_payload next p ≡ ok x
    → length (x ++ d) ≤ fuel
    → ((g : ℕ)
        → length d ≤ g
        → decode_from g (container ++ (as_received next p ∷ [])) next d behind ≡ ok result)
    → decode_from fuel container (type_of p) (x ++ d) behind ≡ ok result
unfolding append_read
chain_step zero next p container result x d behind h w f k =
    absurd (omega (arith, length-append x d, encode_payload-length next p w))
chain_step (suc fuel) next p container result x d behind h w f k =
    let long : (4 ≤ length x) × (length (x ++ d) ≡ length x + length d) =
      (encode_payload-length next p w, length-append x d) in
    decode_from_step fuel container (type_of p) (x ++ d) behind (omega (arith, long.0, long.1))
      (round_trip next p d behind h w)
    ∙ k fuel (omega (arith, long.0, long.1))

next_type_first :
    (p : IkePayload) (more : List IkePayload) → 0 < length more → next_type p more ≡ first_type more
unfolding next_type
next_type_first p [] h = absurd (omega arith)
next_type_first p (q ∷ more) h = refl

-- Nothing is read behind the last payload, whatever the type that it names.
encode_from_round_trip :
    (all : List IkePayload) (out : Bytes) {b : Bytes}
    → AllFit all
    → encode_from out all ≡ ok b
    → (d : Bytes) × (b ≡ out ++ d)
      × ((fuel : ℕ) (container : List IkePayload) (kind : ℕ) (behind : Bytes)
          → length d ≤ fuel
          → (0 < length all → kind ≡ first_type all)
          → decode_from fuel container kind d behind ≡ ok (container ++ received all))
unfolding encode_from
encode_from_round_trip [] out h e = (
  [],
  rw append-nil (ground arith),
  λ fuel container kind behind f k. unfold decode_from in rw append-nil,
)
encode_from_round_trip (p ∷ more) out (hp, hmore) e =
    let (x, w, k) = bind_inversion (encode_payload (next_type p more) p) _ e in
    let (d, is_b, back) = encode_from_round_trip more (out ++ x) hmore k in
    (
      x ++ d,
      is_b ∙ append_assoc out x d,
      λ fuel container kind behind f k. rw (k (omega arith)) (
          chain_step fuel (next_type p more) p container _ x d behind hp w f λ g l.
            back g (container ++ (as_received (next_type p more) p ∷ [])) (next_type p more) behind
              l (next_type_first p more)
            ∙ rw append_assoc),
    )

-- A chain of payloads that all fit, and which the writer writes, is read back, whatever bytes stand
-- behind it: each payload as it was, but for the variable-length attribute values of Security
-- Associations, which are lost, and the next-payload byte of an Encrypted payload, which is the
-- type of the payload after it unless it is the last. A payload fits where a Security Association
-- has SPIs of at most 247 bytes, and its transforms are in the lists of their types and fit
-- (TransformFits); a KeyExchange has a group of 16 bits and some data; an Identification,
-- Certificate, CertificateRequest or Authentication has some data; a Notification has a type of 16
-- bits and an SPI of at most 251 bytes; a Delete has as many SPIs, of 32 bits, as it says, fewer
-- than 65536, and their size is 4 unless there are none; a list of traffic selectors has 1 to 255
-- of them, with the fields of an IPv4 or IPv6 range; a Configuration has some attribute, each with
-- a type of 15 bits and a value below 65536 bytes; and an EAP packet has data of another type than
-- EAP-AKA', which fit (Fits of the packets). Nonces, VendorIds and Encrypted payloads fit always.
pub container_round_trip :
    (container : List IkePayload) (behind : Bytes) {b : Bytes}
    → AllFit container
    → encode container ≡ ok b
    → decode [] (first_type container) b behind ≡ ok (received container)
unfolding encode decode
container_round_trip container behind h e =
    let (d, is_b, back) = encode_from_round_trip container [] h e in
    rw is_b (back (length d) [] (first_type container) behind (omega arith) λ _. refl)

encode_from-length :
    (all : List IkePayload) (out : Bytes) {b : Bytes}
    → encode_from out all ≡ ok b
    → length out ≤ length b
unfolding encode_from
encode_from-length [] out e = ground arith
encode_from-length (p ∷ more) out e =
    let (x, w, k) = bind_inversion (encode_payload (next_type p more) p) _ e in
    omega (arith, encode_from-length more (out ++ x) k, length-append out x)

-- A chain without bytes is empty.
pub encode-length :
    (container : List IkePayload) {b : Bytes}
    → encode container ≡ ok b
    → length b ≡ 0
    → first_type container ≡ 0
unfolding encode encode_from
encode-length [] e l = refl
encode-length (p ∷ more) e l =
    let (x, w, k) = bind_inversion (encode_payload (next_type p more) p) _ e in
    absurd
      (omega (arith, encode_from-length more x k, encode_payload-length (next_type p more) p w))
