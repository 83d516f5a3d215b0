-- ===== src/Message/Delete/Laws.antt =====
-- The Delete payload's round trip, and where its SPI loop reads past the payload.
use ike.Base.Progress.{
  >>=-ne-stuck, if-ne-stuck, index-ne-stuck, reject_if-ne-stuck, slice-ne-stuck,
  slice_from-ne-stuck, slice_to-ne-stuck, uint16-ne-stuck, uint32-ne-stuck,
}
use ike.Base.{
  List, Returns, Returns-bind, [], append-nil, append_assoc, arith, get_or, length, ltb, ok, panic,
  refl, returns_ok, stuck, ℕ, ◌%◌, ◌*◌, ◌++◌, ◌+◌, ◌-◌, ◌<◌, ◌>>=◌, ◌^◌, ◌↔◌, ◌∙◌, ◌∷◌, ◌≡◌, ◌≢◌,
  ◌≤◌, ◌⊎◌,
}
use ike.Base.Bytes.{
  Bytes, index, put_uint16, put_uint32, slice, slice_from, slice_to, uint16, uint32,
}
use ike.Message.Delete.{
  Delete, append_spis, empty, marshal, read_last, read_spis, spi_bytes, unmarshal,
}

abbrev pub AllWords : List ℕ → Type 0
AllWords [] = Unit
AllWords (v ∷ vs) = (v < 2 ^ 32) × AllWords vs

-- The SPIs, four bytes each.
abbrev pub words : List ℕ → Bytes
words [] = []
words (v ∷ vs) = put_uint32 v ++ words vs

length-words : (vs : List ℕ) → length (words vs) ≡ 4 * length vs
length-words [] = refl
length-words (v ∷ vs) = omega (arith, length-words vs)

append_spis-words : (out : Bytes) (vs : List ℕ) → append_spis 4 out vs ≡ ok (out ++ words vs)
unfolding append_spis spi_bytes
append_spis-words out [] = rw append-nil
append_spis-words out (v ∷ vs) = append_spis-words (out ++ put_uint32 v) vs ∙ rw append_assoc

read_spis-words : (vs : List ℕ) (spare : Bytes) → AllWords vs → read_spis (words vs) spare ≡ ok vs
unfolding read_spis uint32
read_spis-words [] spare h = refl
read_spis-words (v ∷ vs) spare (hv, hvs) = ground (arith, read_spis-words vs spare hvs)

-- A payload of 4-byte SPIs, or of none.
pub record IsWf (x : Delete) : Type 0 where
  pub count : length x.spis ≡ x.number_of_spi
  pub fits : x.number_of_spi < 2 ^ 16
  pub words_fit : AllWords x.spis
  pub size : (x.spi_size ≡ 4) ⊎ (x.number_of_spi ≡ 0)

marshal_bytes :
    (x : Delete)
    → IsWf x
    → marshal x ≡ ok (x.protocol_id ∷ x.spi_size ∷ (put_uint16 x.number_of_spi ++ words x.spis))
unfolding marshal
marshal_bytes x w = ground (
  arith,
  append_spis-words (x.protocol_id ∷ x.spi_size ∷ put_uint16 x.number_of_spi) x.spis,
  length-words x.spis,
)

-- Where as many SPIs as the payload says are there, fewer than 65536 and each of 32 bits, the parser
-- undoes the writer for SPIs of 4 bytes, and for no SPIs whatever their size, with any bytes behind
-- the payload.
pub delete_round_trip :
    (x : Delete) (spare : Bytes) → IsWf x → (marshal x >>= λ b. unmarshal empty b spare) ≡ ok x
unfolding marshal unmarshal slice slice_to slice_from index uint16
delete_round_trip x spare w =
    rw (marshal_bytes x w)
      (ground (arith, length-words x.spis, read_spis-words x.spis spare w.words_fit))

append_spis_short :
    (size : ℕ) (out : Bytes) (vs : List ℕ)
    → size < 4
    → 0 < length vs
    → append_spis size out vs ≡ panic
unfolding append_spis spi_bytes
append_spis_short size out [] h n = absurd (omega arith)
append_spis_short size out (v ∷ vs) h n = ground arith

-- An SPI size below 4 makes the writer panic on a payload that has SPIs, as many as it says.
pub marshal_short_spi :
    (x : Delete)
    → length x.spis ≡ x.number_of_spi
    → 0 < x.number_of_spi
    → x.spi_size < 4
    → marshal x ≡ panic
unfolding marshal
marshal_short_spi x e n s = ground (
  arith,
  append_spis_short x.spi_size (x.protocol_id ∷ x.spi_size ∷ put_uint16 x.number_of_spi) x.spis,
)

-- The loop returns on every payload whose SPIs fill whole words, whatever is behind it.
read_spis-Returns : (n : ℕ) (b spare : Bytes) → length b ≡ 4 * n → Returns (read_spis b spare)
unfolding read_spis uint32
read_spis-Returns n [] spare h = returns_ok _
read_spis-Returns n (p ∷ []) spare h = absurd (omega arith)
read_spis-Returns n (p ∷ q ∷ []) spare h = absurd (omega arith)
read_spis-Returns n (p ∷ q ∷ r ∷ []) spare h = absurd (omega arith)
read_spis-Returns n (p ∷ q ∷ r ∷ s ∷ b) spare h =
    Returns-bind (read_spis b spare) _ (read_spis-Returns (n - 1) b spare (omega arith))
      (λ vs e. returns_ok _)

read_last-panic_iff : (b : Bytes) → (read_last b ≡ panic) ↔ (length b < 4)
unfolding read_last slice_to uint32
read_last-panic_iff [] = (λ e. omega arith, λ h. refl)
read_last-panic_iff (p ∷ []) = (λ e. omega arith, λ h. refl)
read_last-panic_iff (p ∷ q ∷ []) = (λ e. omega arith, λ h. refl)
read_last-panic_iff (p ∷ q ∷ r ∷ []) = (λ e. omega arith, λ h. refl)
read_last-panic_iff (p ∷ q ∷ r ∷ s ∷ b) = (λ e. cc, λ h. absurd (omega arith))

-- The loop panics exactly if the bytes do not fill whole words and the array ends before the next
-- one is full.
pub read_spis-panic_iff :
    (b spare : Bytes)
    → (read_spis b spare ≡ panic) ↔ (0 < length b % 4) × (length b % 4 + length spare < 4)
unfolding read_spis uint32 read_last slice_to
read_spis-panic_iff [] spare = (λ e. cc, λ q. absurd (omega arith))
read_spis-panic_iff (p ∷ []) spare =
    let i = read_last-panic_iff (p ∷ spare) in
    (λ e. (omega arith, omega (arith, i.0 e)), λ q. i.1 (omega arith))
read_spis-panic_iff (p ∷ q ∷ []) spare =
    let i = read_last-panic_iff (p ∷ q ∷ spare) in
    (λ e. (omega arith, omega (arith, i.0 e)), λ z. i.1 (omega arith))
read_spis-panic_iff (p ∷ q ∷ r ∷ []) spare =
    let i = read_last-panic_iff (p ∷ q ∷ r ∷ spare) in
    (λ e. (omega arith, omega (arith, i.0 e)), λ z. i.1 (omega arith))
read_spis-panic_iff (p ∷ q ∷ r ∷ s ∷ b) spare =
    let i = read_spis-panic_iff b spare in
    (
      λ e. (omega (arith, (i.0 (ground arith)).0), omega (arith, (i.0 (ground arith)).1)),
      λ z. ground (arith, i.1 (omega arith, omega arith)),
    )

-- On a payload that passes the length check, the parser panics exactly if its SPIs do not fill
-- whole words and the array ends before the last word does.
pub delete-panic_iff :
    (x : Delete) (b spare : Bytes)
    → 4 ≤ length b
    → 4 + get_or b 1 0 * (get_or b 2 0 * 256 + get_or b 3 0) ≤ length b
    → (unmarshal x b spare ≡ panic) ↔ (0 < length b % 4) × (length b % 4 + length spare < 4)
unfolding unmarshal slice slice_to slice_from index uint16
delete-panic_iff x [] spare l h = absurd (omega arith)
delete-panic_iff x (p ∷ []) spare l h = absurd (omega arith)
delete-panic_iff x (p ∷ q ∷ []) spare l h = absurd (omega arith)
delete-panic_iff x (p ∷ q ∷ r ∷ []) spare l h = absurd (omega arith)
delete-panic_iff x (p ∷ q ∷ r ∷ s ∷ b) spare l h =
    let i = read_spis-panic_iff b spare in
    let o : unmarshal x (p ∷ q ∷ r ∷ s ∷ b) spare ≡ panic → read_spis b spare ≡ panic =
      λ e. ground arith in
    (
      λ e. (omega (arith, (i.0 (o e)).0), omega (arith, (i.0 (o e)).1)),
      λ z. ground (arith, i.1 (omega arith, omega arith)),
    )

read_last-ne-stuck : (b : Bytes) → read_last b ≢ stuck
unfolding read_last
read_last-ne-stuck b =
    >>=-ne-stuck (slice_to b 4) _ (slice_to-ne-stuck b 4)
      λ last _. >>=-ne-stuck (uint32 last) _ (uint32-ne-stuck last) λ v _ e. cc

read_spis-ne-stuck : (b spare : Bytes) → read_spis b spare ≢ stuck
unfolding read_spis
read_spis-ne-stuck [] spare = λ e. cc
read_spis-ne-stuck (p ∷ []) spare = unfold read_last in read_last-ne-stuck (p ∷ spare)
read_spis-ne-stuck (p ∷ q ∷ []) spare = unfold read_last in read_last-ne-stuck (p ∷ q ∷ spare)
read_spis-ne-stuck (p ∷ q ∷ r ∷ []) spare =
    unfold read_last in read_last-ne-stuck (p ∷ q ∷ r ∷ spare)
read_spis-ne-stuck (p ∷ q ∷ r ∷ s ∷ b) spare =
    >>=-ne-stuck (uint32 (p ∷ q ∷ r ∷ s ∷ [])) _ (uint32-ne-stuck (p ∷ q ∷ r ∷ s ∷ []))
      λ v _. >>=-ne-stuck (read_spis b spare) _ (read_spis-ne-stuck b spare) λ vs _ e. cc

pub unmarshal-ne-stuck : (x : Delete) (b spare : Bytes) → unmarshal x b spare ≢ stuck
unfolding unmarshal
unmarshal-ne-stuck x b spare =
    if-ne-stuck (ltb 0 (length b)) _ _
      (reject_if-ne-stuck _ _ _ (
        >>=-ne-stuck (index b 1) _ (index-ne-stuck b 1) λ size _.
          >>=-ne-stuck (slice b 2 4) _ (slice-ne-stuck b 2 4) λ s _.
            >>=-ne-stuck (uint16 s) _ (uint16-ne-stuck s) λ number _. reject_if-ne-stuck _ _ _ (
              >>=-ne-stuck (index b 0) _ (index-ne-stuck b 0) λ protocol _.
                >>=-ne-stuck (slice_from b 4) _ (slice_from-ne-stuck b 4) λ rest _.
                  >>=-ne-stuck (read_spis rest spare) _ (read_spis-ne-stuck rest spare)
                    λ read _ e. cc)))
      (λ e. cc)
