-- ===== src/Eap/AkaPrime/RoundTrip.antt =====
-- EAP-AKA' data that was written is read back.
use ike.Base.{
  Bool-cases, List, [], ap, append-nil, append_assoc, arith, inl, inr, length, length-append, none,
  ok, refl, some, subst, suc, sym, zero, ℕ, ◌++◌, ◌<◌, ◌==◌, ◌>>=◌, ◌^◌, ◌∙◌, ◌∷◌, ◌≡◌, ◌≢◌, ◌≤◌,
}
use ike.Base.Bytes.{Bytes, index, slice, slice_from, slice_to, uint16}
use ike.Eap.AkaPrime.Attribute.{
  EapAkaPrimeAttr, attribute_bytes, set_attr, set_auts, set_checkcode, set_fixed, set_kdf_input,
  set_res, set_short,
}
use ike.Eap.AkaPrime.Attributes.{IsReadable, as_read, attribute_body, attribute_round_trip}
use ike.Eap.AkaPrime.Reader.{read_attribute, read_attributes, unmarshal}
use ike.Eap.AkaPrime.{
  EapAkaPrime, append_attributes, find_attr, get_attrs_keys, marshal, order_after, put_attr,
}

-- The attributes that are stored under the keys, each with the value that it was set to.
abbrev pub Listed : List EapAkaPrimeAttr → List ℕ → List (EapAkaPrimeAttr × Bytes) → Type 0
Listed stored [] [] = Unit
Listed stored [] (x ∷ all) = ⊥
Listed stored (k ∷ keys) [] = ⊥
Listed stored (k ∷ keys) ((a, v) ∷ all) =
    (find_attr k stored ≡ some a) × (set_attr k v ≡ ok a) × IsReadable k v × Listed stored keys all

abbrev pub NotIn : ℕ → List ℕ → Type 0
NotIn k [] = Unit
NotIn k (j ∷ keys) = (k ≢ j) × NotIn k keys

abbrev pub AllDifferent : List ℕ → Type 0
AllDifferent [] = Unit
AllDifferent (k ∷ keys) = NotIn k keys × AllDifferent keys

-- What is read back.
abbrev pub read_values : List (EapAkaPrimeAttr × Bytes) → List EapAkaPrimeAttr
read_values [] = []
read_values ((a, v) ∷ all) = as_read v a ∷ read_values all

abbrev all_bytes : List (EapAkaPrimeAttr × Bytes) → Bytes
all_bytes [] = []
all_bytes ((a, v) ∷ all) = attribute_bytes a ++ all_bytes all

set_attr_type : (k : ℕ) (v : Bytes) (a : EapAkaPrimeAttr) → set_attr k v ≡ ok a → a.attr_type ≡ k
unfolding set_attr set_fixed set_auts set_kdf_input set_res set_short set_checkcode uint16
set_attr_type k v a e = ground arith

append_attributes-bytes :
    (stored : List EapAkaPrimeAttr) (out : Bytes) (keys : List ℕ)
    (all : List (EapAkaPrimeAttr × Bytes))
    → Listed stored keys all
    → append_attributes stored out keys ≡ ok (out ++ all_bytes all)
unfolding append_attributes
append_attributes-bytes stored out [] [] h = rw append-nil
append_attributes-bytes stored out [] (x ∷ all) h = absurd h
append_attributes-bytes stored out (k ∷ keys) [] h = absurd h
append_attributes-bytes stored out (k ∷ keys) ((a, v) ∷ all) (found, was_set, readable, more) =
    rw (append_attributes, found)
      (append_attributes-bytes stored (out ++ attribute_bytes a) keys all more ∙ rw append_assoc)

-- The parser's map gets a new type at its end.
put_fresh :
    (a : EapAkaPrimeAttr) (stored : List EapAkaPrimeAttr)
    → find_attr a.attr_type stored ≡ none
    → put_attr a stored ≡ stored ++ (a ∷ [])
unfolding find_attr put_attr
put_fresh a [] h = refl
put_fresh a (x ∷ stored) h = elim (Bool-cases (x.attr_type == a.attr_type)) [
  | inl same ↦ absurd (ground arith)
  | inr other ↦ rw other (rw (put_fresh a stored (ground arith)))
]

find_fresh :
    (k : ℕ) (a : EapAkaPrimeAttr) (stored : List EapAkaPrimeAttr)
    → find_attr k stored ≡ none
    → a.attr_type ≢ k
    → find_attr k (stored ++ (a ∷ [])) ≡ none
unfolding find_attr
find_fresh k a [] h n = ground arith
find_fresh k a (x ∷ stored) h n = elim (Bool-cases (x.attr_type == k)) [
  | inl same ↦ absurd (ground arith)
  | inr other ↦ rw other (find_fresh k a stored (ground arith) n)
]

-- None of the types is stored.
abbrev AllFresh : List EapAkaPrimeAttr → List ℕ → Type 0
AllFresh stored [] = Unit
AllFresh stored (k ∷ keys) = (find_attr k stored ≡ none) × AllFresh stored keys

AllFresh-nil : (keys : List ℕ) → AllFresh [] keys
unfolding find_attr
AllFresh-nil [] = tt
AllFresh-nil (k ∷ keys) = (refl, AllFresh-nil keys)

AllFresh-put :
    (a : EapAkaPrimeAttr) (stored : List EapAkaPrimeAttr) (keys : List ℕ)
    → AllFresh stored keys
    → NotIn a.attr_type keys
    → AllFresh (stored ++ (a ∷ [])) keys
AllFresh-put a stored [] h n = tt
AllFresh-put a stored (k ∷ keys) (hk, h) (nk, n) =
    (find_fresh k a stored hk nk, AllFresh-put a stored keys h n)

attribute_back :
    (k : ℕ) (v : Bytes) (a : EapAkaPrimeAttr) (r : Bytes)
    → set_attr k v ≡ ok a
    → IsReadable k v
    → read_attribute k a.size (attribute_body a ++ r) ≡ ok (as_read v a, r)
attribute_back k v a r e w =
    let read = attribute_round_trip k v r w in
    ap (λ m. m >>= λ c. read_attribute k c.size (attribute_body c ++ r)) (sym e)
    ∙ (read ∙ ap (λ m. m >>= λ c. ok (as_read v c, r)) e)

attribute_bytes-length : (a : EapAkaPrimeAttr) → 2 ≤ length (attribute_bytes a)
unfolding attribute_bytes
attribute_bytes-length a = omega arith

as_read_type : (v : Bytes) (a : EapAkaPrimeAttr) → (as_read v a).attr_type ≡ a.attr_type
as_read_type v a = ground arith

order_fresh :
    (a : EapAkaPrimeAttr) (stored : List EapAkaPrimeAttr) (order : List ℕ)
    → find_attr a.attr_type stored ≡ none
    → order_after a stored order ≡ order ++ (a.attr_type ∷ [])
order_fresh a stored order h = rw (order_after, h) refl

-- One round of the parser.
read_step :
    (fuel : ℕ) (stored : List EapAkaPrimeAttr) (order : List ℕ) (a : EapAkaPrimeAttr) (v r : Bytes)
    → set_attr a.attr_type v ≡ ok a
    → IsReadable a.attr_type v
    → find_attr a.attr_type stored ≡ none
    → read_attributes (suc fuel) stored order (attribute_bytes a ++ r)
      ≡ read_attributes fuel (stored ++ (as_read v a ∷ [])) (order ++ (a.attr_type ∷ [])) r
unfolding read_attributes attribute_bytes
read_step fuel stored order a v r e w fresh =
    let same : (as_read v a).attr_type ≡ a.attr_type = as_read_type v a in
    let new : find_attr (as_read v a).attr_type stored ≡ none = rw same fresh in
    rw (attribute_back a.attr_type v a r e w) (
      ap (λ s. read_attributes fuel s (order_after (as_read v a) stored order) r)
        (put_fresh (as_read v a) stored new)
      ∙ ap (λ o. read_attributes fuel (stored ++ (as_read v a ∷ [])) o r)
          (order_fresh (as_read v a) stored order new ∙ ap (λ k. order ++ (k ∷ [])) same))

-- One round, for an attribute that was set under the key `k`.
read_step_at :
    (fuel k : ℕ) (stored : List EapAkaPrimeAttr) (order : List ℕ) (a : EapAkaPrimeAttr)
    (v r : Bytes)
    → set_attr k v ≡ ok a
    → IsReadable k v
    → find_attr k stored ≡ none
    → read_attributes (suc fuel) stored order (attribute_bytes a ++ r)
      ≡ read_attributes fuel (stored ++ (as_read v a ∷ [])) (order ++ (k ∷ [])) r
read_step_at fuel k stored order a v r e =
    subst
      (λ j.
        set_attr j v ≡ ok a
        → IsReadable j v
        → find_attr j stored ≡ none
        → read_attributes (suc fuel) stored order (attribute_bytes a ++ r)
          ≡ read_attributes fuel (stored ++ (as_read v a ∷ [])) (order ++ (j ∷ [])) r)
      (set_attr_type k v a e) (read_step fuel stored order a v r) e

attributes_back :
    (fuel : ℕ) (base stored : List EapAkaPrimeAttr) (order keys : List ℕ)
    (all : List (EapAkaPrimeAttr × Bytes))
    → Listed base keys all
    → AllDifferent keys
    → AllFresh stored keys
    → length (all_bytes all) ≤ fuel
    → read_attributes fuel stored order (all_bytes all)
      ≡ ok (stored ++ read_values all, order ++ keys)
attributes_back fuel base stored order [] [] l d f h =
    rw (append-nil stored) (rw (append-nil order) (unfold read_attributes in refl))
attributes_back fuel base stored order [] (x ∷ all) l d f h = absurd l
attributes_back fuel base stored order (k ∷ keys) [] l d f h = absurd l
attributes_back zero base stored order (k ∷ keys) ((a, v) ∷ all) l d f h =
    absurd (unfold attribute_bytes in omega arith)
attributes_back (suc fuel) base stored order (k ∷ keys) ((a, v) ∷ all) (found, e, w, l) (n, d)
      (fresh, f) h =
    let b : EapAkaPrimeAttr = as_read v a in
    let kind : b.attr_type ≡ k = as_read_type v a ∙ set_attr_type k v a e in
    let other : NotIn b.attr_type keys = rw kind n in
    read_step_at fuel k stored order a v (all_bytes all) e w fresh
    ∙ attributes_back fuel base (stored ++ (b ∷ [])) (order ++ (k ∷ [])) keys all l d
        (AllFresh-put b stored keys f other)
        (omega (arith, length-append (attribute_bytes a) (all_bytes all), attribute_bytes-length a))
    ∙ rw (append_assoc stored) (rw (append_assoc order) refl)

-- EAP-AKA' data is written and read back where the type of each attribute is in the order once and
-- has an attribute that was set to a value that the parser can read: the same attributes in the same
-- order, AT_KDF_INPUT and AT_RES without their padding.
pub aka_prime_round_trip :
    (x y : EapAkaPrime) (all : List (EapAkaPrimeAttr × Bytes))
    → x.reserved < 2 ^ 16
    → Listed x.attributes (get_attrs_keys x) all
    → AllDifferent (get_attrs_keys x)
    → (marshal x >>= unmarshal y)
      ≡ ok (record {
        sub_type = x.sub_type;
        reserved = x.reserved;
        attributes = read_values all;
        attribute_order = some (get_attrs_keys x);
      })
unfolding marshal unmarshal uint16 slice slice_to slice_from index
aka_prime_round_trip x y all few l d =
    let keys : List ℕ = get_attrs_keys x in
    let back =
      attributes_back (length (all_bytes all)) x.attributes [] [] keys all l d (AllFresh-nil keys)
        (omega arith) in
    rw (append_attributes-bytes x.attributes _ keys all l) (ground (arith, back))
