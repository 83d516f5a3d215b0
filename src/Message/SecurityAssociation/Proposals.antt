-- ===== src/Message/SecurityAssociation/Proposals.antt =====
-- One proposal: its transforms are written in one list, and come back sorted by type.
use ike.Base.Bytes.{Bytes}
use ike.Base.{
  List, [], append-nil, append_assoc, arith, length, length-append, ltb, map, map-append, ok, refl,
  suc, zero, ℕ, ◌++◌, ◌-◌, ◌<◌, ◌∙◌, ◌∷◌, ◌≡◌, ◌≤◌,
}
use ike.Message.SecurityAssociation.{
  Proposal, Transform, append_transforms, empty_proposal, transform_list, type_diffie_hellman_group,
  type_encryption_algorithm, type_extended_sequence_numbers, type_integrity_algorithm,
  type_pseudorandom_function,
}
use ike.Message.SecurityAssociation.Reader.{add_transform, read_transform, read_transforms}
use ike.Message.SecurityAssociation.Transforms.{TransformFits, forget_value, transform-Written}

-- Transforms of type `kind` that come back.
abbrev pub AllFit : ℕ → List Transform → Type 0
AllFit kind [] = Unit
AllFit kind (t ∷ rest) = ((t.transform_type ≡ kind) × TransformFits t) × AllFit kind rest

abbrev pub AllWritten : List Transform → Type 0
AllWritten [] = Unit
AllWritten (t ∷ rest) = TransformFits t × AllWritten rest

abbrev pub forget_values : List Transform → List Transform
forget_values = map forget_value

pub add_transforms : Proposal → List Transform → Proposal
add_transforms p [] = p
add_transforms p (t ∷ rest) = add_transforms (add_transform p t) rest

read_transforms_step :
    (fuel : ℕ) (p : Proposal) (b : Bytes) {t : Transform} {behind : Bytes}
    → read_transform b ≡ ok (t, behind)
    → (0 < length b) × (length b ≤ fuel)
    → read_transforms fuel p b ≡ read_transforms (fuel - 1) (add_transform p t) behind
unfolding read_transforms
read_transforms_step fuel p [] e h = absurd (omega arith)
read_transforms_step zero p (c ∷ b) e h = absurd (omega arith)
read_transforms_step (suc fuel) p (c ∷ b) e h =
    let less : suc fuel - 1 ≡ fuel = omega arith in rw (e, less)

-- The loop over transforms undoes the loop that writes them.
pub transforms_round_trip :
    (all : List Transform) (out : Bytes)
    → AllWritten all
    → (d : Bytes) × (append_transforms out all ≡ ok (out ++ d))
      × ((fuel : ℕ) (p : Proposal)
          → length d ≤ fuel
          → read_transforms fuel p d ≡ ok (add_transforms p (forget_values all)))
unfolding append_transforms add_transforms
transforms_round_trip [] out h = ([], rw append-nil, λ fuel p f. unfold read_transforms in refl)
transforms_round_trip (t ∷ rest) out (ht, hrest) =
    let more = ltb 0 (length rest) in
    let w = transform-Written more t ht in
    let (e, rest_written, rest_back) = transforms_round_trip rest (out ++ w.d) hrest in
    (
      w.d ++ e,
      ground (arith, w.written, append_assoc out w.d e),
      λ fuel p f.
          read_transforms_step fuel p (w.d ++ e) (w.back e)
            (omega (arith, w.long, length-append w.d e))
          ∙ rest_back (fuel - 1) (add_transform p (forget_value t))
              (omega (arith, w.long, length-append w.d e)),
    )

add_transforms-append :
    (xs ys : List Transform) (p : Proposal)
    → add_transforms p (xs ++ ys) ≡ add_transforms (add_transforms p xs) ys
unfolding add_transforms
add_transforms-append [] ys p = refl
add_transforms-append (t ∷ xs) ys p = add_transforms-append xs ys (add_transform p t)

add_transforms-encryption_algorithm :
    (xs : List Transform) (p : Proposal)
    → AllFit type_encryption_algorithm xs
    → add_transforms p (forget_values xs)
      ≡ record p { encryption_algorithm = p.encryption_algorithm ++ forget_values xs }
unfolding add_transforms add_transform
add_transforms-encryption_algorithm [] p h = rw append-nil
add_transforms-encryption_algorithm (t ∷ xs) p ((ht, fits), hxs) =
    let q = add_transform p (forget_value t) in
    add_transforms-encryption_algorithm xs q hxs
    ∙ ground (arith, append_assoc p.encryption_algorithm (forget_value t ∷ []) (forget_values xs))

add_transforms-pseudorandom_function :
    (xs : List Transform) (p : Proposal)
    → AllFit type_pseudorandom_function xs
    → add_transforms p (forget_values xs)
      ≡ record p { pseudorandom_function = p.pseudorandom_function ++ forget_values xs }
unfolding add_transforms add_transform
add_transforms-pseudorandom_function [] p h = rw append-nil
add_transforms-pseudorandom_function (t ∷ xs) p ((ht, fits), hxs) =
    let q = add_transform p (forget_value t) in
    add_transforms-pseudorandom_function xs q hxs
    ∙ ground (arith, append_assoc p.pseudorandom_function (forget_value t ∷ []) (forget_values xs))

add_transforms-integrity_algorithm :
    (xs : List Transform) (p : Proposal)
    → AllFit type_integrity_algorithm xs
    → add_transforms p (forget_values xs)
      ≡ record p { integrity_algorithm = p.integrity_algorithm ++ forget_values xs }
unfolding add_transforms add_transform
add_transforms-integrity_algorithm [] p h = rw append-nil
add_transforms-integrity_algorithm (t ∷ xs) p ((ht, fits), hxs) =
    let q = add_transform p (forget_value t) in
    add_transforms-integrity_algorithm xs q hxs
    ∙ ground (arith, append_assoc p.integrity_algorithm (forget_value t ∷ []) (forget_values xs))

add_transforms-diffie_hellman_group :
    (xs : List Transform) (p : Proposal)
    → AllFit type_diffie_hellman_group xs
    → add_transforms p (forget_values xs)
      ≡ record p { diffie_hellman_group = p.diffie_hellman_group ++ forget_values xs }
unfolding add_transforms add_transform
add_transforms-diffie_hellman_group [] p h = rw append-nil
add_transforms-diffie_hellman_group (t ∷ xs) p ((ht, fits), hxs) =
    let q = add_transform p (forget_value t) in
    add_transforms-diffie_hellman_group xs q hxs
    ∙ ground (arith, append_assoc p.diffie_hellman_group (forget_value t ∷ []) (forget_values xs))

add_transforms-extended_sequence_numbers :
    (xs : List Transform) (p : Proposal)
    → AllFit type_extended_sequence_numbers xs
    → add_transforms p (forget_values xs)
      ≡ record p { extended_sequence_numbers = p.extended_sequence_numbers ++ forget_values xs }
unfolding add_transforms add_transform
add_transforms-extended_sequence_numbers [] p h = rw append-nil
add_transforms-extended_sequence_numbers (t ∷ xs) p ((ht, fits), hxs) =
    let q = add_transform p (forget_value t) in
    add_transforms-extended_sequence_numbers xs q hxs
    ∙ ground
        (arith, append_assoc p.extended_sequence_numbers (forget_value t ∷ []) (forget_values xs))

-- A proposal that comes back: an SPI whose end fits a uint8, and transforms that come back, each
-- in the list of its type.
pub record ProposalFits (p : Proposal) : Type 0 where
  pub spi_fits : length p.spi < 248
  pub encr : AllFit type_encryption_algorithm p.encryption_algorithm
  pub prf : AllFit type_pseudorandom_function p.pseudorandom_function
  pub integ : AllFit type_integrity_algorithm p.integrity_algorithm
  pub dh : AllFit type_diffie_hellman_group p.diffie_hellman_group
  pub esn : AllFit type_extended_sequence_numbers p.extended_sequence_numbers

AllWritten-append :
    (kind : ℕ) (xs ys : List Transform) → AllFit kind xs → AllWritten ys → AllWritten (xs ++ ys)
AllWritten-append kind [] ys h hy = hy
AllWritten-append kind (t ∷ xs) ys (ht, hxs) hy = (ht.1, AllWritten-append kind xs ys hxs hy)

AllFit-AllWritten : (kind : ℕ) (xs : List Transform) → AllFit kind xs → AllWritten xs
AllFit-AllWritten kind [] h = tt
AllFit-AllWritten kind (t ∷ xs) (ht, hxs) = (ht.1, AllFit-AllWritten kind xs hxs)

pub transform_list-AllWritten : (p : Proposal) → ProposalFits p → AllWritten (transform_list p)
transform_list-AllWritten p w = AllWritten-append _ p.encryption_algorithm _ w.encr (
    AllWritten-append _ p.pseudorandom_function _ w.prf (
      AllWritten-append _ p.integrity_algorithm _ w.integ (
        AllWritten-append _ p.diffie_hellman_group _ w.dh
          (AllFit-AllWritten _ p.extended_sequence_numbers w.esn))))

-- What the parser keeps of a proposal.
abbrev pub forget_proposal : Proposal → Proposal
forget_proposal p = record p {
  encryption_algorithm = forget_values p.encryption_algorithm;
  pseudorandom_function = forget_values p.pseudorandom_function;
  integrity_algorithm = forget_values p.integrity_algorithm;
  diffie_hellman_group = forget_values p.diffie_hellman_group;
  extended_sequence_numbers = forget_values p.extended_sequence_numbers;
}

-- The proposal before its transforms are read.
abbrev pub bare : Proposal → Proposal
bare p = record empty_proposal {
  proposal_number = p.proposal_number;
  protocol_id = p.protocol_id;
  spi = p.spi;
}

pub sorted_again :
    (p : Proposal)
    → ProposalFits p
    → add_transforms (bare p) (forget_values (transform_list p)) ≡ forget_proposal p
sorted_again p w =
    let a = p.encryption_algorithm in
    let b = p.pseudorandom_function in
    let c = p.integrity_algorithm in
    let d = p.diffie_hellman_group in
    let e = p.extended_sequence_numbers in
    simp (map-append, add_transforms-append)
      (rw
        (
          add_transforms-encryption_algorithm a (bare p) w.encr,
          add_transforms-pseudorandom_function b _ w.prf,
          add_transforms-integrity_algorithm c _ w.integ,
          add_transforms-diffie_hellman_group d _ w.dh,
          add_transforms-extended_sequence_numbers e _ w.esn,
        )
        refl)
