-- ===== src/Security/IkeSa/Keys.antt =====
-- The keys that `GenerateKeyForIKESA` derives: the key stream of RFC 7296, cut in order.
use ike.Base.{
  [], ap, arith, drop, length, length-drop, length-take, ok, refl, subst, take, take-append-drop, ℕ,
  ◌++◌, ◌+◌, ◌∙◌, ◌∷◌, ◌≡◌, ◌≤◌,
}
use ike.Base.Bytes.{Bytes, slice_from-ok, slice_to, slice_to-ok}
use ike.Security.IkeSa.{SaKeys, cut, cut_keys, total_key_length}

-- The keys in the order of the stream.
abbrev pub joined : SaKeys → Bytes
joined k = k.sk_d ++ (k.sk_ai ++ (k.sk_ar ++ (k.sk_ei ++ (k.sk_er ++ (k.sk_pi ++ k.sk_pr)))))

pub record KeyLengths (d a e : ℕ) (k : SaKeys) : Type 0 where
  pub length_d : length k.sk_d ≡ d
  pub length_ai : length k.sk_ai ≡ a
  pub length_ar : length k.sk_ar ≡ a
  pub length_ei : length k.sk_ei ≡ e
  pub length_er : length k.sk_er ≡ e
  pub length_pi : length k.sk_pi ≡ d
  pub length_pr : length k.sk_pr ≡ d

-- The result of a cut that is long enough.
pub record Cut (b : Bytes) (n : ℕ) : Type 0 where
  pub front : Bytes
  pub rest : Bytes
  pub is_cut : cut b n ≡ ok (front, rest)
  pub whole : front ++ rest ≡ b
  pub front_length : length front ≡ n
  pub rest_length : length rest + n ≡ length b

pub cut_at : (b : Bytes) (n : ℕ) → n ≤ length b → Cut b n
unfolding cut
cut_at b n h = record {
  front = take n b;
  rest = drop n b;
  is_cut = rw (slice_to-ok b n h) (rw (slice_from-ok b n h) refl);
  whole = take-append-drop n b;
  front_length = omega (arith, length-take n b);
  rest_length = omega (arith, length-drop n b);
}

take_all : (b : Bytes) → take (length b) b ≡ b
take_all [] = refl
take_all (x ∷ b) = rw (take_all b) refl

pub slice_to_all : (b : Bytes) (n : ℕ) → length b ≡ n → slice_to b n ≡ ok b
slice_to_all b n h =
    slice_to-ok b n (omega arith) ∙ ap ok (subst (λ (m : ℕ). take m b ≡ b) h (take_all b))

-- The cuts one after the other.
module _ (d a e : ℕ) (b b1 b2 b3 b4 b5 b6 f1 f2 f3 f4 f5 f6 f7 : Bytes) where
  abbrev these_keys : SaKeys
  these_keys = record {
    sk_d = f1;
    sk_ai = f2;
    sk_ar = f3;
    sk_ei = f4;
    sk_er = f5;
    sk_pi = f6;
    sk_pr = f7;
  }

  cut_keys-steps :
      cut b d ≡ ok (f1, b1)
      → cut b1 a ≡ ok (f2, b2)
      → cut b2 a ≡ ok (f3, b3)
      → cut b3 e ≡ ok (f4, b4)
      → cut b4 e ≡ ok (f5, b5)
      → cut b5 d ≡ ok (f6, b6)
      → slice_to b6 d ≡ ok f7
      → cut_keys d a e b ≡ ok these_keys
  unfolding cut_keys
  cut_keys-steps e1 e2 e3 e4 e5 e6 e7 = rw e1 (rw e2 (rw e3 (rw e4 (rw e5 (rw e6 (rw e7 refl))))))

-- The six cuts of a stream that is long enough.
module _ (d a e : ℕ) (stream : Bytes) (h : length stream ≡ total_key_length d a e) where
  c1 : Cut stream d
  c1 = cut_at stream d (omega (arith, h))

  c2 : Cut c1.rest a
  c2 = cut_at c1.rest a (omega (arith, h, c1.rest_length))

  c3 : Cut c2.rest a
  c3 = cut_at c2.rest a (omega (arith, h, c1.rest_length, c2.rest_length))

  c4 : Cut c3.rest e
  c4 = cut_at c3.rest e (omega (arith, h, c1.rest_length, c2.rest_length, c3.rest_length))

  c5 : Cut c4.rest e
  c5 =
      cut_at c4.rest e
        (omega (arith, h, c1.rest_length, c2.rest_length, c3.rest_length, c4.rest_length))

  c6 : Cut c5.rest d
  c6 = cut_at c5.rest d (
      omega
        (arith, h, c1.rest_length, c2.rest_length, c3.rest_length, c4.rest_length, c5.rest_length))

  last_length : length c6.rest ≡ d
  last_length = omega (
    arith, h, c1.rest_length, c2.rest_length, c3.rest_length, c4.rest_length, c5.rest_length,
    c6.rest_length,
  )

  -- A stream of the total length is cut into keys of their lengths, which are all of it.
  pub cut_keys-ok :
      (k : SaKeys) × (cut_keys d a e stream ≡ ok k) × (joined k ≡ stream) × KeyLengths d a e k
  cut_keys-ok = (
    these_keys d a e stream c1.rest c2.rest c3.rest c4.rest c5.rest c6.rest c1.front c2.front
        c3.front c4.front c5.front c6.front c6.rest,
    cut_keys-steps d a e stream c1.rest c2.rest c3.rest c4.rest c5.rest c6.rest c1.front c2.front
        c3.front c4.front c5.front c6.front c6.rest c1.is_cut c2.is_cut c3.is_cut c4.is_cut
        c5.is_cut c6.is_cut (slice_to_all c6.rest d last_length),
    rw (c6.whole) (rw (c5.whole) (rw (c4.whole) (rw (c3.whole) (rw (c2.whole) (c1.whole))))),
    record {
      length_d = c1.front_length;
      length_ai = c2.front_length;
      length_ar = c3.front_length;
      length_ei = c4.front_length;
      length_er = c5.front_length;
      length_pi = c6.front_length;
      length_pr = last_length;
    },
  )
