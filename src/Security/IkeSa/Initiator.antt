-- ===== src/Security/IkeSa/Initiator.antt =====
-- Both sides of `NewIKESAKey`: the keys are ready, and the initiator derives the same.
use ike.Base.{
  List, Option, Result, ap, arith, bind_inversion, given_inversion, length, no_nonce, no_shared_key,
  ok, reject_if_inversion, required_inversion, some, subst, sym, unspecified_diffie_hellman,
  unspecified_encryption, unspecified_integrity, unspecified_pseudorandom, ℕ, ◌<◌, ◌==◌, ◌>>=◌, ◌∙◌,
  ◌≡◌,
}
use ike.Base.Bytes.{Bytes}
use ike.Message.SecurityAssociation.{Proposal}
use ike.Security.Primitives.{Primitives}
use ike.Security.Integers.{set_bytes}
use ike.Security.Random.{generate_random_number}
use ike.Security.Integ.{IntegType}
use ike.Security.Dh
use ike.Security.Dh.{DhType, get_public_value, get_shared_key, group_of}
use ike.Security.IkeSa.Ready.{IsChosen, IsReady}
use ike.Security.IkeSa.Derivation.{generate_key-Derived}
use ike.Security.IkeSa.Agreement.{Choice-IsChosen, choose_algorithms-Choice}
use ike.Security.Dh.Laws.{IsPublic, ok_injective, shared_key-IsPublic, shared_key_agreement}
use ike.Security.IkeSa.{
  IkeSaKey, calculate_diffie_hellman_materials, choose_algorithms, generate_key_for_ike_sa,
  new_ike_sa_key,
}

-- Keys are derived only with an integrity algorithm, a nonce and a shared key.
generate_inversion :
    (c : Primitives) (k : IkeSaKey) (nonce shared_key : Bytes) (i r : ℕ) {ready : IkeSaKey}
    → generate_key_for_ike_sa c k nonce shared_key i r ≡ ok ready
    → (integ : IntegType) × (k.integ_info ≡ some integ)
      × (0 < length nonce)
      × (0 < length shared_key)
unfolding generate_key_for_ike_sa
generate_inversion c k nonce shared_key i r e =
    let (encr, is_encr, e1) = required_inversion unspecified_encryption k.encr_info _ e in
    let (integ, is_integ, e2) = required_inversion unspecified_integrity k.integ_info _ e1 in
    let (prf, is_prf, e3) = required_inversion unspecified_pseudorandom k.prf_info _ e2 in
    let (dh, is_dh, e4) = required_inversion unspecified_diffie_hellman k.dh_info _ e3 in
    let (n, e5) = reject_if_inversion (length nonce == 0) no_nonce _ e4 in
    let (s, e6) = reject_if_inversion (length shared_key == 0) no_shared_key _ e5 in
    (integ, is_integ, ground (arith, n), ground (arith, s))

-- The steps of a call that succeeds.
record Steps (c : Primitives) (draws : List (Option ℕ)) (p : Proposal) (peer nonce : Bytes)
    (i r : ℕ) (ready : IkeSaKey) (value : Bytes) : Type 0 where
  k : IkeSaKey
  secret : ℕ
  dh : DhType
  shared_key : Bytes
  is_choice : choose_algorithms p ≡ ok k
  is_dh : k.dh_info ≡ some dh
  is_shared : get_shared_key dh secret (set_bytes peer) ≡ ok shared_key
  is_value : get_public_value dh secret ≡ ok value
  is_ready : generate_key_for_ike_sa c k nonce shared_key i r ≡ ok ready

materials_inversion :
    (draws : List (Option ℕ)) (k : IkeSaKey) (peer : Bytes) {value shared_key : Bytes}
    → calculate_diffie_hellman_materials draws k peer ≡ ok (value, shared_key)
    → (secret : ℕ) × (dh : DhType) × (k.dh_info ≡ some dh)
      × (get_shared_key dh secret (set_bytes peer) ≡ ok shared_key)
      × (get_public_value dh secret ≡ ok value)
unfolding calculate_diffie_hellman_materials
materials_inversion draws k peer e =
    let (secret, is_secret, m1) = bind_inversion (generate_random_number draws) _ e in
    let (dh, is_dh, m2) = given_inversion k.dh_info _ m1 in
    let (key, is_key, m3) = bind_inversion (get_shared_key dh secret (set_bytes peer)) _ m2 in
    let (value, is_value, m4) = bind_inversion (get_public_value dh secret) _ m3 in
    (secret, dh, is_dh, cc, cc)

same_pair :
    {a b : IkeSaKey} {x y : Bytes}
    → ◌≡◌ {A = Result (IkeSaKey × Bytes)} (ok (a, x)) (ok (b, y))
    → (a ≡ b) × (x ≡ y)
same_pair e = (cc, cc)

same_key : {a b : IkeSaKey} → ok a ≡ ok b → a ≡ b
same_key e = cc

steps :
    (c : Primitives) (draws : List (Option ℕ)) (p : Proposal) (peer nonce : Bytes) (i r : ℕ)
    {ready : IkeSaKey} {value : Bytes}
    → new_ike_sa_key c draws p peer nonce i r ≡ ok (ready, value)
    → Steps c draws p peer nonce i r ready value
unfolding new_ike_sa_key
steps c draws p peer nonce i r e =
    let (k, is_k, e1) = bind_inversion (choose_algorithms p) _ e in
    let ((v, s), is_m, e2) =
      bind_inversion (calculate_diffie_hellman_materials draws k peer) _ e1 in
    let (made, is_made, e3) = bind_inversion (generate_key_for_ike_sa c k nonce s i r) _ e2 in
    let (same_key, same_value) = same_pair e3 in
    let (secret, dh, is_dh, is_key, is_value) = materials_inversion draws k peer is_m in
    record {
      k = k;
      secret = secret;
      dh = dh;
      shared_key = s;
      is_choice = is_k;
      is_dh = is_dh;
      is_shared = is_key;
      is_value = is_value ∙ ap ok same_value;
      is_ready = is_made ∙ ap ok same_key;
    }

generated-IsReady :
    (c : Primitives) (k : IkeSaKey) (w : IsChosen k) (nonce shared_key : Bytes) (i r : ℕ)
    {ready : IkeSaKey}
    → 0 < length nonce
    → 0 < length shared_key
    → generate_key_for_ike_sa c k nonce shared_key i r ≡ ok ready
    → IsReady ready
generated-IsReady c k w nonce shared_key i r n s e =
    let d = generate_key-Derived c k w nonce shared_key i r n s in
    subst IsReady (same_key (sym d.is_derived ∙ e)) d.is_ready

-- Whatever `NewIKESAKey` returns is ready: the algorithms for encryption and integrity and the objects
-- for both directions are there, and the checksums are not longer than their hashes.
pub new_ike_sa_key-IsReady :
    (c : Primitives) (draws : List (Option ℕ)) (p : Proposal) (peer nonce : Bytes) (i r : ℕ)
    {ready : IkeSaKey} {value : Bytes}
    → new_ike_sa_key c draws p peer nonce i r ≡ ok (ready, value)
    → IsReady ready
new_ike_sa_key-IsReady c draws p peer nonce i r e =
    let x = steps c draws p peer nonce i r e in
    let (integ, is_integ, n, s) = generate_inversion c x.k nonce x.shared_key i r x.is_ready in
    generated-IsReady c x.k (Choice-IsChosen x.k (choose_algorithms-Choice p x.is_choice) is_integ)
      nonce x.shared_key i r n s x.is_ready

some_injective : {x y : DhType} → some x ≡ some y → x ≡ y
some_injective e = cc

-- The initiator's side, from what the responder computed.
other_side :
    (c : Primitives) (k : IkeSaKey) (dh : DhType) (a b : ℕ)
    (value_i value_r nonce shared_key : Bytes) (i r : ℕ) {ready : IkeSaKey}
    → Dh.IsRegistered dh
    → get_public_value dh a ≡ ok value_i
    → get_public_value dh b ≡ ok value_r
    → get_shared_key dh b (set_bytes value_i) ≡ ok shared_key
    → IsPublic (group_of dh) (set_bytes value_r)
    → generate_key_for_ike_sa c k nonce shared_key i r ≡ ok ready
    → (get_shared_key dh a (set_bytes value_r) >>= λ key. generate_key_for_ike_sa c k nonce key i r)
      ≡ ok ready
other_side c k dh a b value_i value_r nonce shared_key i r known is_i is_r is_shared good e =
    let (key, by_a, by_b, _) =
      shared_key_agreement dh a b value_i value_r known is_i is_r
        (shared_key-IsPublic dh b (set_bytes value_i) is_shared) good in
    let same : key ≡ shared_key = ok_injective (sym by_b ∙ is_shared) in rw by_a (rw same e)

-- If the responder's `NewIKESAKey` succeeds on the public value of an initiator's secret, and the
-- value that it answers with is in range, the initiator, who chose the same algorithms, derives the
-- same keys and objects from its secret and that value.
pub initiator_agreement :
    (c : Primitives) (draws : List (Option ℕ)) (p : Proposal) (value_i nonce : Bytes) (i r a : ℕ)
    {ready : IkeSaKey} {value_r : Bytes} (k : IkeSaKey) (dh : DhType)
    → choose_algorithms p ≡ ok k
    → k.dh_info ≡ some dh
    → get_public_value dh a ≡ ok value_i
    → new_ike_sa_key c draws p value_i nonce i r ≡ ok (ready, value_r)
    → IsPublic (group_of dh) (set_bytes value_r)
    → (get_shared_key dh a (set_bytes value_r) >>= λ shared_key.
        generate_key_for_ike_sa c k nonce shared_key i r)
      ≡ ok ready
initiator_agreement c draws p value_i nonce i r a {ready} {value_r} k dh is_k is_dh is_value e
      good =
    let x = steps c draws p value_i nonce i r e in
    let h = choose_algorithms-Choice p is_k in
    let one_k : x.k ≡ k = same_key (sym x.is_choice ∙ is_k) in
    let one_dh : x.dh ≡ dh =
      some_injective (sym x.is_dh ∙ ap (λ (y : IkeSaKey). y.dh_info) one_k ∙ is_dh) in
    let table_dh : h.dh ≡ dh =
      some_injective (sym (ap (λ (y : IkeSaKey). y.dh_info) h.is_key) ∙ is_dh) in
    other_side c k dh a x.secret value_i value_r nonce x.shared_key i r
      (subst Dh.IsRegistered table_dh h.dh_registered) is_value
      (subst (λ (d : DhType). get_public_value d x.secret ≡ ok value_r) one_dh x.is_value)
      (subst (λ (d : DhType). get_shared_key d x.secret (set_bytes value_i) ≡ ok x.shared_key)
        one_dh x.is_shared)
      good
      (subst (λ (y : IkeSaKey). generate_key_for_ike_sa c y nonce x.shared_key i r ≡ ok ready) one_k
        x.is_ready)
