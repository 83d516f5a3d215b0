-- ===== src/EncryptedMessage/OnlyEncrypted.antt =====
-- The loop of ike.go over the payloads of a message with an Encrypted payload.
use ike.Base.{
  ==_iff, Bool-cases, List, Option, [], ap, arith, err, inl, inr, none, ok, other_payload, refl,
  some, sym, ◌++◌, ◌==◌, ◌∙◌, ◌∷◌, ◌≡◌, ◌≢◌, ◌⊎◌,
}
use ike.Message.Payload.{
  IkePayload, authentication, certificate, certificate_request, configuration, delete, encrypted,
  identification_initiator, identification_responder, key_exchange, nonce, notify, payload_eap,
  security_association, traffic_selector_initiator, traffic_selector_responder, type_of, vendor_id,
}
use ike.Message.Encrypted.{Encrypted}
use ike.EncryptedMessage.{encrypted_only}

-- The payloads of an Encrypted message that is decrypted are Encrypted ones only.
abbrev pub AllEncrypted : List IkePayload → Type 0
AllEncrypted [] = Unit
AllEncrypted (p ∷ rest) = (type_of p ≡ 46) × AllEncrypted rest

-- A payload of type 46 is an Encrypted one.
encrypted_of : (p : IkePayload) → type_of p ≡ 46 → (x : Encrypted) × (p ≡ encrypted x)
unfolding type_of
encrypted_of (security_association x) e = absurd (omega (arith, e))
encrypted_of (key_exchange x) e = absurd (omega (arith, e))
encrypted_of (identification_initiator x) e = absurd (omega (arith, e))
encrypted_of (identification_responder x) e = absurd (omega (arith, e))
encrypted_of (certificate x) e = absurd (omega (arith, e))
encrypted_of (certificate_request x) e = absurd (omega (arith, e))
encrypted_of (authentication x) e = absurd (omega (arith, e))
encrypted_of (nonce x) e = absurd (omega (arith, e))
encrypted_of (notify x) e = absurd (omega (arith, e))
encrypted_of (delete x) e = absurd (omega (arith, e))
encrypted_of (vendor_id x) e = absurd (omega (arith, e))
encrypted_of (traffic_selector_initiator x) e = absurd (omega (arith, e))
encrypted_of (traffic_selector_responder x) e = absurd (omega (arith, e))
encrypted_of (encrypted x) e = (x, refl)
encrypted_of (configuration x) e = absurd (omega (arith, e))
encrypted_of (payload_eap x) e = absurd (omega (arith, e))

-- The loop refuses every other payload.
refused :
    (found : Option Encrypted) (p : IkePayload) (rest : List IkePayload)
    → type_of p ≢ 46
    → encrypted_only found (p ∷ rest) ≡ err other_payload
unfolding encrypted_only type_of
refused found (security_association x) rest n = refl
refused found (key_exchange x) rest n = refl
refused found (identification_initiator x) rest n = refl
refused found (identification_responder x) rest n = refl
refused found (certificate x) rest n = refl
refused found (certificate_request x) rest n = refl
refused found (authentication x) rest n = refl
refused found (nonce x) rest n = refl
refused found (notify x) rest n = refl
refused found (delete x) rest n = refl
refused found (vendor_id x) rest n = refl
refused found (traffic_selector_initiator x) rest n = refl
refused found (traffic_selector_responder x) rest n = refl
refused found (encrypted x) rest n = absurd (n refl)
refused found (configuration x) rest n = refl
refused found (payload_eap x) rest n = refl

pub encrypted_only-other :
    (found : Option Encrypted) (front : List IkePayload) (p : IkePayload) (back : List IkePayload)
    → AllEncrypted front
    → type_of p ≢ 46
    → encrypted_only found (front ++ (p ∷ back)) ≡ err other_payload
unfolding encrypted_only
encrypted_only-other found [] p back h n = refused found p back n
encrypted_only-other found (q ∷ front) p back (e, h) n =
    let (x, is_x) = encrypted_of q e in rw is_x (encrypted_only-other (some x) front p back h n)

-- Payloads that end in an Encrypted one, behind Encrypted ones.
pub record LastEncrypted (payloads : List IkePayload) (x : Encrypted) : Type 0 where
  pub front : List IkePayload
  pub is_payloads : payloads ≡ front ++ (encrypted x ∷ [])
  pub all_encrypted : AllEncrypted front

-- What the loop finds is what it found before, or the last of the payloads, which are Encrypted ones.
last_of_loop :
    (found : Option Encrypted) (payloads : List IkePayload) {x : Encrypted}
    → encrypted_only found payloads ≡ ok (some x)
    → ((payloads ≡ []) × (found ≡ some x)) ⊎ LastEncrypted payloads x
unfolding encrypted_only
last_of_loop found [] e = inl (refl, cc)
last_of_loop found (p ∷ rest) {x} e = elim (Bool-cases (type_of p == 46)) [
  | inr other ↦
      (let n : type_of p ≢ 46 = λ h. absurd (ground (arith, other, h)) in
        let clash = sym (refused found p rest n) ∙ e in cc)
  | inl sk ↦
      (let is_sk : type_of p ≡ 46 = (==_iff (type_of p) 46).0 sk in
        let (y, is_y) = encrypted_of p is_sk in
        elim (last_of_loop (some y) rest (rw is_y at e)) [
          | inl (no_rest, same) ↦ inr (record { front = []; is_payloads = cc; all_encrypted = tt })
          | inr last ↦ inr (record {
            front = p ∷ last.front;
            is_payloads = ap (λ (l : List IkePayload). p ∷ l) last.is_payloads;
            all_encrypted = (is_sk, last.all_encrypted);
          })
        ])
]

-- What the loop finds is the last of the payloads, which are Encrypted ones.
pub encrypted_only-LastEncrypted :
    (payloads : List IkePayload) {x : Encrypted}
    → encrypted_only none payloads ≡ ok (some x)
    → LastEncrypted payloads x
encrypted_only-LastEncrypted payloads e = elim (last_of_loop none payloads e) [
  | inl (no_payload, missing) ↦ cc
  | inr last ↦ last
]
