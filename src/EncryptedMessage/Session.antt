-- ===== src/EncryptedMessage/Session.antt =====
-- From the Diffie-Hellman values to the messages: the two sides of ike.go under the keys that the two
-- sides of security/security.go derive.
use ike.Base.{
  List, Option, false, if◌then◌else◌, length, none, not, ok, refl, some, true, ℕ, ◌>>=◌, ◌≡◌, ◌≤◌,
}
use ike.Base.Bytes.{Bytes}
use ike.Message.SecurityAssociation.{Proposal}
use ike.Message.Header.Laws.{IsWf}
use ike.Message.Container
use ike.Message.Container.Laws.{AllFit, received}
use ike.Message.Codec.{IkeMessage}
use ike.Security.Integers.{set_bytes}
use ike.Security.Primitives.{Primitives}
use ike.Security.EncrAesCbc.Laws.{Fills}
use ike.Security.Dh.{DhType, get_public_value, get_shared_key, group_of}
use ike.Security.Dh.Laws.{IsPublic}
use ike.Security.IkeSa.{IkeSaKey, choose_algorithms, generate_key_for_ike_sa, new_ike_sa_key}
use ike.Security.IkeSa.Initiator.{initiator_agreement, new_ike_sa_key-IsReady}
use ike.EncryptedMessage.{Role, decode_decrypt, encode_encrypt}
use ike.EncryptedMessage.RoundTrip.{SameHeader, secured_round_trip}

-- The key of the side with this role.
abbrev pub key_of : Role → IkeSaKey → IkeSaKey → IkeSaKey
key_of role initiator responder = if role then initiator else responder

-- Both sides have the same key.
same_key : (role : Role) (k : IkeSaKey) → key_of role k k ≡ k
same_key true k = refl
same_key false k = refl

-- If the responder's `NewIKESAKey` succeeds on the public value of an initiator's secret, and the
-- value that it answers with is in range, the initiator, who chose the same algorithms, derives a key
-- from its secret and that value, and from then on each side opens what the other seals: a message
-- whose header fits and whose payloads the writer and the parser agree on and fill at most 65000
-- bytes, sealed by either side with its own key, where the source of random bytes fills what it is
-- given, goes out under its own header, but for the type of the first payload and the bytes of the
-- chain, and comes out on the other side under the other's key with the header that was sent and the
-- payloads as a chain is read back.
pub established_session :
    (c : Primitives) (draws : List (Option ℕ)) (p : Proposal) (value_i nonce : Bytes) (i r a : ℕ)
    {ready : IkeSaKey} {value_r : Bytes} (k : IkeSaKey) (dh : DhType)
    → choose_algorithms p ≡ ok k
    → k.dh_info ≡ some dh
    → get_public_value dh a ≡ ok value_i
    → new_ike_sa_key c draws p value_i nonce i r ≡ ok (ready, value_r)
    → IsPublic (group_of dh) (set_bytes value_r)
    → (role : Role) (m : IkeMessage) (random : ℕ → ℕ → Bytes) (behind spare : Bytes) {plain : Bytes}
    → Fills random
    → IsWf m.ike_header
    → AllFit m.payloads
    → Container.encode m.payloads ≡ ok plain
    → length plain ≤ 65000
    → (derived : IkeSaKey) × ((get_shared_key dh a (set_bytes value_r) >>= λ shared_key.
          generate_key_for_ike_sa c k nonce shared_key i r)
        ≡ ok derived)
      × (sent : IkeMessage) × (b : Bytes) × (encode_encrypt
            (λ i n. ok (random i n))
            m
            (some (key_of role derived ready))
            role
          ≡ ok (sent, b))
      × SameHeader m.ike_header sent.ike_header
      × (decode_decrypt b behind spare none (some (key_of (not role) derived ready)) (not role)
          ≡ ok (record { ike_header = sent.ike_header; payloads = received m.payloads }))
established_session c draws p value_i nonce i r a {ready} {value_r} k dh is_k is_dh is_value e good
      role m random behind spare fills h fit is_plain few =
    let w = new_ike_sa_key-IsReady c draws p value_i nonce i r e in
    let (sent, b, is_sent, same_header, is_read) =
      secured_round_trip ready w role m random behind spare fills h fit is_plain few in
    (
      ready,
      initiator_agreement c draws p value_i nonce i r a k dh is_k is_dh is_value e good,
      sent,
      b,
      rw (same_key role ready) is_sent,
      same_header,
      rw (same_key (not role) ready) is_read,
    )
