-- ===== src/Tests/Session.antt =====
-- A message of ike.go between the two sides of the exchange in Tests/Responder.antt.
use ike.EncryptedMessage.RoundTrip.{SameHeader}
use ike.Base.{[], arith, length-replicate, none, ok, refl, some, ℕ, ◌>>=◌, ◌∷◌, ◌≡◌}
use ike.Base.Bytes.{Bytes}
use ike.Message.Codec.{IkeMessage}
use ike.Security.Integers.{set_bytes}
use ike.Security.Dh.{get_shared_key, group2}
use ike.Security.IkeSa.{IkeSaKey, generate_key_for_ike_sa}
use ike.EncryptedMessage.{decode_decrypt, encode_encrypt, role_initiator, role_responder}
use ike.EncryptedMessage.Session.{established_session, key_of}
use ike.Tests.Keys.{chosen, toy}
use ike.Tests.Exchange.{sends_i, value_i, value_r, value_r-IsPublic}
use ike.Tests.Responder.{accepts, draws, made, offer, responds}
use ike.Tests.Secured.{a_message, header_fits, plain_chain, read_bytes}

established_session_example :
    (derived : IkeSaKey) × ((get_shared_key group2 2 (set_bytes value_r) >>= λ shared_key.
    generate_key_for_ike_sa toy chosen (1 ∷ []) shared_key 3 4)
      ≡ ok derived)
    × (sent : IkeMessage) × (b : Bytes) × (encode_encrypt
          (λ i n. ok (read_bytes i n))
          a_message
          (some (key_of role_responder derived made.ready))
          role_responder
        ≡ ok (sent, b))
    × SameHeader a_message.ike_header sent.ike_header
    × (decode_decrypt b [] [] none (some (key_of role_initiator derived made.ready)) role_initiator
        ≡ ok (record { ike_header = sent.ike_header; payloads = a_message.payloads }))
established_session_example =
    established_session toy draws offer value_i (1 ∷ []) 3 4 2 chosen group2 accepts refl sends_i
      responds value_r-IsPublic role_responder a_message read_bytes [] []
      (λ i n. length-replicate {A = ℕ} n i) header_fits (tt, tt) plain_chain (omega arith)
