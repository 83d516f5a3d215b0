-- ===== src/Lib.antt =====
-- The IKE library: encoding and decoding of IKEv2 messages and of the EAP packets in them.
--
-- The program. A message (message/message.go) is a header (message/header.go) and a chain of
-- payloads (message/payload_*.go), each behind 4 bytes that name the type of the next. Encode
-- calls each payload's Marshal; Decode reads the chain's headers, makes a new payload of the
-- named type and calls its Unmarshal. An EAP payload holds a packet of eap/, whose data is one
-- of six types. On top of this, security/ chooses algorithms from the transforms of a proposal,
-- computes Diffie-Hellman values and derives keys, and ike.go (EncodeEncrypt, DecodeDecrypt)
-- seals the chain of a message in one Encrypted payload: AES-CBC under the key of the sender,
-- and a checksum over the whole message.
--
-- The files.
--   Base: shared names, byte strings, results, and the rules that prove that code returns or
--     ends.
--   Message.Header: message/header.go (NewHeader, Marshal, ParseHeader, the flags).
--   Message.KeyExchange, Authentication, IdentificationInitiator, IdentificationResponder,
--     Certificate, CertificateRequest, Nonce, VendorId, Encrypted, Notification, Delete,
--     Configuration, TrafficSelectorInitiator, TrafficSelectorResponder, SecurityAssociation:
--     the payload of that name; `marshal` is Marshal and `unmarshal` is Unmarshal on a receiver.
--   Message.TrafficSelector: the individual selectors that both selector payloads hold.
--   Message.Payload: the interface IKEPayload, as a data type of the sixteen payloads.
--   Message.Container: IKEPayloadContainer; its children Laws, Safety, Reach and Unknown are on
--     round trips, termination, the rounds that are reached, and unknown types.
--   Message.Codec: IKEMessage (NewMessage, Encode, Decode, DecodePayload).
--   Message.Build, Message.Build.Vendor: message/build.go (the Build functions).
--   Eap.Types, Eap.Packet: eap/eap.go. Eap.Identity, Notification, Nak, Md5, Expanded, AkaPrime:
--     the data of that name, eap/eap_*.go; Eap.AkaPrime.Attribute and Reader: its attributes and
--     parser. Eap.AkaPrime.Prf: EapAkaPrimePRF. Eap.Mac: CalcEapAkaPrimeAtMAC.
--   Message.Types: the numbers of message/types.go that the algorithms have.
--   Security.Padding: PKCS7Padding of security/lib/lib.go. Security.EncrAesCbc: Encrypt and
--     Decrypt of security/encr/encr_aes_cbc.go; its children Laws and Panics.
--   Security.PrfPlus: PrfPlus of security/lib/lib.go; its child Reference has the blocks of RFC
--     7296.
--   Security.Primitives: the hashes and ciphers of crypto/. Security.Integers: math/big.
--   Security.Registry: what DecodeTransform and ToTransform of the algorithms share.
--     Security.Dh, Prf, Integ, Esn, Encr: security/dh, prf, integ, esn, encr. Security.Dh.Laws:
--     the shared key.
--   Security.Random: GenerateRandomNumber and GenerateRandomUint8 of security/security.go.
--   Security.IkeSa: IKESAKey of security/security.go (ToProposal, NewIKESAKey as
--     choose_algorithms and new_ike_sa_key, CalculateDiffieHellmanMaterials,
--     GenerateKeyForIKESA); its children Keys, Ready and Derivation are on derived keys,
--     Agreement, Choice and Refusal on the choice of algorithms, and Initiator on both sides of
--     an exchange.
--   Security.ChildSa: ChildSAKey of security/security.go; its children Keys and Choice.
--   Security.RootCertificate: CompareRootCertificate.
--   EncryptedMessage: ike.go; its children Sealed and Sending are on what is sent, RoundTrip on
--     both sides, Session on messages under keys that both sides derived, OnlyEncrypted and
--     Refusal on what is refused and where the code panics, HeaderFirst on a header that was
--     parsed before.
--   Tests: concrete inputs.
--
-- The model. A byte string is a list of numbers; theorems that need them below 256 say so. A
-- uint8 or uint16 sum that can wrap has its `%`. A result is a value, an error (which check made
-- it, not its text), a panic of an index or a slice out of range, or `stuck`, a loop out of
-- fuel. A method that changes its receiver takes the receiver and returns the new one; what it
-- leaves in it behind an error is not kept. Pointers to arguments that the code tests for nil
-- first are never nil here, but for the header and the key of DecodeDecrypt and EncodeEncrypt.
-- The Delete parser may read the array behind its slice, so it and the chain's parser take those
-- bytes as well (`spare`, `behind`).
--
-- Fuel. The loops over bytes (chains, proposals, transforms, configuration attributes, EAP-AKA'
-- attributes) run on the number of bytes: each round takes at least one, so they never run out.
-- The selectors' loop counts down the number in the payload. PrfPlus runs on the number of bytes
-- asked for: each round adds a block of at least one. GenerateRandomNumber runs on the draws
-- that are made.
--
-- Arguments: the block mode of crypto/cipher under one key (a record BlockMode, with the law
-- that decryption undoes encryption of whole blocks), the hashes and ciphers under any key
-- (Primitives, with the lengths of HMAC), the source of random bytes (what rand.Read answers,
-- read by read, for a slice of n bytes), the numbers that rand.Int answers, and net.ParseIP. The `Write` of a hash does not fail, as its documentation says.
-- big.Int is natural numbers.
--
-- The tables of algorithms, which the init functions fill, are functions of the name. The
-- interfaces of algorithms are data types of the types that implement them; their tables hold no
-- others.
--
-- Not modelled: the printing of keys and the strings for logs.

pub mod Base
pub mod Eap
pub mod EncryptedMessage
pub mod Message
pub mod Security
pub mod Tests
