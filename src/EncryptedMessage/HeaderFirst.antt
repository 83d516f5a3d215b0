-- ===== src/EncryptedMessage/HeaderFirst.antt =====
-- `DecodeDecrypt` with a header that was parsed before.
use ike.Base.{
  Option, Result, err, length, ltb, none, ok, panic, refl, reject_if, some, stuck, too_short,
  too_small, ◌>>=◌, ◌∙◌, ◌≡◌,
}
use ike.Base.Bytes.{Bytes, index, slice, slice_from, slice_to, uint32, uint64}
use ike.Message.Header.{IkeHeader, parse_header}
use ike.Message.Codec
use ike.Security.IkeSa.{IkeSaKey}
use ike.EncryptedMessage.{Role, decode_decrypt, decode_with}

-- What holds of a value that a step's rest returns holds of it behind the step.
behind_step :
    {A : Type 0} {B : Type 0} (P : B → Type 0) (step : Result A) (f : A → Result B)
    → ((a : A) → step ≡ ok a → (b : B) → f a ≡ ok b → P b)
    → (b : B) → (step >>= f) ≡ ok b
    → P b
behind_step P (ok a) f k b e = k a refl b e
behind_step P (err why) f k b e = cc
behind_step P panic f k b e = cc
behind_step P stuck f k b e = cc

ok_rest : {x y : IkeHeader} → ok x ≡ ok y → ok x.payload_bytes ≡ ok y.payload_bytes
ok_rest e = cc

-- The bytes of the payloads are those behind the header.
parsed_rest :
    (b : Bytes) (h : IkeHeader) → parse_header b ≡ ok h → slice_from b 28 ≡ ok h.payload_bytes
unfolding parse_header
parsed_rest b =
    let P : IkeHeader → Type 0 = λ h. slice_from b 28 ≡ ok h.payload_bytes in
    behind_step P (reject_if (ltb (length b) 28) too_short) _ λ _ _.
      behind_step P (slice b 24 28) _ λ total _. behind_step P (uint32 total) _ λ n _.
        behind_step P (reject_if (ltb n 28) too_small) _ λ _ _.
          behind_step P (slice_to b 8) _ λ i _. behind_step P (uint64 i) _ λ _ _.
            behind_step P (slice b 8 16) _ λ r _. behind_step P (uint64 r) _ λ _ _.
              behind_step P (index b 16) _ λ _ _. behind_step P (index b 17) _ λ _ _.
                behind_step P (index b 18) _ λ _ _. behind_step P (index b 19) _ λ _ _.
                  behind_step P (slice b 20 24) _ λ id _.
                    behind_step P (uint32 id) _ λ _ _.
                      behind_step P (slice_from b 28) _ λ rest is_rest h e. is_rest ∙ ok_rest e

decode_with-header :
    (msg behind : Bytes) (h : IkeHeader)
    → parse_header msg ≡ ok h
    → decode_with msg behind (some h) ≡ decode_with msg behind none
unfolding decode_with Codec.decode
decode_with-header msg behind h e = rw e (rw (parsed_rest msg h e) refl)

-- A header that was parsed before and is handed over makes no difference.
pub header_first :
    (msg behind spare : Bytes) (h : IkeHeader) (k : Option IkeSaKey) (role : Role)
    → parse_header msg ≡ ok h
    → decode_decrypt msg behind spare (some h) k role ≡ decode_decrypt msg behind spare none k role
unfolding decode_decrypt
header_first msg behind spare h k role e = rw (decode_with-header msg behind h e) refl
