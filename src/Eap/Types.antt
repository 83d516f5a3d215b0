-- ===== src/Eap/Types.antt =====
-- eap/eap.go: the numbers of the EAP types and codes.
use ike.Base.{ℕ}

abbrev pub eap_type_identity : ℕ
eap_type_identity = 1

abbrev pub eap_type_notification : ℕ
eap_type_notification = 2

abbrev pub eap_type_nak : ℕ
eap_type_nak = 3

abbrev pub eap_type_md5 : ℕ
eap_type_md5 = 4

abbrev pub eap_type_aka_prime : ℕ
eap_type_aka_prime = 50

abbrev pub eap_type_expanded : ℕ
eap_type_expanded = 254

abbrev pub eap_code_request : ℕ
eap_code_request = 1

abbrev pub eap_code_response : ℕ
eap_code_response = 2

abbrev pub eap_code_success : ℕ
eap_code_success = 3

abbrev pub eap_code_failure : ℕ
eap_code_failure = 4
