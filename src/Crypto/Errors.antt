-- ===== src/Crypto/Errors.antt =====
-- What the functions of lib/cclcrypto.cc throw: the messages of lib/cclcrypto.h, and the
-- `std::out_of_range` of `std::string::compare`.
pub data Error : Type 0 where
  message_digest_error invalid_base16_data_size invalid_base16_data : Error
  invalid_base64_data out_of_range : Error

pub data Result {ℓ} (A : Type ℓ) : Type ℓ where
  ok : A → Result A
  err : Error → Result A

-- What is thrown passes over the rest.
infixl 5 ◌>>=◌
abbrev pub ◌>>=◌ {ℓ κ} : {A : Type ℓ} {B : Type κ} → Result A → (A → Result B) → Result B
called >>= rest = elim called [ err thrown ↦ err thrown | ok value ↦ rest value ]
