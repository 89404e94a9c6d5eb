-- ===== src/Crypto/Base64.antt =====
-- The base 64 routines of lib/cclcrypto.cc: buffers handed to OpenSSL's block functions.
use cclib.Base.{
  Bool, ℕ, ◌+◌, ◌*◌, ◌/◌, ◌≡◌, arith, Option, Bytes, if◌then◌else◌, length, some, leb, none,
}
use cclib.Crypto.Errors.{Result, ok, err, invalid_base64_data}

-- What a call writes into a buffer of `cap` bytes; `none` is a write past its end.
abbrev fill : ℕ → ℕ → Option (Unit {0})
fill cap n = if leb n cap then some tt else none

-- `block s` is the text that `EVP_EncodeBlock` writes, followed by a NUL, and whose length it
-- returns.
unfoldable pub base64_encode : (Bytes → Bytes) → Bytes → Option Bytes
base64_encode block s = elim (fill ((length s / 3 + 1) * 4 + 1) (length (block s) + 1)) [
  | none ↦ none
  | some _ ↦ some (block s)
]

-- `block s` is what `EVP_DecodeBlock` writes, and whether it returns the number of those bytes, or -1.
unfoldable pub base64_decode : (Bytes → Bytes × Bool) → Bytes → Option (Result Bytes)
base64_decode block s =
    let (t, valid) = block s in
    elim (fill (length s / 4 * 3 + 1) (length t)) [
      | none ↦ none
      | some _ ↦ some (if valid then ok t else err invalid_base64_data)
    ]

-- What OpenSSL documents of `EVP_EncodeBlock`: four characters to each three bytes begun.
abbrev pub IsEncodeBlock : (Bytes → Bytes) → Type 0
IsEncodeBlock block = (s : Bytes) → length (block s) ≡ (length s + 2) / 3 * 4

-- With four characters to each three bytes begun, the buffer of `base64_encode` holds the text and its
-- NUL, for every input, and the result is the text.
pub base64_encode_fits :
    (block : Bytes → Bytes) (s : Bytes)
    → IsEncodeBlock block
    → base64_encode block s ≡ some (block s)
unfolding base64_encode
base64_encode_fits block s h = ground (arith, h s)
