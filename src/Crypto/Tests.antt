-- ===== src/Crypto/Tests.antt =====
-- Runs of lib/cclcrypto.cc's functions, and its theorems at concrete data.
use cclib.Base.{
  zero, suc, ap, Bool, ℕ, ◌%◌, ◌<◌, ◌≡◌, ◌↔◌, refl, arith, Bool, true, false, [], ◌∷◌, ◌++◌, Bytes,
  codes, length, All, map, some, suc,
}
use cclib.Crypto.Errors.{ok, err, invalid_base64_data}
use cclib.Crypto.Base16.{
  base16_encode, base16_decode, decode-encode, encode-decode, decode_total, IsHexDigit, to_lower,
}
use cclib.Crypto.Digest.{Evp, Live, AllSucceed, digest, digest-Live}
use cclib.Crypto.Password.{passwd_create, passwd_verify, IsEvp, verify-create}
use cclib.Crypto.Base64.{IsEncodeBlock, base64_encode, base64_decode, base64_encode_fits}

abbrev some_bytes : Bytes
some_bytes = 0 ∷ 0xff ∷ 0x1a ∷ []

encode_some : base16_encode some_bytes ≡ codes "00ff1a"
unfolding base16_encode
encode_some = refl

decode_upper : base16_decode (codes "00FF1a") ≡ ok some_bytes
unfolding base16_decode
decode_upper = refl

decode-encode_example : base16_decode (base16_encode some_bytes) ≡ ok some_bytes
decode-encode_example = decode-encode some_bytes (omega arith)

encode-decode_example :
    (base16_encode some_bytes ≡ map to_lower (codes "00FF1a"))
    × All IsHexDigit (codes "00FF1a")
    × All (λ b. b < 256) some_bytes
    × (length (codes "00FF1a") % 2 ≡ 0)
encode-decode_example = encode-decode (codes "00FF1a") some_bytes decode_upper

decode_total_example : (s : Bytes) × (base16_decode (codes "aF") ≡ ok s)
decode_total_example = decode_total (codes "aF") refl (omega arith)

-- A digest of two bytes: the length of the data, and a constant.
abbrev short_hash : Bytes → Bytes
short_hash s = (length s % 256) ∷ 7 ∷ []

abbrev working : Evp
working = record {
  md_ctx_create = true;
  digest_init = true;
  digest_update = true;
  malloc = true;
  digest_final = true;
  hash = short_hash;
}

abbrev failing : Evp
failing = record working { digest_final = false }

abbrev nothing_live : Live
nothing_live = record { contexts = 0; buffers = 0 }

digest-Live_example : (digest failing some_bytes nothing_live).1 ≡ nothing_live
digest-Live_example = digest-Live failing some_bytes nothing_live

working-AllSucceed : AllSucceed working
working-AllSucceed = record {
  created = refl;
  inited = refl;
  updated = refl;
  allocated = refl;
  finished = refl;
}

abbrev zeros : ℕ → Bytes
zeros zero = []
zeros (suc n) = 0 ∷ zeros n

length-zeros_bytes : (n : ℕ) → length (zeros n) ≡ n
length-zeros_bytes zero = refl
length-zeros_bytes (suc n) = ap suc (length-zeros_bytes n)

working-IsEvp : IsEvp working 2 zeros
working-IsEvp = record {
  succeeds = working-AllSucceed;
  length-hash = λ s. refl;
  length-rand_bytes = length-zeros_bytes;
}

verify-create_example :
    (h : Bytes) × (passwd_create working 2 zeros (codes "heslo") nothing_live ≡ ok h)
    × (b : Bool) × (passwd_verify working 2 (codes "hesla") h nothing_live ≡ ok b)
    × ((b ≡ true) ↔ (short_hash (zeros 2 ++ codes "heslo") ≡ short_hash (zeros 2 ++ codes "hesla")))
verify-create_example =
    verify-create working 2 zeros working-IsEvp (codes "heslo") (codes "hesla") nothing_live

-- Block functions with the sizes of base 64: a group of three is written as it is, with a zero
-- behind it.
encode_groups : Bytes → Bytes
encode_groups [] = []
encode_groups (a ∷ []) = a ∷ 0 ∷ 0 ∷ 0 ∷ []
encode_groups (a ∷ b ∷ []) = a ∷ b ∷ 0 ∷ 0 ∷ []
encode_groups (a ∷ b ∷ c ∷ s) = a ∷ b ∷ c ∷ 0 ∷ encode_groups s

decode_groups : Bytes → Bytes × Bool
decode_groups [] = ([], true)
decode_groups (a ∷ b ∷ c ∷ d ∷ s) = let (t, valid) = decode_groups s in (a ∷ b ∷ c ∷ t, valid)
decode_groups s = ([], false)

encode_groups-IsEncodeBlock : IsEncodeBlock encode_groups
unfolding encode_groups
encode_groups-IsEncodeBlock [] = refl
encode_groups-IsEncodeBlock (a ∷ []) = refl
encode_groups-IsEncodeBlock (a ∷ b ∷ []) = refl
encode_groups-IsEncodeBlock (a ∷ b ∷ c ∷ s) = omega (arith, encode_groups-IsEncodeBlock s)

base64_encode_fits_example :
    base64_encode encode_groups some_bytes ≡ some (encode_groups some_bytes)
base64_encode_fits_example = base64_encode_fits encode_groups some_bytes encode_groups-IsEncodeBlock

-- The zero byte for the padding stays in the result.
decode-encode_padded :
    base64_decode decode_groups (encode_groups (codes "ab")) ≡ some (ok (codes "ab" ++ 0 ∷ []))
unfolding base64_decode decode_groups encode_groups
decode-encode_padded = refl

-- What was written before the answer -1 is in the buffer, and is not returned.
decode-refused : base64_decode decode_groups (codes "abcde") ≡ some (err invalid_base64_data)
unfolding base64_decode decode_groups
decode-refused = refl
