-- ===== src/Crypto/Password.antt =====
-- The salted password hashes of lib/cclcrypto.cc, over the digest and the random bytes of OpenSSL.
use cclib.Base.{
  ℕ, ◌≡◌, ◌<◌, arith, Bytes, Bool, true, false, length, take, drop, ◌++◌, ltb, if◌then◌else◌,
  take-length-append, drop-length-append, take_all, All, ◌↔◌, length-append, bytes_eq, bytes_eq_iff,
}
use cclib.Crypto.Errors.{Result, ok, err, out_of_range, ◌>>=◌}
use cclib.Crypto.Digest.{Evp, Live, digest, AllSucceed, digest-ok}
use cclib.Crypto.Base16.{base16_encode, base16_decode, decode-encode}

-- `s.compare(pos,n,t) == 0`; a start past the end is thrown at.
pub compare_part : Bytes → ℕ → ℕ → Bytes → Result Bool
compare_part s pos n t =
    if ltb (length s) pos then err out_of_range else ok (bytes_eq (take n (drop pos s)) t)

-- `rand_bytes n` is what `RAND_bytes` left in a buffer of `n` bytes; its answer is not read.
unfoldable pub random : (ℕ → Bytes) → ℕ → Bytes
random rand_bytes size = rand_bytes size

-- `size` is `EVP_MD_size(a_md)`.
module _ (evp : Evp) (size : ℕ) where
  unfoldable pub passwd_create : (ℕ → Bytes) → Bytes → Live → Result Bytes
  unfolding random
  passwd_create rand_bytes passwd l =
      let salt = random rand_bytes size in (digest evp (salt ++ passwd) l).0 >>= λ d. ok (salt ++ d)

  unfoldable pub passwd_verify : Bytes → Bytes → Live → Result Bool
  unfolding compare_part
  passwd_verify passwd hash l =
      let salt = take size hash in
      (digest evp (salt ++ passwd) l).0 >>= λ d. compare_part hash size size d

  unfoldable pub passwd_create_base16 : (ℕ → Bytes) → Bytes → Live → Result Bytes
  passwd_create_base16 rand_bytes passwd l =
      passwd_create rand_bytes passwd l >>= λ h. ok (base16_encode h)

  unfoldable pub passwd_verify_base16 : Bytes → Bytes → Live → Result Bool
  passwd_verify_base16 passwd hash l = base16_decode hash >>= λ h. passwd_verify passwd h l

-- OpenSSL succeeds, digests have `EVP_MD_size` bytes, and `RAND_bytes` fills the buffer.
pub record IsEvp (evp : Evp) (size : ℕ) (rand_bytes : ℕ → Bytes) : Type 0 where
  pub succeeds : AllSucceed evp
  pub length-hash : (s : Bytes) → length (evp.hash s) ≡ size
  pub length-rand_bytes : (n : ℕ) → length (rand_bytes n) ≡ n

module _ (evp : Evp) (size : ℕ) (rand_bytes : ℕ → Bytes) (works : IsEvp evp size rand_bytes) where
  open works use {succeeds, length-hash, length-rand_bytes}

  create_lem :
      (passwd : Bytes) (l : Live)
      → let salt = rand_bytes size in
        passwd_create evp size rand_bytes passwd l ≡ ok (salt ++ evp.hash (salt ++ passwd))
  unfolding passwd_create
  create_lem passwd l = rw (digest-ok evp _ l succeeds)

  verify_lem :
      (salt d other : Bytes) (l : Live)
      → length salt ≡ size
      → length d ≡ size
      → passwd_verify evp size other (salt ++ d) l ≡ ok (bytes_eq d (evp.hash (salt ++ other)))
  unfolding passwd_verify
  verify_lem salt d other l hs hd =
      let salt-part : take size (salt ++ d) ≡ salt = rw (← hs) (take-length-append salt d) in
      let digest-part : drop size (salt ++ d) ≡ d = rw (← hs) (drop-length-append salt d) in
      let whole : take size d ≡ d = take_all size d (omega arith) in
      let long : ltb (length (salt ++ d)) size ≡ false = ground (arith, length-append salt d) in
      rw salt-part (rw (digest-ok evp _ l succeeds) (rw (long, digest-part, whole)))

  -- Where OpenSSL's calls succeed, the digests have the size of the salt, and as many random bytes come
  -- as are asked for, the hash of a password is created, and verifying any password against it answers
  -- whether the digests of the two passwords under the stored salt are equal.
  pub verify-create :
      (passwd other : Bytes) (l : Live)
      → let salt = rand_bytes size in
        (h : Bytes) × (passwd_create evp size rand_bytes passwd l ≡ ok h)
        × (b : Bool) × (passwd_verify evp size other h l ≡ ok b)
        × ((b ≡ true) ↔ (evp.hash (salt ++ passwd) ≡ evp.hash (salt ++ other)))
  verify-create passwd other l =
      let salt = rand_bytes size in
      let d = evp.hash (salt ++ passwd) in
      (
        salt ++ d,
        create_lem passwd l,
        bytes_eq d (evp.hash (salt ++ other)),
        verify_lem salt d other l (length-rand_bytes size) (length-hash _),
        bytes_eq_iff _ _,
      )

  -- The same for the hashes in base 16, if the salt and the digests are bytes.
  pub verify-create_base16 :
      (passwd other : Bytes) (l : Live)
      → let salt = rand_bytes size in
        All (λ b. b < 256) (salt ++ evp.hash (salt ++ passwd))
        → (h : Bytes) × (passwd_create_base16 evp size rand_bytes passwd l ≡ ok h)
          × (b : Bool) × (passwd_verify_base16 evp size other h l ≡ ok b)
          × ((b ≡ true) ↔ (evp.hash (salt ++ passwd) ≡ evp.hash (salt ++ other)))
  unfolding passwd_create_base16 passwd_verify_base16
  verify-create_base16 passwd other l bytes =
      let salt = rand_bytes size in
      let d = evp.hash (salt ++ passwd) in
      (
        base16_encode (salt ++ d),
        rw (create_lem passwd l),
        bytes_eq d (evp.hash (salt ++ other)),
        rw (decode-encode (salt ++ d) bytes)
            (verify_lem salt d other l (length-rand_bytes size) (length-hash _)),
        bytes_eq_iff _ _,
      )

-- A stored hash that is shorter than a salt makes `passwd_verify` throw `std::out_of_range`, once
-- the digest was computed.
pub verify_short :
    (evp : Evp) (size : ℕ) (passwd hash : Bytes) (l : Live)
    → AllSucceed evp
    → length hash < size
    → passwd_verify evp size passwd hash l ≡ err out_of_range
unfolding passwd_verify
verify_short evp size passwd hash l works short = rw (digest-ok evp _ l works) (ground arith)
