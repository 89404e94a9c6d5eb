-- ===== src/Crypto/Digest.antt =====
-- `digest` of lib/cclcrypto.cc, with the OpenSSL objects that it creates and frees.
use cclib.Base.{ℕ, ◌+◌, ◌-◌, ◌≡◌, arith, Bytes, Bool, true, false, ◌⊎◌}
use cclib.Crypto.Errors.{Result, ok, err, message_digest_error}

-- What OpenSSL answers to the calls for one digest; `hash` is what `EVP_DigestFinal_ex` writes.
pub record Evp : Type 0 where
  pub md_ctx_create : Bool
  pub digest_init : Bool
  pub digest_update : Bool
  pub malloc : Bool
  pub digest_final : Bool
  pub hash : Bytes → Bytes

-- The live `EVP_MD_CTX` objects and OpenSSL buffers.
pub record Live : Type 0 where
  pub contexts : ℕ
  pub buffers : ℕ

abbrev create_ctx : Live → Live
create_ctx l = record l { contexts = l.contexts + 1 }

abbrev destroy_ctx : Live → Live
destroy_ctx l = record l { contexts = l.contexts - 1 }

abbrev alloc_buffer : Live → Live
alloc_buffer l = record l { buffers = l.buffers + 1 }

abbrev free_buffer : Live → Live
free_buffer l = record l { buffers = l.buffers - 1 }

abbrev throw_digest_error : Live → Result Bytes × Live
throw_digest_error l = (err message_digest_error, l)

digest_final : Evp → Bytes → Live → Result Bytes × Live
digest_final evp s l = elim evp.digest_final [
  | false ↦ throw_digest_error (destroy_ctx (free_buffer l))
  | true ↦ (ok (evp.hash s), destroy_ctx (free_buffer l))
]

digest_update : Evp → Bytes → Live → Result Bytes × Live
unfolding digest_final
digest_update evp s l = elim evp.digest_update [
  | false ↦ throw_digest_error (destroy_ctx l)
  | true ↦ elim evp.malloc [
    | false ↦ throw_digest_error (destroy_ctx l)
    | true ↦ digest_final evp s (alloc_buffer l)
  ]
]

unfoldable pub digest : Evp → Bytes → Live → Result Bytes × Live
unfolding digest_update
digest evp s l = elim evp.md_ctx_create [
  | false ↦ throw_digest_error l
  | true ↦ elim evp.digest_init [
    | false ↦ throw_digest_error (destroy_ctx (create_ctx l))
    | true ↦ digest_update evp s (create_ctx l)
  ]
]

-- Each call of OpenSSL that can fail answers with success.
pub record AllSucceed (evp : Evp) : Type 0 where
  pub created : evp.md_ctx_create ≡ true
  pub inited : evp.digest_init ≡ true
  pub updated : evp.digest_update ≡ true
  pub allocated : evp.malloc ≡ true
  pub finished : evp.digest_final ≡ true

-- Whatever OpenSSL answers, `digest` frees what it created, on every path out of it, the thrown
-- errors included.
pub digest-Live : (evp : Evp) (s : Bytes) (l : Live) → (digest evp s l).1 ≡ l
unfolding digest
digest-Live evp s l = ground arith

-- `digest` returns OpenSSL's hash if every call succeeds.
pub digest-ok :
    (evp : Evp) (s : Bytes) (l : Live) → AllSucceed evp → (digest evp s l).0 ≡ ok (evp.hash s)
unfolding digest
digest-ok evp s l a = ground arith

-- `digest` returns a value only if every call succeeds, and throws the digest error otherwise.
pub digest_cases :
    (evp : Evp) (s : Bytes) (l : Live)
    → (AllSucceed evp × ((digest evp s l).0 ≡ ok (evp.hash s)))
      ⊎ ((¬ AllSucceed evp) × ((digest evp s l).0 ≡ err message_digest_error))
unfolding digest
digest_cases evp s l = ground arith
