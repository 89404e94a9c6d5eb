-- ===== src/Webs/Context.antt =====
-- The set of descriptors and the protocols of `context_c` in lib/cclwebs.cc.
use cclib.Base.{ℕ, Option, none, some, List, ◌++◌, Bytes, length, ltb, true, false, ◌+◌}
use cclib.Sys.Poll.{PollFd, set_insert, set_update, set_erase}
use cclib.Webs.Protocol.{Context, name_idx}

pub data FdReason : Type 0 where
  add_poll_fd del_poll_fd change_mode_poll_fd other_reason : FdReason

abbrev pub erased : List PollFd → Option (List PollFd) → List PollFd
erased s none = s
erased s (some t) = t

-- The set behind a call of `http_func`; `none` is a failed assertion.
unfoldable pub http_func : FdReason → PollFd → List PollFd → Option (List PollFd)
unfolding set_insert set_update set_erase
http_func add_poll_fd pfd pfd_set = some (set_insert pfd pfd_set)
http_func del_poll_fd pfd pfd_set = some (erased pfd_set (set_erase pfd.fd pfd_set))
http_func change_mode_poll_fd pfd pfd_set = set_update pfd.fd pfd.events pfd_set
http_func other_reason pfd pfd_set = some pfd_set

abbrev pub context_poll_fds : List PollFd → List PollFd → List PollFd
context_poll_fds pfd_set poll_fds = pfd_set ++ poll_fds

-- error_WS_CONTEXT_PROTOCOL_NAME_NOT_FOUND, error_WS_CONTEXT_PROTOCOL_INDEX_EXCEEDS_RANGE.
pub data Error : Type 0 where
  name_not_found index_exceeds_range : Error

pub data Result {ℓ} (A : Type ℓ) : Type ℓ where
  ok : A → Result A
  err : Error → Result A

module _ {User Exc : Type 0} where
  unfoldable pub protocol_idx : Context User Exc → Bytes → Result ℕ
  unfolding name_idx
  protocol_idx ctx name = elim (name_idx ctx.prot_names name) [
    | none ↦ err name_not_found
    | some i ↦ ok i
  ]

  -- The protocol of libwebsockets that the call is for; the first one is not of the library's users.
  unfoldable pub callback_on_writable : Context User Exc → ℕ → Result ℕ
  callback_on_writable ctx i = elim (ltb i (length ctx.prot_names)) [
    | true ↦ ok (1 + i)
    | false ↦ err index_exceeds_range
  ]
