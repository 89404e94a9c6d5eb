-- ===== src/Webs/Protocol.antt =====
-- `context_c::protocol_func` of lib/cclwebs.cc: what it does for an event of one socket.
use cclib.Base.{
  ℕ, zero, suc, Bool, true, false, ◌&&◌, Option, none, some, List, [], ◌∷◌, ◌++◌, Bytes, bytes_eq,
  get_elem?,
}

-- The reasons that the function handles, and the others.
pub data Reason : Type 0 where
  established client_established closed receive client_receive client_receive_pong : Reason
  client_writeable server_writeable other_reason : Reason

-- What libwebsockets calls the function with, and answers to it: the name of the socket's protocol,
-- and the remaining payload of the packet.
pub record Event : Type 0 where
  pub reason : Reason
  pub name : Bytes
  pub remaining : ℕ
  pub input : Bytes

-- `find(…) - begin()`.
unfoldable pub name_idx : List Bytes → Bytes → Option ℕ
name_idx [] name = none
name_idx (n ∷ names) name = elim (bytes_eq n name) [
  | true ↦ some zero
  | false ↦ elim (name_idx names name) [ none ↦ none | some i ↦ some (suc i) ]
]

abbrev pub is_handled : Reason → Bool
is_handled other_reason = false
is_handled _ = true

abbrev pub is_established : Reason → Bool
is_established established = true
is_established client_established = true
is_established _ = false

abbrev pub is_zero : ℕ → Bool
is_zero zero = true
is_zero (suc n) = false

-- `User` is what the callback of a protocol keeps in the connection, and `Exc` what it may throw.
module _ (User Exc : Type 0) where
  -- `data_in` is the text that `received_data` gives.
  pub record Connection : Type 0 where
    pub prot_idx : ℕ
    pub user_data : User
    pub reason : Reason
    pub data_buffer : Bytes
    pub data_in : Bytes

  -- How a callback ends: it may have changed its data.
  pub data Answer : Type 0 where
    returned : User → Answer
    raised : Exc → Answer

  -- `connected` are the `client_c` objects whose `m_connected` was set, by their numbers.
  pub record Context : Type 0 where
    pub exc_ptr : Option Exc
    pub connected : List ℕ
    pub prot_names : List Bytes
    pub prot_cbs : List (Connection → Answer)

  -- What the data of the socket points to: a connection, or the client that waits for one. `released` is
  -- a dangling pointer.
  pub data Slot : Type 0 where
    unset released : Slot
    client : ℕ → Slot
    live : Connection → Slot

  -- What the function returns, leaves, and has called back with; `fault` is a failed assertion or a
  -- pointer that no connection is behind.
  pub data Served : Type 0 where
    served : ℕ → Context → Slot → List Connection → Served
    fault : Served

module _ {User Exc : Type 0} where
  -- A message that is not complete, or continues what is buffered, is buffered.
  abbrev pub buffer_input : Connection User Exc → Event → Connection User Exc
  buffer_input c e = elim (is_zero e.remaining && bytes_eq c.data_buffer []) [
    | true ↦ c
    | false ↦ record c { data_buffer = c.data_buffer ++ e.input }
  ]

  -- The input for the callback.
  abbrev pub set_input : Connection User Exc → Event → Connection User Exc
  set_input c e = elim c.data_buffer [
    | [] ↦ record c { reason = e.reason; data_in = e.input }
    | b ∷ s ↦ record c { reason = e.reason; data_in = c.data_buffer; data_buffer = [] }
  ]

  -- A closed connection is released.
  abbrev pub finish :
      Context User Exc → Connection User Exc → Reason → List (Connection User Exc) → Served User Exc
  finish ctx c closed calls = served 0 ctx (released) calls
  finish ctx c _ calls = served 0 ctx (live c) calls

  abbrev pub call_back : Context User Exc → Connection User Exc → Reason → Served User Exc
  call_back ctx c r = elim (get_elem? ctx.prot_cbs c.prot_idx) [
    | none ↦ fault
    | some callback ↦ elim (callback c) [
      | raised x ↦ served 1 (record ctx { exc_ptr = some x }) (released) (c ∷ [])
      | returned u ↦ finish ctx (record c { user_data = u }) r (c ∷ [])
    ]
  ]

  unfoldable pub deliver : Context User Exc → Connection User Exc → Event → Served User Exc
  deliver ctx c e =
      let d = buffer_input c e in
      elim (is_zero e.remaining) [
        | true ↦ call_back ctx (set_input d e) e.reason
        | false ↦ finish ctx d e.reason []
      ]

  module _ (null : User) where
    abbrev pub fresh_connection : ℕ → Reason → Connection User Exc
    fresh_connection i r = record {
      prot_idx = i;
      user_data = null;
      reason = r;
      data_buffer = [];
      data_in = [];
    }

    -- The pointer to the client is read, and its flag is set, where the socket is a client's.
    abbrev pub connect_client :
        Reason → Context User Exc → Slot User Exc → Option (Context User Exc)
    connect_client client_established ctx (client k) =
        some (record ctx { connected = k ∷ ctx.connected })
    connect_client client_established ctx slot = none
    connect_client _ ctx slot = some ctx

    -- The connection that a new socket gets; `none` is a failed assertion, or a pointer that no client
    -- is behind.
    unfoldable pub establish :
        Context User Exc → Event → Slot User Exc → Option (Context User Exc × Slot User Exc)
    unfolding name_idx
    establish ctx e slot = elim (is_established e.reason) [
      | false ↦ some (ctx, slot)
      | true ↦ elim (name_idx ctx.prot_names e.name) [
        | none ↦ none
        | some i ↦ elim (connect_client e.reason ctx slot) [
          | none ↦ none
          | some ctx' ↦ some (ctx', live (fresh_connection i e.reason))
        ]
      ]
    ]

    -- The function for a reason that it handles, with no exception pending.
    unfoldable pub serve : Context User Exc → Slot User Exc → Event → Served User Exc
    unfolding deliver establish
    serve ctx slot e = elim (establish ctx e slot) [
      | some (ctx', live c) ↦ deliver ctx' c e
      | _ ↦ fault
    ]

    unfoldable pub protocol_func : Context User Exc → Slot User Exc → Event → Served User Exc
    unfolding serve
    protocol_func ctx slot e = elim (is_handled e.reason) [
      | false ↦ served 0 ctx slot []
      | true ↦ elim ctx.exc_ptr [ some x ↦ served 0 ctx slot [] | none ↦ serve ctx slot e ]
    ]

  -- `process`, before the service: no exception is pending.
  abbrev pub reset_exception : Context User Exc → Context User Exc
  reset_exception ctx = record ctx { exc_ptr = none }
