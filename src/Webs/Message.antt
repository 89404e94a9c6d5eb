-- ===== src/Webs/Message.antt =====
-- What `context_c::protocol_func` of lib/cclwebs.cc makes of the events of one socket, in their order.
use cclib.Base.{
  Bool-cases, inl, inr, ℕ, suc, ◌≡◌, refl, ap, ◌∙◌, some, List, [], ◌∷◌, ◌++◌, append_assoc, Bytes,
  get_elem?,
}
use cclib.Webs.Protocol.{
  receive, Event, Connection, Answer, returned, raised, Context, Slot, unset, released, live,
  Served, served, fault, finish, call_back, deliver, establish, serve, protocol_func,
  reset_exception, is_handled,
}

-- A received part of a message, with the bytes that are to follow.
abbrev pub received : Bytes → ℕ → Bytes → Event
received name remaining s = record {
  reason = receive;
  name = name;
  remaining = remaining;
  input = s;
}

-- Parts that more is to follow, and then the last one.
abbrev pub message : Bytes → List (ℕ × Bytes) → Bytes → List Event
message name [] s = received name 0 s ∷ []
message name ((n, p) ∷ ps) s = received name (suc n) p ∷ message name ps s

abbrev pub payload : List (ℕ × Bytes) → Bytes → Bytes
payload [] s = s
payload ((n, p) ∷ ps) s = p ++ payload ps s

module _ {User Exc : Type 0} (null : User) where
  abbrev pub and_serve :
      (Context User Exc → Slot User Exc → Served User Exc) → Served User Exc → Served User Exc
  and_serve next fault = fault
  and_serve next (served n ctx slot calls) = elim (next ctx slot) [
    | fault ↦ fault
    | served m ctx' slot' more ↦ served m ctx' slot' (calls ++ more)
  ]

  -- The events one after another, within one service.
  unfoldable pub serve_all : Context User Exc → Slot User Exc → List Event → Served User Exc
  unfolding protocol_func
  serve_all ctx slot [] = served 0 ctx slot []
  serve_all ctx slot (e ∷ es) =
      and_serve (λ ctx' slot'. serve_all ctx' slot' es) (protocol_func null ctx slot e)

  -- The connection that a callback gets for the data.
  abbrev pub with_data : Connection User Exc → Bytes → Connection User Exc
  with_data c s = record c { reason = receive; data_in = s; data_buffer = [] }

  -- What is left behind a callback, by its answer.
  abbrev pub settled : Context User Exc → Connection User Exc → Answer User Exc → Served User Exc
  settled ctx c (returned u) =
      served 0 (reset_exception ctx) (live (record c { user_data = u })) (c ∷ [])
  settled ctx c (raised x) = served 0 (record ctx { exc_ptr = some x }) (released) (c ∷ [])

  protocol_func-last :
      (ctx : Context User Exc) (c : Connection User Exc) (name b s : Bytes)
      → protocol_func null
          (reset_exception ctx)
          (live (record c { data_buffer = b }))
          (received name 0 s)
        ≡ call_back (reset_exception ctx) (with_data c (b ++ s)) receive
  unfolding protocol_func serve establish deliver
  protocol_func-last ctx c name [] s = refl
  protocol_func-last ctx c name (x ∷ b) s = refl

  call_back-settled :
      (ctx : Context User Exc) (c : Connection User Exc) (a : Answer User Exc)
      → and_serve
          (λ ctx' slot. serve_all ctx' slot [])
          (elim a [
            | raised x ↦ served 1 (record ctx { exc_ptr = some x }) (released) (c ∷ [])
            | returned u ↦
                finish (reset_exception ctx) (record c { user_data = u }) receive (c ∷ [])
          ])
        ≡ settled ctx c a
  unfolding serve_all
  call_back-settled ctx c (raised x) = refl
  call_back-settled ctx c (returned u) = refl

  and_serve-settled :
      (ctx : Context User Exc) (c : Connection User Exc) (a : Answer User Exc)
      (ctx' : Context User Exc) (slot : Slot User Exc)
      → and_serve (λ ctx'' slot'. settled ctx c a) (served 0 ctx' slot []) ≡ settled ctx c a
  and_serve-settled ctx c (raised x) ctx' slot = refl
  and_serve-settled ctx c (returned u) ctx' slot = refl

  -- With no exception pending, a message that arrives in any number of parts, behind what is buffered,
  -- calls the callback of its protocol once, with all the bytes in their order and an empty buffer; the
  -- connection stays, with what the callback keeps, or is released where the callback throws, and then
  -- the exception is pending.
  pub serve_all-message :
      (ctx : Context User Exc) (c : Connection User Exc) (name b : Bytes) (ps : List (ℕ × Bytes))
      (s : Bytes) (callback : Connection User Exc → Answer User Exc)
      → get_elem? ctx.prot_cbs c.prot_idx ≡ some callback
      → serve_all (reset_exception ctx) (live (record c { data_buffer = b })) (message name ps s)
        ≡ settled ctx (with_data c (b ++ payload ps s)) (callback (with_data c (b ++ payload ps s)))
  unfolding serve_all protocol_func serve establish deliver
  serve_all-message ctx c name b [] s callback h =
      rw (protocol_func-last ctx c name b s, h, call_back)
        (call_back-settled ctx (with_data c (b ++ s)) (callback (with_data c (b ++ s))))
  serve_all-message ctx c name b ((n, p) ∷ ps) s callback h =
      let same : (b ++ p) ++ payload ps s ≡ b ++ (p ++ payload ps s) = simp append_assoc in
      let d = with_data c ((b ++ p) ++ payload ps s) in
      ap (λ o. and_serve (λ ctx' slot. o) (served 0 ctx unset []))
        (serve_all-message ctx c name (b ++ p) ps s callback h)
      ∙ and_serve-settled ctx d (callback d) ctx (unset)
      ∙ ap (λ w. settled ctx (with_data c w) (callback (with_data c w))) same

  protocol_func-pending :
      (ctx : Context User Exc) (x : Exc) (slot : Slot User Exc) (e : Event)
      → protocol_func null (record ctx { exc_ptr = some x }) slot e
        ≡ served 0 (record ctx { exc_ptr = some x }) slot []
  unfolding protocol_func
  protocol_func-pending ctx x slot e = elim (Bool-cases (is_handled e.reason)) [
    | inl h ↦ rw (h, protocol_func)
    | inr h ↦ rw (h, protocol_func)
  ]

  -- While an exception is pending, no event changes a connection or calls back.
  pub serve_all-pending :
      (ctx : Context User Exc) (x : Exc) (slot : Slot User Exc) (es : List Event)
      → serve_all (record ctx { exc_ptr = some x }) slot es
        ≡ served 0 (record ctx { exc_ptr = some x }) slot []
  unfolding serve_all protocol_func
  serve_all-pending ctx x slot [] = refl
  serve_all-pending ctx x slot (e ∷ es) =
      rw (protocol_func-pending ctx x slot e, serve_all-pending ctx x slot es)
