-- ===== src/Webs/Survives.antt =====
-- What is left of a socket by an event of lib/cclwebs.cc, where its events come in their order.
use cclib.Base.{
  zero, suc, length, Option-cases, arith, ap, ◌∙◌, ◌&&◌, bytes_eq, ℕ, ◌≡◌, refl, false, some, List,
  [], ◌∷◌, Bytes, get_elem?, Bool-cases, inl, inr, ◌≢◌, ◌++◌,
}
use cclib.Webs.Protocol.{
  client, established, client_established, Reason, closed, other_reason, Event, Connection, Answer,
  returned, raised, name_idx, is_zero, is_established, Context, Slot, released, live, Served,
  served, buffer_input, set_input, finish, call_back, deliver, reset_exception, is_handled, fault,
}

-- Where a socket is between two events: not established, with the pointer to its client and not
-- established, or established.
pub data Stage : Type 0 where
  waiting dialing opened : Stage

abbrev pub stage_after : Reason → Stage
stage_after closed = waiting
stage_after _ = opened

-- A socket is established, by a protocol of the context, before it is used, and not used behind its
-- close. One that has the pointer to its client is established as a client's, any other is not.
abbrev pub IsOrdered : List Bytes → Stage → List Event → Type 0
IsOrdered names stage [] = Unit
IsOrdered names waiting (e ∷ es) =
    (e.reason ≡ established)
    × ((i : ℕ) × (name_idx names e.name ≡ some i))
    × IsOrdered names opened es
IsOrdered names dialing (e ∷ es) =
    (e.reason ≡ client_established)
    × ((i : ℕ) × (name_idx names e.name ≡ some i))
    × IsOrdered names opened es
IsOrdered names opened (e ∷ es) =
    (is_established e.reason ≡ false) × IsOrdered names (stage_after e.reason) es

pub is_handled-stage_after : (r : Reason) → is_handled r ≡ false → stage_after r ≡ opened
is_handled-stage_after other_reason h = refl
is_handled-stage_after r h = absurd (cc)

-- As many callbacks as names: each name that is found has one.
pub get_elem?-name_idx {ℓ} :
    {A : Type ℓ} (names : List Bytes) (xs : List A) (name : Bytes) (i : ℕ)
    → length names ≡ length xs
    → name_idx names name ≡ some i
    → (x : A) × (get_elem? xs i ≡ some x)
unfolding name_idx
get_elem?-name_idx [] xs name i e h = absurd (cc)
get_elem?-name_idx (n ∷ names) [] name i e h = absurd (omega (arith, e))
get_elem?-name_idx (n ∷ names) (x ∷ xs) name zero e h = (x, refl)
get_elem?-name_idx (n ∷ names) (x ∷ xs) name (suc i) e h = elim (Bool-cases (bytes_eq n name)) [
  | inl t ↦ absurd (cc (rw (t, name_idx) at h))
  | inr t ↦ elim (Option-cases (name_idx names name)) [
    | inl u ↦ absurd (cc (rw (t, u, name_idx) at h))
    | inr (j, u) ↦
        let f : some (suc j) ≡ some (suc i) = rw (t, u, name_idx) at h in
        get_elem?-name_idx names xs name i (omega (arith, e)) (cc)
  ]
]

module _ {User Exc : Type 0} where
  -- There is a callback for each name.
  abbrev pub HasCallbacks : Context User Exc → Type 0
  HasCallbacks ctx =
      (name : Bytes) (i : ℕ)
      → name_idx ctx.prot_names name ≡ some i
      → (callback : Connection User Exc → Answer User Exc) × (get_elem? ctx.prot_cbs i
          ≡ some callback)

  -- An established socket has a connection, whose protocol has a callback, and one that a client
  -- waits for has the pointer to it.
  abbrev pub Fits : Context User Exc → Stage → Slot User Exc → Type 0
  Fits ctx waiting slot = Unit
  Fits ctx dialing (client k) = Unit
  Fits ctx dialing slot = ⊥
  Fits ctx opened (live c) =
      (callback : Connection User Exc → Answer User Exc) × (get_elem? ctx.prot_cbs c.prot_idx
        ≡ some callback)
  Fits ctx opened slot = ⊥

  abbrev pub with_connected : Context User Exc → List ℕ → Context User Exc
  with_connected ctx ks = record ctx { connected = ks }

  -- No fault, and a slot that fits or an exception that is pending.
  pub data Survives (ctx : Context User Exc) (stage : Stage) : Served User Exc → Type 0 where
    goes_on :
        {n : ℕ} {ks : List ℕ} {slot : Slot User Exc} {calls : List (Connection User Exc)}
        → Fits ctx stage slot
        → Survives ctx stage (served n (reset_exception (with_connected ctx ks)) slot calls)
    stops :
        {n : ℕ} {ks : List ℕ} {x : Exc} {slot : Slot User Exc} {calls : List (Connection User Exc)}
        → Survives ctx stage
            (served n (record (with_connected ctx ks) { exc_ptr = some x }) slot calls)

  pub Survives-connected :
      (ctx : Context User Exc) (ks : List ℕ) (stage : Stage) (o : Served User Exc)
      → Survives (with_connected ctx ks) stage o
      → Survives ctx stage o
  Survives-connected ctx ks stage _ (goes_on {ks = ls} h) = goes_on h
  Survives-connected ctx ks stage _ (stops {ks = ls}) = stops

  finish-Survives :
      (ctx : Context User Exc) (c : Connection User Exc) (r : Reason)
      (calls : List (Connection User Exc))
      → Fits ctx opened (live c)
      → Survives ctx (stage_after r) (finish (reset_exception ctx) c r calls)
  finish-Survives ctx c closed calls h = goes_on {ks = ctx.connected} tt
  finish-Survives ctx c r calls h = goes_on {ks = ctx.connected} h

  call_back-Survives :
      (ctx : Context User Exc) (c : Connection User Exc) (r : Reason)
      → Fits ctx opened (live c)
      → Survives ctx (stage_after r) (call_back (reset_exception ctx) c r)
  call_back-Survives ctx c r (callback, h) = rw (h, call_back) (answer (callback c))
    where
      answer :
          (a : Answer User Exc)
          → Survives ctx (stage_after r) (elim a [
            | raised x ↦ served 1 (record ctx { exc_ptr = some x }) (released) (c ∷ [])
            | returned u ↦ finish (reset_exception ctx) (record c { user_data = u }) r (c ∷ [])
          ])
      answer (raised x) = stops {ks = ctx.connected}
      answer (returned u) =
          finish-Survives ctx (record c { user_data = u }) r (c ∷ []) (callback, h)

  prot_idx-buffer_input :
      (c : Connection User Exc) (e : Event) → (buffer_input c e).prot_idx ≡ c.prot_idx
  prot_idx-buffer_input c e = elim (Bool-cases (is_zero e.remaining && bytes_eq c.data_buffer [])) [
    | inl h ↦ rw (h, buffer_input)
    | inr h ↦ rw (h, buffer_input)
  ]

  prot_idx-set_input :
      (c : Connection User Exc) (e : Event) (b : Bytes)
      → c.data_buffer ≡ b
      → (set_input c e).prot_idx ≡ c.prot_idx
  prot_idx-set_input c e [] h = rw (h, set_input)
  prot_idx-set_input c e (x ∷ b) h = rw (h, set_input)

  pub deliver-Survives :
      (ctx : Context User Exc) (c : Connection User Exc) (e : Event)
      → Fits ctx opened (live c)
      → Survives ctx (stage_after e.reason) (deliver (reset_exception ctx) c e)
  unfolding deliver
  deliver-Survives ctx c e (callback, h) =
      let d = buffer_input c e in
      let hd : get_elem? ctx.prot_cbs d.prot_idx ≡ some callback =
        ap (get_elem? ctx.prot_cbs) (prot_idx-buffer_input c e) ∙ h in
      let hs : get_elem? ctx.prot_cbs (set_input d e).prot_idx ≡ some callback =
        ap (get_elem? ctx.prot_cbs) (prot_idx-set_input d e d.data_buffer refl) ∙ hd in
      elim (Bool-cases (is_zero e.remaining)) [
        | inl z ↦ rw (z, deliver) (call_back-Survives ctx (set_input d e) e.reason (callback, hs))
        | inr z ↦ rw (z, deliver) (finish-Survives ctx d e.reason [] (callback, hd))
      ]

  pub served_ne :
      (calls : List (Connection User Exc)) (o : Served User Exc)
      → o ≢ fault
      → (elim o [ fault ↦ fault | served m ctx slot more ↦ served m ctx slot (calls ++ more) ])
        ≢ fault
  served_ne calls fault h = absurd (h refl)
  served_ne calls (served m ctx slot more) h = cc
