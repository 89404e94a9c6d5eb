-- ===== src/Http/Lifecycle.antt =====
-- The calls that libmicrohttpd makes for one connection of lib/cclhttp.cc, from its first request to its
-- end.
use mathlib.Core.Path.{subst}
use cclib.Base.{
  ap, sym, Option, none, some, ◌≡◌, refl, Bool, true, false, List, [], ◌∷◌, ◌++◌, Bytes, All, map,
}
use cclib.Http.Method.{method_type}
use cclib.Http.Server.{
  Callback, escaped, finish, Connection, Server, Slot, null, released, live, Event, request,
  completed, connected, finished, Served, served, fault, new_connection, connection_func,
  completed_func, serve, take_upload, store_exception,
}

-- The requests for a connection, a part of its upload to each.
abbrev pub requests : Bytes → Bytes → Bytes → List Bytes → List Event
requests url method version [] = completed ∷ []
requests url method version (upload ∷ uploads) =
    request url method version upload ∷ requests url method version uploads

module _ {User Exc : Type 0} (null_user : User) where
  abbrev pub behind : List (Callback User Exc) → Served User Exc → Served User Exc
  behind calls fault = fault
  behind calls (escaped x srv slot more) = escaped x srv slot (calls ++ more)
  behind calls (served b n srv slot more) = served b n srv slot (calls ++ more)

  abbrev pub then_serve :
      (Server User Exc → Slot User Exc → Served User Exc) → Served User Exc → Served User Exc
  then_serve next fault = fault
  then_serve next (escaped x srv slot calls) = escaped x srv slot calls
  then_serve next (served b n srv slot calls) = behind calls (next srv slot)

  -- The calls one after another.
  unfoldable pub serve_all : Server User Exc → Slot User Exc → List Event → Served User Exc
  unfolding connection_func completed_func
  serve_all srv slot [] = served true 0 srv slot []
  serve_all srv slot (e ∷ es) =
      then_serve (λ srv' slot'. serve_all srv' slot' es) (serve null_user srv slot e)

  module _ (url method version : Bytes) where
    abbrev pub IsFor : Connection User Exc → Type 0
    IsFor c =
        (c.url ≡ url)
        × (c.method ≡ method)
        × (c.version ≡ version)
        × (c.conn_type ≡ method_type method)

    -- Each part of the upload is handed over once, in order, and then the end, each with the connection
    -- of the request.
    abbrev pub HandsOver : List Bytes → List (Callback User Exc) → Connection User Exc → Type 0
    HandsOver uploads calls c =
        (cs : List (Connection User Exc)) × (calls ≡ map connected cs ++ finished c ∷ [])
        × (map (λ d. d.upload_data) cs ≡ uploads)
        × All IsFor cs
        × IsFor c

    -- How the callback for the end ends decides whether the connection is released, or the exception
    -- escapes and the connection is left.
    abbrev pub Ends :
        (Connection User Exc → User × Option Exc) → List Bytes → Served User Exc → Type 0
    Ends completed_cb uploads fault = ⊥
    Ends completed_cb uploads (escaped x srv slot calls) =
        (c : Connection User Exc) × ((completed_cb c).1 ≡ some x)
        × (slot ≡ live (record c { user_data = (completed_cb c).0 }))
        × HandsOver uploads calls c
    Ends completed_cb uploads (served b n srv slot calls) =
        (c : Connection User Exc) × ((completed_cb c).1 ≡ none)
        × (slot ≡ released)
        × HandsOver uploads calls c

    HandsOver-cons :
        (uploads : List Bytes) (upload : Bytes) (d c : Connection User Exc)
        (calls : List (Callback User Exc))
        → d.upload_data ≡ upload
        → IsFor d
        → HandsOver uploads calls c
        → HandsOver (upload ∷ uploads) (connected d ∷ calls) c
    HandsOver-cons uploads upload d c calls e i (cs, k, u, a, j) =
        (d ∷ cs, rw k, rw (e, u), (i, a), j)

    Ends-cons :
        (completed_cb : Connection User Exc → User × Option Exc) (uploads : List Bytes)
        (upload : Bytes) (d : Connection User Exc) (o : Served User Exc)
        → d.upload_data ≡ upload
        → IsFor d
        → Ends completed_cb uploads o
        → Ends completed_cb (upload ∷ uploads) (behind (connected d ∷ []) o)
    Ends-cons completed_cb uploads upload d fault e i h = absurd h
    Ends-cons completed_cb uploads upload d (escaped x srv slot calls) e i (c, t, l, h) =
        (c, t, l, HandsOver-cons uploads upload d c calls e i h)
    Ends-cons completed_cb uploads upload d (served b n srv slot calls) e i (c, t, l, h) =
        (c, t, l, HandsOver-cons uploads upload d c calls e i h)

    IsFor-take_upload : (c : Connection User Exc) (b : Bool) → IsFor c → IsFor (take_upload b c)
    IsFor-take_upload c true h = h
    IsFor-take_upload c false h = h

    finish-Ends :
        (srv : Server User Exc) (c : Connection User Exc) (a : User × Option Exc)
        → srv.completed_cb c ≡ a
        → IsFor c
        → Ends srv.completed_cb []
            (then_serve (λ srv' slot'. served true 0 srv' slot' []) (finish srv c a))
    finish-Ends srv c (u, none) e h = (c, ap (λ b. b.1) e, refl, ([], refl, refl, tt, h))
    finish-Ends srv c (u, some x) e h = (
      c,
      ap (λ b. b.1) e,
      ap (λ b. live (record c { user_data = b.0 })) (sym e),
      ([], refl, refl, tt, h),
    )

    completed_cb-store_exception :
        (o : Option Exc) (srv : Server User Exc)
        → (store_exception o srv).completed_cb ≡ srv.completed_cb
    completed_cb-store_exception none srv = refl
    completed_cb-store_exception (some x) srv = refl

    behind-nil : (o : Served User Exc) → behind [] o ≡ o
    behind-nil fault = refl
    behind-nil (escaped x srv slot calls) = refl
    behind-nil (served b n srv slot calls) = refl

    -- What follows a connection that is there, for a server that keeps its callbacks.
    live-Ends :
        (srv : Server User Exc) (c : Connection User Exc) (uploads : List Bytes)
        → IsFor c
        → Ends srv.completed_cb uploads
            (serve_all srv (live c) (requests url method version uploads))
    unfolding serve_all completed_func connection_func
    live-Ends srv c [] h = finish-Ends srv c (srv.completed_cb c) refl h
    live-Ends srv c (upload ∷ uploads) h =
        let d : Connection User Exc = record c { upload_data = upload } in
        let answer = srv.connection_cb d in
        let after = store_exception answer.thrown srv in
        let e : Connection User Exc =
          take_upload answer.consumed (record d { user_data = answer.user_data }) in
        let rest = serve_all after (live e) (requests url method version uploads) in
        Ends-cons srv.completed_cb uploads upload d rest refl h (
          subst (λ f. Ends f uploads rest) (completed_cb-store_exception answer.thrown srv)
            (live-Ends after e uploads
              (IsFor-take_upload (record d { user_data = answer.user_data }) answer.consumed h)))

    -- From its first request to its end, whatever the callbacks answer and throw, a connection never
    -- meets a pointer that no connection is behind; the callback gets each later part of the upload
    -- once, in order, with the url, the method and the version of the request and the type of the
    -- method, then the end is called back. Where that callback returns, the connection is released;
    -- where it throws, the exception leaves the function, and the connection is left.
    pub serve_all-Ends :
        (srv : Server User Exc) (first : Bytes) (uploads : List Bytes)
        → Ends srv.completed_cb uploads
            (serve_all srv null (requests url method version (first ∷ uploads)))
    unfolding serve_all new_connection completed_func connection_func
    serve_all-Ends srv first uploads =
        let c : Connection User Exc = new_connection null_user url method version in
        rw (behind-nil (serve_all srv (live c) (requests url method version uploads)))
          (live-Ends srv c uploads (refl, refl, refl, refl))
