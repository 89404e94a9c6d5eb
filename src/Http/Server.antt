-- ===== src/Http/Server.antt =====
-- `connection_func`, `completed_func` and `process` of lib/cclhttp.cc: what they do for the calls that
-- libmicrohttpd makes for one connection.
use cclib.Base.{ℕ, Bool, true, false, Option, none, some, List, [], ◌∷◌, Bytes, length}
use cclib.Http.Method.{Method, method_type}

abbrev pub is_none {ℓ} : {A : Type ℓ} → Option A → Bool
is_none none = true
is_none (some a) = false

-- A call for a connection: a part of its request, with the url, the method, the version and the upload,
-- or its end.
pub data Event : Type 0 where
  request : Bytes → Bytes → Bytes → Bytes → Event
  completed : Event

-- `User` is what the callbacks keep in the connection, and `Exc` what they may throw.
module _ (User Exc : Type 0) where
  -- `upload_data` is the part of the upload that the connection points to.
  pub record Connection : Type 0 where
    pub conn_type : Method
    pub url : Bytes
    pub method : Bytes
    pub version : Bytes
    pub user_data : User
    pub upload_data : Bytes

  -- How a callback ends: what it keeps, whether it took the upload, and what it throws.
  pub record Answer : Type 0 where
    pub user_data : User
    pub consumed : Bool
    pub thrown : Option Exc

  -- `completed_cb` ends with what it keeps, and what it throws.
  pub record Server : Type 0 where
    pub connection_cb : Connection → Answer
    pub completed_cb : Connection → User × Option Exc
    pub exc_ptr : Option Exc

  -- `*con_cls`; `released` is a dangling pointer.
  pub data Slot : Type 0 where
    null released : Slot
    live : Connection → Slot

  -- A call of a callback, with what the connection is then.
  pub data Callback : Type 0 where
    connected finished : Connection → Callback

  -- What a call returns, with the bytes of the upload that are left, and leaves; `fault` is the use of
  -- a pointer that no connection is behind, and `escaped` an exception that leaves the function, into
  -- libmicrohttpd.
  pub data Served : Type 0 where
    served : Bool → ℕ → Server → Slot → List Callback → Served
    escaped : Exc → Server → Slot → List Callback → Served
    fault : Served

  pub data Processed : Type 0 where
    done internal_error : Server → Processed
    rethrown : Exc → Server → Processed

module _ {User Exc : Type 0} where
  -- `upload_data()`.
  abbrev pub take_upload : Bool → Connection User Exc → Connection User Exc
  take_upload true c = record c { upload_data = [] }
  take_upload false c = c

  abbrev pub store_exception : Option Exc → Server User Exc → Server User Exc
  store_exception none srv = srv
  store_exception (some x) srv = record srv { exc_ptr = some x }

  abbrev pub answer_request :
      Server User Exc → Connection User Exc → Answer User Exc → Served User Exc
  answer_request srv c a =
      let d = take_upload a.consumed (record c { user_data = a.user_data }) in
      served (is_none a.thrown) (length d.upload_data) (store_exception a.thrown srv) (live d)
        (connected c ∷ [])

  -- Where the callback throws, the connection is not released.
  abbrev pub finish : Server User Exc → Connection User Exc → User × Option Exc → Served User Exc
  finish srv c (u, none) = served true 0 srv (released) (finished c ∷ [])
  finish srv c (u, some x) = escaped x srv (live (record c { user_data = u })) (finished c ∷ [])

  -- The callback is given the connection before the test for null.
  unfoldable pub completed_func : Server User Exc → Slot User Exc → Served User Exc
  completed_func srv (live c) = finish srv c (srv.completed_cb c)
  completed_func srv slot = fault

  module _ (null_user : User) where
    unfoldable pub new_connection : Bytes → Bytes → Bytes → Connection User Exc
    new_connection url method version = record {
      conn_type = method_type method;
      url = url;
      method = method;
      version = version;
      user_data = null_user;
      upload_data = [];
    }

    unfoldable pub connection_func :
        Server User Exc → Slot User Exc → Bytes → Bytes → Bytes → Bytes → Served User Exc
    unfolding new_connection
    connection_func srv null url method version upload =
        served true (length upload) srv (live (new_connection url method version)) []
    connection_func srv released url method version upload = fault
    connection_func srv (live c) url method version upload =
        let d = record c { upload_data = upload } in answer_request srv d (srv.connection_cb d)

    abbrev pub serve : Server User Exc → Slot User Exc → Event → Served User Exc
    serve srv slot (request url method version upload) =
        connection_func srv slot url method version upload
    serve srv slot completed = completed_func srv slot

  -- `process`: whether `MHD_run` succeeds, with the server behind it.
  abbrev pub reset_exception : Server User Exc → Server User Exc
  reset_exception srv = record srv { exc_ptr = none }

  unfoldable pub process :
      (Server User Exc → Bool × Server User Exc) → Server User Exc → Processed User Exc
  process run srv =
      let (success, after) = run (reset_exception srv) in
      elim success [
        | false ↦ internal_error after
        | true ↦ elim after.exc_ptr [ none ↦ done after | some x ↦ rethrown x after ]
      ]
