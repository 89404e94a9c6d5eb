-- ===== src/Http/Tests.antt =====
-- Runs of lib/cclhttp.cc, and its theorems at concrete connections.
use cclib.Base.{
  if◌then◌else◌, Option, ℕ, ◌+◌, ◌≡◌, refl, true, false, none, some, List, [], ◌∷◌, ◌++◌, Bytes,
  codes, length, ltb, ◌==◌,
}
use cclib.Base.Int.{pos}
use cclib.Sys.Poll.{PollFd}
use cclib.Sys.Poll.Refines.{interest, IsSorted}
use cclib.Http.Method.{method_type, post_method, get_method, trace_method}
use cclib.Http.Server.{
  Connection, Answer, Server, null, live, Event, escaped, connected, finished, new_connection,
  completed_func, connection_func,
}
use cclib.Http.Lifecycle.{requests, serve_all, Ends, serve_all-Ends}
use cclib.Http.Fds.{FdSets, retrieve_poll_fds, asked_for, retrieve_poll_fds-interest}

method_type_get : method_type (codes "GET") ≡ get_method
unfolding method_type
method_type_get = refl

-- Methods that the table does not have are taken for others.
method_type_patch : method_type (codes "PATCH") ≡ trace_method
unfolding method_type
method_type_patch = refl

-- The callback keeps how many bytes it took, and throws at more than three.
abbrev take_bytes : Connection ℕ Bytes → Answer ℕ Bytes
take_bytes c = record {
  user_data = c.user_data + length c.upload_data;
  consumed = true;
  thrown = elim (ltb 3 (length c.upload_data)) [ true ↦ some (codes "too long") | false ↦ none ];
}

-- The callback for the end throws where too much was taken.
abbrev end_bytes : Connection ℕ Bytes → ℕ × Option Bytes
end_bytes c = (0, elim (ltb 9 c.user_data) [ true ↦ some (codes "too much") | false ↦ none ])

abbrev sample_server : Server ℕ Bytes
sample_server = record { connection_cb = take_bytes; completed_cb = end_bytes; exc_ptr = none }

abbrev post_events : List Bytes → List Event
post_events uploads = requests (codes "/") (codes "POST") (codes "HTTP/1.1") ([] ∷ uploads)

abbrev posted : ℕ → Connection ℕ Bytes
posted n = record {
  conn_type = post_method;
  url = codes "/";
  method = codes "POST";
  version = codes "HTTP/1.1";
  user_data = n;
  upload_data = [];
}

-- A connection that ends with an exception is not released.
serve_all-escaped :
    serve_all 0 sample_server null (post_events (codes "0123456789" ∷ []))
    ≡ escaped
        (codes "too much")
        (record sample_server { exc_ptr = some (codes "too long") })
        (live (posted 0))
        (connected (record (posted 0) { upload_data = codes "0123456789" })
          ∷ finished (posted 10)
          ∷ [])
unfolding serve_all new_connection completed_func connection_func method_type
serve_all-escaped = refl

serve_all-Ends_example :
    Ends 0
      (codes "/")
      (codes "POST")
      (codes "HTTP/1.1")
      end_bytes
      (codes "ab" ∷ codes "cdef" ∷ [])
      (serve_all 0 sample_server null (post_events (codes "ab" ∷ codes "cdef" ∷ [])))
serve_all-Ends_example =
    serve_all-Ends 0 (codes "/") (codes "POST") (codes "HTTP/1.1") sample_server []
      (codes "ab" ∷ codes "cdef" ∷ [])

abbrev sample_sets : FdSets
sample_sets = record { rs = λ fd. fd == 3; ws = λ fd. ltb 2 fd; es = λ fd. false }

retrieve-sample_sets :
    retrieve_poll_fds (some (sample_sets, pos 4)) []
    ≡ some (
        record { fd = 3; events = 5; revents = 0 }
        ∷ record { fd = 4; events = 4; revents = 0 }
        ∷ [])
unfolding retrieve_poll_fds
retrieve-sample_sets = refl

retrieve_poll_fds-interest_example :
    (added : List PollFd) × (retrieve_poll_fds (some (sample_sets, pos 4)) [] ≡ some ([] ++ added))
    × IsSorted added
    × ((j : ℕ)
        → interest added j ≡ (
            if ltb j 5
            then asked_for (sample_sets.rs j) (sample_sets.ws j) (sample_sets.es j)
            else none))
retrieve_poll_fds-interest_example = retrieve_poll_fds-interest sample_sets 4 []
