-- ===== src/Webs/Tests.antt =====
-- Runs of lib/cclwebs.cc's handler for one socket, and its theorems at concrete events.
use cclib.Base.{ℕ, suc, ◌≡◌, refl, none, some, [], ◌∷◌, Bytes, codes}
use cclib.Webs.Protocol.{
  Event, client_established, established, closed, Connection, Answer, returned, raised, Context,
  unset, released, live, served, name_idx, fault,
}
use cclib.Webs.Message.{message, serve_all, with_data, serve_all-message, received}

-- The callbacks count their calls; the second one throws at an empty message.
abbrev count_call : Connection ℕ Bytes → Answer ℕ Bytes
count_call c = returned (suc c.user_data)

abbrev refuse_empty : Connection ℕ Bytes → Answer ℕ Bytes
refuse_empty c = elim c.data_in [ [] ↦ raised (codes "empty") | b ∷ s ↦ returned (suc c.user_data) ]

abbrev two_protocols : Context ℕ Bytes
two_protocols = record {
  exc_ptr = none;
  connected = [];
  prot_names = codes "chat" ∷ codes "echo" ∷ [];
  prot_cbs = count_call ∷ refuse_empty ∷ [];
}

abbrev echo_connection : Connection ℕ Bytes
echo_connection = record {
  prot_idx = 1;
  user_data = 0;
  reason = established;
  data_buffer = [];
  data_in = [];
}

abbrev open_chat : Event
open_chat = record { reason = established; name = codes "chat"; remaining = 0; input = [] }

abbrev close_chat : Event
close_chat = record { reason = closed; name = codes "chat"; remaining = 0; input = [] }

-- A socket is opened and closed: two calls back, and the connection is released.
open-close :
    serve_all 0 two_protocols unset (open_chat ∷ close_chat ∷ [])
    ≡ served 0 two_protocols (released) (
        record { prot_idx = 0; user_data = 0; reason = established; data_buffer = []; data_in = [] }
        ∷ record { prot_idx = 0; user_data = 1; reason = closed; data_buffer = []; data_in = [] }
        ∷ [])
unfolding serve_all name_idx
open-close = refl

serve_all-message_example :
    serve_all 0 two_protocols
      (live echo_connection)
      (message (codes "echo") ((2, codes "ab") ∷ (0, codes "c") ∷ []) (codes "d"))
    ≡ served 0 two_protocols
        (live (record (with_data 0 echo_connection (codes "abcd")) { user_data = 1 }))
        (with_data 0 echo_connection (codes "abcd") ∷ [])
serve_all-message_example =
    serve_all-message 0 two_protocols echo_connection (codes "echo") []
      ((2, codes "ab") ∷ (0, codes "c") ∷ []) (codes "d") refuse_empty refl

-- A client's socket opens, and its client is told.
abbrev open_client : Event
open_client = record { reason = client_established; name = codes "chat"; remaining = 0; input = [] }

open_client-unset : serve_all 0 two_protocols unset (open_client ∷ []) ≡ fault
unfolding serve_all name_idx
open_client-unset = refl

-- While an exception of another socket is pending, a socket that opens gets no connection.
open-pending :
    serve_all 0 (record two_protocols { exc_ptr = some (codes "late") }) unset (open_chat ∷ [])
    ≡ served 0 (record two_protocols { exc_ptr = some (codes "late") }) unset []
unfolding serve_all name_idx
open-pending = refl

-- In the next service it has none.
used-unset : serve_all 0 two_protocols unset (received (codes "chat") 0 (codes "x") ∷ []) ≡ fault
unfolding serve_all
used-unset = refl

-- Nor has a socket whose callback threw, where it is used again in a later service.
used-released :
    serve_all 0 two_protocols released (received (codes "chat") 0 (codes "x") ∷ []) ≡ fault
unfolding serve_all
used-released = refl
