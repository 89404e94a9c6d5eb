-- ===== src/Webs/Lifecycle.antt =====
-- The order in which libwebsockets calls `context_c::protocol_func` of lib/cclwebs.cc for one socket.
use cclib.Webs.Survives.{Survives}
