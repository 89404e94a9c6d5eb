-- ===== src/Http.antt =====
-- The server of lib/cclhttp.h and lib/cclhttp.cc, over libmicrohttpd.
pub mod Method
pub mod Server
pub mod Lifecycle
pub mod Fds
mod Tests
