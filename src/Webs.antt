-- ===== src/Webs.antt =====
-- The connections of lib/cclwebs.h and lib/cclwebs.cc, over libwebsockets.
pub mod Protocol
pub mod Context
pub mod Message
pub mod Survives
pub mod Lifecycle
mod Tests
