-- ===== src/Sys.antt =====
-- The parts of lib/cclsys.h and lib/cclsys.cc that keep a state of their own, over the calls of the
-- operating system.
pub mod Poll
pub mod Stream
pub mod Descriptor
mod Tests
