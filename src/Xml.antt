-- ===== src/Xml.antt =====
-- lib/cclxml.h and lib/cclxml.cc: nodes, their text, and the handlers of libxml2's events.
pub mod Node
pub mod Handlers
mod Paths
pub mod Document
mod Tests
