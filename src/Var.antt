-- ===== src/Var.antt =====
-- lib/cclvar.h and lib/cclvar.cc: the variables of the library and what is done with them.
pub mod Value
pub mod Compare
pub mod Dict
pub mod Copy
pub mod Access
pub mod Print
pub mod Store
mod Tests
