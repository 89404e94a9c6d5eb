-- ===== src/Varval.antt =====
-- `validator_c` of lib/cclvarval.h and lib/cclvarval.cc: validation of a variable by a schema.
pub mod Property
pub mod State
pub mod Object
pub mod Simple
pub mod Validate
pub mod Conforms
pub mod Path
pub mod Inversion
pub mod Verdict
pub mod Judge
pub mod Picks
pub mod Loops
pub mod Tested
pub mod Decides
pub mod Correct
pub mod Height
pub mod Ends
pub mod Terminates
pub mod Ranks
mod Tests
