-- ===== src/Str.antt =====
-- lib/cclstr.cc: splitting, joining and replacing. A `size_t` position is a number; `Str.Find`
-- models the `std::string` members that the file calls.
pub mod Find
pub mod Pieces
pub mod Split
pub mod Replace
pub mod Regex
mod Tests
