-- ===== src/Json.antt =====
-- lib/ccljson.h, lib/ccljson.cc and lib/ccljson_parse_actions.cc: writing and reading JSON.
pub mod Automaton
pub mod Lexer
pub mod Table
pub mod Text
pub mod Actions
pub mod Parser
pub mod Escape
pub mod Strings
pub mod Integers
pub mod Decimals
pub mod Create
pub mod Nice
mod Tests
