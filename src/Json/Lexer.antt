-- ===== src/Json/Lexer.antt =====
-- `parser_c::recognize_terminal` of lib/ccljson.cc.
use cclib.Base.{ℕ, ◌+◌, true, false, Option, none, some, [], ◌∷◌, Bytes, drop, ◌==◌}
use cclib.Json.Automaton.{LexState, state_0, terminal, next}

-- JSON_GET_NEXT_CHAR: the NUL stands for the end of the source.
abbrev pub peek : Bytes → ℕ
peek [] = 0
peek (c ∷ s) = c

-- A state is entered with the character that led to it still unread: JSON_CLOSE_CHAR returns at a
-- NUL and passes over any other character.
unfoldable pub run : LexState → Bytes → ℕ → Option ℕ × ℕ
run q [] idx = (terminal q, idx)
run q (c ∷ s) idx = elim (c == 0) [
  | true ↦ (terminal q, idx)
  | false ↦ elim (next q (peek s)) [ none ↦ (terminal q, idx + 1) | some q' ↦ run q' s (idx + 1) ]
]

-- The terminal at the index, and the index behind it.
unfoldable pub recognize_terminal : Bytes → ℕ → Option ℕ × ℕ
unfolding run
recognize_terminal source idx =
    let s = drop idx source in
    elim (next state_0 (peek s)) [ none ↦ (none, idx) | some q ↦ run q s idx ]
