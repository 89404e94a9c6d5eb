-- ===== src/Json/Automaton.antt =====
-- The automaton of `parser_c::recognize_terminal` of lib/ccljson.cc: its labels, what they return,
-- and their tests.
use cclib.Base.{ℕ, Bool, ◌&&◌, Option, none, some, ltb, leb, ◌==◌, if◌then◌else◌}

-- The labels `state_1_label` to `state_35_label`, and the entry.
pub data LexState : Type 0 where
  state_0 state_1 state_2 state_3 state_4 state_5 state_6 state_7 state_8 : LexState
  state_9 state_10 state_11 state_12 state_13 state_14 state_15 state_16 state_17 : LexState
  state_18 state_19 state_20 state_21 state_22 state_23 state_24 state_25 state_26 : LexState
  state_27 state_28 state_29 state_30 state_31 state_32 state_33 state_34 state_35 : LexState

-- `lo <= in_char < hi`.
abbrev pub within : ℕ → ℕ → ℕ → Bool
within c lo hi = leb lo c && ltb c hi

-- The terminal that a state returns, at the end of the input and where no test passes; `none` is
-- `c_idx_not_exist`.
abbrev pub terminal : LexState → Option ℕ
terminal state_0 = none
terminal state_1 = some 13
terminal state_2 = none
terminal state_3 = some 10
terminal state_4 = none
terminal state_5 = some 1
terminal state_6 = some 1
terminal state_7 = some 11
terminal state_8 = some 8
terminal state_9 = some 9
terminal state_10 = none
terminal state_11 = none
terminal state_12 = none
terminal state_13 = some 6
terminal state_14 = some 7
terminal state_15 = some 12
terminal state_16 = some 0
terminal state_17 = none
terminal state_18 = some 2
terminal state_19 = none
terminal state_20 = none
terminal state_21 = none
terminal state_22 = none
terminal state_23 = none
terminal state_24 = none
terminal state_25 = some 2
terminal state_26 = none
terminal state_27 = none
terminal state_28 = none
terminal state_29 = none
terminal state_30 = none
terminal state_31 = some 5
terminal state_32 = some 3
terminal state_33 = none
terminal state_34 = some 4
terminal state_35 = none

-- The tests of each state on the next character, in the order of the code.
abbrev pub next : LexState → ℕ → Option LexState
next state_0 c =
    if c == 0
    then some state_1
    else if within c 8 14
    then some state_15
    else if c == 32
    then some state_15
    else if c == 34
    then some state_2
    else if c == 44
    then some state_3
    else if c == 45
    then some state_4
    else if c == 48
    then some state_5
    else if within c 49 58
    then some state_6
    else if c == 58
    then some state_7
    else if c == 91
    then some state_8
    else if c == 93
    then some state_9
    else if c == 102
    then some state_10
    else if c == 110
    then some state_11
    else if c == 116
    then some state_12
    else if c == 123
    then some state_13
    else if c == 125
    then some state_14
    else none
next state_1 c = none
next state_2 c =
    if ltb c 34
    then some state_2
    else if c == 34
    then some state_16
    else if within c 35 92
    then some state_2
    else if c == 92
    then some state_17
    else if within c 93 256
    then some state_2
    else none
next state_3 c = none
next state_4 c = if c == 48 then some state_5 else if within c 49 58 then some state_6 else none
next state_5 c =
    if c == 46
    then some state_18
    else if c == 69
    then some state_19
    else if c == 101
    then some state_19
    else none
next state_6 c =
    if c == 46
    then some state_18
    else if within c 48 58
    then some state_6
    else if c == 69
    then some state_19
    else if c == 101
    then some state_19
    else none
next state_7 c = none
next state_8 c = none
next state_9 c = none
next state_10 c = if c == 97 then some state_20 else none
next state_11 c = if c == 117 then some state_21 else none
next state_12 c = if c == 114 then some state_22 else none
next state_13 c = none
next state_14 c = none
next state_15 c = if within c 8 14 then some state_15 else if c == 32 then some state_15 else none
next state_16 c = none
next state_17 c =
    if c == 34
    then some state_2
    else if c == 47
    then some state_2
    else if c == 92
    then some state_2
    else if c == 98
    then some state_2
    else if c == 102
    then some state_2
    else if c == 110
    then some state_2
    else if c == 114
    then some state_2
    else if c == 116
    then some state_2
    else if c == 117
    then some state_23
    else none
next state_18 c =
    if within c 48 58
    then some state_18
    else if c == 69
    then some state_19
    else if c == 101
    then some state_19
    else none
next state_19 c =
    if c == 43
    then some state_24
    else if c == 45
    then some state_24
    else if within c 48 58
    then some state_25
    else none
next state_20 c = if c == 108 then some state_26 else none
next state_21 c = if c == 108 then some state_27 else none
next state_22 c = if c == 117 then some state_28 else none
next state_23 c =
    if within c 48 58
    then some state_29
    else if within c 65 71
    then some state_29
    else if within c 97 103
    then some state_29
    else none
next state_24 c = if within c 48 58 then some state_25 else none
next state_25 c = if within c 48 58 then some state_25 else none
next state_26 c = if c == 115 then some state_30 else none
next state_27 c = if c == 108 then some state_31 else none
next state_28 c = if c == 101 then some state_32 else none
next state_29 c =
    if within c 48 58
    then some state_33
    else if within c 65 71
    then some state_33
    else if within c 97 103
    then some state_33
    else none
next state_30 c = if c == 101 then some state_34 else none
next state_31 c = none
next state_32 c = none
next state_33 c =
    if within c 48 58
    then some state_35
    else if within c 65 71
    then some state_35
    else if within c 97 103
    then some state_35
    else none
next state_34 c = none
next state_35 c =
    if within c 48 58
    then some state_2
    else if within c 65 71
    then some state_2
    else if within c 97 103
    then some state_2
    else none
