-- ===== src/Json/Table.antt =====
-- The LALR(1) tables of lib/ccljson.cc, a row to each state. The columns 0 to 13 are the terminals,
-- the columns 14 to 26 the nonterminals. A number below 0x80000000 is JSON_SHIFT or JSON_GOTO of it,
-- and 0x80000000 + n is JSON_REDUCE(n).
use cclib.Base.{ℕ, Option, none, some, List, [], ◌∷◌, get_elem?}

-- `c_idx_not_exist`, which no state or rule is.
abbrev pub json_blank : ℕ
json_blank = 0xffff_ffff

-- `c_json_lalr_table_reduce_base`.
abbrev pub reduce_base : ℕ
reduce_base = 0x8000_0000

unfoldable pub json_rule_head_idxs : List ℕ
json_rule_head_idxs =
    14 ∷ 15 ∷ 16 ∷ 17 ∷ 17 ∷ 18 ∷ 19 ∷ 19 ∷ 20 ∷ 21 ∷ 22 ∷ 22 ∷ 23 ∷ 24 ∷ 24 ∷ 25 ∷ 25 ∷ 25 ∷ 25
    ∷ 25 ∷ 25 ∷ 25 ∷ 25 ∷ 26 ∷ []

unfoldable pub json_rule_body_lengths : List ℕ
json_rule_body_lengths =
    1 ∷ 2 ∷ 2 ∷ 1 ∷ 2 ∷ 1 ∷ 3 ∷ 1 ∷ 3 ∷ 2 ∷ 1 ∷ 2 ∷ 1 ∷ 3 ∷ 1 ∷ 1 ∷ 1 ∷ 1 ∷ 1 ∷ 1 ∷ 1 ∷ 1 ∷ 1 ∷ 1
    ∷ []

abbrev row_0 : List ℕ
row_0 =
    json_blank ∷ json_blank ∷ json_blank ∷ json_blank ∷ json_blank ∷ json_blank ∷ 5 ∷ json_blank
    ∷ json_blank ∷ json_blank ∷ json_blank ∷ json_blank ∷ json_blank ∷ json_blank ∷ json_blank ∷ 1
    ∷ 2 ∷ 3 ∷ 4 ∷ json_blank ∷ json_blank ∷ json_blank ∷ json_blank ∷ json_blank ∷ json_blank
    ∷ json_blank ∷ json_blank ∷ []

abbrev row_1 : List ℕ
row_1 =
    json_blank ∷ json_blank ∷ json_blank ∷ json_blank ∷ json_blank ∷ json_blank ∷ json_blank
    ∷ json_blank ∷ json_blank ∷ json_blank ∷ json_blank ∷ json_blank ∷ json_blank ∷ json_blank
    ∷ json_blank ∷ json_blank ∷ json_blank ∷ json_blank ∷ json_blank ∷ json_blank ∷ json_blank
    ∷ json_blank ∷ json_blank ∷ json_blank ∷ json_blank ∷ json_blank ∷ json_blank ∷ []

abbrev row_2 : List ℕ
row_2 =
    json_blank ∷ json_blank ∷ json_blank ∷ json_blank ∷ json_blank ∷ json_blank ∷ json_blank
    ∷ json_blank ∷ json_blank ∷ json_blank ∷ json_blank ∷ json_blank ∷ json_blank ∷ 6 ∷ json_blank
    ∷ json_blank ∷ json_blank ∷ json_blank ∷ json_blank ∷ json_blank ∷ json_blank ∷ json_blank
    ∷ json_blank ∷ json_blank ∷ json_blank ∷ json_blank ∷ json_blank ∷ []

abbrev row_3 : List ℕ
row_3 =
    json_blank ∷ json_blank ∷ json_blank ∷ json_blank ∷ json_blank ∷ json_blank ∷ json_blank ∷ 7
    ∷ json_blank ∷ json_blank ∷ json_blank ∷ json_blank ∷ json_blank ∷ json_blank ∷ json_blank
    ∷ json_blank ∷ json_blank ∷ json_blank ∷ json_blank ∷ json_blank ∷ json_blank ∷ json_blank
    ∷ json_blank ∷ json_blank ∷ json_blank ∷ json_blank ∷ json_blank ∷ []

abbrev row_4 : List ℕ
row_4 =
    11 ∷ json_blank ∷ json_blank ∷ json_blank ∷ json_blank ∷ json_blank ∷ json_blank ∷ 0x8000_0003
    ∷ json_blank ∷ json_blank ∷ json_blank ∷ json_blank ∷ json_blank ∷ json_blank ∷ json_blank
    ∷ json_blank ∷ json_blank ∷ json_blank ∷ json_blank ∷ 8 ∷ 9 ∷ json_blank ∷ json_blank
    ∷ json_blank ∷ json_blank ∷ json_blank ∷ 10 ∷ []

abbrev row_5 : List ℕ
row_5 =
    0x8000_0005 ∷ json_blank ∷ json_blank ∷ json_blank ∷ json_blank ∷ json_blank ∷ json_blank
    ∷ 0x8000_0005 ∷ json_blank ∷ json_blank ∷ json_blank ∷ json_blank ∷ json_blank ∷ json_blank
    ∷ json_blank ∷ json_blank ∷ json_blank ∷ json_blank ∷ json_blank ∷ json_blank ∷ json_blank
    ∷ json_blank ∷ json_blank ∷ json_blank ∷ json_blank ∷ json_blank ∷ json_blank ∷ []

abbrev row_6 : List ℕ
row_6 =
    json_blank ∷ json_blank ∷ json_blank ∷ json_blank ∷ json_blank ∷ json_blank ∷ json_blank
    ∷ json_blank ∷ json_blank ∷ json_blank ∷ json_blank ∷ json_blank ∷ json_blank ∷ json_blank
    ∷ json_blank ∷ json_blank ∷ json_blank ∷ json_blank ∷ json_blank ∷ json_blank ∷ json_blank
    ∷ json_blank ∷ json_blank ∷ json_blank ∷ json_blank ∷ json_blank ∷ json_blank ∷ []

abbrev row_7 : List ℕ
row_7 =
    json_blank ∷ json_blank ∷ json_blank ∷ json_blank ∷ json_blank ∷ json_blank ∷ json_blank
    ∷ 0x8000_0002 ∷ json_blank ∷ 0x8000_0002 ∷ 0x8000_0002 ∷ json_blank ∷ json_blank ∷ 0x8000_0002
    ∷ json_blank ∷ json_blank ∷ json_blank ∷ json_blank ∷ json_blank ∷ json_blank ∷ json_blank
    ∷ json_blank ∷ json_blank ∷ json_blank ∷ json_blank ∷ json_blank ∷ json_blank ∷ []

abbrev row_8 : List ℕ
row_8 =
    json_blank ∷ json_blank ∷ json_blank ∷ json_blank ∷ json_blank ∷ json_blank ∷ json_blank
    ∷ 0x8000_0004 ∷ json_blank ∷ json_blank ∷ 12 ∷ json_blank ∷ json_blank ∷ json_blank ∷ json_blank
    ∷ json_blank ∷ json_blank ∷ json_blank ∷ json_blank ∷ json_blank ∷ json_blank ∷ json_blank
    ∷ json_blank ∷ json_blank ∷ json_blank ∷ json_blank ∷ json_blank ∷ []

abbrev row_9 : List ℕ
row_9 =
    json_blank ∷ json_blank ∷ json_blank ∷ json_blank ∷ json_blank ∷ json_blank ∷ json_blank
    ∷ 0x8000_0007 ∷ json_blank ∷ json_blank ∷ 0x8000_0007 ∷ json_blank ∷ json_blank ∷ json_blank
    ∷ json_blank ∷ json_blank ∷ json_blank ∷ json_blank ∷ json_blank ∷ json_blank ∷ json_blank
    ∷ json_blank ∷ json_blank ∷ json_blank ∷ json_blank ∷ json_blank ∷ json_blank ∷ []

abbrev row_10 : List ℕ
row_10 =
    json_blank ∷ json_blank ∷ json_blank ∷ json_blank ∷ json_blank ∷ json_blank ∷ json_blank
    ∷ json_blank ∷ json_blank ∷ json_blank ∷ json_blank ∷ 13 ∷ json_blank ∷ json_blank ∷ json_blank
    ∷ json_blank ∷ json_blank ∷ json_blank ∷ json_blank ∷ json_blank ∷ json_blank ∷ json_blank
    ∷ json_blank ∷ json_blank ∷ json_blank ∷ json_blank ∷ json_blank ∷ []

abbrev row_11 : List ℕ
row_11 =
    json_blank ∷ json_blank ∷ json_blank ∷ json_blank ∷ json_blank ∷ json_blank ∷ json_blank
    ∷ 0x8000_0017 ∷ json_blank ∷ 0x8000_0017 ∷ 0x8000_0017 ∷ 0x8000_0017 ∷ json_blank ∷ json_blank
    ∷ json_blank ∷ json_blank ∷ json_blank ∷ json_blank ∷ json_blank ∷ json_blank ∷ json_blank
    ∷ json_blank ∷ json_blank ∷ json_blank ∷ json_blank ∷ json_blank ∷ json_blank ∷ []

abbrev row_12 : List ℕ
row_12 =
    11 ∷ json_blank ∷ json_blank ∷ json_blank ∷ json_blank ∷ json_blank ∷ json_blank ∷ json_blank
    ∷ json_blank ∷ json_blank ∷ json_blank ∷ json_blank ∷ json_blank ∷ json_blank ∷ json_blank
    ∷ json_blank ∷ json_blank ∷ json_blank ∷ json_blank ∷ json_blank ∷ 14 ∷ json_blank ∷ json_blank
    ∷ json_blank ∷ json_blank ∷ json_blank ∷ 10 ∷ []

abbrev row_13 : List ℕ
row_13 =
    11 ∷ 17 ∷ 18 ∷ 21 ∷ 22 ∷ 23 ∷ 5 ∷ json_blank ∷ 26 ∷ json_blank ∷ json_blank ∷ json_blank
    ∷ json_blank ∷ json_blank ∷ json_blank ∷ json_blank ∷ 19 ∷ 3 ∷ 4 ∷ json_blank ∷ json_blank ∷ 20
    ∷ 24 ∷ 25 ∷ json_blank ∷ 15 ∷ 16 ∷ []

abbrev row_14 : List ℕ
row_14 =
    json_blank ∷ json_blank ∷ json_blank ∷ json_blank ∷ json_blank ∷ json_blank ∷ json_blank
    ∷ 0x8000_0006 ∷ json_blank ∷ json_blank ∷ 0x8000_0006 ∷ json_blank ∷ json_blank ∷ json_blank
    ∷ json_blank ∷ json_blank ∷ json_blank ∷ json_blank ∷ json_blank ∷ json_blank ∷ json_blank
    ∷ json_blank ∷ json_blank ∷ json_blank ∷ json_blank ∷ json_blank ∷ json_blank ∷ []

abbrev row_15 : List ℕ
row_15 =
    json_blank ∷ json_blank ∷ json_blank ∷ json_blank ∷ json_blank ∷ json_blank ∷ json_blank
    ∷ 0x8000_0008 ∷ json_blank ∷ json_blank ∷ 0x8000_0008 ∷ json_blank ∷ json_blank ∷ json_blank
    ∷ json_blank ∷ json_blank ∷ json_blank ∷ json_blank ∷ json_blank ∷ json_blank ∷ json_blank
    ∷ json_blank ∷ json_blank ∷ json_blank ∷ json_blank ∷ json_blank ∷ json_blank ∷ []

abbrev row_16 : List ℕ
row_16 =
    json_blank ∷ json_blank ∷ json_blank ∷ json_blank ∷ json_blank ∷ json_blank ∷ json_blank
    ∷ 0x8000_000f ∷ json_blank ∷ 0x8000_000f ∷ 0x8000_000f ∷ json_blank ∷ json_blank ∷ json_blank
    ∷ json_blank ∷ json_blank ∷ json_blank ∷ json_blank ∷ json_blank ∷ json_blank ∷ json_blank
    ∷ json_blank ∷ json_blank ∷ json_blank ∷ json_blank ∷ json_blank ∷ json_blank ∷ []

abbrev row_17 : List ℕ
row_17 =
    json_blank ∷ json_blank ∷ json_blank ∷ json_blank ∷ json_blank ∷ json_blank ∷ json_blank
    ∷ 0x8000_0010 ∷ json_blank ∷ 0x8000_0010 ∷ 0x8000_0010 ∷ json_blank ∷ json_blank ∷ json_blank
    ∷ json_blank ∷ json_blank ∷ json_blank ∷ json_blank ∷ json_blank ∷ json_blank ∷ json_blank
    ∷ json_blank ∷ json_blank ∷ json_blank ∷ json_blank ∷ json_blank ∷ json_blank ∷ []

abbrev row_18 : List ℕ
row_18 =
    json_blank ∷ json_blank ∷ json_blank ∷ json_blank ∷ json_blank ∷ json_blank ∷ json_blank
    ∷ 0x8000_0011 ∷ json_blank ∷ 0x8000_0011 ∷ 0x8000_0011 ∷ json_blank ∷ json_blank ∷ json_blank
    ∷ json_blank ∷ json_blank ∷ json_blank ∷ json_blank ∷ json_blank ∷ json_blank ∷ json_blank
    ∷ json_blank ∷ json_blank ∷ json_blank ∷ json_blank ∷ json_blank ∷ json_blank ∷ []

abbrev row_19 : List ℕ
row_19 =
    json_blank ∷ json_blank ∷ json_blank ∷ json_blank ∷ json_blank ∷ json_blank ∷ json_blank
    ∷ 0x8000_0012 ∷ json_blank ∷ 0x8000_0012 ∷ 0x8000_0012 ∷ json_blank ∷ json_blank ∷ json_blank
    ∷ json_blank ∷ json_blank ∷ json_blank ∷ json_blank ∷ json_blank ∷ json_blank ∷ json_blank
    ∷ json_blank ∷ json_blank ∷ json_blank ∷ json_blank ∷ json_blank ∷ json_blank ∷ []

abbrev row_20 : List ℕ
row_20 =
    json_blank ∷ json_blank ∷ json_blank ∷ json_blank ∷ json_blank ∷ json_blank ∷ json_blank
    ∷ 0x8000_0013 ∷ json_blank ∷ 0x8000_0013 ∷ 0x8000_0013 ∷ json_blank ∷ json_blank ∷ json_blank
    ∷ json_blank ∷ json_blank ∷ json_blank ∷ json_blank ∷ json_blank ∷ json_blank ∷ json_blank
    ∷ json_blank ∷ json_blank ∷ json_blank ∷ json_blank ∷ json_blank ∷ json_blank ∷ []

abbrev row_21 : List ℕ
row_21 =
    json_blank ∷ json_blank ∷ json_blank ∷ json_blank ∷ json_blank ∷ json_blank ∷ json_blank
    ∷ 0x8000_0014 ∷ json_blank ∷ 0x8000_0014 ∷ 0x8000_0014 ∷ json_blank ∷ json_blank ∷ json_blank
    ∷ json_blank ∷ json_blank ∷ json_blank ∷ json_blank ∷ json_blank ∷ json_blank ∷ json_blank
    ∷ json_blank ∷ json_blank ∷ json_blank ∷ json_blank ∷ json_blank ∷ json_blank ∷ []

abbrev row_22 : List ℕ
row_22 =
    json_blank ∷ json_blank ∷ json_blank ∷ json_blank ∷ json_blank ∷ json_blank ∷ json_blank
    ∷ 0x8000_0015 ∷ json_blank ∷ 0x8000_0015 ∷ 0x8000_0015 ∷ json_blank ∷ json_blank ∷ json_blank
    ∷ json_blank ∷ json_blank ∷ json_blank ∷ json_blank ∷ json_blank ∷ json_blank ∷ json_blank
    ∷ json_blank ∷ json_blank ∷ json_blank ∷ json_blank ∷ json_blank ∷ json_blank ∷ []

abbrev row_23 : List ℕ
row_23 =
    json_blank ∷ json_blank ∷ json_blank ∷ json_blank ∷ json_blank ∷ json_blank ∷ json_blank
    ∷ 0x8000_0016 ∷ json_blank ∷ 0x8000_0016 ∷ 0x8000_0016 ∷ json_blank ∷ json_blank ∷ json_blank
    ∷ json_blank ∷ json_blank ∷ json_blank ∷ json_blank ∷ json_blank ∷ json_blank ∷ json_blank
    ∷ json_blank ∷ json_blank ∷ json_blank ∷ json_blank ∷ json_blank ∷ json_blank ∷ []

abbrev row_24 : List ℕ
row_24 =
    json_blank ∷ json_blank ∷ json_blank ∷ json_blank ∷ json_blank ∷ json_blank ∷ json_blank
    ∷ json_blank ∷ json_blank ∷ 27 ∷ json_blank ∷ json_blank ∷ json_blank ∷ json_blank ∷ json_blank
    ∷ json_blank ∷ json_blank ∷ json_blank ∷ json_blank ∷ json_blank ∷ json_blank ∷ json_blank
    ∷ json_blank ∷ json_blank ∷ json_blank ∷ json_blank ∷ json_blank ∷ []

abbrev row_25 : List ℕ
row_25 =
    11 ∷ 17 ∷ 18 ∷ 21 ∷ 22 ∷ 23 ∷ 5 ∷ json_blank ∷ 26 ∷ 0x8000_000a ∷ json_blank ∷ json_blank
    ∷ json_blank ∷ json_blank ∷ json_blank ∷ json_blank ∷ 19 ∷ 3 ∷ 4 ∷ json_blank ∷ json_blank ∷ 20
    ∷ 24 ∷ 25 ∷ 28 ∷ 29 ∷ 16 ∷ []

abbrev row_26 : List ℕ
row_26 =
    0x8000_000c ∷ 0x8000_000c ∷ 0x8000_000c ∷ 0x8000_000c ∷ 0x8000_000c ∷ 0x8000_000c ∷ 0x8000_000c
    ∷ json_blank ∷ 0x8000_000c ∷ 0x8000_000c ∷ json_blank ∷ json_blank ∷ json_blank ∷ json_blank
    ∷ json_blank ∷ json_blank ∷ json_blank ∷ json_blank ∷ json_blank ∷ json_blank ∷ json_blank
    ∷ json_blank ∷ json_blank ∷ json_blank ∷ json_blank ∷ json_blank ∷ json_blank ∷ []

abbrev row_27 : List ℕ
row_27 =
    json_blank ∷ json_blank ∷ json_blank ∷ json_blank ∷ json_blank ∷ json_blank ∷ json_blank
    ∷ 0x8000_0009 ∷ json_blank ∷ 0x8000_0009 ∷ 0x8000_0009 ∷ json_blank ∷ json_blank ∷ json_blank
    ∷ json_blank ∷ json_blank ∷ json_blank ∷ json_blank ∷ json_blank ∷ json_blank ∷ json_blank
    ∷ json_blank ∷ json_blank ∷ json_blank ∷ json_blank ∷ json_blank ∷ json_blank ∷ []

abbrev row_28 : List ℕ
row_28 =
    json_blank ∷ json_blank ∷ json_blank ∷ json_blank ∷ json_blank ∷ json_blank ∷ json_blank
    ∷ json_blank ∷ json_blank ∷ 0x8000_000b ∷ 30 ∷ json_blank ∷ json_blank ∷ json_blank ∷ json_blank
    ∷ json_blank ∷ json_blank ∷ json_blank ∷ json_blank ∷ json_blank ∷ json_blank ∷ json_blank
    ∷ json_blank ∷ json_blank ∷ json_blank ∷ json_blank ∷ json_blank ∷ []

abbrev row_29 : List ℕ
row_29 =
    json_blank ∷ json_blank ∷ json_blank ∷ json_blank ∷ json_blank ∷ json_blank ∷ json_blank
    ∷ json_blank ∷ json_blank ∷ 0x8000_000e ∷ 0x8000_000e ∷ json_blank ∷ json_blank ∷ json_blank
    ∷ json_blank ∷ json_blank ∷ json_blank ∷ json_blank ∷ json_blank ∷ json_blank ∷ json_blank
    ∷ json_blank ∷ json_blank ∷ json_blank ∷ json_blank ∷ json_blank ∷ json_blank ∷ []

abbrev row_30 : List ℕ
row_30 =
    11 ∷ 17 ∷ 18 ∷ 21 ∷ 22 ∷ 23 ∷ 5 ∷ json_blank ∷ 26 ∷ json_blank ∷ json_blank ∷ json_blank
    ∷ json_blank ∷ json_blank ∷ json_blank ∷ json_blank ∷ 19 ∷ 3 ∷ 4 ∷ json_blank ∷ json_blank ∷ 20
    ∷ 24 ∷ 25 ∷ json_blank ∷ 31 ∷ 16 ∷ []

abbrev row_31 : List ℕ
row_31 =
    json_blank ∷ json_blank ∷ json_blank ∷ json_blank ∷ json_blank ∷ json_blank ∷ json_blank
    ∷ json_blank ∷ json_blank ∷ 0x8000_000d ∷ 0x8000_000d ∷ json_blank ∷ json_blank ∷ json_blank
    ∷ json_blank ∷ json_blank ∷ json_blank ∷ json_blank ∷ json_blank ∷ json_blank ∷ json_blank
    ∷ json_blank ∷ json_blank ∷ json_blank ∷ json_blank ∷ json_blank ∷ json_blank ∷ []

unfoldable pub json_lalr_table : List (List ℕ)
json_lalr_table =
    row_0 ∷ row_1 ∷ row_2 ∷ row_3 ∷ row_4 ∷ row_5 ∷ row_6 ∷ row_7 ∷ row_8 ∷ row_9 ∷ row_10 ∷ row_11
    ∷ row_12 ∷ row_13 ∷ row_14 ∷ row_15 ∷ row_16 ∷ row_17 ∷ row_18 ∷ row_19 ∷ row_20 ∷ row_21
    ∷ row_22 ∷ row_23 ∷ row_24 ∷ row_25 ∷ row_26 ∷ row_27 ∷ row_28 ∷ row_29 ∷ row_30 ∷ row_31 ∷ []

-- `json_lalr_table[state*27 + symbol]`; `none` is a read past the table.
unfoldable pub table_entry : ℕ → ℕ → Option ℕ
unfolding json_lalr_table
table_entry state symbol = elim (get_elem? json_lalr_table state) [
  | none ↦ none
  | some row ↦ get_elem? row symbol
]
