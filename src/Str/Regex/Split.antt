-- ===== src/Str/Regex/Split.antt =====
-- `regex_c::split` and `regex_c::replace` of lib/cclstr.cc. A round of a loop takes a unit of fuel.
use cclib.Base.{
  ℕ, zero, suc, ◌+◌, ◌-◌, ◌%◌, ◌^◌, true, false, none, some, List, [], ◌∷◌, ◌++◌, Bytes, length,
  drop, leb,
}
use cclib.Base.Int.{ℤ, pos, negsuc}
use cclib.Str.Find.{substr}
use cclib.Str.Regex.{Posix, match_pos}

-- How a loop ends; `past_end` reads behind the NUL of the text.
pub data Scan (A : Type 0) : Type 0 where
  finished : A → Scan A
  past_end out_of_fuel : Scan A

-- An `int` as a `size_t`.
abbrev pub to_size : ℤ → ℕ
to_size (pos n) = n
to_size (negsuc n) = 2 ^ 64 - suc n

module _ {Regex : Type 0} (posix : Posix Regex) where
  -- The `while` of `split`, from `last_pos`.
  unfoldable pub regex_split_loop : ℕ → Regex → Bytes → ℕ → List Bytes → Scan (List Bytes)
  unfolding match_pos
  regex_split_loop zero regex s last_pos tokens = out_of_fuel
  regex_split_loop (suc f) regex s last_pos tokens = elim (leb last_pos (length s)) [
    | false ↦ past_end
    | true ↦ elim (match_pos posix regex (drop last_pos s)) [
      | none ↦ finished (tokens ++ drop last_pos s ∷ [])
      | some m ↦
          regex_split_loop f regex s ((last_pos + to_size m.rm_eo) % 2 ^ 64)
            (tokens ++ substr s last_pos (to_size m.rm_so) ∷ [])
    ]
  ]

  unfoldable pub regex_split : ℕ → Regex → Bytes → Scan (List Bytes)
  unfolding regex_split_loop
  regex_split fuel regex s = regex_split_loop fuel regex s 0 []

  -- The `do … while(true)` of `replace`. Differences of positions are modulo 2^64.
  unfoldable pub regex_replace_loop : ℕ → Regex → Bytes → Bytes → ℕ → Bytes → Scan Bytes
  unfolding match_pos
  regex_replace_loop zero regex s new old_pos result = out_of_fuel
  regex_replace_loop (suc f) regex s new old_pos result = elim (leb old_pos (length s)) [
    | false ↦ past_end
    | true ↦ elim (match_pos posix regex (drop old_pos s)) [
      | none ↦ finished (result ++ drop old_pos s)
      | some m ↦
          let pos = (old_pos + to_size m.rm_so) % 2 ^ 64 in
          let part = result ++ substr s old_pos ((pos + (2 ^ 64 - old_pos)) % 2 ^ 64) in
          elim (leb (length s) pos) [
            | true ↦ finished part
            | false ↦
                regex_replace_loop f regex s new
                  ((pos + to_size m.rm_eo + (2 ^ 64 - to_size m.rm_so)) % 2 ^ 64) (part ++ new)
          ]
    ]
  ]

  unfoldable pub regex_replace : ℕ → Regex → Bytes → Bytes → Scan Bytes
  unfolding regex_replace_loop
  regex_replace fuel regex s new = regex_replace_loop fuel regex s new 0 []
