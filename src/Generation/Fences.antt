-- ===== src/Generation/Fences.antt =====
-- `_FENCE_LINE`, `_neutralised` and `_fenced` of generation.py: untrusted text between markers of the prompt, in
-- which nothing may look like such a marker.
pub mod Lines
pub mod Matches
pub mod Neutral
pub mod Plain
pub mod Quoted
pub mod Seen
use mod_playerbot_llm.Prelude.{
  ℕ, zero, suc, ◌+◌, ◌-◌, Bool, true, false, ◌&&◌, ◌||◌, Option, none, some, List, [], ◌∷◌, ◌++◌,
  ◌==◌, if◌then◌else◌,
}
use mod_playerbot_llm.Prelude.Text.{Text, codes}
use mod_playerbot_llm.Protocol.{is_space}
use mod_playerbot_llm.Protocol.Requests.Fields.{one_of_numbers}
use mod_playerbot_llm.Protocol.Context.{is_given}

-- The boundaries of `str.splitlines`; a carriage return and a line feed are one of them.
unfoldable pub is_line_break : ℕ → Bool
is_line_break c = one_of_numbers (10 ∷ 11 ∷ 12 ∷ 13 ∷ 28 ∷ 29 ∷ 30 ∷ 133 ∷ 8232 ∷ 8233 ∷ []) c

abbrev pub drop_line_feeds : Bool → Text → Text
drop_line_feeds after_return [] = []
drop_line_feeds after_return (c ∷ cs) =
    let rest = drop_line_feeds (c == 13) cs in if after_return && c == 10 then rest else c ∷ rest

abbrev pub push : ℕ → List Text → List Text
push c [] = (c ∷ []) ∷ []
push c (line ∷ lines) = (c ∷ line) ∷ lines

abbrev pub lines_of : Text → List Text
lines_of [] = []
lines_of (c ∷ cs) = let rest = lines_of cs in if is_line_break c then [] ∷ rest else push c rest

unfoldable pub splitlines : Text → List Text
splitlines body = lines_of (drop_line_feeds false body)

-- `"\n".join(lines)`
unfoldable pub join_lines : List Text → Text
join_lines [] = []
join_lines (line ∷ []) = line
join_lines (line ∷ next ∷ lines) = line ++ 10 ∷ join_lines (next ∷ lines)

-- A capital of the pattern against a character, ignoring case; the long s is a case of S.
abbrev pub matches_letter : ℕ → ℕ → Bool
matches_letter letter c = c == letter || (c == letter + 32 || (letter == 83 && c == 383))

abbrev pub longer : Option ℕ → Option ℕ
longer none = none
longer (some n) = some (suc n)

abbrev pub or_else : Option ℕ → Option ℕ → Option ℕ
or_else none other = other
or_else (some n) other = some n

-- `.*$`
abbrev pub rest_length : Text → ℕ
rest_length [] = 0
rest_length (c ∷ cs) = let rest = suc (rest_length cs) in if c == 10 then 0 else rest

abbrev pub as_dash : ℕ → ℕ
as_dash c = if c == 61 then 45 else c

abbrev pub match_rest : Option ℕ → ℕ
match_rest none = 0
match_rest (some n) = n - 1

-- The word characters are those of the Unicode database.
module _ (is_word : ℕ → Bool) where
  abbrev pub starts_word : Text → Bool
  starts_word [] = false
  starts_word (c ∷ cs) = is_word c

  abbrev pub word_length : Text → Text → Option ℕ
  word_length [] rest = if starts_word rest then none else some (rest_length rest)
  word_length (letter ∷ letters) [] = none
  word_length (letter ∷ letters) (c ∷ cs) =
      let rest = longer (word_length letters cs) in if matches_letter letter c then rest else none

  -- `(UNTRUSTED|TRUSTED)\b.*$`
  abbrev pub heading_length : Text → Option ℕ
  heading_length rest =
      or_else (word_length (codes "UNTRUSTED") rest) (word_length (codes "TRUSTED") rest)

  -- `\s*` before the heading.
  abbrev pub gap_length : Text → Option ℕ
  gap_length [] = none
  gap_length (c ∷ cs) =
      let rest = longer (gap_length cs) in if is_space c then rest else heading_length (c ∷ cs)

  -- The rest of `=+`.
  abbrev pub equals_length : Text → Option ℕ
  equals_length [] = none
  equals_length (c ∷ cs) =
      let rest = longer (equals_length cs) in if c == 61 then rest else gap_length (c ∷ cs)

  -- How many characters `_FENCE_LINE` matches at the start of a line. No two of its parts begin with the same
  -- character, so there is at most one match.
  unfoldable pub fence_length : Text → Option ℕ
  fence_length [] = none
  fence_length (c ∷ cs) =
      let rest = longer (fence_length cs) in
      let equals = longer (equals_length cs) in
      if is_space c then rest else if c == 61 then equals else none

  -- `_FENCE_LINE.sub`: at the start of a line or not, with so many characters of a match still to come.
  unfoldable pub sub_fences : Bool → ℕ → Text → Text
  sub_fences at_start count [] = []
  sub_fences at_start (suc count) (c ∷ cs) = as_dash c ∷ sub_fences false count cs
  sub_fences at_start zero (c ∷ cs) =
      let found = fence_length (c ∷ cs) in
      let quoted = codes "[quoted marker] " ++ as_dash c ∷ sub_fences false (match_rest found) cs in
      let copied = c ∷ sub_fences (c == 10) 0 cs in
      if at_start && is_given found then quoted else copied

  unfoldable pub neutralised : Text → Text
  unfolding splitlines join_lines sub_fences
  neutralised body = sub_fences true 0 (join_lines (splitlines body))

  unfoldable pub fenced : Text → Text → List Text
  unfolding neutralised
  fenced heading body =
      (codes "=== UNTRUSTED " ++ (heading ++ codes " BEGINS ==="))
      ∷ neutralised body
      ∷ (codes "=== UNTRUSTED " ++ (heading ++ codes " ENDS ==="))
      ∷ []
      ∷ []
