-- ===== src/Generation/Fences/Plain.antt =====
-- The line breaks of the text that `_neutralised` of generation.py returns.
use mod_playerbot_llm.Prelude.{
  all_both, ℕ, zero, suc, ◌≡◌, refl, Bool, true, false, not, ◌&&◌, ◌||◌, List, [], ◌∷◌, ◌++◌, all,
  ◌==◌, Bool-cases, inl, inr, arith,
}
use mod_playerbot_llm.Prelude.Text.{Text}
use mod_playerbot_llm.Protocol.Context.{is_given}
use mod_playerbot_llm.Generation.Fences.{
  is_line_break, drop_line_feeds, push, lines_of, splitlines, join_lines, as_dash, match_rest,
  fence_length, sub_fences, neutralised,
}

abbrev pub is_unbroken : Text → Bool
is_unbroken = all (λ c. not (is_line_break c))

abbrev pub is_plain : Text → Bool
is_plain = all (λ c. c == 10 || not (is_line_break c))

pub unbroken_plain : (line : Text) → is_unbroken line ≡ true → is_plain line ≡ true
unbroken_plain [] h = refl
unbroken_plain (c ∷ cs) h = ground (arith, unbroken_plain cs)

push_unbroken :
    (c : ℕ) (lines : List Text)
    → is_line_break c ≡ false
    → all is_unbroken lines ≡ true
    → all is_unbroken (push c lines) ≡ true
push_unbroken c [] kept h = rw kept refl
push_unbroken c (line ∷ lines) kept h = rw kept h

lines_of-unbroken : (text : Text) → all is_unbroken (lines_of text) ≡ true
lines_of-unbroken [] = refl
lines_of-unbroken (c ∷ cs) = elim (Bool-cases (is_line_break c)) [
  | inl break ↦ rw break (lines_of-unbroken cs)
  | inr kept ↦ rw kept (push_unbroken c (lines_of cs) kept (lines_of-unbroken cs))
]

pub plain_both :
    (xs ys : Text) → is_plain xs ≡ true → is_plain ys ≡ true → is_plain (xs ++ ys) ≡ true
plain_both = all_both (λ c. c == 10 || not (is_line_break c))

pub join_lines-plain :
    (lines : List Text) → all is_plain lines ≡ true → is_plain (join_lines lines) ≡ true
unfolding join_lines
join_lines-plain [] h = refl
join_lines-plain (line ∷ []) h = ground arith
join_lines-plain (line ∷ next ∷ lines) h =
    plain_both line (10 ∷ join_lines (next ∷ lines)) (ground arith)
      (join_lines-plain (next ∷ lines) (ground arith))

all_plain : (lines : List Text) → all is_unbroken lines ≡ true → all is_plain lines ≡ true
all_plain [] h = refl
all_plain (line ∷ lines) h = ground (arith, unbroken_plain line, all_plain lines)

module _ (is_word : ℕ → Bool) where
  as_dash_plain :
      (c : ℕ)
      → (c == 10 || not (is_line_break c)) ≡ true
      → (as_dash c == 10 || not (is_line_break (as_dash c))) ≡ true
  unfolding is_line_break
  as_dash_plain c h = elim (Bool-cases (c == 61)) [
    | inl sign ↦ rw sign refl
    | inr other ↦ rw other h
  ]

  sub_fences-plain :
      (at_start : Bool) (count : ℕ) (text : Text)
      → is_plain text ≡ true
      → is_plain (sub_fences is_word at_start count text) ≡ true
  unfolding sub_fences is_line_break
  sub_fences-plain at_start count [] h = refl
  sub_fences-plain at_start (suc count) (c ∷ cs) h =
      let first : (c == 10 || not (is_line_break c)) ≡ true = ground arith in
      rw (as_dash_plain c first) (sub_fences-plain false count cs (ground arith))
  sub_fences-plain at_start zero (c ∷ cs) h =
      let first : (c == 10 || not (is_line_break c)) ≡ true = ground arith in
      let found = match_rest (fence_length is_word (c ∷ cs)) in
      elim (Bool-cases (at_start && is_given (fence_length is_word (c ∷ cs)))) [
        | inl quoted ↦
            rw (quoted, as_dash_plain c first) (sub_fences-plain false found cs (ground arith))
        | inr copied ↦ rw (copied, first) (sub_fences-plain (c == 10) 0 cs (ground arith))
      ]

  pub neutralised-plain : (body : Text) → is_plain (neutralised is_word body) ≡ true
  unfolding neutralised splitlines
  neutralised-plain body =
      let lines = lines_of (drop_line_feeds false body) in
      sub_fences-plain true 0 (join_lines lines)
        (join_lines-plain lines (all_plain lines (lines_of-unbroken _)))

return_breaks : (c : ℕ) → (c == 13) ≡ true → (c == 10 || not (is_line_break c)) ≡ false
unfolding is_line_break
return_breaks c h = let same : c ≡ 13 = ground arith in rw same refl

-- A text without a carriage return keeps its line feeds.
pub drop_line_feeds-plain : (text : Text) → is_plain text ≡ true → drop_line_feeds false text ≡ text
drop_line_feeds-plain [] h = refl
drop_line_feeds-plain (c ∷ cs) h = elim (Bool-cases (c == 13)) [
  | inl return ↦ let broken = return_breaks c return in ground arith
  | inr other ↦ rw (other, drop_line_feeds-plain cs (ground arith)) refl
]
