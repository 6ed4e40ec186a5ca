-- ===== src/Generation/Fences/Seen.antt =====
-- The fences that a reader sees in a prompt that is joined from lines.
use mod_playerbot_llm.Prelude.{
  ℕ, ◌≡◌, refl, ap, Bool, true, false, List, [], ◌∷◌, ◌++◌, keep_if, ◌==◌, Bool-cases, inl, inr,
  arith, ◌⊎◌,
}
use mod_playerbot_llm.Prelude.Text.{Text}
use mod_playerbot_llm.Protocol.Context.{is_given}
use mod_playerbot_llm.Generation.Fences.{
  is_line_break, push, lines_of, splitlines, fence_length, neutralised,
}
use mod_playerbot_llm.Generation.Fences.Neutral.{Unfenced}
use mod_playerbot_llm.Generation.Fences.Plain.{is_plain, is_unbroken, neutralised-plain, plain_both}
use mod_playerbot_llm.Generation.Fences.Quoted.{sub_fences-Unfenced}
use mod_playerbot_llm.Generation.Fences.Lines.{first_line, later_lines, fence_first}

feed_breaks : is_line_break 10 ≡ true
unfolding is_line_break
feed_breaks = refl

-- A line feed ends a line and any other character of the text stands in one.
break_cases :
    (c : ℕ) (cs : Text)
    → is_plain (c ∷ cs) ≡ true
    → (c ≡ 10) ⊎ (((c == 10) ≡ false) × (is_line_break c ≡ false))
break_cases c cs h = elim (Bool-cases (c == 10)) [
  | inl line_feed ↦ inl (ground arith)
  | inr inside ↦ let h' = rw inside at h in inr (inside, ground arith)
]

plain_rest : (c : ℕ) (cs : Text) → is_plain (c ∷ cs) ≡ true → is_plain cs ≡ true
plain_rest c cs h = ground arith

abbrev is_empty_list : List Text → Bool
is_empty_list [] = true
is_empty_list (line ∷ lines) = false

pushed : (c : ℕ) (lines : List Text) → is_empty_list (push c lines) ≡ false
pushed c [] = refl
pushed c (line ∷ lines) = refl

lines_split :
    (c : ℕ) (cs : Text)
    → is_plain (c ∷ cs) ≡ true
    → lines_of (c ∷ cs) ≡ first_line (c ∷ cs) ∷ later_lines (c ∷ cs)
lines_split c [] h = elim (break_cases c [] h) [
  | inl same ↦ rw (same, feed_breaks) refl
  | inr (inside, kept) ↦ rw (kept, inside) refl
]
lines_split c (d ∷ ds) h = elim (break_cases c (d ∷ ds) h) [
  | inl same ↦ rw (same, feed_breaks) refl
  | inr (inside, kept) ↦
      rw (kept, inside) (ap (push c) (lines_split d ds (plain_rest c (d ∷ ds) h)))
]

push_append :
    (c : ℕ) (lines others : List Text)
    → is_empty_list lines ≡ false
    → push c (lines ++ others) ≡ push c lines ++ others
push_append c [] others h = cc
push_append c (line ∷ lines) others h = refl

ended_line : (xs : Text) → is_empty_list (lines_of (xs ++ 10 ∷ [])) ≡ false
ended_line [] = rw feed_breaks refl
ended_line (x ∷ xs) = elim (Bool-cases (is_line_break x)) [
  | inl break ↦ rw break refl
  | inr kept ↦ rw kept (pushed x (lines_of (xs ++ 10 ∷ [])))
]

pub lines_of-append :
    (xs ys : Text) → lines_of (xs ++ 10 ∷ ys) ≡ lines_of (xs ++ 10 ∷ []) ++ lines_of ys
lines_of-append [] ys = rw feed_breaks refl
lines_of-append (x ∷ xs) ys = elim (Bool-cases (is_line_break x)) [
  | inl break ↦ rw (break, lines_of-append xs ys) refl
  | inr kept ↦ rw (kept, lines_of-append xs ys) (push_append x _ (lines_of ys) (ended_line xs))
]

pub lines_of-unbroken_line :
    (line : Text) → is_unbroken line ≡ true → lines_of (line ++ 10 ∷ []) ≡ line ∷ []
lines_of-unbroken_line [] h = rw feed_breaks refl
lines_of-unbroken_line (c ∷ cs) h = elim (Bool-cases (is_line_break c)) [
  | inl break ↦ let h' = rw break at h in cc
  | inr kept ↦ let h' = rw kept at h in rw (kept, lines_of-unbroken_line cs h') refl
]

first_line-ended : (text : Text) → first_line (text ++ 10 ∷ []) ≡ first_line text
first_line-ended [] = refl
first_line-ended (c ∷ cs) = ground (arith, first_line-ended cs)

module _ (is_word : ℕ → Bool) where
  abbrev pub is_marker : Text → Bool
  is_marker line = is_given (fence_length is_word line)

  -- The lines of a message that look like a fence, wherever Python breaks lines.
  abbrev pub seen : Text → List Text
  seen message = keep_if is_marker (splitlines message)

  blank_line : is_marker [] ≡ false
  unfolding fence_length
  blank_line = refl

  module _ (line_feed_apart : is_word 10 ≡ false) where
    quiet_lines :
        (text : Text)
        → Unfenced is_word true text
        → is_plain (text ++ 10 ∷ []) ≡ true
        → keep_if is_marker (later_lines (text ++ 10 ∷ [])) ≡ []
        → keep_if is_marker (lines_of (text ++ 10 ∷ [])) ≡ []
    quiet_lines [] u h later = rw (feed_breaks, blank_line) refl
    quiet_lines (c ∷ cs) u h later =
        let first : is_marker (first_line (c ∷ (cs ++ 10 ∷ []))) ≡ false =
          rw (first_line-ended (c ∷ cs))
            (fence_first is_word line_feed_apart (c ∷ cs) (u.0 refl)) in
        rw (lines_split c (cs ++ 10 ∷ []) h) (rw (first, later) refl)

    Unfenced-inside : (text : Text) → Unfenced is_word true text → Unfenced is_word false text
    Unfenced-inside [] u = u
    Unfenced-inside (c ∷ cs) u = (λ h. cc, u.1)

    quiet_later :
        (text : Text)
        → Unfenced is_word false text
        → is_plain (text ++ 10 ∷ []) ≡ true
        → keep_if is_marker (later_lines (text ++ 10 ∷ [])) ≡ []
    quiet_later [] u h = refl
    quiet_later (c ∷ cs) u h = elim (break_cases c (cs ++ 10 ∷ []) h) [
      | inl same ↦
          let below = rw same at u.1 in
          let h' = plain_rest c (cs ++ 10 ∷ []) h in
          rw same (quiet_lines cs below h' (quiet_later cs (Unfenced-inside cs below) h'))
      | inr (inside, kept) ↦
          rw inside (quiet_later cs (rw inside at u.1) (plain_rest c (cs ++ 10 ∷ []) h))
    ]

    -- A neutralised body shows no fence.
    pub neutralised-quiet :
        (body : Text) → keep_if is_marker (lines_of (neutralised is_word body ++ 10 ∷ [])) ≡ []
    unfolding neutralised
    neutralised-quiet body =
        let text = neutralised is_word body in
        let plain = plain_both text (10 ∷ []) (neutralised-plain is_word body) refl in
        let unfenced = sub_fences-Unfenced is_word _ in
        quiet_lines text unfenced plain (quiet_later text (Unfenced-inside text unfenced) plain)
