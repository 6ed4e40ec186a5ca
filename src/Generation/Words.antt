-- ===== src/Generation/Words.antt =====
-- The tests of a text in generation.py: words, repetition, and what is left of a line without its punctuation.
-- Python's case folding, its `\w` and its search for a pattern are the standard library's, and the lists of
-- words and patterns are data: arguments.
use mod_playerbot_llm.Prelude.{
  ℕ, zero, suc, Bool, false, not, ◌&&◌, ◌||◌, List, [], ◌∷◌, ◌++◌, any, all, length, ltb, ◌==◌,
  if◌then◌else◌, keep_if, drop,
}
use mod_playerbot_llm.Prelude.Text.{Text, codes, text_eq}
use mod_playerbot_llm.Protocol.{is_empty}
use mod_playerbot_llm.Generation.Memory.{strip, starts_with}

pub record TextLibrary : Type 0 where
  pub casefold : Text → Text
  pub is_word : ℕ → Bool
  pub search : Text → Text → Bool
  pub search_ignoring_case : Text → Text → Bool

pub record ForbiddenTexts : Type 0 where
  pub slur_terms : List Text
  pub unsafe_content_patterns : List Text
  pub forbidden_claim_terms : List Text
  pub memory_forbidden_patterns : List Text

abbrev replicate : ℕ → ℕ → Text
replicate zero c = []
replicate (suc n) c = c ∷ replicate n c

-- The text after the first `: `, or nothing where there is none.
abbrev pub after_colon : Text → Text
after_colon [] = []
after_colon (c ∷ cs) =
    let rest = after_colon cs in if starts_with (codes ": ") (c ∷ cs) then drop 1 cs else rest

abbrev pub nonempty_or : Text → Text → Text
nonempty_or text other = if is_empty text then other else text

module _ (lib : TextLibrary) where
  abbrev pub begins_word : Text → Bool
  begins_word [] = false
  begins_word (c ∷ cs) = lib.is_word c

  -- The term stands here and no word character follows it.
  abbrev pub word_here : Text → Text → Bool
  word_here term text = starts_with term text && not (begins_word (drop (length term) text))

  -- `re.search(rf"(?<!\w){re.escape(term)}(?!\w)", text)`, after a character that is or is not of a word.
  unfoldable pub has_word : Text → Bool → Text → Bool
  has_word term inside [] = not inside && word_here term []
  has_word term inside (c ∷ cs) =
      (not inside && word_here term (c ∷ cs)) || has_word term (lib.is_word c) cs

  -- `_unsafe_content_reason`, its reason as a truth value.
  unfoldable pub unsafe_content : ForbiddenTexts → Text → Bool
  unsafe_content forbidden text =
      let lowered = lib.casefold text in
      any (λ term. has_word term false lowered) forbidden.slur_terms
      || any (λ pattern. lib.search pattern lowered) forbidden.unsafe_content_patterns

  -- `_contains_forbidden_claim`
  unfoldable pub contains_forbidden_claim : ForbiddenTexts → Text → Bool
  contains_forbidden_claim forbidden text =
      any (λ term. has_word term false (lib.casefold text)) forbidden.forbidden_claim_terms

  abbrev pub carries_secret : ForbiddenTexts → Text → Bool
  carries_secret forbidden text =
      any (λ pattern. lib.search_ignoring_case pattern text) forbidden.memory_forbidden_patterns

  abbrev pub end_word : Text → List Text → List Text
  end_word word rest = if is_empty word then rest else word ∷ rest

  -- `re.findall(r"\w+", text)`, after the beginning of a word.
  unfoldable pub words_from : Text → Text → List Text
  words_from word [] = end_word word []
  words_from word (c ∷ cs) =
      let inside = words_from (word ++ c ∷ []) cs in
      let outside = end_word word (words_from [] cs) in if lib.is_word c then inside else outside

  -- `re.search(r"(\w)\1{9,}", text)`
  unfoldable pub held_down : Text → Bool
  held_down [] = false
  held_down (c ∷ cs) = (lib.is_word c && starts_with (replicate 9 c) cs) || held_down cs

  abbrev pub one_word_again : List Text → Bool
  one_word_again [] = false
  one_word_again (w ∷ ws) = ltb 2 (length ws) && all (text_eq w) ws

  -- `_is_targeted_repetition`
  unfoldable pub is_targeted_repetition : Text → Bool
  is_targeted_repetition text = one_word_again (words_from [] (lib.casefold text)) || held_down text

  -- `_normalized`
  unfoldable pub normalized : Text → Text
  normalized line =
      strip (
        lib.casefold
          (keep_if (λ c. lib.is_word c || c == 32) (nonempty_or (after_colon line) line)))
