-- ===== src/Generation/Fences/Lines.antt =====
-- The lines that a reader of a prompt sees, and which of them look like a fence.
use mod_playerbot_llm.Prelude.{
  ℕ, ◌≡◌, refl, Bool, true, false, List, [], ◌∷◌, all, leb, ◌==◌, if◌then◌else◌, Bool-cases, inl,
  inr, arith,
}
use mod_playerbot_llm.Prelude.Text.{Text, codes}
use mod_playerbot_llm.Protocol.{is_space}
use mod_playerbot_llm.Protocol.Context.{is_given}
use mod_playerbot_llm.Generation.Fences.{
  lines_of, matches_letter, word_length, heading_length, gap_length, equals_length, fence_length,
}
use mod_playerbot_llm.Generation.Fences.Neutral.{given_longer, given_or_else}

abbrev pub first_line : Text → Text
first_line [] = []
first_line (c ∷ cs) = let rest = c ∷ first_line cs in if c == 10 then [] else rest

abbrev pub later_lines : Text → List Text
later_lines [] = []
later_lines (c ∷ cs) = let rest = later_lines cs in if c == 10 then lines_of cs else rest

module _ (is_word : ℕ → Bool) (line_feed_apart : is_word 10 ≡ false) where
  -- A line is matched only where the text is.
  word_first :
      (letters rest : Text)
      → all (leb 65) letters ≡ true
      → is_given (word_length is_word letters rest) ≡ false
      → is_given (word_length is_word letters (first_line rest)) ≡ false
  word_first [] [] ls h = h
  word_first [] (c ∷ cs) ls h = elim (Bool-cases (c == 10)) [
    | inl line_feed ↦
        let same : c ≡ 10 = ground arith in let h' = rw (same, line_feed_apart) at h in cc
    | inr inside ↦
        rw inside
          (elim (Bool-cases (is_word c)) [ inl w ↦ rw w refl | inr w ↦ let h' = rw w at h in cc ])
  ]
  word_first (letter ∷ letters) [] ls h = refl
  word_first (letter ∷ letters) (c ∷ cs) ls h = elim (Bool-cases (c == 10)) [
    | inl line_feed ↦ rw line_feed refl
    | inr inside ↦ rw inside (elim (Bool-cases (matches_letter letter c)) [
      | inr m ↦ rw m refl
      | inl m ↦
          let h' = rw (m, given_longer (word_length is_word letters cs)) at h in
          rw (m, given_longer (word_length is_word letters (first_line cs)))
            (word_first letters cs (ground arith) h')
    ])
  ]

  heading_first :
      (rest : Text)
      → is_given (heading_length is_word rest) ≡ false
      → is_given (heading_length is_word (first_line rest)) ≡ false
  heading_first rest h =
      let text = first_line rest in
      let untrusted = word_length is_word (codes "UNTRUSTED") in
      let trusted = word_length is_word (codes "TRUSTED") in
      let h' = rw (given_or_else (untrusted rest) (trusted rest)) at h in
      rw (given_or_else (untrusted text) (trusted text)) (
        rw (word_first (codes "UNTRUSTED") rest refl (ground arith))
          (word_first (codes "TRUSTED") rest refl (ground arith)))

  gap_first :
      (rest : Text)
      → is_given (gap_length is_word rest) ≡ false
      → is_given (gap_length is_word (first_line rest)) ≡ false
  gap_first [] h = refl
  gap_first (c ∷ cs) h = elim (Bool-cases (c == 10)) [
    | inl line_feed ↦ rw line_feed refl
    | inr inside ↦ elim (Bool-cases (is_space c)) [
      | inr solid ↦
          let h' = rw solid at h in
          let headed = rw inside at (heading_first (c ∷ cs) h') in rw (inside, solid) headed
      | inl space ↦
          let h' = rw (space, given_longer (gap_length is_word cs)) at h in
          rw (inside, space, given_longer (gap_length is_word (first_line cs))) (gap_first cs h')
    ]
  ]

  equals_first :
      (rest : Text)
      → is_given (equals_length is_word rest) ≡ false
      → is_given (equals_length is_word (first_line rest)) ≡ false
  equals_first [] h = refl
  equals_first (c ∷ cs) h = elim (Bool-cases (c == 10)) [
    | inl line_feed ↦ rw line_feed refl
    | inr inside ↦ elim (Bool-cases (c == 61)) [
      | inr other ↦
          let h' = rw other at h in
          let gap = rw inside at (gap_first (c ∷ cs) h') in rw (inside, other) gap
      | inl sign ↦
          let h' = rw (sign, given_longer (equals_length is_word cs)) at h in
          rw (inside, sign, given_longer (equals_length is_word (first_line cs)))
            (equals_first cs h')
    ]
  ]

  pub fence_first :
      (rest : Text)
      → is_given (fence_length is_word rest) ≡ false
      → is_given (fence_length is_word (first_line rest)) ≡ false
  unfolding fence_length
  fence_first [] h = refl
  fence_first (c ∷ cs) h = elim (Bool-cases (c == 10)) [
    | inl line_feed ↦ rw line_feed refl
    | inr inside ↦ elim (Bool-cases (is_space c)) [
      | inl space ↦
          let h' = rw (space, given_longer (fence_length is_word cs)) at h in
          rw (inside, space, given_longer (fence_length is_word (first_line cs)))
            (fence_first cs h')
      | inr solid ↦ elim (Bool-cases (c == 61)) [
        | inr other ↦ rw (inside, solid, other) refl
        | inl sign ↦
            let h' = rw (solid, sign, given_longer (equals_length is_word cs)) at h in
            rw (inside, solid, sign, given_longer (equals_length is_word (first_line cs)))
              (equals_first cs h')
      ]
    ]
  ]
