-- ===== src/Generation/Fences/Neutral.antt =====
-- Text that `_FENCE_LINE` of generation.py does not match, before and after the replacement.
use mod_playerbot_llm.Prelude.{
  and_false, ℕ, ◌≡◌, refl, Bool, true, false, ◌&&◌, ◌||◌, Option, none, some, [], ◌∷◌, all, leb,
  ◌==◌, Bool-cases, inl, inr, arith,
}
use mod_playerbot_llm.Prelude.Text.{Text, codes}
use mod_playerbot_llm.Protocol.{is_space}
use mod_playerbot_llm.Protocol.Context.{is_given}
use mod_playerbot_llm.Generation.Fences.{
  matches_letter, longer, or_else, word_length, heading_length, gap_length, equals_length,
  fence_length, sub_fences,
}

pub given_longer : (found : Option ℕ) → is_given (longer found) ≡ is_given found
given_longer none = refl
given_longer (some n) = refl

pub given_or_else : (a b : Option ℕ) → is_given (or_else a b) ≡ is_given a || is_given b
given_or_else none b = refl
given_or_else (some n) b = refl

module _ (is_word : ℕ → Bool) where
  -- No line from here on begins with a match of `_FENCE_LINE`.
  abbrev pub Unfenced : Bool → Text → Type 0
  Unfenced at_start [] = Unit
  Unfenced at_start (c ∷ cs) =
      (at_start ≡ true → is_given (fence_length is_word (c ∷ cs)) ≡ false) × Unfenced (c == 10) cs

  -- A text that is not matched is not matched after the replacement of what follows it.
  word_stays :
      (letters rest : Text)
      → all (leb 65) letters ≡ true
      → is_given (word_length is_word letters rest) ≡ false
      → is_given (word_length is_word letters (sub_fences is_word false 0 rest)) ≡ false
  unfolding sub_fences
  word_stays [] [] ls h = h
  word_stays [] (c ∷ cs) ls h = elim (Bool-cases (is_word c)) [
    | inl w ↦ rw w refl
    | inr w ↦ let h' = rw w at h in cc
  ]
  word_stays (letter ∷ letters) [] ls h = refl
  word_stays (letter ∷ letters) (c ∷ cs) ls h = elim (Bool-cases (matches_letter letter c)) [
    | inr m ↦ rw m refl
    | inl m ↦
        let inner : (c == 10) ≡ false = ground arith in
        let h' = rw (m, given_longer (word_length is_word letters cs)) at h in
        rw (m, inner)
          (rw (given_longer (word_length is_word letters (sub_fences is_word false 0 cs)))
            (word_stays letters cs (ground arith) h'))
  ]

  heading_stays :
      (rest : Text)
      → is_given (heading_length is_word rest) ≡ false
      → is_given (heading_length is_word (sub_fences is_word false 0 rest)) ≡ false
  heading_stays rest h =
      let text = sub_fences is_word false 0 rest in
      let untrusted = word_length is_word (codes "UNTRUSTED") in
      let trusted = word_length is_word (codes "TRUSTED") in
      let h' = rw (given_or_else (untrusted rest) (trusted rest)) at h in
      rw (given_or_else (untrusted text) (trusted text)) (
        rw (word_stays (codes "UNTRUSTED") rest refl (ground arith))
          (word_stays (codes "TRUSTED") rest refl (ground arith)))

  gap_stays :
      (at_start : Bool) (rest : Text)
      → is_given (gap_length is_word rest) ≡ false
      → is_given (gap_length is_word (sub_fences is_word at_start 0 rest)) ≡ false
  unfolding sub_fences
  gap_stays at_start [] h = refl
  gap_stays at_start (c ∷ cs) h =
      elim (Bool-cases (at_start && is_given (fence_length is_word (c ∷ cs)))) [
        | inl quoted ↦ rw quoted refl
        | inr copied ↦ rw copied (elim (Bool-cases (is_space c)) [
          | inr solid ↦ let h' = rw solid at h in rw solid (heading_stays (c ∷ cs) h')
          | inl space ↦
              let h' = rw (space, given_longer (gap_length is_word cs)) at h in
              rw (space, given_longer (gap_length is_word (sub_fences is_word (c == 10) 0 cs)))
                (gap_stays (c == 10) cs h')
        ])
      ]

  equals_stays :
      (rest : Text)
      → is_given (equals_length is_word rest) ≡ false
      → is_given (equals_length is_word (sub_fences is_word false 0 rest)) ≡ false
  unfolding sub_fences
  equals_stays [] h = refl
  equals_stays (c ∷ cs) h = elim (Bool-cases (c == 61)) [
    | inr other ↦ let h' = rw other at h in rw other (gap_stays false (c ∷ cs) h')
    | inl sign ↦
        let inner : (c == 10) ≡ false = ground arith in
        let h' = rw (sign, given_longer (equals_length is_word cs)) at h in
        rw (sign, inner)
          (rw (given_longer (equals_length is_word (sub_fences is_word false 0 cs)))
            (equals_stays cs h'))
  ]

  pub fence_stays :
      (at_start : Bool) (rest : Text)
      → is_given (fence_length is_word rest) ≡ false
      → is_given (fence_length is_word (sub_fences is_word at_start 0 rest)) ≡ false
  unfolding sub_fences fence_length
  fence_stays at_start [] h = refl
  fence_stays at_start (c ∷ cs) h =
      let copied : (at_start && is_given (fence_length is_word (c ∷ cs))) ≡ false =
        rw h (and_false at_start) in
      rw copied (elim (Bool-cases (is_space c)) [
        | inl space ↦
            let h' = rw (space, given_longer (fence_length is_word cs)) at h in
            rw (space, given_longer (fence_length is_word (sub_fences is_word (c == 10) 0 cs)))
              (fence_stays (c == 10) cs h')
        | inr solid ↦ elim (Bool-cases (c == 61)) [
          | inr other ↦ rw (solid, other) refl
          | inl sign ↦
              let inner : (c == 10) ≡ false = ground arith in
              let h' = rw (solid, sign, given_longer (equals_length is_word cs)) at h in
              rw (solid, sign, inner)
                (rw (given_longer (equals_length is_word (sub_fences is_word false 0 cs)))
                  (equals_stays cs h'))
        ]
      ])
