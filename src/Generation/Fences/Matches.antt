-- ===== src/Generation/Fences/Matches.antt =====
-- What `_FENCE_LINE.sub` of generation.py leaves of one match, part by part.
use mod_playerbot_llm.Prelude.{
  ℕ, suc, ◌≡◌, refl, Bool, true, false, Option, none, some, [], ◌∷◌, ◌++◌, all, leb, ◌==◌,
  Bool-cases, inl, inr, arith, not, ◌⊎◌,
}
use mod_playerbot_llm.Prelude.Text.{Text, codes}
use mod_playerbot_llm.Protocol.{is_space}
use mod_playerbot_llm.Protocol.Context.{is_given}
use mod_playerbot_llm.Generation.Fences.{
  matches_letter, longer, or_else, rest_length, word_length, gap_length, equals_length,
  fence_length, as_dash, sub_fences,
}
use mod_playerbot_llm.Generation.Fences.Neutral.{Unfenced, given_longer}

longer-some :
    (found : Option ℕ) (n : ℕ) → longer found ≡ some n → (m : ℕ) × ((found ≡ some m) × (n ≡ suc m))
longer-some none n h = cc
longer-some (some m) n h = (m, (refl, cc))

or_else-some : (a b : Option ℕ) (n : ℕ) → or_else a b ≡ some n → (a ≡ some n) ⊎ (b ≡ some n)
or_else-some none b n h = inr h
or_else-some (some m) b n h = inl h

module _ (is_word : ℕ → Bool) where
  abbrev pub sub : ℕ → Text → Text
  sub count text = sub_fences is_word false count text

  -- What the replacement leaves behind, wherever in a match it stands.
  pub record IsSafe (rest : Text) : Type 0 where
    pub copied : (at_start : Bool) → Unfenced is_word at_start (sub_fences is_word at_start 0 rest)
    pub tailed : Unfenced is_word false (sub (rest_length rest) rest)
    pub worded :
        (letters : Text) (n : ℕ)
        → all (leb 65) letters ≡ true
        → word_length is_word letters rest ≡ some n
        → Unfenced is_word false (sub n rest)
    pub gapped : (n : ℕ) → gap_length is_word rest ≡ some n → Unfenced is_word true (sub n rest)
    pub equalled :
        (n : ℕ) → equals_length is_word rest ≡ some n → Unfenced is_word true (sub n rest)
    pub matched : (n : ℕ) → fence_length is_word rest ≡ some n → Unfenced is_word true (sub n rest)

  Unfenced-start :
      (text : Text) → Unfenced is_word true text → is_given (fence_length is_word text) ≡ false
  unfolding fence_length
  Unfenced-start [] u = refl
  Unfenced-start (c ∷ cs) u = u.0 refl

  pub Unfenced-later :
      (at_start : Bool) (text : Text) → Unfenced is_word true text → Unfenced is_word at_start text
  Unfenced-later at_start [] u = u
  Unfenced-later at_start (c ∷ cs) u = (λ h. u.0 refl, u.1)

  pub Unfenced-after :
      (prefix text : Text)
      → all (λ c. not (c == 10)) prefix ≡ true
      → Unfenced is_word false text
      → Unfenced is_word false (prefix ++ text)
  Unfenced-after [] text inner u = u
  Unfenced-after (c ∷ cs) text inner u =
      let inside : (c == 10) ≡ false = ground arith in
      (λ h. cc, rw inside (Unfenced-after cs text (ground arith) u))

  pub tailed_step :
      (c : ℕ) (cs : Text)
      → IsSafe cs
      → ((at_start : Bool) → Unfenced is_word at_start (sub_fences is_word at_start 0 (c ∷ cs)))
      → Unfenced is_word false (sub (rest_length (c ∷ cs)) (c ∷ cs))
  unfolding sub_fences
  tailed_step c cs safe copied = elim (Bool-cases (c == 10)) [
    | inl line_feed ↦ rw line_feed (copied false)
    | inr inside ↦
        let kept : (as_dash c == 10) ≡ false = ground arith in
        rw inside (λ h. cc, rw kept safe.tailed)
  ]

  pub worded_step :
      (c : ℕ) (cs letters : Text) (n : ℕ)
      → IsSafe cs
      → Unfenced is_word false (sub (rest_length (c ∷ cs)) (c ∷ cs))
      → all (leb 65) letters ≡ true
      → word_length is_word letters (c ∷ cs) ≡ some n
      → Unfenced is_word false (sub n (c ∷ cs))
  unfolding sub_fences
  worded_step c cs [] n safe tailed ls h = elim (Bool-cases (is_word c)) [
    | inl w ↦ let h' = rw w at h in cc
    | inr w ↦
        let h' = rw w at h in
        let same : rest_length (c ∷ cs) ≡ n = ground arith in rw (← same) tailed
  ]
  worded_step c cs (letter ∷ letters) n safe tailed ls h =
      elim (Bool-cases (matches_letter letter c)) [
        | inr m ↦ let h' = rw m at h in cc
        | inl m ↦
            let h' = rw m at h in
            let (k, (found, e)) = longer-some (word_length is_word letters cs) n h' in
            let kept : (as_dash c == 10) ≡ false = ground arith in
            rw e (λ h. cc, rw kept (safe.worded letters k (ground arith) found))
      ]

  -- A heading begins with a letter.
  capital :
      (letter c : ℕ) (cs letters : Text) (n : ℕ)
      → leb 65 letter ≡ true
      → word_length is_word (letter ∷ letters) (c ∷ cs) ≡ some n
      → (m : ℕ) × ((n ≡ suc m) × ((c == 61) ≡ false))
  capital letter c cs letters n l h = elim (Bool-cases (matches_letter letter c)) [
    | inr m ↦ let h' = rw m at h in cc
    | inl m ↦
        let h' = rw m at h in
        let (k, (found, e)) = longer-some (word_length is_word letters cs) n h' in
        (k, (e, ground arith))
  ]

  headed_by :
      (letter c : ℕ) (cs letters : Text) (n : ℕ)
      → IsSafe cs
      → Unfenced is_word false (sub (rest_length (c ∷ cs)) (c ∷ cs))
      → is_space c ≡ false
      → all (leb 65) (letter ∷ letters) ≡ true
      → word_length is_word (letter ∷ letters) (c ∷ cs) ≡ some n
      → Unfenced is_word true (sub n (c ∷ cs))
  unfolding sub_fences fence_length
  headed_by letter c cs letters n safe tailed solid ls h =
      let (k, (e, other)) = capital letter c cs letters n (ground arith) h in
      let text = worded_step c cs (letter ∷ letters) n safe tailed ls h in
      let text' = rw e at text in rw e (λ at_start. rw (other, solid, other) refl, text'.1)

  spaced :
      (c : ℕ) (cs : Text) (n : ℕ)
      → is_space c ≡ true
      → Unfenced is_word true (sub n cs)
      → Unfenced is_word true (sub (suc n) (c ∷ cs))
  unfolding sub_fences fence_length
  spaced c cs n space u =
      let other : (c == 61) ≡ false = ground arith in
      let nothing = Unfenced-start (sub n cs) u in
      rw other (
        λ h. rw (space, given_longer (fence_length is_word (sub n cs))) nothing,
        Unfenced-later (c == 10) (sub n cs) u,
      )

  dashed :
      (c : ℕ) (cs : Text) (n : ℕ)
      → (c == 61) ≡ true
      → Unfenced is_word true (sub n cs)
      → Unfenced is_word true (sub (suc n) (c ∷ cs))
  unfolding sub_fences fence_length
  dashed c cs n sign u = rw sign (λ h. refl, Unfenced-later false (sub n cs) u)

  pub gapped_step :
      (c : ℕ) (cs : Text) (n : ℕ)
      → IsSafe cs
      → Unfenced is_word false (sub (rest_length (c ∷ cs)) (c ∷ cs))
      → gap_length is_word (c ∷ cs) ≡ some n
      → Unfenced is_word true (sub n (c ∷ cs))
  gapped_step c cs n safe tailed h = elim (Bool-cases (is_space c)) [
    | inl space ↦
        let h' = rw space at h in
        let (k, (found, e)) = longer-some (gap_length is_word cs) n h' in
        rw e (spaced c cs k space (safe.gapped k found))
    | inr solid ↦
        let h' = rw solid at h in
        elim (or_else-some (word_length is_word (codes "UNTRUSTED") (c ∷ cs))
          (word_length is_word (codes "TRUSTED") (c ∷ cs)) n h') [
            | inl u ↦ headed_by 85 c cs (codes "NTRUSTED") n safe tailed solid refl u
            | inr t ↦ headed_by 84 c cs (codes "RUSTED") n safe tailed solid refl t
          ]
  ]

  pub equalled_step :
      (c : ℕ) (cs : Text) (n : ℕ)
      → IsSafe cs
      → Unfenced is_word false (sub (rest_length (c ∷ cs)) (c ∷ cs))
      → equals_length is_word (c ∷ cs) ≡ some n
      → Unfenced is_word true (sub n (c ∷ cs))
  equalled_step c cs n safe tailed h = elim (Bool-cases (c == 61)) [
    | inr other ↦ let h' = rw other at h in gapped_step c cs n safe tailed h'
    | inl sign ↦
        let h' = rw sign at h in
        let (k, (found, e)) = longer-some (equals_length is_word cs) n h' in
        rw e (dashed c cs k sign (safe.equalled k found))
  ]

  -- A match is not empty.
  pub matched_step :
      (c : ℕ) (cs : Text) (n : ℕ)
      → IsSafe cs
      → fence_length is_word (c ∷ cs) ≡ some n
      → (k : ℕ) × ((n ≡ suc k) × Unfenced is_word true (sub n (c ∷ cs)))
  unfolding fence_length
  matched_step c cs n safe h = elim (Bool-cases (is_space c)) [
    | inl space ↦
        let h' = rw space at h in
        let (k, (found, e)) = longer-some (fence_length is_word cs) n h' in
        (k, (e, rw e (spaced c cs k space (safe.matched k found))))
    | inr solid ↦ elim (Bool-cases (c == 61)) [
      | inr other ↦ let h' = rw (solid, other) at h in cc
      | inl sign ↦
          let h' = rw (solid, sign) at h in
          let (k, (found, e)) = longer-some (equals_length is_word cs) n h' in
          (k, (e, rw e (dashed c cs k sign (safe.equalled k found))))
    ]
  ]
