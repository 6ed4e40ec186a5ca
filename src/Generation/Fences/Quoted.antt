-- ===== src/Generation/Fences/Quoted.antt =====
-- What `_FENCE_LINE.sub` of generation.py leaves at the start of each line.
use mod_playerbot_llm.Prelude.{
  ℕ, ◌-◌, ◌≡◌, refl, Bool, true, false, ◌&&◌, some, [], ◌∷◌, ◌++◌, ◌==◌, Bool-cases, Option-cases,
  inl, inr, arith,
}
use mod_playerbot_llm.Prelude.Text.{Text, codes}
use mod_playerbot_llm.Protocol.Context.{is_given}
use mod_playerbot_llm.Generation.Fences.{fence_length, as_dash, sub_fences}
use mod_playerbot_llm.Generation.Fences.Neutral.{Unfenced, fence_stays}
use mod_playerbot_llm.Generation.Fences.Matches.{
  IsSafe, sub, Unfenced-later, Unfenced-after, tailed_step, worded_step, gapped_step, equalled_step,
  matched_step,
}

module _ (is_word : ℕ → Bool) where
  bracket_start : (text : Text) → is_given (fence_length is_word (91 ∷ text)) ≡ false
  unfolding fence_length
  bracket_start text = refl

  quoted_step :
      (at_start : Bool) (c : ℕ) (cs : Text) (n : ℕ)
      → IsSafe is_word cs
      → fence_length is_word (c ∷ cs) ≡ some n
      → Unfenced is_word at_start (codes "[quoted marker] " ++ as_dash c ∷ sub is_word (n - 1) cs)
  unfolding sub_fences
  quoted_step at_start c cs n safe found =
      let (k, (e, text)) = matched_step is_word c cs n safe found in
      let text' = rw e at text in
      let shorter : n - 1 ≡ k = omega arith in
      (
        λ h. bracket_start _,
        rw shorter (
            Unfenced-after is_word (codes "quoted marker] ") (as_dash c ∷ sub is_word k cs) refl
              (Unfenced-later is_word false (as_dash c ∷ sub is_word k cs) text')),
      )

  copied_step :
      (at_start : Bool) (c : ℕ) (cs : Text)
      → IsSafe is_word cs
      → Unfenced is_word at_start (sub_fences is_word at_start 0 (c ∷ cs))
  unfolding sub_fences
  copied_step at_start c cs safe =
      elim (Bool-cases (at_start && is_given (fence_length is_word (c ∷ cs)))) [
        | inr kept ↦
            let nothing : at_start ≡ true → is_given (fence_length is_word (c ∷ cs)) ≡ false =
              λ s. rw s at kept in
            rw kept (
              λ s. rw kept at (fence_stays is_word at_start (c ∷ cs) (nothing s)),
              safe.copied (c == 10),
            )
        | inl quoted ↦ rw quoted (elim (Option-cases (fence_length is_word (c ∷ cs))) [
          | inl nothing ↦
              let quoted' : (at_start && false) ≡ true = rw nothing at quoted in ground arith
          | inr (n, found) ↦ rw found (quoted_step at_start c cs n safe found)
        ])
      ]

  is_safe : (text : Text) → IsSafe is_word text
  unfolding sub_fences fence_length
  is_safe [] = record {
    copied = λ at_start. tt;
    tailed = tt;
    worded = λ letters n ls h. tt;
    gapped = λ n h. tt;
    equalled = λ n h. tt;
    matched = λ n h. tt;
  }
  is_safe (c ∷ cs) =
      let safe = is_safe cs in
      let copied : (at_start : Bool)
          → Unfenced is_word at_start (sub_fences is_word at_start 0 (c ∷ cs)) =
        λ at_start. copied_step at_start c cs safe in
      let tailed = tailed_step is_word c cs safe copied in
      record {
        copied = copied;
        tailed = tailed;
        worded = λ letters n ls h. worded_step is_word c cs letters n safe tailed ls h;
        gapped = λ n h. gapped_step is_word c cs n safe tailed h;
        equalled = λ n h. equalled_step is_word c cs n safe tailed h;
        matched = λ n h. (matched_step is_word c cs n safe h).1.1;
      }

  pub sub_fences-Unfenced : (text : Text) → Unfenced is_word true (sub_fences is_word true 0 text)
  sub_fences-Unfenced text = (is_safe text).copied true
