-- ===== src/Generation.antt =====
-- sidecar/src/playerbots_llm/generation.py: the deterministic gates between a provider's structured output
-- and the answer that may be sent.
pub mod Memory
pub mod Answered
pub mod Biographies
pub mod Career
pub mod Citations
pub mod Fences
pub mod Gates
pub mod Gestures
pub mod Grounding
pub mod Messages
pub mod Replies
pub mod Sending
pub mod Speech
pub mod Words
use mod_playerbot_llm.Prelude.{
  ℕ, Bool, List, [], ◌∷◌, any, Option, none, some, Result, ok, err, if◌then◌else◌, ◌==◌,
}
use mod_playerbot_llm.Prelude.Text.{Text, codes}

-- Why a generated answer was refused; `uncategorized` is a refusal that names no category.
pub data ModerationCategory : Type 0 where
  empty not_one_line too_long broke_character document_structure transcript forbidden_claim :
      ModerationCategory
  unsafe_content targeted_repetition quoted_thread carried_secret unknown_emote
        emote_channel_illegal :
      ModerationCategory
  unknown_subject scope_mismatch unknown_evidence evidence_subject_mismatch supplied_fact_question :
      ModerationCategory
  generic_filler adopted_accomplishment uncited_current_claim contradicted_evidence
        unavailable_content :
      ModerationCategory
  irrelevant_contribution uncategorized : ModerationCategory

-- What a gate returns: the `GenerationInvalidOutputError` of a refusal carries its category.
abbrev pub Gate : Type 0 → Type 0
Gate A = Result ModerationCategory A

abbrev pub is_allowed : List ℕ → ℕ → Bool
is_allowed values n = any (λ v. v == n) values

-- The tests of a gate in order: the first that is true refuses with its category.
abbrev pub refuse_first : {A : Type 0} → List (Bool × ModerationCategory) → Gate A → Gate A
refuse_first [] rest = rest
refuse_first ((test, category) ∷ rows) rest =
    let later = refuse_first rows rest in if test then err category else later

-- Some entry of the list has the property.
pub data Offered {A : Type 0} (P : A → Type 0) : List A → Type 0 where
  first_offer : (x : A) (xs : List A) → P x → Offered P (x ∷ xs)
  later_offer : (x : A) (xs : List A) → Offered P xs → Offered P (x ∷ xs)
