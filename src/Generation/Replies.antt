-- ===== src/Generation/Replies.antt =====
-- `_one_coherent_answer` and `validate_social_reply` of generation.py: the whole gate on a social reply.
use mod_playerbot_llm.Prelude.{
  ℕ, Bool, true, false, not, ◌&&◌, Option, none, some, List, [], ◌∷◌, any, length, ok, err, leb,
  ◌==◌, if◌then◌else◌,
}
use mod_playerbot_llm.Prelude.Text.{Text, codes, text_eq}
use mod_playerbot_llm.Protocol.{
  SocialRequest, SocialEvidence, is_empty, is_blank, one_of, distinct, max_social_evidence_entries,
  max_social_context_entries,
}
use mod_playerbot_llm.Protocol.Context.{SocialMemory}
use mod_playerbot_llm.Generation.{
  ModerationCategory, Gate, refuse_first, supplied_fact_question, generic_filler,
  adopted_accomplishment, uncited_current_claim, contradicted_evidence, unavailable_content,
}
use mod_playerbot_llm.Generation.Memory.{strip, rstrip, starts_with}
use mod_playerbot_llm.Generation.Words.{TextLibrary, ForbiddenTexts}
use mod_playerbot_llm.Generation.Speech.{validate_social_message, mentions}
use mod_playerbot_llm.Generation.Gestures.{validate_social_emote}
use mod_playerbot_llm.Generation.Citations.{
  SocialReply, ResponseKind, message_kind, emote_kind, silence_kind, Contribution, gesture,
  no_contribution, ClaimSubject, candidate_bot, participant, nobody, no_entries, claims_none,
  check_citations,
}

-- The compiled patterns of the file. A claim is found with the word for who makes it and the claimed value.
pub record SocialPatterns : Type 0 where
  pub supplied_fact_question : List (Text × List Text)
  pub generic_filler : Text → Bool
  pub adopted_accomplishment : Text → Bool
  pub current_claim : Text → Bool
  pub participant_current_claim : Text → Bool
  pub level_claim : Text → Option (Text × Text)
  pub location_claim : Text → Option (Text × Text)

abbrev pub is_gesture_kind : Contribution → Bool
is_gesture_kind gesture = true
is_gesture_kind other = false

abbrev pub is_no_contribution : Contribution → Bool
is_no_contribution no_contribution = true
is_no_contribution other = false

abbrev pub cites_no_one : SocialReply → Bool
cites_no_one reply =
    claims_none reply.claim_subject
    && (no_entries reply.cited_evidence_ids && no_entries reply.cited_memory_ids)

abbrev pub coherent_kind : ResponseKind → SocialReply → Bool
coherent_kind message_kind reply =
    (not (is_blank reply.message) && is_empty reply.emote)
    && (not (is_gesture_kind reply.contribution) && not (is_no_contribution reply.contribution))
coherent_kind emote_kind reply =
    (is_blank reply.message && (not (is_empty reply.emote) && is_gesture_kind reply.contribution))
    && cites_no_one reply
coherent_kind silence_kind reply =
    (is_blank reply.message && (is_empty reply.emote && is_no_contribution reply.contribution))
    && cites_no_one reply

-- `_one_coherent_answer`
unfoldable pub is_one_coherent_answer : SocialReply → Bool
is_one_coherent_answer reply =
    (leb (length reply.cited_evidence_ids) max_social_evidence_entries
      && distinct reply.cited_evidence_ids)
    && ((leb (length reply.cited_memory_ids) max_social_context_entries
          && distinct reply.cited_memory_ids)
        && coherent_kind reply.response_kind reply)

-- `expected_speaker`
abbrev pub expected_speaker : ClaimSubject → Text
expected_speaker candidate_bot = codes "i"
expected_speaker participant = codes "you"
expected_speaker nobody = codes "you"

abbrev pub values_of : (SocialEvidence → Text) → List Text → List SocialEvidence → List Text
values_of value facts [] = []
values_of value facts (e ∷ es) =
    let rest = values_of value facts es in if one_of facts e.fact then value e ∷ rest else rest

-- What a found claim must be cited with.
abbrev pub claim_refusal : List Text → Text → Option ModerationCategory
claim_refusal [] value = some uncited_current_claim
claim_refusal (v ∷ vs) value = if one_of (v ∷ vs) value then none else some contradicted_evidence

abbrev pub first_refusal :
    Option ModerationCategory → Option ModerationCategory → Option ModerationCategory
first_refusal none second = second
first_refusal (some category) second = some category

abbrev pub unavailable_terms : ℕ → List Text
unavailable_terms expansion =
    if expansion == 0
    then codes "outland"
      ∷ codes "northrend"
      ∷ codes "blood elf"
      ∷ codes "draenei"
      ∷ codes "death knight"
      ∷ codes "lich king"
      ∷ []
    else if expansion == 1
    then codes "northrend" ∷ codes "death knight" ∷ codes "lich king" ∷ []
    else []

module _ (lib : TextLibrary) (forbidden : ForbiddenTexts) (patterns : SocialPatterns) where
  abbrev pub claim_of_speaker :
      ClaimSubject → List Text → (Text → Text) → Option (Text × Text) → Option ModerationCategory
  claim_of_speaker subject values read none = none
  claim_of_speaker subject values read (some (speaker, value)) =
      if starts_with (expected_speaker subject) (lib.casefold speaker)
      then claim_refusal values (read value)
      else none

  -- `_literal_claim_refusal`
  unfoldable pub literal_claim_refusal :
      Text → ClaimSubject → List SocialEvidence → Option ModerationCategory
  literal_claim_refusal message subject cited =
      first_refusal
        (claim_of_speaker subject (values_of (λ e. e.value) (codes "level" ∷ []) cited) (λ v. v)
          (patterns.level_claim message))
        (claim_of_speaker subject
          (values_of (λ e. lib.casefold e.value) (codes "zone" ∷ codes "area" ∷ []) cited)
          (λ v. lib.casefold (strip v)) (patterns.location_claim message))

  abbrev pub ends_with_question : Text → Bool
  ends_with_question [] = false
  ends_with_question (c ∷ []) = c == 63
  ends_with_question (c ∷ d ∷ ds) = ends_with_question (d ∷ ds)

  abbrev pub supplies : List SocialEvidence → Text → Bool
  supplies evidence fact = any (λ e. text_eq e.fact fact) evidence

  abbrev pub asks_for_supplied : List SocialEvidence → Text → Bool
  asks_for_supplied evidence lowered =
      any
        (λ (row : Text × List Text).
          supplies evidence row.0 && any (λ pattern. lib.search pattern lowered) row.1)
        patterns.supplied_fact_question

  abbrev pub refuse_category : Option ModerationCategory → Gate (Text × ℕ) → Gate (Text × ℕ)
  refuse_category none rest = rest
  refuse_category (some category) rest = err category

  abbrev pub own_evidence : List SocialEvidence → Bool
  own_evidence cited =
      any (λ e. one_of (codes "candidate_bot" ∷ codes "source" ∷ []) e.subject) cited

  abbrev pub question_tests : SocialRequest → Text → List (Bool × ModerationCategory)
  question_tests request message =
      (
        ends_with_question (rstrip message)
            && asks_for_supplied request.evidence (lib.casefold message),
        supplied_fact_question,
      )
      ∷ (patterns.generic_filler message, generic_filler)
      ∷ []

  abbrev pub claim_tests :
      SocialReply → SocialRequest → List SocialEvidence → Text → List (Bool × ModerationCategory)
  claim_tests reply request cited message =
      (patterns.adopted_accomplishment message && not (own_evidence cited), adopted_accomplishment)
      ∷ (
        mentions (unavailable_terms request.active_content_expansion) (lib.casefold message),
        unavailable_content,
      )
      ∷ (patterns.current_claim message && no_entries cited, uncited_current_claim)
      ∷ (
        not (claims_none reply.claim_subject)
            && (no_entries cited && no_entries reply.cited_memory_ids),
        uncited_current_claim,
      )
      ∷ (
        not (no_entries reply.cited_memory_ids)
            && (no_entries cited && patterns.participant_current_claim message),
        uncited_current_claim,
      )
      ∷ []

  -- What the gate asks of the text of a reply, given the evidence that it cites.
  abbrev pub check_claims :
      SocialReply → SocialRequest → List SocialEvidence → Text → Gate (Text × ℕ)
  check_claims reply request cited message = refuse_first (question_tests request message) (
      refuse_category (literal_claim_refusal message reply.claim_subject cited)
        (refuse_first (claim_tests reply request cited message) (ok (message, 0))))

  abbrev pub then_claims :
      SocialReply → SocialRequest → List SocialEvidence → Gate Text → Gate (Text × ℕ)
  then_claims reply request cited (ok message) = check_claims reply request cited message
  then_claims reply request cited (err category) = err category

  abbrev pub as_gesture : Gate ℕ → Gate (Text × ℕ)
  as_gesture (ok emote_id) = ok ([], emote_id)
  as_gesture (err category) = err category

  abbrev pub then_speak : SocialReply → SocialRequest → Gate (List SocialEvidence) → Gate (Text × ℕ)
  then_speak reply request (err category) = err category
  then_speak reply request (ok cited) =
      then_claims reply request cited (validate_social_message lib forbidden reply.message request)

  abbrev pub then_gesture :
      SocialReply → SocialRequest → Gate (List SocialEvidence) → Gate (Text × ℕ)
  then_gesture reply request (err category) = err category
  then_gesture reply request (ok cited) = as_gesture (validate_social_emote reply.emote request)

  abbrev pub validate_kind :
      ResponseKind → List SocialMemory → SocialReply → SocialRequest → Gate (Text × ℕ)
  validate_kind silence_kind memories reply request = ok ([], 0)
  validate_kind message_kind memories reply request =
      then_speak reply request (check_citations memories reply request)
  validate_kind emote_kind memories reply request =
      then_gesture reply request (check_citations memories reply request)

  -- The memories are those of the parsed context, none of them when it did not parse.
  unfoldable pub validate_social_reply :
      List SocialMemory → SocialReply → SocialRequest → Gate (Text × ℕ)
  validate_social_reply memories reply request =
      validate_kind reply.response_kind memories reply request
