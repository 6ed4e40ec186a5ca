-- ===== src/Protocol/Social.antt =====
-- `encode_social_response` of protocol.py: a line, a gesture, a deliberate silence or a regeneration.
use mod_playerbot_llm.Prelude.{
  ℕ, zero, suc, Bool, true, false, not, ◌&&◌, ◌||◌, List, [], ◌∷◌, ◌++◌, any, all, length, ok, ltb,
  leb, ◌==◌, if◌then◌else◌,
}
use mod_playerbot_llm.Prelude.Text.{Text, codes, text_eq}
use mod_playerbot_llm.Protocol.{
  out_of_range, bad_emote, emote_with_message, unseen_emote, bad_contribution, bad_claim_subject,
  bad_citations, bad_citation_id, bad_memory_citations, bad_memory_citation_id, incoherent_proposal,
  social_schema_version, max_social_evidence_entries, max_social_context_entries, is_empty,
  in_uint64, refuse, encoder_token, validate_response_message, one_of, distinct,
}
use mod_playerbot_llm.Protocol.Context.{is_ascii_digit}
use mod_playerbot_llm.Protocol.Encode.{number, text, Payload, Encoded, indexed}

abbrev pub social_emote_ids : List ℕ
social_emote_ids = 5 ∷ 17 ∷ 21 ∷ 23 ∷ 48 ∷ 49 ∷ 60 ∷ 67 ∷ 78 ∷ 83 ∷ 85 ∷ 163 ∷ 97 ∷ 101 ∷ 120 ∷ []

abbrev pub social_emote_channels : List ℕ
social_emote_channels = 1 ∷ 2 ∷ []

abbrev pub number_in : List ℕ → ℕ → Bool
number_in values n = any (λ v. v == n) values

abbrev six_digits : Text → Bool
six_digits cs = length cs == 6 && all is_ascii_digit cs

-- At most `more` further digits, then a point and six digits.
abbrev after_first : ℕ → Text → Bool
after_first more [] = false
after_first zero (c ∷ cs) = c == 46 && six_digits cs
after_first (suc more) (c ∷ cs) =
    let rest = after_first more cs in if c == 46 then six_digits cs else is_ascii_digit c && rest

-- The pattern ^(0|[1-9][0-9]{0,5})\.[0-9]{6}$
abbrev pub is_cost_text : Text → Bool
is_cost_text [] = false
is_cost_text (c ∷ cs) =
    if c == 48 then after_first 0 cs else (leb 49 c && leb c 57) && after_first 5 cs

-- `SocialCallMetadata` after its validation.
pub record SocialCallMetadata : Type 0 where
  pub model : Text
  pub provider_latency_ms : ℕ
  pub input_tokens : ℕ
  pub output_tokens : ℕ
  pub cache_creation_input_tokens : ℕ
  pub cache_read_input_tokens : ℕ
  pub cost_usd : Text

-- The proposal that goes with a line, a gesture or silence.
pub record Proposal : Type 0 where
  pub contribution : Text
  pub claim_subject : Text
  pub cited_evidence_ids : List Text
  pub cited_memory_ids : List Text

abbrev pub is_contribution : Text → Bool
is_contribution = one_of (
    codes "answer"
    ∷ codes "specific_reaction"
    ∷ codes "fact_free_banter"
    ∷ codes "gesture"
    ∷ codes "none"
    ∷ [])

abbrev pub is_spoken : Text → Bool
is_spoken = one_of (codes "answer" ∷ codes "specific_reaction" ∷ codes "fact_free_banter" ∷ [])

abbrev pub is_claim_subject : Text → Bool
is_claim_subject = one_of (codes "candidate_bot" ∷ codes "participant" ∷ codes "none" ∷ [])

abbrev pub no_ids : List Text → Bool
no_ids [] = true
no_ids (x ∷ xs) = false

abbrev pub claims_nothing : Proposal → Bool
claims_nothing p =
    text_eq p.claim_subject (codes "none")
    && (no_ids p.cited_evidence_ids && no_ids p.cited_memory_ids)

abbrev pub is_coherent : ℕ → Text → Proposal → Bool
is_coherent emote_id message p =
    if not (emote_id == 0)
    then text_eq p.contribution (codes "gesture") && claims_nothing p
    else if not (is_empty message)
    then is_spoken p.contribution
    else text_eq p.contribution (codes "none") && claims_nothing p

-- A gesture or a line.
abbrev pub check_answer : ℕ → ℕ → Text → Encoded → Encoded
check_answer channel emote_id message rest =
    if not (emote_id == 0)
    then refuse (not (number_in social_emote_ids emote_id)) bad_emote (
        refuse (not (is_empty message)) emote_with_message
          (refuse (not (number_in social_emote_channels channel)) unseen_emote rest))
    else if is_empty message
    then rest
    else validate_response_message message rest

abbrev social_head : ℕ → ℕ → ℕ → Text → ℕ → ℕ → Text → Payload
social_head request_token bot_guid channel message emote_id regenerate token =
    (codes "schema_version", number social_schema_version)
    ∷ (codes "token", text token)
    ∷ (codes "kind", text (codes "social"))
    ∷ (codes "social_request_token", number request_token)
    ∷ (codes "bot_guid", number bot_guid)
    ∷ (codes "speak_on_channel", number channel)
    ∷ (codes "message", text message)
    ∷ (codes "emote_id", number emote_id)
    ∷ (codes "regenerate", number regenerate)
    ∷ []

abbrev metadata_fields : SocialCallMetadata → Payload
metadata_fields m =
    (codes "model", text m.model)
    ∷ (codes "provider_latency_ms", number m.provider_latency_ms)
    ∷ (codes "input_tokens", number m.input_tokens)
    ∷ (codes "output_tokens", number m.output_tokens)
    ∷ (codes "cache_creation_input_tokens", number m.cache_creation_input_tokens)
    ∷ (codes "cache_read_input_tokens", number m.cache_read_input_tokens)
    ∷ (codes "cost_usd", text m.cost_usd)
    ∷ []

abbrev proposal_fields : Proposal → Payload
proposal_fields p =
    ((codes "contribution", text p.contribution)
      ∷ (codes "claim_subject", text p.claim_subject)
      ∷ (codes "citation_count", number (length p.cited_evidence_ids))
      ∷ indexed (codes "citation") 0 p.cited_evidence_ids)
    ++ (codes "memory_citation_count", number (length p.cited_memory_ids))
      ∷ indexed (codes "memory_citation") 0 p.cited_memory_ids

abbrev pub check_social : ℕ → ℕ → ℕ → Text → Encoded → Encoded
check_social request_token bot_guid channel token rest =
    refuse (not (in_uint64 request_token)) out_of_range (
      refuse (not (in_uint64 bot_guid)) out_of_range
        (refuse (ltb 255 channel) out_of_range (encoder_token token rest)))

-- The call with `regenerate=True`, which the service makes without metadata and without a proposal.
unfoldable pub encode_social_regeneration : ℕ → ℕ → ℕ → Text → Encoded
encode_social_regeneration request_token bot_guid channel token =
    check_social request_token bot_guid channel token
      (ok (social_head request_token bot_guid channel [] 0 1 token))

-- `str.isdigit` asks the Unicode database: its test of one character is an argument.
module _ (is_digit : ℕ → Bool) where
  abbrev pub all_digits : Text → Bool
  all_digits [] = false
  all_digits (c ∷ cs) = all is_digit (c ∷ cs)

  abbrev pub is_evidence_id : Text → Bool
  is_evidence_id [] = false
  is_evidence_id (c ∷ cs) = c == 103 && all_digits cs

  abbrev pub starts_zero : Text → Bool
  starts_zero [] = false
  starts_zero (c ∷ cs) = c == 48

  abbrev pub is_memory_id : Text → Bool
  is_memory_id [] = false
  is_memory_id (c ∷ cs) = c == 109 && (not (starts_zero cs) && all_digits cs)

  abbrev pub check_proposal : ℕ → Text → Proposal → Encoded → Encoded
  check_proposal emote_id message p rest =
      refuse (not (is_contribution p.contribution)) bad_contribution (
        refuse (not (is_claim_subject p.claim_subject)) bad_claim_subject (
          refuse
            (ltb max_social_evidence_entries (length p.cited_evidence_ids)
              || not (distinct p.cited_evidence_ids))
            bad_citations
            (refuse (not (all is_evidence_id p.cited_evidence_ids)) bad_citation_id (
              refuse
                (ltb max_social_context_entries (length p.cited_memory_ids)
                  || not (distinct p.cited_memory_ids))
                bad_memory_citations
                (refuse (not (all is_memory_id p.cited_memory_ids)) bad_memory_citation_id
                  (refuse (not (is_coherent emote_id message p)) incoherent_proposal rest))))))

  -- The call for a line, a gesture or a deliberate silence.
  unfoldable pub encode_social_response :
      ℕ → ℕ → ℕ → Text → Text → ℕ → SocialCallMetadata → Proposal → Encoded
  encode_social_response request_token bot_guid channel message token emote_id metadata p =
      check_social request_token bot_guid channel token (
        check_answer channel emote_id message (
          check_proposal emote_id message p (
            ok (
              social_head request_token bot_guid channel message emote_id 0 token
              ++ (metadata_fields metadata ++ proposal_fields p)))))
