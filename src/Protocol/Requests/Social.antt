-- ===== src/Protocol/Requests/Social.antt =====
-- `SocialEvidence`, `SocialRequest` and `parse_social_request` of protocol.py.
use mod_playerbot_llm.Prelude.{
  ℕ, ◌+◌, Bool, false, not, ◌&&◌, ◌||◌, Option, none, some, List, [], ◌∷◌, any, all, length, drop,
  sum_by, Result, leb, ltb, ◌==◌, if◌then◌else◌,
}
use mod_playerbot_llm.Prelude.Text.{Text, codes, text_eq}
use mod_playerbot_llm.Protocol.{
  ProtocolError, SocialEvidence, SocialRequest, in_uint64, is_empty, is_control, is_hex,
  byte_length, one_of, distinct, max_thread_id_bytes, max_social_evidence_entries,
  max_social_context_entries,
}
use mod_playerbot_llm.Protocol.Context.{is_counted_id, channel_memory_scope}
use mod_playerbot_llm.Protocol.Requests.{Incoming, parse_incoming}
use mod_playerbot_llm.Protocol.Requests.Fields.{
  UnicodeCategories, actor_name_is_usable, all_true, fits_uint64, is_bounded, bytes_within,
  max_actor_name_bytes, social_channel_count, max_social_context_bytes,
}
use mod_playerbot_llm.Generation.Memory.{starts_with}

abbrev pub max_social_bot_zone_bytes : ℕ
max_social_bot_zone_bytes = 64

abbrev pub max_social_evidence_value_bytes : ℕ
max_social_evidence_value_bytes = 128

abbrev pub max_social_evidence_envelope_bytes : ℕ
max_social_evidence_envelope_bytes = 2048

abbrev pub evidence_subjects : List Text
evidence_subjects = codes "candidate_bot" ∷ codes "participant" ∷ codes "source" ∷ []

abbrev pub evidence_facts : List Text
evidence_facts =
    codes "name"
    ∷ codes "race"
    ∷ codes "character_class"
    ∷ codes "level"
    ∷ codes "faction"
    ∷ codes "zone"
    ∷ codes "area"
    ∷ codes "group_relation"
    ∷ codes "guild_relation"
    ∷ codes "combat_state"
    ∷ codes "target"
    ∷ codes "visibility"
    ∷ codes "proximity"
    ∷ codes "progression"
    ∷ codes "quest"
    ∷ codes "item"
    ∷ codes "creature"
    ∷ codes "objective"
    ∷ codes "achievement"
    ∷ []

abbrev pub evidence_provenances : List Text
evidence_provenances =
    codes "current_world" ∷ codes "human_observation" ∷ codes "authoritative_source" ∷ []

abbrev pub profile_load_states : List Text
profile_load_states =
    codes "pending"
    ∷ codes "loaded"
    ∷ codes "absent_using_base"
    ∷ codes "rejected_using_base"
    ∷ codes "unavailable_using_base"
    ∷ []

abbrev pub memory_input_states : List Text
memory_input_states = codes "pending" ∷ codes "loaded" ∷ codes "absent" ∷ codes "unavailable" ∷ []

abbrev pub scope_names : List Text
scope_names = codes "public" ∷ codes "party" ∷ codes "whisper" ∷ []

abbrev pub evidence_tests : SocialEvidence → List Bool
evidence_tests e =
    is_counted_id 103 e.id
    ∷ one_of evidence_subjects e.subject
    ∷ one_of evidence_facts e.fact
    ∷ (not (is_empty e.value) && bytes_within max_social_evidence_value_bytes e.value)
    ∷ one_of evidence_provenances e.provenance
    ∷ one_of scope_names e.scope
    ∷ in_uint64 e.observed_at
    ∷ []

abbrev pub is_valid_evidence : SocialEvidence → Bool
is_valid_evidence e = all_true (evidence_tests e)

abbrev pub evidence_ids : List SocialEvidence → List Text
evidence_ids [] = []
evidence_ids (e ∷ es) = e.id ∷ evidence_ids es

-- The index of a scope in `SOCIAL_MEMORY_SCOPES`.
abbrev pub index_of_scope : Text → ℕ
index_of_scope scope =
    if text_eq scope (codes "public") then 0 else if text_eq scope (codes "party") then 1 else 2

abbrev pub within_scope : Option ℕ → List SocialEvidence → Bool
within_scope none evidence = false
within_scope (some allowed) evidence = all (λ e. leb (index_of_scope e.scope) allowed) evidence

-- `_grounding_is_coherent`
unfoldable pub grounding_is_coherent : SocialRequest → Bool
grounding_is_coherent r =
    (distinct (evidence_ids r.evidence) && distinct r.transcript_event_ids)
    && (leb (sum_by (λ e. byte_length e.id + byte_length e.value) r.evidence)
          max_social_evidence_envelope_bytes
        && within_scope (channel_memory_scope r.speak_on_channel) r.evidence)

-- `_subject_is_present_or_absent`
abbrev pub subject_is_whole : SocialRequest → Bool
subject_is_whole r =
    (r.subject_guid == 0 && (is_empty r.subject_name && r.subject_human == 0))
    || (not (r.subject_guid == 0) && not (is_empty r.subject_name))

-- The pattern ^evt_[0-9a-f]{32}$
abbrev pub is_event_id : Text → Bool
is_event_id value =
    starts_with (codes "evt_") value && (length value == 36 && all is_hex (drop 4 value))

abbrev pub is_zone : Text → Bool
is_zone value =
    leb (length value) max_social_bot_zone_bytes
    && (bytes_within max_social_bot_zone_bytes value
        && not (any (λ c. is_control c || c == 127) value))

module _ (unicode : UnicodeCategories) where
  abbrev pub is_actor_name : Text → Bool
  is_actor_name value =
      leb (length value) max_actor_name_bytes
      && (bytes_within max_actor_name_bytes value
          && (is_empty value || actor_name_is_usable unicode value))

  abbrev pub social_tests : SocialRequest → List Bool
  social_tests r =
      in_uint64 r.social_request_token
      ∷ in_uint64 r.bot_guid
      ∷ (not (is_empty r.bot_name) && is_actor_name r.bot_name)
      ∷ leb r.bot_human 1
      ∷ (leb 1 r.bot_level && leb r.bot_level 80)
      ∷ fits_uint64 r.subject_guid
      ∷ is_actor_name r.subject_name
      ∷ leb r.subject_human 1
      ∷ ltb r.speak_on_channel social_channel_count
      ∷ (is_bounded max_thread_id_bytes r.thread_id && bytes_within max_thread_id_bytes r.thread_id)
      ∷ bytes_within max_social_context_bytes r.context
      ∷ (leb 1 (length r.evidence) && leb (length r.evidence) max_social_evidence_entries)
      ∷ all is_valid_evidence r.evidence
      ∷ (leb (length r.transcript_event_ids) max_social_context_entries
          && all is_event_id r.transcript_event_ids)
      ∷ one_of profile_load_states r.profile_load_state
      ∷ one_of memory_input_states r.memory_input_state
      ∷ leb r.active_content_expansion 2
      ∷ (leb r.expects_answer 1 && leb r.addressed_to_bot 1)
      ∷ (leb r.bot_race_id 255 && leb r.bot_class_id 255)
      ∷ is_zone r.bot_zone
      ∷ subject_is_whole r
      ∷ grounding_is_coherent r
      ∷ []

  unfoldable pub is_valid_social : SocialRequest → Bool
  is_valid_social r = all_true (social_tests r)

  unfoldable pub parse_social_request :
      Text → Option (Incoming SocialRequest) → Result ProtocolError SocialRequest
  parse_social_request expected_token incoming =
      parse_incoming is_valid_social expected_token incoming
