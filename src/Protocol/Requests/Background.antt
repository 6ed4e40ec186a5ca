-- ===== src/Protocol/Requests/Background.antt =====
-- The requests of protocol.py that nobody speaks an answer to: a roleplay assessment, a biography and memories.
use mod_playerbot_llm.Prelude.{
  Bool, false, not, ◌&&◌, Option, List, [], ◌∷◌, all, length, sum_by, Result, leb, ltb, ◌==◌,
  if◌then◌else◌,
}
use mod_playerbot_llm.Prelude.Text.{Text, codes, text_eq}
use mod_playerbot_llm.Protocol.{
  ProtocolError, RoleplayAssessmentRequest, BiographyRequest, MemoryRequest, MemorySubject,
  MemoryLine, in_uint64, byte_length, one_of, distinct, max_thread_id_bytes,
  max_social_context_entries, max_social_context_entry_bytes, event_public_id_is_valid,
}
use mod_playerbot_llm.Protocol.Encode.{social_memory_scopes, RoleplayAssessmentCompletion}
use mod_playerbot_llm.Protocol.Requests.{Incoming, parse_incoming}
use mod_playerbot_llm.Protocol.Requests.Fields.{
  UnicodeCategories, actor_name_is_usable, all_true, is_bounded, bytes_within, max_actor_name_bytes,
  social_channel_count, max_social_context_bytes, distinct_numbers,
}
use mod_playerbot_llm.Generation.Memory.{subject_guids}

abbrev pub is_thread_id : Text → Bool
is_thread_id value = is_bounded max_thread_id_bytes value && bytes_within max_thread_id_bytes value

abbrev pub is_entry : Text → Bool
is_entry value =
    is_bounded max_social_context_entry_bytes value
    && bytes_within max_social_context_entry_bytes value

abbrev pub assessment_tests : RoleplayAssessmentRequest → List Bool
assessment_tests r =
    in_uint64 r.roleplay_assessment_request_token
    ∷ ltb r.channel social_channel_count
    ∷ is_thread_id r.thread_id
    ∷ is_entry r.current_line
    ∷ (leb (length r.thread_lines) max_social_context_entries && all is_entry r.thread_lines)
    ∷ []

unfoldable pub is_valid_assessment : RoleplayAssessmentRequest → Bool
is_valid_assessment r = all_true (assessment_tests r)

unfoldable pub parse_roleplay_assessment_request :
    Text
    → Option (Incoming RoleplayAssessmentRequest)
    → Result ProtocolError RoleplayAssessmentRequest
parse_roleplay_assessment_request expected_token incoming =
    parse_incoming is_valid_assessment expected_token incoming

abbrev pub roleplay_assessment_kinds : List Text
roleplay_assessment_kinds =
    codes "ordinary"
    ∷ codes "roleplay_invitation"
    ∷ codes "roleplay_continuation"
    ∷ codes "practical"
    ∷ codes "opt_out"
    ∷ codes "uncertain"
    ∷ []

abbrev pub roleplay_content_capabilities : List Text
roleplay_content_capabilities =
    codes "classic_content"
    ∷ codes "outland"
    ∷ codes "blood_elf"
    ∷ codes "draenei"
    ∷ codes "death_knight"
    ∷ codes "burning_crusade_profession"
    ∷ codes "wrath_profession"
    ∷ codes "other_burning_crusade"
    ∷ codes "other_wrath"
    ∷ codes "unknown"
    ∷ []

abbrev pub is_unknown_alone : List Text → Bool
is_unknown_alone (c ∷ []) = text_eq c (codes "unknown")
is_unknown_alone other = false

abbrev pub names_content : List Text → Bool
names_content capabilities =
    (leb 1 (length capabilities) && distinct capabilities)
    && (not (one_of capabilities (codes "unknown"))
        && not (one_of capabilities (codes "classic_content") && ltb 1 (length capabilities)))

-- `_shape_matches_kind`
unfoldable pub shape_matches_kind : RoleplayAssessmentCompletion → Bool
shape_matches_kind c =
    if one_of (codes "ordinary" ∷ codes "practical" ∷ codes "opt_out" ∷ []) c.assessment_kind
    then length c.capabilities == 0
    else if text_eq c.assessment_kind (codes "uncertain")
    then is_unknown_alone c.capabilities
    else names_content c.capabilities

unfoldable pub is_valid_completion : RoleplayAssessmentCompletion → Bool
is_valid_completion c =
    one_of roleplay_assessment_kinds c.assessment_kind
    && ((leb (length c.capabilities) (length roleplay_content_capabilities)
          && all (one_of roleplay_content_capabilities) c.capabilities)
        && shape_matches_kind c)

module _ (unicode : UnicodeCategories) where
  abbrev pub is_character_name : Text → Bool
  is_character_name value =
      is_bounded max_actor_name_bytes value
      && (actor_name_is_usable unicode value && bytes_within max_actor_name_bytes value)

  abbrev pub biography_tests : BiographyRequest → List Bool
  biography_tests r =
      in_uint64 r.biography_request_token
      ∷ in_uint64 r.bot_guid
      ∷ is_character_name r.character_name
      ∷ (leb r.race_id 255 && (leb r.class_id 255 && leb r.gender_id 255))
      ∷ (leb 1 r.bot_level && leb r.bot_level 80)
      ∷ leb r.active_expansion 2
      ∷ []

  unfoldable pub is_valid_biography : BiographyRequest → Bool
  is_valid_biography r = all_true (biography_tests r)

  unfoldable pub parse_biography_request :
      Text → Option (Incoming BiographyRequest) → Result ProtocolError BiographyRequest
  parse_biography_request expected_token incoming =
      parse_incoming is_valid_biography expected_token incoming

  abbrev pub is_valid_subject : MemorySubject → Bool
  is_valid_subject s = in_uint64 s.guid && is_character_name s.name

  abbrev pub is_source_kind : Text → Bool
  is_source_kind = one_of (codes "human_observation" ∷ codes "authoritative_source" ∷ [])

  abbrev pub line_tests : MemoryLine → List Bool
  line_tests l =
      in_uint64 l.speaker_guid
      ∷ is_bounded max_actor_name_bytes l.speaker_name
      ∷ bytes_within max_actor_name_bytes l.speaker_name
      ∷ is_entry l.text
      ∷ is_bounded max_thread_id_bytes l.source_event_id
      ∷ event_public_id_is_valid l.source_event_id
      ∷ is_source_kind l.source_kind
      ∷ []

  abbrev pub is_valid_line : MemoryLine → Bool
  is_valid_line l = all_true (line_tests l)

  abbrev pub source_ids : List MemoryLine → List Text
  source_ids [] = []
  source_ids (l ∷ ls) = l.source_event_id ∷ source_ids ls

  abbrev pub memory_tests : MemoryRequest → List Bool
  memory_tests r =
      in_uint64 r.memory_request_token
      ∷ in_uint64 r.bot_guid
      ∷ is_character_name r.bot_name
      ∷ is_thread_id r.thread_id
      ∷ one_of social_memory_scopes r.scope
      ∷ (leb 1 (length r.subjects) && leb (length r.subjects) max_social_context_entries)
      ∷ all is_valid_subject r.subjects
      ∷ (leb 1 (length r.thread) && leb (length r.thread) max_social_context_entries)
      ∷ all is_valid_line r.thread
      ∷ leb (sum_by (λ l. byte_length l.text) r.thread) max_social_context_bytes
      ∷ distinct_numbers (subject_guids r.subjects)
      ∷ distinct (source_ids r.thread)
      ∷ []

  unfoldable pub is_valid_memory_request : MemoryRequest → Bool
  is_valid_memory_request r = all_true (memory_tests r)

  unfoldable pub parse_memory_request :
      Text → Option (Incoming MemoryRequest) → Result ProtocolError MemoryRequest
  parse_memory_request expected_token incoming =
      parse_incoming is_valid_memory_request expected_token incoming
