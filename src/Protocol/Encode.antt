-- ===== src/Protocol/Encode.antt =====
-- The encoders of protocol.py: what they refuse, and the flat object they write. The object stands as its
-- fields in order; its JSON text is the standard library's.
use mod_playerbot_llm.Prelude.{
  ℕ, suc, Bool, not, ◌&&◌, ◌||◌, List, [], ◌∷◌, ◌++◌, any, all, length, Result, ok, ltb,
}
use mod_playerbot_llm.Prelude.Text.{Text, codes, digits}
use mod_playerbot_llm.Protocol.{
  ProtocolError, out_of_range, bad_fields, empty_field, field_too_long, control_character,
  bad_thread_id, too_many_memories, empty_memory, memory_too_long, bad_subject, bad_scope,
  bad_source_event, schema_version, max_thread_id_bytes, max_extracted_memories,
  max_social_context_entry_bytes, max_biography_field_bytes, byte_length, is_empty, is_blank,
  is_control, in_uint64, refuse, encoder_token, validate_response_message, one_of,
  event_public_id_is_valid,
}

pub data Value : Type 0 where
  number : ℕ → Value
  text : Text → Value

abbrev pub Payload : Type 0
Payload = List (Text × Value)

abbrev pub Encoded : Type 0
Encoded = Result ProtocolError Payload

unfoldable pub encode_response : ℕ → Text → Text → Encoded
encode_response request_id message token = refuse (not (in_uint64 request_id)) out_of_range (
    encoder_token token (
      validate_response_message message (
        ok (
          (codes "schema_version", number schema_version)
          ∷ (codes "token", text token)
          ∷ (codes "request_id", number request_id)
          ∷ (codes "message", text message)
          ∷ []))))

-- `payload[f"{name}_{index}"] = value` for each value
abbrev pub indexed : Text → ℕ → List Text → Payload
indexed name index [] = []
indexed name index (v ∷ vs) =
    (name ++ codes "_" ++ digits index, text v) ∷ indexed name (suc index) vs

pub record RoleplayAssessmentCompletion : Type 0 where
  pub assessment_kind : Text
  pub capabilities : List Text

unfoldable pub encode_roleplay_assessment_response :
    ℕ → RoleplayAssessmentCompletion → Text → Encoded
encode_roleplay_assessment_response request_token completion token =
    refuse (not (in_uint64 request_token)) out_of_range (
      encoder_token token (
        ok (
          (codes "schema_version", number schema_version)
          ∷ (codes "token", text token)
          ∷ (codes "kind", text (codes "roleplay_assessment"))
          ∷ (codes "roleplay_assessment_request_token", number request_token)
          ∷ (codes "assessment_kind", text completion.assessment_kind)
          ∷ (codes "capability_count", number (length completion.capabilities))
          ∷ indexed (codes "capability") 0 completion.capabilities)))

abbrev pub biography_field_names : List Text
biography_field_names =
    codes "origin"
    ∷ codes "motivation"
    ∷ codes "formative_experience"
    ∷ codes "interests"
    ∷ codes "aversions"
    ∷ codes "preferred_topics"
    ∷ codes "mannerisms"
    ∷ codes "values"
    ∷ []

-- A dict from field names to text, in its own order.
abbrev pub Biography : Type 0
Biography = List (Text × Text)

abbrev names_of : Biography → List Text
names_of [] = []
names_of ((name, value) ∷ fields) = name ∷ names_of fields

-- `set(biography) == set(BIOGRAPHY_FIELD_NAMES)`
abbrev pub has_exact_fields : Biography → Bool
has_exact_fields biography =
    all (one_of biography_field_names) (names_of biography)
    && all (one_of (names_of biography)) biography_field_names

abbrev pub check_fields : Biography → Encoded → Encoded
check_fields [] rest = rest
check_fields ((name, value) ∷ fields) rest = refuse (is_blank value) empty_field (
    refuse (ltb max_biography_field_bytes (byte_length value)) field_too_long
      (refuse (any is_control value) control_character (check_fields fields rest)))

abbrev text_fields : Biography → Payload
text_fields [] = []
text_fields ((name, value) ∷ fields) = (name, text value) ∷ text_fields fields

unfoldable pub encode_biography_response : ℕ → ℕ → Biography → Text → Encoded
encode_biography_response request_token bot_guid biography token =
    refuse (not (in_uint64 request_token)) out_of_range (
      refuse (not (in_uint64 bot_guid)) out_of_range (
        encoder_token token (
          refuse (not (has_exact_fields biography)) bad_fields (
            check_fields biography (
              ok (
                ((codes "schema_version", number schema_version)
                  ∷ (codes "token", text token)
                  ∷ (codes "kind", text (codes "biography"))
                  ∷ (codes "biography_request_token", number request_token)
                  ∷ (codes "bot_guid", number bot_guid)
                  ∷ [])
                ++ text_fields biography))))))

pub record MemoryCandidate : Type 0 where
  pub paraphrase : Text
  pub about_guid : ℕ
  pub scope : Text
  pub source_event_id : Text

abbrev pub social_memory_scopes : List Text
social_memory_scopes = codes "public" ∷ codes "party" ∷ codes "whisper" ∷ []

abbrev pub check_candidates : List MemoryCandidate → Encoded → Encoded
check_candidates [] rest = rest
check_candidates (c ∷ cs) rest = refuse (is_blank c.paraphrase) empty_memory (
    refuse (ltb max_social_context_entry_bytes (byte_length c.paraphrase)) memory_too_long (
      refuse (not (in_uint64 c.about_guid)) bad_subject (
        refuse (not (one_of social_memory_scopes c.scope)) bad_scope (
          refuse (not (event_public_id_is_valid c.source_event_id)) bad_source_event
            (check_candidates cs rest)))))

abbrev memory_key : ℕ → Text → Text
memory_key index name = codes "memory_" ++ (digits index ++ (codes "_" ++ name))

abbrev pub candidate_fields : ℕ → List MemoryCandidate → Payload
candidate_fields index [] = []
candidate_fields index (c ∷ cs) =
    (memory_key index (codes "paraphrase"), text c.paraphrase)
    ∷ (memory_key index (codes "about_guid"), number c.about_guid)
    ∷ (memory_key index (codes "scope"), text c.scope)
    ∷ (memory_key index (codes "source_event_id"), text c.source_event_id)
    ∷ candidate_fields (suc index) cs

unfoldable pub encode_memory_response : ℕ → ℕ → Text → List MemoryCandidate → Text → Encoded
encode_memory_response request_token bot_guid thread_id candidates token =
    refuse (not (in_uint64 request_token)) out_of_range (
      refuse (not (in_uint64 bot_guid)) out_of_range (
        refuse (is_empty thread_id || ltb max_thread_id_bytes (byte_length thread_id)) bad_thread_id
          (refuse (ltb max_extracted_memories (length candidates)) too_many_memories (
            encoder_token token (
              check_candidates candidates (
                ok (
                  ((codes "schema_version", number schema_version)
                    ∷ (codes "token", text token)
                    ∷ (codes "kind", text (codes "memory"))
                    ∷ (codes "memory_request_token", number request_token)
                    ∷ (codes "bot_guid", number bot_guid)
                    ∷ (codes "thread_id", text thread_id)
                    ∷ (codes "memory_count", number (length candidates))
                    ∷ [])
                  ++ candidate_fields 0 candidates)))))))
