-- ===== src/Generation/Sending.antt =====
-- From the memory gate to the encoder: what passed the first is accepted by the second.
use mod_playerbot_llm.Prelude.{
  ℕ, ◌≡◌, refl, sym, ◌∙◌, Bool, true, false, ◌||◌, List, [], ◌∷◌, All, length, ok, err, arith, ltb,
  Bool-cases, Option-cases, inl, inr,
}
use mod_playerbot_llm.Prelude.Text.{Text, text_eq, text_eq_sound}
use mod_playerbot_llm.Protocol.{
  MemoryRequest, MemoryLine, MemorySubject, byte_length, is_empty, is_blank, is_space, token_fits,
  in_uint64, one_of, max_social_context_entry_bytes, max_thread_id_bytes, max_extracted_memories,
  event_public_id_is_valid,
}
use mod_playerbot_llm.Protocol.Encode.{
  MemoryCandidate, Encoded, encode_memory_response, check_candidates, social_memory_scopes,
}
use mod_playerbot_llm.Generation.{is_allowed}
use mod_playerbot_llm.Generation.Memory.{
  lstrip, rstrip, strip, subject_guids, source_of, is_said_by, validate_memory_reply,
}
use mod_playerbot_llm.Generation.Gates.{IsGrounded, validate_memory_reply-IsGrounded}

is_empty-rstrip : (xs : Text) → is_empty (rstrip xs) ≡ is_blank xs
is_empty-rstrip [] = refl
is_empty-rstrip (c ∷ cs) = elim (Bool-cases (is_space c)) [
  | inr solid ↦ rw solid refl
  | inl space ↦ rw space (elim (Bool-cases (is_empty (rstrip cs))) [
    | inl gone ↦ rw gone (sym gone ∙ is_empty-rstrip cs)
    | inr kept ↦ rw kept (sym kept ∙ is_empty-rstrip cs)
  ])
]

is_blank-lstrip : (xs : Text) → is_blank (lstrip xs) ≡ is_blank xs
is_blank-lstrip [] = refl
is_blank-lstrip (c ∷ cs) = elim (Bool-cases (is_space c)) [
  | inr solid ↦ rw solid (rw solid refl)
  | inl space ↦ rw space (is_blank-lstrip cs)
]

is_blank-strip : (xs : Text) → is_empty (strip xs) ≡ is_blank xs
is_blank-strip xs = is_empty-rstrip (lstrip xs) ∙ is_blank-lstrip xs

guid_of :
    (subjects : List MemorySubject) (guid : ℕ)
    → All (λ s. in_uint64 s.guid ≡ true) subjects
    → is_allowed (subject_guids subjects) guid ≡ true
    → in_uint64 guid ≡ true
guid_of [] guid valid h = cc
guid_of (s ∷ ss) guid valid h = ground (arith, guid_of ss guid valid.1, valid.0)

source_valid :
    (thread : List MemoryLine) (event_id : Text) (guid : ℕ)
    → All (λ l. event_public_id_is_valid l.source_event_id ≡ true) thread
    → is_said_by (source_of thread event_id) guid ≡ true
    → event_public_id_is_valid event_id ≡ true
unfolding source_of
source_valid [] event_id guid valid h = cc
source_valid (l ∷ ls) event_id guid valid h = elim (Option-cases (source_of ls event_id)) [
  | inr (later, e) ↦ source_valid ls event_id guid valid.1 (rw e (rw e at h))
  | inl e ↦ elim (Bool-cases (text_eq l.source_event_id event_id)) [
    | inl same ↦ rw (← text_eq_sound l.source_event_id event_id same) valid.0
    | inr apart ↦ let h' = rw (e, apart) at h in cc
  ]
]

-- What the validators of a memory request establish.
pub record IsValid (request : MemoryRequest) : Type 0 where
  pub request_token : in_uint64 request.memory_request_token ≡ true
  pub bot_guid : in_uint64 request.bot_guid ≡ true
  pub thread_id :
      (is_empty request.thread_id || ltb max_thread_id_bytes (byte_length request.thread_id))
      ≡ false
  pub scope : one_of social_memory_scopes request.scope ≡ true
  pub subjects : All (λ s. in_uint64 s.guid ≡ true) request.subjects
  pub sources : All (λ l. event_public_id_is_valid l.source_event_id ≡ true) request.thread

-- The paraphrase as it is sent, its outer space included, keeps the byte limit.
abbrev pub IsShort : MemoryCandidate → Type 0
IsShort c = ltb max_social_context_entry_bytes (byte_length c.paraphrase) ≡ false

abbrev pub is_encoded : Encoded → Bool
is_encoded (ok payload) = true
is_encoded (err e) = false

module _ (carries_secret is_unsafe : Text → Bool) (normalized : Text → Text)
    (request : MemoryRequest) (valid : IsValid request) where
  check_candidates_ok :
      (cs : List MemoryCandidate) (rest : Encoded)
      → All (IsGrounded carries_secret is_unsafe normalized request) cs
      → All IsShort cs
      → check_candidates cs rest ≡ rest
  check_candidates_ok [] rest g s = refl
  check_candidates_ok (c ∷ cs) rest (g, gs) (s, ss) =
      let scope_known : one_of social_memory_scopes c.scope ≡ true =
        rw (text_eq_sound c.scope request.scope g.same_scope) valid.scope in
      rw (sym (is_blank-strip c.paraphrase) ∙ g.not_empty) (
        rw s (
          rw (guid_of request.subjects c.about_guid valid.subjects g.about_subject) (
            rw scope_known (
              rw
                (source_valid request.thread c.source_event_id c.about_guid valid.sources
                  g.said_by_subject)
                (check_candidates_ok cs rest gs ss)))))

  -- Memories that passed the gate for a valid request are accepted by the encoder, as long as there are at
  -- most four of them and none is longer than 512 bytes as it is sent. The gate itself checks neither: it
  -- measures the text without its outer space, and counts nothing.
  pub encode_memory_response-validated :
      (candidates accepted : List MemoryCandidate) (token : Text)
      → token_fits token ≡ true
      → validate_memory_reply carries_secret is_unsafe normalized candidates request ≡ ok accepted
      → ltb max_extracted_memories (length accepted) ≡ false
      → All IsShort accepted
      → is_encoded (
          encode_memory_response request.memory_request_token request.bot_guid request.thread_id
            accepted token)
        ≡ true
  unfolding encode_memory_response
  encode_memory_response-validated candidates accepted token fits passed few short =
      let (_, grounded) =
        validate_memory_reply-IsGrounded carries_secret is_unsafe normalized request candidates
          accepted passed in
      rw valid.request_token (
        rw valid.bot_guid (
          rw valid.thread_id
            (rw few (rw fits (rw (check_candidates_ok accepted _ grounded short) refl)))))
