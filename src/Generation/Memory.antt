-- ===== src/Generation/Memory.antt =====
-- `validate_memory_reply` of generation.py.
use mod_playerbot_llm.Prelude.{
  ℕ, Bool, true, false, not, ◌&&◌, ◌||◌, Option, none, some, List, [], ◌∷◌, ◌++◌, any, ok, err, ltb,
  ◌==◌, if◌then◌else◌,
}
use mod_playerbot_llm.Prelude.Text.{Text, codes, text_eq}
use mod_playerbot_llm.Protocol.{
  MemoryRequest, MemoryLine, MemorySubject, byte_length, is_empty, is_space, refuse,
  max_social_context_entry_bytes,
}
use mod_playerbot_llm.Protocol.Encode.{MemoryCandidate}
use mod_playerbot_llm.Generation.{
  Gate, unknown_subject, scope_mismatch, unknown_evidence, uncategorized, carried_secret,
  unsafe_content, quoted_thread, is_allowed,
}

abbrev pub lstrip : Text → Text
lstrip [] = []
lstrip (c ∷ cs) = let rest = lstrip cs in if is_space c then rest else c ∷ cs

abbrev pub rstrip : Text → Text
rstrip [] = []
rstrip (c ∷ cs) = let rest = rstrip cs in if is_space c && is_empty rest then [] else c ∷ rest

-- `value.strip()`
abbrev pub strip : Text → Text
strip value = rstrip (lstrip value)

-- `request.subject_guids`
abbrev pub subject_guids : List MemorySubject → List ℕ
subject_guids [] = []
subject_guids (s ∷ ss) = s.guid ∷ subject_guids ss

abbrev pub later_or : Option MemoryLine → Option MemoryLine → Option MemoryLine
later_or none first = first
later_or (some later) first = some later

-- The dict from event ids to lines: a later line of the same id takes its place.
unfoldable pub source_of : List MemoryLine → Text → Option MemoryLine
source_of [] event_id = none
source_of (l ∷ ls) event_id =
    later_or (source_of ls event_id) (if text_eq l.source_event_id event_id then some l else none)

abbrev pub is_said_by : Option MemoryLine → ℕ → Bool
is_said_by none guid = false
is_said_by (some line) guid = line.speaker_guid == guid

abbrev pub starts_with : Text → Text → Bool
starts_with [] text = true
starts_with (p ∷ ps) [] = false
starts_with (p ∷ ps) (c ∷ cs) = p == c && starts_with ps cs

-- `part in text`
abbrev pub contains : Text → Text → Bool
contains part [] = is_empty part
contains part (c ∷ cs) = starts_with part (c ∷ cs) || contains part cs

abbrev pub spoken_line : MemoryLine → Text
spoken_line line = line.speaker_name ++ (codes ": " ++ line.text)

abbrev pub prepend : MemoryCandidate → Gate (List MemoryCandidate) → Gate (List MemoryCandidate)
prepend c (ok cs) = ok (c ∷ cs)
prepend c (err e) = err e

-- The tests of a text by regular expressions and case folding are library functions: arguments.
module _ (carries_secret is_unsafe : Text → Bool) (normalized : Text → Text) where
  abbrev pub quotes : List MemoryLine → Text → Bool
  quotes thread compared =
      any (λ line. not (is_empty compared) && contains compared (normalized (spoken_line line)))
        thread

  abbrev pub check_candidate :
      MemoryRequest → MemoryCandidate → Gate (List MemoryCandidate) → Gate (List MemoryCandidate)
  check_candidate request c rest =
      refuse (not (is_allowed (subject_guids request.subjects) c.about_guid)) unknown_subject (
        refuse (not (text_eq c.scope request.scope)) scope_mismatch (
          refuse (not (is_said_by (source_of request.thread c.source_event_id) c.about_guid))
            unknown_evidence
            (refuse (is_empty (strip c.paraphrase)) uncategorized (
              refuse (ltb max_social_context_entry_bytes (byte_length (strip c.paraphrase)))
                uncategorized
                (refuse (carries_secret (strip c.paraphrase)) carried_secret (
                  refuse (is_unsafe (strip c.paraphrase)) unsafe_content (
                    refuse (quotes request.thread (normalized (strip c.paraphrase))) quoted_thread
                      rest)))))))

  unfoldable pub validate_memory_reply :
      List MemoryCandidate → MemoryRequest → Gate (List MemoryCandidate)
  validate_memory_reply [] request = ok []
  validate_memory_reply (c ∷ cs) request =
      check_candidate request c (prepend c (validate_memory_reply cs request))
