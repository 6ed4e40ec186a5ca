-- ===== src/Generation/Messages.antt =====
-- `build_social_user_message`, `build_roleplay_assessment_user_message` and `build_memory_user_message` of
-- generation.py: what a player wrote, section by section between fences.
pub mod Fenced
pub mod Shown
use mod_playerbot_llm.Prelude.{
  ℕ, Bool, true, false, not, ◌&&◌, Option, none, some, List, [], ◌∷◌, ◌++◌, any, map, length, ◌==◌,
  if◌then◌else◌,
}
use mod_playerbot_llm.Prelude.Text.{Text, codes, digits}
use mod_playerbot_llm.Protocol.{
  SocialEvidence, SocialRequest, RoleplayAssessmentRequest, MemoryRequest, MemoryLine, is_empty,
}
use mod_playerbot_llm.Protocol.Context.{
  SocialMemory, SocialContext, memories_within, parse_social_context,
}
use mod_playerbot_llm.Generation.Memory.{rstrip}
use mod_playerbot_llm.Generation.Speech.{mentions}
use mod_playerbot_llm.Generation.Words.{nonempty_or}
use mod_playerbot_llm.Generation.Fences.{join_lines, neutralised, fenced}

-- A heading and the text below it.
abbrev pub Section : Type 0
Section = Text × Text

-- `if body: lines += _fenced(heading, body)`
abbrev pub section_if : Text → Text → List Section
section_if heading [] = []
section_if heading (c ∷ cs) = (heading, c ∷ cs) ∷ []

-- `if entries: lines += _fenced(heading, "\n".join(entries))`
abbrev pub section_of : Text → List Text → List Section
section_of heading [] = []
section_of heading (entry ∷ entries) = (heading, join_lines (entry ∷ entries)) ∷ []

-- `_FICTIONAL_IDENTITY_KEYS`
abbrev pub fictional_identity_keys : List Text
fictional_identity_keys =
    codes "fictional_identity_request" ∷ codes "fictional_age" ∷ codes "fictional_home_country" ∷ []

-- `_WHISPER_CHANNEL`
abbrev pub whisper_channel : ℕ
whisper_channel = 3

-- A context that did not parse is carried through as it stands in a whisper alone.
abbrev pub opaque_context : SocialRequest → Text
opaque_context request =
    if request.speak_on_channel == whisper_channel
      && not (mentions fictional_identity_keys request.context)
    then request.context
    else []

abbrev pub memory_line : SocialMemory → Text
memory_line memory = memory.id ++ (codes ": " ++ memory.text)

abbrev pub context_sections : SocialRequest → SocialContext → List Section
context_sections request context =
    section_if (codes "PERSONA") context.persona
    ++ (section_if (codes "RELATIONSHIP") context.relationship
        ++ (section_of (codes "NEARBY") context.nearby
            ++ (section_of (codes "THREAD") context.thread
                ++ (section_if (codes "STARTER") context.starter
                    ++ section_of (codes "MEMORIES") (
                        map memory_line
                          (memories_within context.memories request.speak_on_channel))))))

abbrev pub nothing_supplied : Text
nothing_supplied = codes "(nothing was supplied)"

abbrev pub social_introduction : List Text
social_introduction =
    codes "Answer naturally as the player described below, using only what follows as background."
    ∷ []
    ∷ []

abbrev pub assessment_sections : RoleplayAssessmentRequest → List Section
assessment_sections request =
    section_of (codes "THREAD") request.thread_lines
    ++ (codes "CURRENT LINE", request.current_line) ∷ []

module _ (is_word : ℕ → Bool) where
  abbrev pub fenced_all : List Section → List Text
  fenced_all [] = []
  fenced_all ((heading, body) ∷ sections) = fenced is_word heading body ++ fenced_all sections

  -- `"\n".join(lines).rstrip()`
  abbrev pub message_of : List Text → Text
  message_of lines = rstrip (join_lines lines)

  abbrev pub memory_entry : MemoryLine → Text
  memory_entry line =
      line.source_event_id
      ++ (codes " | speaker_guid="
          ++ (digits line.speaker_guid
              ++ (codes " | "
                  ++ (line.speaker_name ++ (codes ": " ++ neutralised is_word line.text)))))

  unfoldable pub build_memory_user_message : MemoryRequest → Text
  build_memory_user_message request =
      message_of (fenced_all ((codes "THREAD", join_lines (map memory_entry request.thread)) ∷ []))

  unfoldable pub build_roleplay_assessment_user_message : RoleplayAssessmentRequest → Text
  build_roleplay_assessment_user_message request =
      message_of
        (codes "Classify the CURRENT LINE below." ∷ [] ∷ fenced_all (assessment_sections request))

  -- The JSON text of the evidence is the standard library's, and so is the reader of the context.
  module _ (dump_evidence : List SocialEvidence → Text) where
    abbrev pub social_lines : SocialRequest → List Section → List Text
    social_lines request sections =
        social_introduction
        ++ fenced_all ((codes "EVIDENCE", dump_evidence request.evidence) ∷ sections)

    -- The code asks for two lines, but those of the evidence stand there already.
    abbrev pub or_nothing_supplied : List Text → List Text
    or_nothing_supplied lines =
        if length lines == 2
        then lines ++ fenced_all ((codes "CONTEXT", nothing_supplied) ∷ [])
        else lines

    abbrev pub social_message : SocialRequest → Option SocialContext → Text
    social_message request none = message_of (
        social_lines request
          ((codes "CONTEXT", nonempty_or (opaque_context request) nothing_supplied) ∷ []))
    social_message request (some context) =
        message_of (or_nothing_supplied (social_lines request (context_sections request context)))

    unfoldable pub build_social_user_message :
        List Text → (Text → Option SocialContext) → SocialRequest → Text
    build_social_user_message countries read request =
        social_message request (parse_social_context countries read request.context)
