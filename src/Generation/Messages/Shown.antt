-- ===== src/Generation/Messages/Shown.antt =====
-- The user messages of generation.py as a reader sees them.
use mod_playerbot_llm.Prelude.{
  all_both, ℕ, suc, ◌≡◌, refl, ◌∙◌, ap, Bool, true, false, Option, none, some, List, [], ◌∷◌, ◌++◌,
  all, map, arith, length, ◌==◌,
}
use mod_playerbot_llm.Prelude.Text.{Text, codes}
use mod_playerbot_llm.Protocol.{
  SocialEvidence, SocialRequest, RoleplayAssessmentRequest, MemoryRequest,
}
use mod_playerbot_llm.Protocol.Context.{SocialContext, parse_social_context, memories_within}
use mod_playerbot_llm.Generation.Words.{nonempty_or}
use mod_playerbot_llm.Generation.Fences.{is_line_break, join_lines, fenced, fence_length}
use mod_playerbot_llm.Generation.Fences.Plain.{is_unbroken, is_plain, unbroken_plain}
use mod_playerbot_llm.Generation.Fences.Seen.{seen, is_marker, lines_of-unbroken_line}
use mod_playerbot_llm.Generation.Messages.{
  Section, section_if, section_of, context_sections, opaque_context, nothing_supplied,
  assessment_sections, fenced_all, memory_entry, memory_line, social_lines, or_nothing_supplied,
  social_message, message_of, build_memory_user_message, build_roleplay_assessment_user_message,
  build_social_user_message,
}
use mod_playerbot_llm.Generation.Messages.Fenced.{
  fences_of, first_fence, last_fence, has_headings, ends_after, section_plain, all_shown, all_end,
  message_shown, shown, shown_after, shown_blank,
}

-- The sections below the evidence, by what became of the context.
abbrev pub social_sections : SocialRequest → Option SocialContext → List Section
social_sections request none =
    (codes "CONTEXT", nonempty_or (opaque_context request) nothing_supplied) ∷ []
social_sections request (some context) = context_sections request context

heading_if :
    (heading body : Text)
    → is_unbroken heading ≡ true
    → has_headings (section_if heading body) ≡ true
heading_if heading [] h = refl
heading_if heading (c ∷ cs) h = rw h refl

heading_of :
    (heading : Text) (entries : List Text)
    → is_unbroken heading ≡ true
    → has_headings (section_of heading entries) ≡ true
heading_of heading [] h = refl
heading_of heading (entry ∷ entries) h = rw h refl

both_headings :
    (xs ys : List Section)
    → has_headings xs ≡ true
    → has_headings ys ≡ true
    → has_headings (xs ++ ys) ≡ true
both_headings = all_both (λ section. is_unbroken section.0)

social_headings :
    (request : SocialRequest) (context : Option SocialContext)
    → has_headings (social_sections request context) ≡ true
unfolding is_line_break
social_headings request none = refl
social_headings request (some c) =
    both_headings (section_if (codes "PERSONA") c.persona) _ (heading_if _ c.persona refl) (
      both_headings (section_if (codes "RELATIONSHIP") c.relationship) _
        (heading_if _ c.relationship refl)
        (both_headings (section_of (codes "NEARBY") c.nearby) _ (heading_of _ c.nearby refl) (
          both_headings (section_of (codes "THREAD") c.thread) _ (heading_of _ c.thread refl) (
            both_headings (section_if (codes "STARTER") c.starter) _ (heading_if _ c.starter refl) (
              heading_of (codes "MEMORIES")
                (map memory_line (memories_within c.memories request.speak_on_channel)) refl)))))

more_than_two : (n : ℕ) → (suc (suc (suc n)) == 2) ≡ false
more_than_two n = ground arith

module _ (is_word : ℕ → Bool) (space_apart : is_word 32 ≡ false)
    (line_feed_apart : is_word 10 ≡ false) where
  introduced :
      (line : Text) (first : Section) (sections : List Section)
      → is_unbroken line ≡ true
      → is_marker is_word line ≡ false
      → has_headings (first ∷ sections) ≡ true
      → seen is_word (message_of is_word (line ∷ [] ∷ fenced_all is_word (first ∷ sections)))
        ≡ fences_of (first ∷ sections)
  unfolding join_lines fenced
  introduced line first sections unbroken plain h =
      let body = fenced_all is_word (first ∷ sections) in
      let lines_plain : all is_plain (line ∷ [] ∷ body) ≡ true =
        rw (unbroken_plain line unbroken) (section_plain is_word (first ∷ sections) h) in
      let ends =
        ends_after line _
          (ends_after [] _ (all_end is_word space_apart line_feed_apart first sections)) in
      let nothing : shown is_word space_apart line_feed_apart (line ++ 10 ∷ []) ≡ [] =
        rw (lines_of-unbroken_line line unbroken) (rw plain refl) in
      message_shown is_word space_apart line_feed_apart (line ∷ [] ∷ body) lines_plain ends
      ∙ (shown_after is_word space_apart line_feed_apart line _
          ∙ (ap (λ marks. marks ++ shown is_word space_apart line_feed_apart (10 ∷ join_lines body))
                nothing
              ∙ (shown_blank is_word space_apart line_feed_apart (join_lines body)
                  ∙ all_shown is_word space_apart line_feed_apart first sections h)))

  module _ (dump_evidence : List SocialEvidence → Text) where
    three_stand :
        (a b c : Text) (lines : List Text)
        → or_nothing_supplied is_word dump_evidence (a ∷ b ∷ c ∷ lines) ≡ a ∷ b ∷ c ∷ lines
    three_stand a b c lines =
        let more : (length (a ∷ b ∷ c ∷ lines) == 2) ≡ false = more_than_two (length lines) in
        rw more refl

    evidence_stands :
        (request : SocialRequest) (sections : List Section)
        → or_nothing_supplied is_word dump_evidence
            (social_lines is_word dump_evidence request sections)
          ≡ social_lines is_word dump_evidence request sections
    unfolding fenced
    evidence_stands request sections = three_stand _ _ _ _

    social_seen :
        (request : SocialRequest) (context : Option SocialContext)
        → seen is_word (social_message is_word dump_evidence request context)
          ≡ fences_of
              ((codes "EVIDENCE", dump_evidence request.evidence) ∷ social_sections request context)
    unfolding is_line_break fence_length
    social_seen request none =
        introduced _ (codes "EVIDENCE", dump_evidence request.evidence)
          (social_sections request none) refl refl (social_headings request none)
    social_seen request (some context) =
        rw (evidence_stands request (context_sections request context)) (
          introduced _ (codes "EVIDENCE", dump_evidence request.evidence)
            (social_sections request (some context)) refl refl
            (social_headings request (some context)))

    -- Whatever a player wrote, the lines of a social message that look like a fence are those of its sections, a
    -- BEGINS and an ENDS for each in order, for a reader who breaks lines wherever Python does. It needs that the
    -- space and the line feed are no word characters.
    pub build_social_user_message-fences :
        (countries : List Text) (read : Text → Option SocialContext) (request : SocialRequest)
        → seen is_word (build_social_user_message is_word dump_evidence countries read request)
          ≡ fences_of (
              (codes "EVIDENCE", dump_evidence request.evidence)
              ∷ social_sections request (parse_social_context countries read request.context))
    unfolding build_social_user_message
    build_social_user_message-fences countries read request =
        social_seen request (parse_social_context countries read request.context)

  assessment_headings :
      (request : RoleplayAssessmentRequest) → has_headings (assessment_sections request) ≡ true
  unfolding is_line_break
  assessment_headings request =
      both_headings (section_of (codes "THREAD") request.thread_lines) _
        (heading_of _ request.thread_lines refl) refl

  assessment_seen :
      (sections : List Section) (last : Section)
      → has_headings (sections ++ last ∷ []) ≡ true
      → seen is_word (
          message_of is_word (
            codes "Classify the CURRENT LINE below."
            ∷ []
            ∷ fenced_all is_word (sections ++ last ∷ [])))
        ≡ fences_of (sections ++ last ∷ [])
  unfolding is_line_break fence_length
  assessment_seen [] last h = introduced _ last [] refl refl h
  assessment_seen (first ∷ sections) last h = introduced _ first (sections ++ last ∷ []) refl refl h

  memory_seen :
      (body : Text)
      → seen is_word (message_of is_word (fenced_all is_word ((codes "THREAD", body) ∷ [])))
        ≡ fences_of ((codes "THREAD", body) ∷ [])
  unfolding is_line_break
  memory_seen body =
      message_shown is_word space_apart line_feed_apart
        (fenced_all is_word ((codes "THREAD", body) ∷ []))
        (section_plain is_word ((codes "THREAD", body) ∷ []) refl)
        (all_end is_word space_apart line_feed_apart (codes "THREAD", body) [])
      ∙ all_shown is_word space_apart line_feed_apart (codes "THREAD", body) [] refl

  -- The same holds of the message of an assessment, whose last section is the current line, and of the message of
  -- a memory extraction, which has one section.
  pub background_messages-fences :
      (assessment : RoleplayAssessmentRequest) (memory : MemoryRequest)
      → (seen is_word (build_roleplay_assessment_user_message is_word assessment)
          ≡ fences_of (assessment_sections assessment))
        × (seen is_word (build_memory_user_message is_word memory)
            ≡ first_fence (codes "THREAD") ∷ last_fence (codes "THREAD") ∷ [])
  unfolding build_roleplay_assessment_user_message build_memory_user_message
  background_messages-fences assessment memory = (
    assessment_seen (section_of (codes "THREAD") assessment.thread_lines)
        (codes "CURRENT LINE", assessment.current_line) (assessment_headings assessment),
    memory_seen (join_lines (map (memory_entry is_word) memory.thread)),
  )
