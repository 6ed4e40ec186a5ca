-- ===== src/Generation/Speech.antt =====
-- `validate_social_message` of generation.py: the gate on one social line.
use mod_playerbot_llm.Prelude.{◌≡◌, ◌++◌, Bool, false, List, [], ◌∷◌, any, ok, ltb, ok_inj}
use mod_playerbot_llm.Prelude.Text.{Text, codes}
use mod_playerbot_llm.Protocol.{
  SocialRequest, byte_length, is_empty, is_control, max_response_message_bytes, refuse,
}
use mod_playerbot_llm.Generation.{
  Gate, empty, not_one_line, too_long, broke_character, document_structure,
  unsafe_content as unsafe_category, targeted_repetition, transcript,
}
use mod_playerbot_llm.Generation.Memory.{strip, starts_with, contains}
use mod_playerbot_llm.Generation.Words.{
  TextLibrary, ForbiddenTexts, unsafe_content, is_targeted_repetition,
}
use mod_playerbot_llm.Generation.Gates.{refuse_ok}

-- `_SOCIAL_LEAK_MARKERS`
abbrev pub social_leak_markers : List Text
social_leak_markers =
    codes "system prompt"
    ∷ codes "as an ai"
    ∷ codes "language model"
    ∷ codes "i cannot comply"
    ∷ codes "my instructions"
    ∷ codes "these rules"
    ∷ codes "untrusted context"
    ∷ codes "bridge token"
    ∷ codes "api key"
    ∷ []

-- `_SOCIAL_STRUCTURE_MARKERS`
abbrev pub social_structure_markers : List Text
social_structure_markers = codes "```" ∷ codes "###" ∷ codes "</" ∷ codes "/>" ∷ []

abbrev pub mentions : List Text → Text → Bool
mentions markers text = any (λ marker. contains marker text) markers

module _ (lib : TextLibrary) (forbidden : ForbiddenTexts) where
  abbrev pub check_line : Text → SocialRequest → Gate Text
  check_line message request = refuse (is_empty message) empty (
      refuse (any is_control message) not_one_line (
        refuse (ltb max_response_message_bytes (byte_length message)) too_long (
          refuse (mentions social_leak_markers (lib.casefold message)) broke_character (
            refuse (mentions social_structure_markers message) document_structure (
              refuse (unsafe_content lib forbidden message) unsafe_category (
                refuse (is_targeted_repetition lib message) targeted_repetition (
                  refuse
                    (starts_with (lib.casefold request.bot_name ++ codes ":")
                      (lib.casefold message))
                    transcript (ok message))))))))

  unfoldable pub validate_social_message : Text → SocialRequest → Gate Text
  validate_social_message message request = check_line (strip message) request

  -- A line as it may be spoken: it is not empty, one line, short, in character, plain, safe and no transcript.
  pub record IsSpeakable (request : SocialRequest) (line : Text) : Type 0 where
    pub something : is_empty line ≡ false
    pub one_line : any is_control line ≡ false
    pub short : ltb max_response_message_bytes (byte_length line) ≡ false
    pub in_character : mentions social_leak_markers (lib.casefold line) ≡ false
    pub plain : mentions social_structure_markers line ≡ false
    pub safe : unsafe_content lib forbidden line ≡ false
    pub varied : is_targeted_repetition lib line ≡ false
    pub own_words :
        starts_with (lib.casefold request.bot_name ++ codes ":") (lib.casefold line) ≡ false

  -- What passes is the message without the space around it, and may be spoken.
  pub validate_social_message-IsSpeakable :
      (message line : Text) (request : SocialRequest)
      → validate_social_message message request ≡ ok line
      → (strip message ≡ line) × IsSpeakable request line
  unfolding validate_social_message
  validate_social_message-IsSpeakable message line request h =
      let (something, h1) = refuse_ok _ _ _ line h in
      let (one_line, h2) = refuse_ok _ _ _ line h1 in
      let (short, h3) = refuse_ok _ _ _ line h2 in
      let (in_character, h4) = refuse_ok _ _ _ line h3 in
      let (plain, h5) = refuse_ok _ _ _ line h4 in
      let (safe, h6) = refuse_ok _ _ _ line h5 in
      let (varied, h7) = refuse_ok _ _ _ line h6 in
      let (own_words, h8) = refuse_ok _ _ _ line h7 in
      let same : strip message ≡ line = ok_inj h8 in
      (
        same,
        rw (← same) (record {
          something = something;
          one_line = one_line;
          short = short;
          in_character = in_character;
          plain = plain;
          safe = safe;
          varied = varied;
          own_words = own_words;
        }),
      )
