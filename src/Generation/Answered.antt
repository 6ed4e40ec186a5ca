-- ===== src/Generation/Answered.antt =====
-- What came of a social reply that passed the whole gate: a line, a gesture or a deliberate silence.
use mod_playerbot_llm.Prelude.{ℕ, ◌≡◌, refl, Option, none, some, List, [], ok, err, ok_inj, ap}
use mod_playerbot_llm.Prelude.Text.{Text}
use mod_playerbot_llm.Protocol.{SocialRequest, SocialEvidence}
use mod_playerbot_llm.Protocol.Context.{SocialMemory}
use mod_playerbot_llm.Generation.{ModerationCategory, Gate}
use mod_playerbot_llm.Generation.Gates.{refuse_first_ok}
use mod_playerbot_llm.Generation.Words.{TextLibrary, ForbiddenTexts}
use mod_playerbot_llm.Generation.Citations.{
  SocialReply, ResponseKind, message_kind, emote_kind, silence_kind, check_citations,
}
use mod_playerbot_llm.Generation.Gestures.{
  validate_social_emote, IsGesture, validate_social_emote-IsGesture,
}
use mod_playerbot_llm.Generation.Memory.{strip}
use mod_playerbot_llm.Generation.Grounding.{IsSupported, check_citations-IsSupported}
use mod_playerbot_llm.Generation.Speech.{
  validate_social_message, IsSpeakable, validate_social_message-IsSpeakable,
}
use mod_playerbot_llm.Generation.Replies.{
  SocialPatterns, literal_claim_refusal, question_tests, claim_tests, check_claims, then_claims,
  then_speak, then_gesture, as_gesture, refuse_category, validate_kind, validate_social_reply,
}

module _ (lib : TextLibrary) (forbidden : ForbiddenTexts) (patterns : SocialPatterns)
    (request : SocialRequest) where
  -- By the kind of the reply: nothing, the gesture it names, or the line it says.
  pub data Answered (memories : List SocialMemory) (reply : SocialReply)
      : ResponseKind → Text → ℕ → Type 0 where
    kept_silent : Answered memories reply silence_kind [] 0
    gestured :
        (emote_id : ℕ)
        → IsSupported memories reply request
        → IsGesture reply.emote request.speak_on_channel emote_id
        → Answered memories reply emote_kind [] emote_id
    spoke :
        (line : Text)
        → IsSupported memories reply request
        → strip reply.message ≡ line
        → IsSpeakable lib forbidden request line
        → Answered memories reply message_kind line 0

  refuse_category_ok :
      (found : Option ModerationCategory) (rest : Gate (Text × ℕ)) (a : Text × ℕ)
      → refuse_category lib forbidden patterns found rest ≡ ok a
      → rest ≡ ok a
  refuse_category_ok none rest a h = h
  refuse_category_ok (some category) rest a h = cc

  check_claims_ok :
      (reply : SocialReply) (cited : List SocialEvidence) (line : Text) (a : Text × ℕ)
      → check_claims lib forbidden patterns reply request cited line ≡ ok a
      → (line, 0) ≡ a
  check_claims_ok reply cited line a h =
      let (_, h1) = refuse_first_ok (question_tests lib forbidden patterns request line) _ a h in
      let h2 =
        refuse_category_ok
          (literal_claim_refusal lib forbidden patterns line reply.claim_subject cited) _ a h1 in
      let (_, h3) =
        refuse_first_ok (claim_tests lib forbidden patterns reply request cited line) _ a h2 in
      ok_inj h3

  then_claims_ok :
      (memories : List SocialMemory) (reply : SocialReply) (cited : List SocialEvidence)
      (gate : Gate Text) (line : Text) (emote_id : ℕ)
      → IsSupported memories reply request
      → validate_social_message lib forbidden reply.message request ≡ gate
      → then_claims lib forbidden patterns reply request cited gate ≡ ok (line, emote_id)
      → Answered memories reply message_kind line emote_id
  then_claims_ok memories reply cited (ok said) line emote_id supported passed h =
      let shape = check_claims_ok reply cited said (line, emote_id) h in
      let same : said ≡ line = ap (λ (a : Text × ℕ). a.0) shape in
      let none : 0 ≡ emote_id = ap (λ (a : Text × ℕ). a.1) shape in
      let (stripped, speakable) =
        validate_social_message-IsSpeakable lib forbidden reply.message said request passed in
      rw (← none) (rw (← same) (spoke said supported stripped speakable))
  then_claims_ok memories reply cited (err category) line emote_id supported passed h = cc

  as_gesture_ok :
      (memories : List SocialMemory) (reply : SocialReply) (gate : Gate ℕ) (line : Text)
      (emote_id : ℕ)
      → IsSupported memories reply request
      → validate_social_emote reply.emote request ≡ gate
      → as_gesture lib forbidden patterns gate ≡ ok (line, emote_id)
      → Answered memories reply emote_kind line emote_id
  as_gesture_ok memories reply (ok found) line emote_id supported passed h =
      let shape = ok_inj h in
      let silent : [] ≡ line = ap (λ (a : Text × ℕ). a.0) shape in
      let gesture = validate_social_emote-IsGesture reply.emote request found passed in
      let same : found ≡ emote_id = ap (λ (a : Text × ℕ). a.1) shape in
      rw (← silent) (rw (← same) (gestured found supported gesture))
  as_gesture_ok memories reply (err category) line emote_id supported passed h = cc

  cited-Answered :
      (memories : List SocialMemory) (reply : SocialReply) (gate : Gate (List SocialEvidence))
      (line : Text) (emote_id : ℕ)
      → check_citations memories reply request ≡ gate
      → ((then_speak lib forbidden patterns reply request gate ≡ ok (line, emote_id))
          → Answered memories reply message_kind line emote_id)
        × ((then_gesture lib forbidden patterns reply request gate ≡ ok (line, emote_id))
            → Answered memories reply emote_kind line emote_id)
  cited-Answered memories reply (err category) line emote_id e = (λ h. cc, λ h. cc)
  cited-Answered memories reply (ok cited) line emote_id e =
      let supported = check_citations-IsSupported memories reply request cited e in
      (
        λ h. then_claims_ok memories reply cited _ line emote_id supported refl h,
        λ h. as_gesture_ok memories reply _ line emote_id supported refl h,
      )

  kind-Answered :
      (kind : ResponseKind) (memories : List SocialMemory) (reply : SocialReply) (line : Text)
      (emote_id : ℕ)
      → validate_kind lib forbidden patterns kind memories reply request ≡ ok (line, emote_id)
      → Answered memories reply kind line emote_id
  kind-Answered silence_kind memories reply line emote_id h =
      let shape = ok_inj h in
      let silent : [] ≡ line = ap (λ (a : Text × ℕ). a.0) shape in
      let none : 0 ≡ emote_id = ap (λ (a : Text × ℕ). a.1) shape in
      rw (← silent) (rw (← none) kept_silent)
  kind-Answered message_kind memories reply line emote_id h =
      (cited-Answered memories reply _ line emote_id refl).0 h
  kind-Answered emote_kind memories reply line emote_id h =
      (cited-Answered memories reply _ line emote_id refl).1 h

  -- What the gate lets through is what its kind says: silence with nothing to show; or the gesture that the
  -- reply names in the menu, with an id that the client has and that is not 0, on a channel where gestures
  -- are seen; or the reply's message without the space around it, which is speakable. The last two are
  -- supported by what the reply cites.
  pub validate_social_reply-Answered :
      (memories : List SocialMemory) (reply : SocialReply) (line : Text) (emote_id : ℕ)
      → validate_social_reply lib forbidden patterns memories reply request ≡ ok (line, emote_id)
      → Answered memories reply reply.response_kind line emote_id
  unfolding validate_social_reply
  validate_social_reply-Answered memories reply line emote_id h =
      kind-Answered reply.response_kind memories reply line emote_id h
