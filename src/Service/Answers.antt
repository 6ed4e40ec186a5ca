-- ===== src/Service/Answers.antt =====
-- The end of a handler: encoding an answer leaves the tables as they are.
use mod_playerbot_llm.Prelude.{
  ℕ, ◌≡◌, refl, ◌||◌, Option, none, some, List, ok, err, Bool-cases, inl, inr,
}
use mod_playerbot_llm.Ledger.{BudgetLedger}
use mod_playerbot_llm.Protocol.{
  SocialRequest, RoleplayAssessmentRequest, BiographyRequest, MemoryRequest,
}
use mod_playerbot_llm.Protocol.Encode.{
  Encoded, RoleplayAssessmentCompletion, Biography, MemoryCandidate,
}
use mod_playerbot_llm.Protocol.Social.{SocialCallMetadata}
use mod_playerbot_llm.Provider.{invalid_output_error, GenerationUsage, SocialGenerationResult}
use mod_playerbot_llm.Service.Calls.{Sidecar, Outside, Outcome, silent, failed, answered}
use mod_playerbot_llm.Service.Pipelines.{
  SidecarService, respond, answer_assessment, answer_memory, answer_biography, answer_social,
  speak_stored, respond_social,
}

-- The answers only read: what was stored stays.
pub respond_state : (e : Encoded) (s : Sidecar) → (respond e s).1 ≡ s
respond_state (ok payload) s = refl
respond_state (err e) s = refl

module _ (svc : SidecarService) (out : Outside) (book : BudgetLedger) where
  pub assessment_state :
      (request : RoleplayAssessmentRequest) (o : Outcome RoleplayAssessmentCompletion) (s : Sidecar)
      → (answer_assessment svc out book request o s).1 ≡ s
  assessment_state request silent s = refl
  assessment_state request (failed e) s = refl
  assessment_state request (answered completion usage receipt) s = respond_state _ s

  pub memory_state :
      (request : MemoryRequest) (o : Outcome (List MemoryCandidate)) (s : Sidecar)
      → (answer_memory svc out book request o s).1 ≡ s
  memory_state request silent s = refl
  memory_state request (failed e) s = refl
  memory_state request (answered candidates usage receipt) s = respond_state _ s

  pub biography_state :
      (request : BiographyRequest) (o : Outcome Biography) (s : Sidecar)
      → (answer_biography svc out book request o s).1 ≡ s
  biography_state request silent s = refl
  biography_state request (failed e) s = refl
  biography_state request (answered fields usage receipt) s = respond_state _ s

  respond_social_state :
      (request : SocialRequest) (g : SocialGenerationResult) (m : Option SocialCallMetadata)
      (s : Sidecar)
      → (respond_social svc out book request g m s).1 ≡ s
  respond_social_state request g none s = refl
  respond_social_state request g (some m) s = respond_state _ s

  speak_stored_state :
      (request : SocialRequest) (g : SocialGenerationResult) (u : GenerationUsage) (c : Option ℕ)
      (s : Sidecar)
      → (speak_stored svc out book request g u c s).1 ≡ s
  speak_stored_state request g u none s = refl
  speak_stored_state request g u (some c) s = respond_social_state request g _ s

  pub social_state :
      (request : SocialRequest) (o : Outcome SocialGenerationResult) (s : Sidecar)
      → (answer_social svc out book request o s).1 ≡ s
  social_state request silent s = refl
  social_state request (failed (invalid_output_error usage)) s = respond_state _ s
  social_state request (failed e) s = refl
  social_state request (answered g usage receipt) s =
      elim (Bool-cases (receipt.breach || receipt.saturated)) [
        | inl unsafe ↦ rw unsafe refl
        | inr sound ↦ rw sound (speak_stored_state request g usage receipt.stored_cost_nano s)
      ]
