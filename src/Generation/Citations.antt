-- ===== src/Generation/Citations.antt =====
-- What `validate_social_reply` of generation.py asks of the citations of a reply before it looks at its text.
use mod_playerbot_llm.Prelude.{
  Bool, true, false, not, ◌&&◌, ◌||◌, Option, none, some, List, [], ◌∷◌, any, all, ok, err, ◌==◌,
  if◌then◌else◌,
}
use mod_playerbot_llm.Prelude.Text.{Text, codes, text_eq}
use mod_playerbot_llm.Protocol.{SocialEvidence, SocialRequest, refuse, one_of}
use mod_playerbot_llm.Protocol.Context.{SocialMemory, memories_within}
use mod_playerbot_llm.Generation.{
  Gate, unknown_evidence, irrelevant_contribution, uncited_current_claim, evidence_subject_mismatch,
}

pub data Contribution : Type 0 where
  answer specific_reaction fact_free_banter gesture no_contribution : Contribution

pub data ClaimSubject : Type 0 where
  candidate_bot participant nobody : ClaimSubject

pub data ResponseKind : Type 0 where
  message_kind emote_kind silence_kind : ResponseKind

pub record SocialReply : Type 0 where
  pub response_kind : ResponseKind
  pub message : Text
  pub emote : Text
  pub contribution : Contribution
  pub claim_subject : ClaimSubject
  pub cited_evidence_ids : List Text
  pub cited_memory_ids : List Text

abbrev pub offers : List SocialMemory → Text → Bool
offers memories id = any (λ m. text_eq m.id id) memories

abbrev later_evidence : Option SocialEvidence → Option SocialEvidence → Option SocialEvidence
later_evidence none first = first
later_evidence (some later) first = some later

-- The dict from ids to evidence: a later entry of the same id takes its place.
unfoldable pub evidence_by_id : List SocialEvidence → Text → Option SocialEvidence
evidence_by_id [] id = none
evidence_by_id (e ∷ es) id =
    later_evidence (evidence_by_id es id) (if text_eq e.id id then some e else none)

abbrev cite : Option SocialEvidence → Option (List SocialEvidence) → Option (List SocialEvidence)
cite (some e) (some es) = some (e ∷ es)
cite found rest = none

unfoldable pub cited_evidence : List SocialEvidence → List Text → Option (List SocialEvidence)
cited_evidence evidence [] = some []
cited_evidence evidence (id ∷ ids) = cite (evidence_by_id evidence id) (cited_evidence evidence ids)

abbrev pub compatible_subjects : ClaimSubject → List Text
compatible_subjects candidate_bot = codes "candidate_bot" ∷ codes "source" ∷ []
compatible_subjects participant = codes "participant" ∷ []
compatible_subjects nobody = []

abbrev pub no_entries {ℓ} : {A : Type ℓ} → List A → Bool
no_entries [] = true
no_entries (x ∷ xs) = false

abbrev pub is_answer : Contribution → Bool
is_answer answer = true
is_answer other = false

abbrev pub is_banter : Contribution → Bool
is_banter fact_free_banter = true
is_banter other = false

abbrev pub claims_participant : ClaimSubject → Bool
claims_participant participant = true
claims_participant other = false

abbrev pub claims_none : ClaimSubject → Bool
claims_none nobody = true
claims_none other = false

abbrev pub cites_nothing : List SocialEvidence → SocialReply → Bool
cites_nothing cited reply = no_entries cited && no_entries reply.cited_memory_ids

abbrev pub check_cited :
    SocialReply → SocialRequest → Option (List SocialEvidence) → Gate (List SocialEvidence)
check_cited reply request none = err unknown_evidence
check_cited reply request (some cited) =
    refuse (is_answer reply.contribution && request.expects_answer == 0) irrelevant_contribution (
      refuse (is_answer reply.contribution && cites_nothing cited reply) uncited_current_claim (
        refuse
          (is_banter reply.contribution
            && (not (claims_none reply.claim_subject) || not (cites_nothing cited reply)))
          evidence_subject_mismatch
          (refuse
            (any (λ e. not (one_of (compatible_subjects reply.claim_subject) e.subject)) cited)
            evidence_subject_mismatch
            (refuse
              (not (no_entries reply.cited_memory_ids)
                && not (claims_participant reply.claim_subject))
              evidence_subject_mismatch
              (refuse (claims_none reply.claim_subject && not (cites_nothing cited reply))
                evidence_subject_mismatch (ok cited))))))

-- For a reply that is not silent. The memories are those of the parsed context, none when it did not parse.
unfoldable pub check_citations :
    List SocialMemory → SocialReply → SocialRequest → Gate (List SocialEvidence)
check_citations memories reply request =
    refuse
      (not
        (all (offers (memories_within memories request.speak_on_channel)) reply.cited_memory_ids))
      unknown_evidence
      (check_cited reply request (cited_evidence request.evidence reply.cited_evidence_ids))
