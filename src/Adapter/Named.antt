-- ===== src/Adapter/Named.antt =====
-- The words of a social reply on the wire: contributions, claim subjects and citations that are not there.
use mod_playerbot_llm.Prelude.{◌≡◌, refl, Bool, true, not, ◌&&◌, List, [], ◌∷◌, all}
use mod_playerbot_llm.Prelude.Text.{Text, codes, text_eq}
use mod_playerbot_llm.Protocol.Social.{
  is_contribution, is_claim_subject, no_ids, is_spoken, claims_nothing,
}
use mod_playerbot_llm.Protocol.Requests.Trusted.{&&_true}
use mod_playerbot_llm.Generation.Citations.{
  SocialReply, Contribution, answer, specific_reaction, fact_free_banter, gesture, no_contribution,
  ClaimSubject, candidate_bot, participant, nobody, no_entries, claims_none,
}
use mod_playerbot_llm.Generation.Replies.{cites_no_one, is_gesture_kind, is_no_contribution}
use mod_playerbot_llm.Adapter.{contribution_name, claim_subject_name, proposal_of}

pub is_contribution_name : (c : Contribution) → is_contribution (contribution_name c) ≡ true
is_contribution_name answer = refl
is_contribution_name specific_reaction = refl
is_contribution_name fact_free_banter = refl
is_contribution_name gesture = refl
is_contribution_name no_contribution = refl

pub is_claim_subject_name : (s : ClaimSubject) → is_claim_subject (claim_subject_name s) ≡ true
is_claim_subject_name candidate_bot = refl
is_claim_subject_name participant = refl
is_claim_subject_name nobody = refl

pub none_named :
    (c : Contribution)
    → is_no_contribution c ≡ true
    → text_eq (contribution_name c) (codes "none") ≡ true
none_named no_contribution h = refl
none_named answer h = cc
none_named specific_reaction h = cc
none_named fact_free_banter h = cc
none_named gesture h = cc

pub gesture_named :
    (c : Contribution)
    → is_gesture_kind c ≡ true
    → text_eq (contribution_name c) (codes "gesture") ≡ true
gesture_named gesture h = refl
gesture_named answer h = cc
gesture_named specific_reaction h = cc
gesture_named fact_free_banter h = cc
gesture_named no_contribution h = cc

pub spoken_named :
    (c : Contribution)
    → (not (is_gesture_kind c) && not (is_no_contribution c)) ≡ true
    → is_spoken (contribution_name c) ≡ true
spoken_named answer h = refl
spoken_named specific_reaction h = refl
spoken_named fact_free_banter h = refl
spoken_named gesture h = cc
spoken_named no_contribution h = cc

pub nobody_named :
    (s : ClaimSubject) → claims_none s ≡ true → text_eq (claim_subject_name s) (codes "none") ≡ true
nobody_named nobody h = refl
nobody_named candidate_bot h = cc
nobody_named participant h = cc

pub no_entries-no_ids : (ids : List Text) → no_entries ids ≡ true → no_ids ids ≡ true
no_entries-no_ids [] h = refl
no_entries-no_ids (id ∷ ids) h = cc

pub no_entries-all : (p : Text → Bool) (ids : List Text) → no_entries ids ≡ true → all p ids ≡ true
no_entries-all p [] h = refl
no_entries-all p (id ∷ ids) h = cc

pub nothing_claimed :
    (reply : SocialReply) → cites_no_one reply ≡ true → claims_nothing (proposal_of reply) ≡ true
nothing_claimed reply h =
    let (none, ids) = &&_true (claims_none reply.claim_subject) _ h in
    let (evidence, memories) = &&_true (no_entries reply.cited_evidence_ids) _ ids in
    rw (nobody_named reply.claim_subject none) (
      rw (no_entries-no_ids reply.cited_evidence_ids evidence)
        (no_entries-no_ids reply.cited_memory_ids memories))
