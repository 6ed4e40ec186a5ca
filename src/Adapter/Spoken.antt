-- ===== src/Adapter/Spoken.antt =====
-- What the validators of a social reply establish of its proposal, and that the encoder accepts it.
use mod_playerbot_llm.Prelude.{ℕ, ◌≡◌, refl, Bool, true, false, ◌&&◌, all, length, arith, leb, ltb}
use mod_playerbot_llm.Prelude.Text.{Text}
use mod_playerbot_llm.Protocol.{distinct, max_social_evidence_entries, max_social_context_entries}
use mod_playerbot_llm.Protocol.Encode.{Encoded}
use mod_playerbot_llm.Protocol.Social.{is_evidence_id, is_memory_id, is_coherent, check_proposal}
use mod_playerbot_llm.Protocol.Requests.Trusted.{&&_true}
use mod_playerbot_llm.Generation.Citations.{SocialReply, no_entries, claims_none}
use mod_playerbot_llm.Generation.Replies.{is_one_coherent_answer, coherent_kind, cites_no_one}
use mod_playerbot_llm.Adapter.{proposal_of}
use mod_playerbot_llm.Adapter.Named.{is_contribution_name, is_claim_subject_name, no_entries-all}

module _ (is_digit : ℕ → Bool) where
  -- The tests on a proposal, its citations already known to be few, distinct and well formed.
  pub record IsCitable (reply : SocialReply) : Type 0 where
    pub few : leb (length reply.cited_evidence_ids) max_social_evidence_entries ≡ true
    pub once : distinct reply.cited_evidence_ids ≡ true
    pub few_memories : leb (length reply.cited_memory_ids) max_social_context_entries ≡ true
    pub once_each : distinct reply.cited_memory_ids ≡ true
    pub ids : all (is_evidence_id is_digit) reply.cited_evidence_ids ≡ true
    pub memory_ids : all (is_memory_id is_digit) reply.cited_memory_ids ≡ true

  pub ltb_of_leb : (a b : ℕ) → leb a b ≡ true → ltb b a ≡ false
  ltb_of_leb a b h = ground arith

  pub check_proposal_ok :
      (emote_id : ℕ) (message : Text) (reply : SocialReply) (rest : Encoded)
      → IsCitable reply
      → is_coherent emote_id message (proposal_of reply) ≡ true
      → check_proposal is_digit emote_id message (proposal_of reply) rest ≡ rest
  check_proposal_ok emote_id message reply rest c coherent =
      rw (is_contribution_name reply.contribution) (
        rw (is_claim_subject_name reply.claim_subject) (
          rw (ltb_of_leb (length reply.cited_evidence_ids) max_social_evidence_entries c.few) (
            rw c.once (
              rw c.ids (
                rw
                  (ltb_of_leb (length reply.cited_memory_ids) max_social_context_entries
                    c.few_memories)
                  (rw c.once_each (rw c.memory_ids (rw coherent refl))))))))

  -- What a validator and the request leave to know about a reply.
  pub record IsReady (reply : SocialReply) : Type 0 where
    pub few : leb (length reply.cited_evidence_ids) max_social_evidence_entries ≡ true
    pub once : distinct reply.cited_evidence_ids ≡ true
    pub few_memories : leb (length reply.cited_memory_ids) max_social_context_entries ≡ true
    pub once_each : distinct reply.cited_memory_ids ≡ true
    pub kind : coherent_kind reply.response_kind reply ≡ true

  pub coherent-IsReady : (reply : SocialReply) → is_one_coherent_answer reply ≡ true → IsReady reply
  unfolding is_one_coherent_answer
  coherent-IsReady reply h =
      let (evidence, rest) =
        &&_true
          (leb (length reply.cited_evidence_ids) max_social_evidence_entries
            && distinct reply.cited_evidence_ids)
          _ h in
      let (few, once) =
        &&_true (leb (length reply.cited_evidence_ids) max_social_evidence_entries) _ evidence in
      let (memories, kind) =
        &&_true
          (leb (length reply.cited_memory_ids) max_social_context_entries
            && distinct reply.cited_memory_ids)
          _ rest in
      let (few_memories, once_each) =
        &&_true (leb (length reply.cited_memory_ids) max_social_context_entries) _ memories in
      record {
        few = few;
        once = once;
        few_memories = few_memories;
        once_each = once_each;
        kind = kind;
      }

  pub uncited-IsCitable :
      (reply : SocialReply) → IsReady reply → cites_no_one reply ≡ true → IsCitable reply
  uncited-IsCitable reply r h =
      let (_, ids) = &&_true (claims_none reply.claim_subject) _ h in
      let (evidence, memories) = &&_true (no_entries reply.cited_evidence_ids) _ ids in
      record {
        few = r.few;
        once = r.once;
        few_memories = r.few_memories;
        once_each = r.once_each;
        ids = no_entries-all (is_evidence_id is_digit) reply.cited_evidence_ids evidence;
        memory_ids = no_entries-all (is_memory_id is_digit) reply.cited_memory_ids memories;
      }
