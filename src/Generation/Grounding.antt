-- ===== src/Generation/Grounding.antt =====
-- What the citations of a social reply are grounded in, once it passed `check_citations`.
use mod_playerbot_llm.Prelude.{
  ℕ, ◌≤◌, ◌≡◌, refl, Bool, true, false, not, ◌&&◌, ◌||◌, Option, none, some, List, [], ◌∷◌, any,
  all, All, ok, arith, leb, ◌==◌, Bool-cases, Option-cases, inl, inr, ◌∙◌,
}
use mod_playerbot_llm.Prelude.Text.{Text, text_eq}
use mod_playerbot_llm.Protocol.{SocialEvidence, SocialRequest, one_of}
use mod_playerbot_llm.Generation.{Offered, first_offer, later_offer}
use mod_playerbot_llm.Generation.Gates.{refuse_ok, not-false}
use mod_playerbot_llm.Protocol.Context.{
  scope_index, channel_memory_scope, SocialMemory, memories_allowed, memories_within,
}
use mod_playerbot_llm.Generation.Citations.{
  ClaimSubject, SocialReply, offers, evidence_by_id, cited_evidence, compatible_subjects,
  no_entries, is_answer, is_banter, claims_participant, claims_none, cites_nothing, check_cited,
  check_citations,
}

-- A memory of this id that the channel may draw on.
pub record IsHeard (channel : ℕ) (id : Text) (m : SocialMemory) : Type 0 where
  pub allowed : ℕ
  pub named : text_eq m.id id ≡ true
  pub reach : channel_memory_scope channel ≡ some allowed
  pub within : scope_index m.scope ≤ allowed

-- Evidence of this id about somebody the claim may be about.
pub record IsOwned (subject : ClaimSubject) (id : Text) (e : SocialEvidence) : Type 0 where
  pub named : text_eq e.id id ≡ true
  pub owned : one_of (compatible_subjects subject) e.subject ≡ true

allowed-IsHeard :
    (ms : List SocialMemory) (channel allowed : ℕ) (id : Text)
    → channel_memory_scope channel ≡ some allowed
    → offers (memories_allowed ms allowed) id ≡ true
    → Offered (IsHeard channel id) ms
unfolding memories_allowed
allowed-IsHeard [] channel allowed id e h = cc
allowed-IsHeard (m ∷ ms) channel allowed id e h =
    elim (Bool-cases (leb (scope_index m.scope) allowed)) [
      | inr private ↦
          let h' = rw private at h in later_offer m ms (allowed-IsHeard ms channel allowed id e h')
      | inl shared ↦
          let h' = rw shared at h in
          elim (Bool-cases (text_eq m.id id)) [
            | inl same ↦
                first_offer m ms
                  (record { allowed = allowed; named = same; reach = e; within = ground arith })
            | inr apart ↦
                let h'' = rw apart at h' in
                later_offer m ms (allowed-IsHeard ms channel allowed id e h'')
          ]
    ]

within-IsHeard :
    (ms : List SocialMemory) (channel : ℕ) (id : Text)
    → offers (memories_within ms channel) id ≡ true
    → Offered (IsHeard channel id) ms
unfolding memories_within
within-IsHeard ms channel id h = elim (Option-cases (channel_memory_scope channel)) [
  | inl nowhere ↦ let h' = rw nowhere at h in cc
  | inr (allowed, e) ↦ allowed-IsHeard ms channel allowed id e (rw e at h)
]

all_within-IsHeard :
    (ids : List Text) (ms : List SocialMemory) (channel : ℕ)
    → all (offers (memories_within ms channel)) ids ≡ true
    → All (λ id. Offered (IsHeard channel id) ms) ids
all_within-IsHeard [] ms channel h = tt
all_within-IsHeard (id ∷ ids) ms channel h =
    elim (Bool-cases (offers (memories_within ms channel) id)) [
      | inl heard ↦
          let h' = rw heard at h in
          (within-IsHeard ms channel id heard, all_within-IsHeard ids ms channel h')
      | inr unheard ↦ let h' = rw unheard at h in cc
    ]

found-IsOwned :
    (es : List SocialEvidence) (subject : ClaimSubject) (id : Text) (e : SocialEvidence)
    → evidence_by_id es id ≡ some e
    → one_of (compatible_subjects subject) e.subject ≡ true
    → Offered (IsOwned subject id) es
unfolding evidence_by_id
found-IsOwned [] subject id e h owned = cc
found-IsOwned (x ∷ xs) subject id e h owned = elim (Option-cases (evidence_by_id xs id)) [
  | inr (later, q) ↦
      let h' = rw q at h in later_offer x xs (found-IsOwned xs subject id e (q ∙ h') owned)
  | inl q ↦ elim (Bool-cases (text_eq x.id id)) [
    | inl same ↦
        let h' = rw (q, same) at h in
        let found : x ≡ e = cc in first_offer x xs (record { named = same; owned = rw found owned })
    | inr apart ↦ let h' = rw (q, apart) at h in cc
  ]
]

compatible_split :
    (p : Text → Bool) (e : SocialEvidence) (es : List SocialEvidence)
    → any (λ x. not (p x.subject)) (e ∷ es) ≡ false
    → (p e.subject ≡ true) × (any (λ x. not (p x.subject)) es ≡ false)
compatible_split p e es h = elim (Bool-cases (p e.subject)) [
  | inl held ↦ let h' = rw held at h in (held, h')
  | inr failed ↦ let h' = rw failed at h in cc
]

cited-IsOwned :
    (ids : List Text) (es : List SocialEvidence) (subject : ClaimSubject)
    (cited : List SocialEvidence)
    → cited_evidence es ids ≡ some cited
    → any (λ e. not (one_of (compatible_subjects subject) e.subject)) cited ≡ false
    → All (λ id. Offered (IsOwned subject id) es) ids
unfolding cited_evidence
cited-IsOwned [] es subject cited h owned = tt
cited-IsOwned (id ∷ ids) es subject cited h owned = elim (Option-cases (evidence_by_id es id)) [
  | inl missing ↦ let h' = rw missing at h in cc
  | inr (e, found) ↦
      let h' = rw found at h in
      elim (Option-cases (cited_evidence es ids)) [
        | inl missing ↦ let h'' = rw missing at h' in cc
        | inr (rest, found_rest) ↦
            let h'' = rw found_rest at h' in
            let shape : cited ≡ e ∷ rest = cc in
            let (first, others) =
              compatible_split (one_of (compatible_subjects subject)) e rest (rw shape at owned) in
            (
              found-IsOwned es subject id e found first,
              cited-IsOwned ids es subject rest found_rest others,
            )
      ]
]

no_entries-cited :
    (ids : List Text) (es cited : List SocialEvidence)
    → cited_evidence es ids ≡ some cited
    → no_entries cited ≡ no_entries ids
unfolding cited_evidence
no_entries-cited [] es cited h = let empty : cited ≡ [] = cc in rw empty refl
no_entries-cited (id ∷ ids) es [] h = elim (Option-cases (evidence_by_id es id)) [
  | inl missing ↦ let h' = rw missing at h in cc
  | inr (e, found) ↦
      let h' = rw found at h in
      elim (Option-cases (cited_evidence es ids)) [
        | inl missing ↦ let h'' = rw missing at h' in cc
        | inr (rest, found_rest) ↦ let h'' = rw found_rest at h' in cc
      ]
]
no_entries-cited (id ∷ ids) es (c ∷ cs) h = refl

abbrev pub names_nothing : SocialReply → Bool
names_nothing reply = no_entries reply.cited_evidence_ids && no_entries reply.cited_memory_ids

-- Every citation resolves, to a memory that may be told on this channel and to evidence about the one the
-- claim is about; an answer answers a question and cites something; memories are cited for claims about the
-- participant alone; banter and a claim about nobody cite nothing.
pub record IsSupported (memories : List SocialMemory) (reply : SocialReply)
    (request : SocialRequest) : Type 0 where
  pub heard :
      All (λ id. Offered (IsHeard request.speak_on_channel id) memories) reply.cited_memory_ids
  pub owned :
      All (λ id. Offered (IsOwned reply.claim_subject id) request.evidence) reply.cited_evidence_ids
  pub asked : (is_answer reply.contribution && request.expects_answer == 0) ≡ false
  pub answered : (is_answer reply.contribution && names_nothing reply) ≡ false
  pub personal :
      (not (no_entries reply.cited_memory_ids) && not (claims_participant reply.claim_subject))
      ≡ false
  pub about_somebody : (claims_none reply.claim_subject && not (names_nothing reply)) ≡ false
  pub idle :
      (is_banter reply.contribution
        && (not (claims_none reply.claim_subject) || not (names_nothing reply)))
      ≡ false

cited-IsSupported :
    (memories : List SocialMemory) (reply : SocialReply) (request : SocialRequest)
    (cited : List SocialEvidence)
    → all (offers (memories_within memories request.speak_on_channel)) reply.cited_memory_ids ≡ true
    → (found : Option (List SocialEvidence))
    → cited_evidence request.evidence reply.cited_evidence_ids ≡ found
    → check_cited reply request found ≡ ok cited
    → IsSupported memories reply request
cited-IsSupported memories reply request cited offered none resolved h = cc
cited-IsSupported memories reply request cited offered (some es) resolved h =
    let nothing = no_entries-cited reply.cited_evidence_ids request.evidence es resolved in
    let (asked, h1) = refuse_ok _ _ _ cited h in
    let (answered, h2) =
      refuse_ok (is_answer reply.contribution && cites_nothing es reply) _ _ cited h1 in
    let (idle, h3) =
      refuse_ok
        (is_banter reply.contribution
          && (not (claims_none reply.claim_subject) || not (cites_nothing es reply)))
        _ _ cited h2 in
    let (owned, h4) = refuse_ok _ _ _ cited h3 in
    let (personal, h5) = refuse_ok _ _ _ cited h4 in
    let (somebody, _) =
      refuse_ok (claims_none reply.claim_subject && not (cites_nothing es reply)) _ _ cited h5 in
    record {
      heard = all_within-IsHeard reply.cited_memory_ids memories request.speak_on_channel offered;
      owned =
          cited-IsOwned reply.cited_evidence_ids request.evidence reply.claim_subject es resolved
            owned;
      asked = asked;
      answered = rw nothing at answered;
      personal = personal;
      about_somebody = rw nothing at somebody;
      idle = rw nothing at idle;
    }

-- A social reply that passed the citation gate is supported: each memory it cites may be told on its channel,
-- each evidence it cites is about the subject of its claim, and what it says of itself fits what it cites.
pub check_citations-IsSupported :
    (memories : List SocialMemory) (reply : SocialReply) (request : SocialRequest)
    (cited : List SocialEvidence)
    → check_citations memories reply request ≡ ok cited
    → IsSupported memories reply request
unfolding check_citations
check_citations-IsSupported memories reply request cited h =
    let (offered, rest) = refuse_ok _ _ _ cited h in
    cited-IsSupported memories reply request cited (not-false _ offered) _ refl rest
