-- ===== src/Adapter/Ids.antt =====
-- The ids that a social reply cites, from the patterns of the request models to the tests of the encoder.
use mod_playerbot_llm.Prelude.{
  ℕ, ◌≡◌, refl, Bool, true, false, Option, none, some, List, [], ◌∷◌, all, All, arith, leb, ◌==◌,
  Bool-cases, inl, inr,
}
use mod_playerbot_llm.Prelude.Text.{Text, text_eq_sound}
use mod_playerbot_llm.Protocol.{SocialEvidence}
use mod_playerbot_llm.Protocol.Context.{
  is_ascii_digit, is_counted_id, SocialMemory, SocialContext, is_valid_memory, is_valid_context,
  context_tests, parse_social_context, valid_or_none,
}
use mod_playerbot_llm.Protocol.Social.{is_evidence_id, is_memory_id}
use mod_playerbot_llm.Protocol.Requests.Fields.{all_true-All}
use mod_playerbot_llm.Protocol.Requests.Social.{is_valid_evidence, evidence_tests}
use mod_playerbot_llm.Protocol.Requests.Trusted.{&&_true}
use mod_playerbot_llm.Generation.{Offered, first_offer, later_offer}
use mod_playerbot_llm.Generation.Citations.{ClaimSubject}
use mod_playerbot_llm.Generation.Grounding.{IsHeard, IsOwned}
use mod_playerbot_llm.Adapter.{memories_of}

-- `str.isdigit` accepts the ten digits at least.
abbrev pub KnowsDigits : (ℕ → Bool) → Type 0
KnowsDigits is_digit = (c : ℕ) → is_ascii_digit c ≡ true → is_digit c ≡ true

module _ (is_digit : ℕ → Bool) (knows : KnowsDigits is_digit) where
  all_ascii : (cs : Text) → all is_ascii_digit cs ≡ true → all is_digit cs ≡ true
  all_ascii [] h = refl
  all_ascii (c ∷ cs) h =
      let (first, others) = &&_true (is_ascii_digit c) (all is_ascii_digit cs) h in
      rw (knows c first) (all_ascii cs others)

  counted_parts :
      (prefix p d : ℕ) (ds : Text)
      → is_counted_id prefix (p ∷ d ∷ ds) ≡ true
      → ((p == prefix) ≡ true)
        × (is_ascii_digit d ≡ true)
        × ((d == 48) ≡ false)
        × (all is_ascii_digit ds ≡ true)
  counted_parts prefix p d ds h =
      let (same, rest) = &&_true (p == prefix) _ h in
      let (low, rest') = &&_true (leb 49 d) _ rest in
      let (high, digits) = &&_true (leb d 57) _ rest' in (same, ground arith, ground arith, digits)

  counted-evidence : (id : Text) → is_counted_id 103 id ≡ true → is_evidence_id is_digit id ≡ true
  counted-evidence [] h = cc
  counted-evidence (p ∷ []) h = cc
  counted-evidence (p ∷ d ∷ ds) h =
      let (same, first, _, others) = counted_parts 103 p d ds h in
      rw same (rw (knows d first) (all_ascii ds others))

  counted-memory : (id : Text) → is_counted_id 109 id ≡ true → is_memory_id is_digit id ≡ true
  counted-memory [] h = cc
  counted-memory (p ∷ []) h = cc
  counted-memory (p ∷ d ∷ ds) h =
      let (same, first, nonzero, others) = counted_parts 109 p d ds h in
      rw same (rw nonzero (rw (knows d first) (all_ascii ds others)))

  owned_counted :
      (subject : ClaimSubject) (id : Text) (es : List SocialEvidence)
      → all is_valid_evidence es ≡ true
      → Offered (IsOwned subject id) es
      → is_evidence_id is_digit id ≡ true
  owned_counted subject id _ valid (first_offer e es owned) =
      let (first, _) = &&_true (is_valid_evidence e) (all is_valid_evidence es) valid in
      let tests = all_true-All (evidence_tests e) first in
      counted-evidence id (rw (← text_eq_sound e.id id owned.named) tests.0)
  owned_counted subject id _ valid (later_offer e es later) =
      let (_, others) = &&_true (is_valid_evidence e) (all is_valid_evidence es) valid in
      owned_counted subject id es others later

  heard_counted :
      (channel : ℕ) (id : Text) (ms : List SocialMemory)
      → all is_valid_memory ms ≡ true
      → Offered (IsHeard channel id) ms
      → is_memory_id is_digit id ≡ true
  heard_counted channel id _ valid (first_offer m ms heard) =
      let (first, _) = &&_true (is_valid_memory m) (all is_valid_memory ms) valid in
      let (counted, _) = &&_true (is_counted_id 109 m.id) _ first in
      counted-memory id (rw (← text_eq_sound m.id id heard.named) counted)
  heard_counted channel id _ valid (later_offer m ms later) =
      let (_, others) = &&_true (is_valid_memory m) (all is_valid_memory ms) valid in
      heard_counted channel id ms others later

  pub all_owned :
      (subject : ClaimSubject) (ids : List Text) (es : List SocialEvidence)
      → all is_valid_evidence es ≡ true
      → All (λ id. Offered (IsOwned subject id) es) ids
      → all (is_evidence_id is_digit) ids ≡ true
  all_owned subject [] es valid h = refl
  all_owned subject (id ∷ ids) es valid (first, others) =
      rw (owned_counted subject id es valid first) (all_owned subject ids es valid others)

  pub all_heard :
      (channel : ℕ) (ids : List Text) (ms : List SocialMemory)
      → all is_valid_memory ms ≡ true
      → All (λ id. Offered (IsHeard channel id) ms) ids
      → all (is_memory_id is_digit) ids ≡ true
  all_heard channel [] ms valid h = refl
  all_heard channel (id ∷ ids) ms valid (first, others) =
      rw (heard_counted channel id ms valid first) (all_heard channel ids ms valid others)

module _ (countries : List Text) where
  valid_memories :
      (read : Option SocialContext)
      → all is_valid_memory (memories_of (valid_or_none countries read)) ≡ true
  unfolding is_valid_context
  valid_memories none = refl
  valid_memories (some c) = elim (Bool-cases (is_valid_context countries c)) [
    | inr bad ↦ rw bad refl
    | inl good ↦
        let tests = all_true-All (context_tests countries c) good in
        rw good tests.1.1.1.1.1.1.1.1.1.1.1.1.1.0
  ]

  pub parsed_memories :
      (read : Text → Option SocialContext) (text : Text)
      → all is_valid_memory (memories_of (parse_social_context countries read text)) ≡ true
  unfolding parse_social_context
  parsed_memories read [] = refl
  parsed_memories read (c ∷ cs) = valid_memories (read (c ∷ cs))
