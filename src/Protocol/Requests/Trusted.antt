-- ===== src/Protocol/Requests/Trusted.antt =====
-- What the service may rely on once a payload was parsed.
use mod_playerbot_llm.Prelude.{
  ◌≡◌, refl, Bool, true, false, ◌&&◌, Option, none, some, List, [], ◌∷◌, all, All, ok, arith,
  ok_inj,
}
use mod_playerbot_llm.Prelude.Text.{Text, text_eq_sound}
use mod_playerbot_llm.Protocol.{
  MemoryRequest, MemorySubject, MemoryLine, token_fits, in_uint64, event_public_id_is_valid,
}
use mod_playerbot_llm.Protocol.Requests.{Incoming, parse_incoming}
use mod_playerbot_llm.Protocol.Requests.Fields.{UnicodeCategories, all_true-All}
use mod_playerbot_llm.Protocol.Requests.Background.{
  is_valid_memory_request, memory_tests, line_tests, parse_memory_request, is_valid_subject,
  is_valid_line,
}
use mod_playerbot_llm.Generation.Gates.{refuse_ok, not-false}
use mod_playerbot_llm.Generation.Sending.{IsValid}

pub &&_true : (a b : Bool) → (a && b) ≡ true → (a ≡ true) × (b ≡ true)
&&_true true b h = (refl, h)
&&_true false b h = cc

module _ {A : Type 0} (is_valid : A → Bool) (expected_token : Text) where
  -- A parsed request passed its model, and the token of the service has an allowed length.
  pub parse_incoming_ok :
      (incoming : Option (Incoming A)) (request : A)
      → parse_incoming is_valid expected_token incoming ≡ ok request
      → (is_valid request ≡ true) × (token_fits expected_token ≡ true)
  unfolding parse_incoming
  parse_incoming_ok none request h = cc
  parse_incoming_ok (some i) request h =
      let (valid, h1) = refuse_ok _ _ _ request h in
      let (trusted, h2) = refuse_ok _ _ _ request h1 in
      let (fits, holds) = &&_true (token_fits i.token) (is_valid i.request) (not-false _ valid) in
      let same : i.request ≡ request = ok_inj h2 in
      (rw (← same) holds, rw (← text_eq_sound i.token expected_token (not-false _ trusted)) fits)

module _ (unicode : UnicodeCategories) where
  subjects_valid :
      (subjects : List MemorySubject)
      → all (is_valid_subject unicode) subjects ≡ true
      → All (λ s. in_uint64 s.guid ≡ true) subjects
  subjects_valid [] h = tt
  subjects_valid (s ∷ ss) h =
      let (first, others) = &&_true (is_valid_subject unicode s) _ h in
      ((&&_true (in_uint64 s.guid) _ first).0, subjects_valid ss others)

  lines_valid :
      (lines : List MemoryLine)
      → all (is_valid_line unicode) lines ≡ true
      → All (λ l. event_public_id_is_valid l.source_event_id ≡ true) lines
  lines_valid [] h = tt
  lines_valid (l ∷ ls) h =
      let (first, others) = &&_true (is_valid_line unicode l) _ h in
      let tests = all_true-All (line_tests unicode l) first in
      (tests.1.1.1.1.1.0, lines_valid ls others)

  pub parse_memory_request-IsValid :
      (expected_token : Text) (incoming : Option (Incoming MemoryRequest)) (request : MemoryRequest)
      → parse_memory_request unicode expected_token incoming ≡ ok request
      → IsValid request × (token_fits expected_token ≡ true)
  unfolding parse_memory_request is_valid_memory_request
  parse_memory_request-IsValid expected_token incoming request h =
      let (valid, fits) =
        parse_incoming_ok (is_valid_memory_request unicode) expected_token incoming request h in
      let tests = all_true-All (memory_tests unicode request) valid in
      (
        record {
          request_token = tests.0;
          bot_guid = tests.1.0;
          thread_id = ground (arith, tests.1.1.1.0);
          scope = tests.1.1.1.1.0;
          subjects = subjects_valid request.subjects tests.1.1.1.1.1.1.0;
          sources = lines_valid request.thread tests.1.1.1.1.1.1.1.1.0;
        },
        fits,
      )
