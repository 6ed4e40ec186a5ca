-- ===== src/Service/Profiles.antt =====
-- The profile that `process_chat` of app.py records for a request of protocol.py, against the columns of schema.py.
use mod_playerbot_llm.Prelude.{
  ℕ, ◌≤◌, ◌≡◌, ◌≢◌, refl, true, Option, some, List, [], ◌∷◌, all, length, ok, arith, leb,
  Bool-cases, inl, inr,
}
use mod_playerbot_llm.Prelude.Text.{Text, text_eq, text_eq_sound}
use mod_playerbot_llm.Store.{Tables, record_profile, get_profile}
use mod_playerbot_llm.Store.Rows.{IsStorable, get_profile-record_profile}
use mod_playerbot_llm.Protocol.{ChatRequest, one_of}
use mod_playerbot_llm.Protocol.Requests.{Incoming}
use mod_playerbot_llm.Protocol.Requests.Fields.{all_true-All}
use mod_playerbot_llm.Protocol.Requests.Chat.{
  CareerRequestContent, chat_tests, voices, is_valid_chat, parse_request,
}
use mod_playerbot_llm.Protocol.Requests.Trusted.{parse_incoming_ok}
use mod_playerbot_llm.Service.Chat.{profile_of}

one_of-short :
    (limit : ℕ) (values : List Text) (value : Text)
    → all (λ v. leb (length v) limit) values ≡ true
    → one_of values value ≡ true
    → length value ≤ limit
one_of-short limit [] value short h = cc
one_of-short limit (v ∷ vs) value short h = elim (Bool-cases (text_eq value v)) [
  | inl same ↦ rw (text_eq_sound value v same) (ground arith)
  | inr apart ↦ let h' = rw apart at h in one_of-short limit vs value (ground arith) h'
]

parse_request-IsStorable :
    (read : Text → Option CareerRequestContent) (token : Text)
    (incoming : Option (Incoming ChatRequest)) (r : ChatRequest)
    → parse_request read token incoming ≡ ok r
    → IsStorable r.bot_guid (profile_of r)
unfolding parse_request is_valid_chat
parse_request-IsStorable read token incoming r h =
    let (valid, _) = parse_incoming_ok (is_valid_chat read) token incoming r h in
    let tests = all_true-All (chat_tests read r) valid in
    let guid = tests.1.1.0 in
    let name = tests.1.1.1.1.0 in
    let version = tests.1.1.1.1.1.1.0 in
    let gathers = tests.1.1.1.1.1.1.1.0 in
    let explores = tests.1.1.1.1.1.1.1.1.0 in
    let voice = tests.1.1.1.1.1.1.1.1.1.0 in
    record {
      guid_fits = ground arith;
      version_fits = ground arith;
      crafting_fits = ground arith;
      gathering_fits = ground arith;
      exploration_fits = ground arith;
      sociability_fits = ground arith;
      voice_fits = one_of-short 32 voices r.voice refl voice;
      name_fits = ground arith;
    }

-- The profile of every chat request that was let in fits the columns of its table: recording it succeeds, over
-- whatever the bot had before, all of it is read back, and no other bot's profile changes.
pub parse_request-record_profile :
    (read : Text → Option CareerRequestContent) (token : Text)
    (incoming : Option (Incoming ChatRequest)) (r : ChatRequest) (now : ℕ) (s : Tables)
    → parse_request read token incoming ≡ ok r
    → let (result, s') = record_profile r.bot_guid (profile_of r) now s in
      (result ≡ ok tt)
      × ((get_profile r.bot_guid s').0 ≡ ok (some (profile_of r)))
      × ((other : ℕ) → other ≢ r.bot_guid → (get_profile other s').0 ≡ (get_profile other s).0)
parse_request-record_profile read token incoming r now s h =
    get_profile-record_profile r.bot_guid (profile_of r) now s
      (parse_request-IsStorable read token incoming r h)
