-- ===== src/Service/Lanes.antt =====
-- What of the day's ceiling a chat request may use: the budget lanes of app.py for the requests that protocol.py
-- lets in, with the admission of budget.py.
use mod_playerbot_llm.Prelude.{
  ℕ, ◌≡◌, ◌≢◌, ◌↔◌, refl, some, Bool-cases, inl, inr, ==_iff, Bool, true, false, not, ◌&&◌, ◌||◌,
  Option, ok, arith, ◌==◌, if◌then◌else◌,
}
use mod_playerbot_llm.Prelude.Text.{Text, codes, text_eq}
use mod_playerbot_llm.Prelude.Int.{ℤ, pos, ◌+ℤ◌, ◌≤ℤ◌, ◌<ℤ◌, pos_part}
use mod_playerbot_llm.Budget.{
  BudgetState, RequestPriority, immediate_human, background, admitted, Ratio, reserve_floor_nano,
  admit,
}
use mod_playerbot_llm.Budget.Admission.{Affordable, admit_iff}
use mod_playerbot_llm.Protocol.{ChatRequest, is_ambient, is_career, is_empty}
use mod_playerbot_llm.Protocol.Requests.{Incoming}
use mod_playerbot_llm.Protocol.Requests.Fields.{all_true-All, bytes_within}
use mod_playerbot_llm.Protocol.Requests.Chat.{
  CareerRequestContent, chat_tests, is_valid_chat, parse_request, trusted_contract,
  max_request_message_bytes, career_event_kind, ambient_event_kind, ambient_event_marker,
  is_content, parse_career_content,
}
use mod_playerbot_llm.Protocol.Requests.Trusted.{parse_incoming_ok}
use mod_playerbot_llm.Service.Pipelines.{priority_for}

-- A zero guid goes with the background lane on each of the three branches of the contract.
contract_lane :
    (career world fifth fourth named a b c : Bool) (guid : ℕ)
    → (if career || fifth
        then (career && fifth) && ((guid == 0 && named) && a)
        else if world || fourth
        then (world && fourth) && ((guid == 0 && named) && b)
        else (not (guid == 0) && not named) && c)
      ≡ true
    → ((if world || career then background else immediate_human) ≡ immediate_human) ↔ (guid ≢ 0)
contract_lane true world fifth fourth named a b c guid h = ground arith
contract_lane false true fifth fourth named a b c guid h = ground arith
contract_lane false false true fourth named a b c guid h = ground arith
contract_lane false false false fourth named a b c guid h = ground arith

parse_request-priority :
    (read : Text → Option CareerRequestContent) (token : Text)
    (incoming : Option (Incoming ChatRequest)) (r : ChatRequest)
    → parse_request read token incoming ≡ ok r
    → (priority_for r ≡ immediate_human) ↔ (r.speaker_guid ≢ 0)
unfolding parse_request is_valid_chat trusted_contract priority_for is_ambient is_career
parse_request-priority read token incoming r h =
    let (valid, _) = parse_incoming_ok (is_valid_chat read) token incoming r h in
    let tests = all_true-All (chat_tests read r) valid in
    contract_lane (text_eq r.channel (codes "career")) (text_eq r.channel (codes "world"))
      (r.event_kind == career_event_kind) (r.event_kind == ambient_event_kind)
      (is_empty r.speaker_name)
      ((r.subject_id == 0 && r.occurrence == 0) && is_content (parse_career_content read r.message))
      (r.subject_id == 0 && text_eq r.message ambient_event_marker)
      (bytes_within max_request_message_bytes r.message) r.speaker_guid
      tests.1.1.1.1.1.1.1.1.1.1.1.1.1.0

lane-Affordable :
    (ceiling cost : ℤ) (state : BudgetState) (ratio : Ratio) (lane : RequestPriority) (guid : ℕ)
    → ((lane ≡ immediate_human) ↔ (guid ≢ 0))
    → Affordable ceiling state cost lane ratio ↔ (
        (state.settled_nano +ℤ state.outstanding_nano +ℤ cost ≤ℤ ceiling)
        × (guid ≡ 0
            → state.settled_nano
                +ℤ state.outstanding_nano
                +ℤ cost
                +ℤ pos (reserve_floor_nano (pos_part ceiling) ratio)
              ≤ℤ ceiling))
lane-Affordable ceiling cost state ratio immediate_human guid named =
    (λ h. (h, λ e. absurd (named.0 refl e)), λ h. h.0)
lane-Affordable ceiling cost state ratio background guid named = (
  λ h. (h.0, λ e. h.1),
  λ h.
      let none : guid ≡ 0 = elim (Bool-cases (guid == 0)) [
        | inl same ↦ (==_iff guid 0).0 same
        | inr apart ↦
            let human : background ≡ immediate_human =
              named.1 (λ e. let same = (==_iff guid 0).1 e in absurd (cc)) in
            absurd (cc)
      ] in
      (h.0, h.1 none),
)

-- A chat request that was let in, of known cost, is admitted exactly when the circuit is closed, the ceiling is
-- positive, the cost is not negative and fits under the ceiling with what is settled and outstanding, and, if
-- the request names no speaker (its guid is 0), so does the reserve floor on top.
pub parse_request-admit :
    (read : Text → Option CareerRequestContent) (token : Text)
    (incoming : Option (Incoming ChatRequest)) (r : ChatRequest) (ceiling cost : ℤ)
    (state : BudgetState) (ratio : Ratio)
    → parse_request read token incoming ≡ ok r
    → (admit ceiling state (some cost) (priority_for r) ratio ≡ admitted) ↔ (
        (state.circuit_open ≡ false)
        × (pos 0 <ℤ ceiling)
        × (pos 0 ≤ℤ cost)
        × (state.settled_nano +ℤ state.outstanding_nano +ℤ cost ≤ℤ ceiling)
        × (r.speaker_guid ≡ 0
            → state.settled_nano
                +ℤ state.outstanding_nano
                +ℤ cost
                +ℤ pos (reserve_floor_nano (pos_part ceiling) ratio)
              ≤ℤ ceiling))
parse_request-admit read token incoming r ceiling cost state ratio h =
    let policy = admit_iff ceiling cost state (priority_for r) ratio in
    let lane =
      lane-Affordable ceiling cost state ratio (priority_for r) r.speaker_guid
        (parse_request-priority read token incoming r h) in
    (
      λ e.
          let (closed, usable, priced, room) = policy.0 e in
          let (below, kept) = lane.0 room in (closed, usable, priced, below, kept),
      λ (closed, usable, priced, below, kept).
          policy.1 (closed, usable, priced, lane.1 (below, kept)),
    )
