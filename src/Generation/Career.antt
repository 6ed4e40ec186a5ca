-- ===== src/Generation/Career.antt =====
-- `_validate_career_reply` of generation.py.
use mod_playerbot_llm.Prelude.{
  ℕ, ◌≤◌, ◌≡◌, ◌∙◌, refl, true, Option, none, some, List, [], ◌∷◌, ok, err, arith, ltb,
  if◌then◌else◌, Bool-cases, inl, inr, Option-cases,
}
use mod_playerbot_llm.Prelude.Text.{Text, text_eq}
use mod_playerbot_llm.Protocol.{refuse}
use mod_playerbot_llm.Generation.{Gate, uncategorized, Offered, first_offer, later_offer}

pub data SpendingStyle : Type 0 where
  none_style minimal progression completionist : SpendingStyle

-- `_SPENDING_STYLE_ORDER`
unfoldable pub spending_style_order : SpendingStyle → ℕ
spending_style_order none_style = 0
spending_style_order minimal = 1
spending_style_order progression = 2
spending_style_order completionist = 3

pub record CareerCandidate : Type 0 where
  pub token : Text
  pub summary : Text
  pub maximum_spending_style : SpendingStyle
  pub market_eligible : ℕ
  pub engagement : ℕ

pub record CareerReply : Type 0 where
  pub candidate_token : Text
  pub spending_style : SpendingStyle

abbrev pub later_candidate :
    Option CareerCandidate → Option CareerCandidate → Option CareerCandidate
later_candidate none first = first
later_candidate (some later) first = some later

-- The dict from tokens to candidates: a later candidate of the same token takes its place.
unfoldable pub candidate_of : List CareerCandidate → Text → Option CareerCandidate
candidate_of [] token = none
candidate_of (c ∷ cs) token =
    later_candidate (candidate_of cs token) (if text_eq c.token token then some c else none)

abbrev check_choice : Option CareerCandidate → CareerReply → Gate CareerReply
check_choice none reply = err uncategorized
check_choice (some candidate) reply =
    refuse
      (ltb (spending_style_order candidate.maximum_spending_style)
        (spending_style_order reply.spending_style))
      uncategorized (ok reply)

-- The accepted choice: its JSON text is the standard library's.
unfoldable pub validate_career_reply : List CareerCandidate → CareerReply → Gate CareerReply
validate_career_reply candidates reply =
    check_choice (candidate_of candidates reply.candidate_token) reply

-- A candidate of the menu that allows the choice.
abbrev pub Allows : CareerReply → CareerCandidate → Type 0
Allows reply c =
    (text_eq c.token reply.candidate_token ≡ true)
    × (spending_style_order reply.spending_style ≤ spending_style_order c.maximum_spending_style)

candidate_of-Offered :
    (cs : List CareerCandidate) (token : Text) (c : CareerCandidate)
    → candidate_of cs token ≡ some c
    → (P : CareerCandidate → Type 0) → (text_eq c.token token ≡ true → P c)
    → Offered P cs
unfolding candidate_of
candidate_of-Offered [] token c e P h = cc
candidate_of-Offered (x ∷ xs) token c e P h = elim (Option-cases (candidate_of xs token)) [
  | inr (later, q) ↦
      let e' = rw q at e in later_offer x xs (candidate_of-Offered xs token c (q ∙ e') P h)
  | inl q ↦ elim (Bool-cases (text_eq x.token token)) [
    | inl same ↦
        let e' = rw (q, same) at e in
        let found : x ≡ c = cc in first_offer x xs (rw found (h (rw (← found) same)))
    | inr apart ↦ let e' = rw (q, apart) at e in cc
  ]
]

check_choice_ok :
    (cs : List CareerCandidate) (found : Option CareerCandidate) (reply chosen : CareerReply)
    → candidate_of cs reply.candidate_token ≡ found
    → check_choice found reply ≡ ok chosen
    → (chosen ≡ reply) × Offered (Allows reply) cs
check_choice_ok cs none reply chosen e h = cc
check_choice_ok cs (some c) reply chosen e h =
    elim (Bool-cases (
      ltb (spending_style_order c.maximum_spending_style)
        (spending_style_order reply.spending_style))) [
          | inl over ↦ let h' = rw over at h in cc
          | inr within ↦
              let h' = rw within at h in
              (
                cc,
                candidate_of-Offered cs reply.candidate_token c e (Allows reply)
                    (λ same. (same, ground arith)),
              )
        ]

-- An accepted career choice is the reply itself, names a candidate of the menu, and spends no more than that
-- candidate allows.
pub validate_career_reply-Offered :
    (candidates : List CareerCandidate) (reply chosen : CareerReply)
    → validate_career_reply candidates reply ≡ ok chosen
    → (chosen ≡ reply) × Offered (Allows reply) candidates
unfolding validate_career_reply
validate_career_reply-Offered candidates reply chosen h =
    check_choice_ok candidates _ reply chosen refl h
