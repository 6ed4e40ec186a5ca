-- ===== src/Generation/Gestures.antt =====
-- `validate_social_emote` of generation.py, and what it lets through.
use mod_playerbot_llm.Prelude.{
  ℕ, ◌≡◌, refl, Bool, true, false, not, ◌&&◌, Option, none, some, List, [], ◌∷◌, all, ok, err,
  arith, ltb, ◌==◌, if◌then◌else◌, Bool-cases, inl, inr,
}
use mod_playerbot_llm.Prelude.Text.{Text, codes, text_eq, text_eq_sound}
use mod_playerbot_llm.Protocol.{SocialRequest, refuse}
use mod_playerbot_llm.Protocol.Social.{social_emote_channels, number_in, social_emote_ids}
use mod_playerbot_llm.Generation.{
  Offered, first_offer, later_offer, Gate, unknown_emote, emote_channel_illegal,
}
use mod_playerbot_llm.Generation.Gates.{refuse_ok, not-false}

-- `SOCIAL_EMOTES`
abbrev pub social_emotes : List (Text × ℕ)
social_emotes =
    (codes "applaud", 5)
    ∷ (codes "bow", 17)
    ∷ (codes "cheer", 21)
    ∷ (codes "chuckle", 23)
    ∷ (codes "greet", 48)
    ∷ (codes "grin", 49)
    ∷ (codes "laugh", 60)
    ∷ (codes "nod", 67)
    ∷ (codes "salute", 78)
    ∷ (codes "shrug", 83)
    ∷ (codes "sigh", 85)
    ∷ (codes "smile", 163)
    ∷ (codes "thank", 97)
    ∷ (codes "wave", 101)
    ∷ (codes "ponder", 120)
    ∷ []

-- `SOCIAL_EMOTES.get(name)`
unfoldable pub emote_of : List (Text × ℕ) → Text → Option ℕ
emote_of [] name = none
emote_of (e ∷ es) name = let rest = emote_of es name in if text_eq e.0 name then some e.1 else rest

abbrev pub check_emote : Option ℕ → ℕ → Gate ℕ
check_emote none channel = err unknown_emote
check_emote (some emote_id) channel =
    refuse (not (number_in social_emote_channels channel)) emote_channel_illegal (ok emote_id)

unfoldable pub validate_social_emote : Text → SocialRequest → Gate ℕ
validate_social_emote name request =
    check_emote (emote_of social_emotes name) request.speak_on_channel

-- A gesture that the client has, and not the number that stands for none.
abbrev is_gesture : ℕ → Bool
is_gesture emote_id = number_in social_emote_ids emote_id && not (emote_id == 0)

emote_of-is_gesture :
    (es : List (Text × ℕ)) (name : Text) (emote_id : ℕ)
    → all (λ e. is_gesture e.1) es ≡ true
    → emote_of es name ≡ some emote_id
    → is_gesture emote_id ≡ true
unfolding emote_of
emote_of-is_gesture [] name emote_id known h = cc
emote_of-is_gesture (e ∷ es) name emote_id known h = elim (Bool-cases (is_gesture e.1)) [
  | inr unknown ↦ let known' = rw unknown at known in cc
  | inl first ↦
      let known' = rw first at known in
      elim (Bool-cases (text_eq e.0 name)) [
        | inl same ↦ let h' = rw same at h in let found : e.1 ≡ emote_id = cc in rw (← found) first
        | inr apart ↦ let h' = rw apart at h in emote_of-is_gesture es name emote_id known' h'
      ]
]

check_emote_ok :
    (found : Option ℕ) (channel emote_id : ℕ)
    → check_emote found channel ≡ ok emote_id
    → (found ≡ some emote_id) × (number_in social_emote_channels channel ≡ true)
check_emote_ok none channel emote_id h = cc
check_emote_ok (some n) channel emote_id h =
    let (seen, same) = refuse_ok _ _ _ emote_id h in let seen' = not-false _ seen in (cc, seen')

both_hold : (a b : Bool) → (a && b) ≡ true → (a ≡ true) × (b ≡ true)
both_hold true b h = (refl, h)
both_hold false b h = cc

refuted : (b : Bool) → not b ≡ true → b ≡ false
refuted true h = cc
refuted false h = refl

emote_of-Offered :
    (es : List (Text × ℕ)) (name : Text) (emote_id : ℕ)
    → emote_of es name ≡ some emote_id
    → Offered (λ e. (e.0 ≡ name) × (e.1 ≡ emote_id)) es
unfolding emote_of
emote_of-Offered [] name emote_id h = cc
emote_of-Offered (e ∷ es) name emote_id h = elim (Bool-cases (text_eq e.0 name)) [
  | inl same ↦ let h' = rw same at h in first_offer e es (text_eq_sound e.0 name same, cc)
  | inr apart ↦ let h' = rw apart at h in later_offer e es (emote_of-Offered es name emote_id h')
]

-- A gesture that may be shown: one of the menu by its name, with an id that the client has and that is not the
-- number for none, where a gesture is seen.
pub record IsGesture (name : Text) (channel emote_id : ℕ) : Type 0 where
  pub named : Offered (λ e. (e.0 ≡ name) × (e.1 ≡ emote_id)) social_emotes
  pub known : number_in social_emote_ids emote_id ≡ true
  pub nonzero : (emote_id == 0) ≡ false
  pub seen : number_in social_emote_channels channel ≡ true

pub validate_social_emote-IsGesture :
    (name : Text) (request : SocialRequest) (emote_id : ℕ)
    → validate_social_emote name request ≡ ok emote_id
    → IsGesture name request.speak_on_channel emote_id
unfolding validate_social_emote
validate_social_emote-IsGesture name request emote_id h =
    let (found, seen) =
      check_emote_ok (emote_of social_emotes name) request.speak_on_channel emote_id h in
    let (known, shown) =
      both_hold (number_in social_emote_ids emote_id) (not (emote_id == 0))
        (emote_of-is_gesture social_emotes name emote_id refl found) in
    record {
      named = emote_of-Offered social_emotes name emote_id found;
      known = known;
      nonzero = refuted (emote_id == 0) shown;
      seen = seen;
    }

pub channel_fits :
    (channel : ℕ) → number_in social_emote_channels channel ≡ true → ltb 255 channel ≡ false
channel_fits channel h = ground arith
