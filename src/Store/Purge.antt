-- ===== src/Store/Purge.antt =====
-- One turn of the purge loop: the intent it takes, the rows it deletes, the acknowledgement.
use mod_playerbot_llm.Prelude.{
  ℕ, suc, ◌≤◌, ◌<◌, ◌≡◌, ◌≢◌, ◌⊎◌, refl, ap, Bool, true, false, Option, none, some, List, [], ◌∷◌,
  map, any, keep_if, arith, ◌==◌, if◌then◌else◌, inl, inr,
}
use mod_playerbot_llm.Store.{
  Tables, PurgeIntent, Turn, delete_turns, said_by, turns_of, next_purge, least, acknowledge,
  purge_bot,
}
use mod_playerbot_llm.Store.Columns.{profile_guid, career_guid, find, delete_owned}

-- Whether a bot has an intent that is not acknowledged, and how many intents are not.
unfoldable pub is_pending : ℕ → List PurgeIntent → Bool
is_pending guid = any (λ p. if p.acknowledged then false else p.bot_guid == guid)

unfoldable pub pending : List PurgeIntent → ℕ
pending [] = 0
pending (p ∷ ps) = let rest = pending ps in if p.acknowledged then rest else suc rest

next_of :
    (a : Bool) (first guid : ℕ) (rest : Option ℕ)
    → (if a then rest else least first rest) ≡ some guid
    → ((a ≡ true) × (rest ≡ some guid)) ⊎ ((a ≡ false) × ((first ≡ guid) ⊎ (rest ≡ some guid)))
next_of true first guid rest e = inl (refl, e)
next_of false first guid none e = inr (refl, inl (ground arith))
next_of false first guid (some other) e = ground arith

pub next_pending :
    (guid : ℕ) (ps : List PurgeIntent) → next_purge ps ≡ some guid → is_pending guid ps ≡ true
unfolding next_purge is_pending
next_pending guid [] e = cc
next_pending guid (p ∷ ps) e =
    ground (arith, next_of p.acknowledged p.bot_guid guid (next_purge ps) e, next_pending guid ps)

none_of :
    (a : Bool) (first : ℕ) (rest : Option ℕ)
    → (if a then rest else least first rest) ≡ none
    → (a ≡ true) × (rest ≡ none)
none_of true first rest e = (refl, e)
none_of false first none e = cc
none_of false first (some other) e = ground arith

pub all_acknowledged : (ps : List PurgeIntent) → next_purge ps ≡ none → pending ps ≡ 0
unfolding next_purge pending
all_acknowledged [] e = refl
all_acknowledged (p ∷ ps) e =
    let (done, rest) = none_of p.acknowledged p.bot_guid (next_purge ps) e in
    rw done (all_acknowledged ps rest)

acknowledge_fewer : (guid : ℕ) (ps : List PurgeIntent) → pending (acknowledge guid ps) ≤ pending ps
unfolding pending acknowledge
acknowledge_fewer guid [] = omega arith
acknowledge_fewer guid (p ∷ ps) = ground (arith, acknowledge_fewer guid ps)

pub acknowledge_less :
    (guid : ℕ) (ps : List PurgeIntent)
    → is_pending guid ps ≡ true
    → pending (acknowledge guid ps) < pending ps
unfolding is_pending pending acknowledge
acknowledge_less guid [] e = cc
acknowledge_less guid (p ∷ ps) e =
    ground (arith, acknowledge_less guid ps, acknowledge_fewer guid ps)

pub is_pending-acknowledge_self :
    (guid : ℕ) (ps : List PurgeIntent) → is_pending guid (acknowledge guid ps) ≡ false
unfolding is_pending acknowledge
is_pending-acknowledge_self guid [] = refl
is_pending-acknowledge_self guid (p ∷ ps) = ground (arith, is_pending-acknowledge_self guid ps)

pub is_pending-acknowledge_ne :
    (guid other : ℕ) (ps : List PurgeIntent)
    → other ≢ guid
    → is_pending other (acknowledge guid ps) ≡ is_pending other ps
unfolding is_pending acknowledge
is_pending-acknowledge_ne guid other [] ne = refl
is_pending-acknowledge_ne guid other (p ∷ ps) ne =
    ground (arith, is_pending-acknowledge_ne guid other ps ne)

module _ {A : Type 0} (key : A → ℕ) where
  find-delete : (guid : ℕ) (rows : List A) → find key guid (delete_owned key guid rows) ≡ none
  unfolding find delete_owned
  find-delete guid [] = refl
  find-delete guid (x ∷ xs) = ground (arith, find-delete guid xs)

  find-delete_ne :
      (guid other : ℕ) (rows : List A)
      → other ≢ guid
      → find key other (delete_owned key guid rows) ≡ find key other rows
  unfolding find delete_owned
  find-delete_ne guid other [] ne = refl
  find-delete_ne guid other (x ∷ xs) ne = ground (arith, find-delete_ne guid other xs ne)

own-delete : (guid : ℕ) (ts : List Turn) → keep_if (said_by guid) (delete_turns guid ts) ≡ []
unfolding delete_turns
own-delete guid [] = refl
own-delete guid (t ∷ ts) = ground (arith, own-delete guid ts)

other-delete :
    (guid other : ℕ) (ts : List Turn)
    → other ≢ guid
    → keep_if (said_by other) (delete_turns guid ts) ≡ keep_if (said_by other) ts
unfolding delete_turns
other-delete guid other [] ne = refl
other-delete guid other (t ∷ ts) ne = ground (arith, other-delete guid other ts ne)

-- Nothing of the bot is left.
abbrev pub IsGone : ℕ → Tables → Type 0
IsGone guid s =
    (find profile_guid guid s.profiles ≡ none)
    × (find career_guid guid s.careers ≡ none)
    × (turns_of guid s.turns ≡ [])

-- All of the bot is as it was.
abbrev pub IsSame : ℕ → Tables → Tables → Type 0
IsSame guid a b =
    (find profile_guid guid b.profiles ≡ find profile_guid guid a.profiles)
    × (find career_guid guid b.careers ≡ find career_guid guid a.careers)
    × (turns_of guid b.turns ≡ turns_of guid a.turns)

pub purge_bot-IsGone : (guid : ℕ) (s : Tables) → IsGone guid (purge_bot guid s)
unfolding purge_bot turns_of
purge_bot-IsGone guid s = (
  find-delete profile_guid guid s.profiles,
  find-delete career_guid guid s.careers,
  ap (map _) (own-delete guid s.turns),
)

pub purge_bot-IsSame :
    (guid other : ℕ) (s : Tables) → other ≢ guid → IsSame other s (purge_bot guid s)
unfolding purge_bot turns_of
purge_bot-IsSame guid other s ne = (
  find-delete_ne profile_guid guid other s.profiles ne,
  find-delete_ne career_guid guid other s.careers ne,
  ap (map _) (other-delete guid other s.turns ne),
)

-- What the loop promises from one state to the other.
pub record IsPurged (before after : Tables) : Type 0 where
  pub acknowledged : pending after.purges ≡ 0
  pub gone : (guid : ℕ) → is_pending guid before.purges ≡ true → IsGone guid after
  pub same : (guid : ℕ) → is_pending guid before.purges ≡ false → IsSame guid before after
