-- ===== src/Store.antt =====
-- sidecar/src/playerbots_llm/store.py: profiles, conversations, careers, the ambient rate and the purge of
-- deleted bots. A method is one transaction; the rows of a conversation stand in the order of their ids.
pub mod Columns
pub mod Turns
pub mod Ambient
pub mod Purge
pub mod Purging
pub mod Rows
use mod_playerbot_llm.Prelude.{
  ℕ, zero, suc, ◌+◌, ◌%◌, Bool, true, false, not, ◌&&◌, ◌||◌, Option, none, some, is_none, List, [],
  ◌∷◌, ◌++◌, map, any, all, keep_if, length, drop, Result, ok, err, Action, pure, raise, gets,
  modify, ◌>>=◌, ◌>>◌, ltb, leb, ◌==◌, if◌then◌else◌,
}
use mod_playerbot_llm.Prelude.Int.{ℤ, pos, leb_ℤ}
use mod_playerbot_llm.Prelude.Text.{Text, codes, text_eq, digits, take}
use mod_playerbot_llm.Schema.{acquire_named_lock}
use Columns.{
  Profile, CareerDecision, ProfileRow, CareerRow, profile_guid, career_guid, upsert, find,
  delete_owned, profile_row, profile_fits, update_profile, read_profile, career_row, career_fits,
  update_career, read_career,
}

abbrev pub conversation_turn_limit : ℕ
conversation_turn_limit = 12

abbrev pub conversation_lock_buckets : ℕ
conversation_lock_buckets = 256

-- One hour, in seconds.
abbrev pub ambient_window : ℕ
ambient_window = 3600

abbrev pub max_ambient_messages_per_hour : ℕ
max_ambient_messages_per_hour = 6

-- A row of `playerbot_llm_conversation_turn`.
pub record Turn : Type 0 where
  pub id : ℕ
  pub bot_guid : ℕ
  pub role : Text
  pub content : Text
  pub created_at : ℕ

-- A row of `playerbot_llm_bot_purge`.
pub record PurgeIntent : Type 0 where
  pub bot_guid : ℕ
  pub acknowledged : Bool

pub record Tables : Type 0 where
  pub locks : List Text
  pub profiles : List ProfileRow
  pub turns : List Turn
  pub next_turn_id : ℕ
  pub careers : List CareerRow
  pub purges : List PurgeIntent
  -- `created_at` of each row of `playerbot_llm_ambient_attempt`
  pub ambient : List ℕ

-- `data_error` is the driver's error for a value that its column does not hold, in the strict mode of MySQL.
pub data StoreFault : Type 0 where
  unsupported_role data_error : StoreFault

abbrev pub Store : Type 0 → Type 0
Store A = Action Tables StoreFault A

unfoldable pub record_profile : ℕ → Profile → ℕ → Store Unit
record_profile guid profile now =
    if not (profile_fits guid profile)
    then raise data_error
    else modify (λ s. record s {
      profiles = upsert profile_guid update_profile (profile_row guid profile now) s.profiles;
    })

unfoldable pub get_profile : ℕ → Store (Option Profile)
get_profile guid = gets (λ s. read_profile (find profile_guid guid s.profiles))

unfoldable pub record_career_decision : ℕ → CareerDecision → ℕ → Store Unit
record_career_decision guid decision now =
    if not (career_fits guid decision)
    then raise data_error
    else modify (λ s. record s {
      careers = upsert career_guid update_career (career_row guid decision now) s.careers;
    })

unfoldable pub get_career_decision : ℕ → Store (Option CareerDecision)
get_career_decision guid = gets (λ s. read_career (find career_guid guid s.careers))

abbrev pub said_by : ℕ → Turn → Bool
said_by guid t = t.bot_guid == guid

-- How many of the bot's turns have an id above this one.
unfoldable pub newer : ℕ → ℕ → List Turn → ℕ
newer guid id turns = length (keep_if (λ t. said_by guid t && ltb id t.id) turns)

-- id IN (SELECT id ... WHERE bot_guid = guid ORDER BY id DESC LIMIT limit)
abbrev pub is_newest : ℕ → ℕ → List Turn → Turn → Bool
is_newest guid limit turns t = ltb (newer guid t.id turns) limit

-- DELETE ... WHERE bot_guid = guid AND id NOT IN (...)
unfoldable pub trim : ℕ → ℕ → List Turn → List Turn
trim guid limit turns = keep_if (λ t. not (said_by guid t) || is_newest guid limit turns t) turns

abbrev pub is_role : Text → Bool
is_role role = text_eq role (codes "user") || text_eq role (codes "assistant")

unfoldable pub append_turn : ℕ → Text → Text → ℕ → Store Unit
append_turn guid role content now = if not (is_role role) then raise unsupported_role else (do
  modify (λ s. record s {
    locks =
        acquire_named_lock (codes "conversation:" ++ digits (guid % conversation_lock_buckets))
          s.locks;
  })
  modify (λ s. record s {
    turns =
        s.turns
        ++ record {
          id = s.next_turn_id;
          bot_guid = guid;
          role = role;
          content = content;
          created_at = now;
        }
          ∷ [];
    next_turn_id = suc s.next_turn_id;
  })
  modify (λ s. record s { turns = trim guid conversation_turn_limit s.turns }))

abbrev pub said : Turn → Text × Text
said t = (t.role, t.content)

-- The turns of a bot, in the order of their ids.
unfoldable pub turns_of : ℕ → List Turn → List (Text × Text)
turns_of guid turns = map said (keep_if (said_by guid) turns)

unfoldable pub recent_turns : ℕ → Store (List (Text × Text))
recent_turns guid = gets (λ s. turns_of guid s.turns)

-- created_at > now - ambient_window
abbrev pub is_recent : ℕ → ℕ → Bool
is_recent now created = ltb now (created + ambient_window)

unfoldable pub forget_old : ℕ → List ℕ → List ℕ
forget_old now = keep_if (is_recent now)

unfoldable pub count_recent : ℕ → List ℕ → ℕ
count_recent now attempts = length (keep_if (is_recent now) attempts)

abbrev pub take_slot : ℤ → ℕ → ℕ → Store Bool
take_slot messages_per_hour now count =
    if leb_ℤ messages_per_hour (pos count)
    then pure false
    else (do modify (λ s. record s { ambient = s.ambient ++ now ∷ [] }); pure true)

abbrev pub is_rate : ℤ → Bool
is_rate messages_per_hour =
    leb_ℤ (pos 1) messages_per_hour && leb_ℤ messages_per_hour (pos max_ambient_messages_per_hour)

unfoldable pub try_begin_ambient : ℤ → ℕ → Store Bool
try_begin_ambient messages_per_hour now =
    if not (is_rate messages_per_hour) then pure false else (do
      modify (λ s. record s { locks = acquire_named_lock (codes "ambient") s.locks })
      modify (λ s. record s { ambient = forget_old now s.ambient })
      count ← gets (λ s. count_recent now s.ambient)
      take_slot messages_per_hour now count)

abbrev pub least : ℕ → Option ℕ → Option ℕ
least guid none = some guid
least guid (some other) = if ltb other guid then some other else some guid

-- SELECT bot_guid ... WHERE acknowledged_at IS NULL ORDER BY bot_guid LIMIT 1
unfoldable pub next_purge : List PurgeIntent → Option ℕ
next_purge [] = none
next_purge (p ∷ ps) =
    let rest = next_purge ps in if p.acknowledged then rest else least p.bot_guid rest

abbrev pub acknowledge_row : ℕ → PurgeIntent → PurgeIntent
acknowledge_row guid p = if p.bot_guid == guid then record p { acknowledged = true } else p

unfoldable pub acknowledge : ℕ → List PurgeIntent → List PurgeIntent
acknowledge guid = map (acknowledge_row guid)

unfoldable pub delete_turns : ℕ → List Turn → List Turn
delete_turns guid = keep_if (λ t. not (said_by guid t))

abbrev pub lock_purge : Tables → Tables
lock_purge s = record s { locks = acquire_named_lock (codes "bot_purge") s.locks }

-- The three deletes and the acknowledgement of one intent.
unfoldable pub purge_bot : ℕ → Tables → Tables
purge_bot guid s = record s {
  profiles = delete_owned profile_guid guid s.profiles;
  turns = delete_turns guid s.turns;
  careers = delete_owned career_guid guid s.careers;
  purges = acknowledge guid s.purges;
}

-- What a turn of the loop does with the intent it found; `again` is the next turn.
abbrev pub purge_turn : (Tables → Option ℕ × Tables) → ℕ → Option ℕ → Tables → Option ℕ × Tables
purge_turn again purged none s = (some purged, s)
purge_turn again purged (some guid) s = again (purge_bot guid s)

-- The loop with `purged` counted so far; a result of `none` is a loop cut off by its fuel.
unfoldable pub purge_loop : ℕ → ℕ → Tables → Option ℕ × Tables
purge_loop zero purged s = (none, s)
purge_loop (suc fuel) purged s =
    purge_turn (purge_loop fuel (suc purged)) purged (next_purge s.purges) (lock_purge s)

-- One turn more than there are intents.
unfoldable pub purge_pending_bot_data : Tables → Option ℕ × Tables
purge_pending_bot_data s = purge_loop (suc (length s.purges)) 0 s
