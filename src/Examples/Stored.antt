-- ===== src/Examples/Stored.antt =====
-- The store's and the frames' theorems on small tables.
use mod_playerbot_llm.Prelude.{
  ℕ, ◌+◌, ◌≤◌, ◌≡◌, ◌≢◌, refl, false, some, [], ◌∷◌, ◌++◌, ok, err, zero, suc, arith, ◌&&◌,
  if◌then◌else◌,
}
use mod_playerbot_llm.Prelude.Int.{pos}
use mod_playerbot_llm.Prelude.Text.{Text, codes}
use mod_playerbot_llm.Store.{
  Tables, data_error, Turn, append_turn, recent_turns, turns_of, conversation_turn_limit,
  record_career_decision, get_career_decision, try_begin_ambient, count_recent, is_recent,
  max_ambient_messages_per_hour, purge_pending_bot_data,
}
use mod_playerbot_llm.Store.Columns.{career_fits, CareerDecision}
use mod_playerbot_llm.Store.Turns.{IsNumbered, last}
use mod_playerbot_llm.Store.Rows.{
  recent_turns-append_turn, IsStorableDecision, get_career_decision-record_career_decision,
}
use mod_playerbot_llm.Store.Ambient.{granted, try_begin_ambient_lem, tries, ambient_rate_kept}
use mod_playerbot_llm.Store.Purge.{pending, IsPurged}
use mod_playerbot_llm.Store.Purging.{purge_pending_bot_data-ends}
use mod_playerbot_llm.Protocol.Frames.{encode_frame, read_frame, read_frame-encode_frame}

abbrev hello : Turn
hello = record { id = 3; bot_guid = 7; role = codes "user"; content = codes "hi"; created_at = 100 }

abbrev pub store : Tables
store = record {
  locks = [];
  profiles = [];
  turns = hello ∷ [];
  next_turn_id = 4;
  careers = [];
  purges = record { bot_guid = 7; acknowledged = false } ∷ [];
  ambient = 100 ∷ [];
}

store-IsNumbered : IsNumbered store
store-IsNumbered = record { ordered = (tt, tt); minted = (omega arith, tt) }

recent_turns-append_turn_example :
    let s' = (append_turn 7 (codes "assistant") (codes "hey") 101 store).1 in
    ((recent_turns 7 s').0
      ≡ ok (
          last conversation_turn_limit
            (turns_of 7 store.turns ++ (codes "assistant", codes "hey") ∷ [])))
    × ((other : ℕ) → other ≢ 7 → (recent_turns other s').0 ≡ (recent_turns other store).0)
recent_turns-append_turn_example =
    recent_turns-append_turn 7 (codes "assistant") (codes "hey") 101 store store-IsNumbered refl

abbrev choice : CareerDecision
choice = record {
  career_version = 1;
  candidate_token = codes "career-a";
  spending_style = codes "none";
}

abbrev decided : Tables
decided = record store {
  careers =
      record {
        bot_guid = 7;
        career_version = 0;
        candidate_token = codes "career-b";
        spending_style = codes "free";
        updated_at = 50;
      }
      ∷ [];
}

choice-IsStorableDecision : IsStorableDecision 7 choice
choice-IsStorableDecision = record {
  guid_fits = omega arith;
  version_fits = omega arith;
  token_fits = omega arith;
  style_fits = omega arith;
}

get_career_decision-record_career_decision_example :
    let (result, s') = record_career_decision 7 choice 100 decided in
    (result ≡ ok tt)
    × ((get_career_decision 7 s').0 ≡ ok (some choice))
    × ((other : ℕ)
        → other ≢ 7
        → (get_career_decision other s').0 ≡ (get_career_decision other decided).0)
get_career_decision-record_career_decision_example =
    get_career_decision-record_career_decision 7 choice 100 decided choice-IsStorableDecision

abbrev letters : ℕ → Text
letters zero = []
letters (suc n) = 97 ∷ letters n

-- A token of 65 letters is refused, and nothing is written.
refused_choice :
    record_career_decision 7 (record choice { candidate_token = letters 65 }) 100 decided
    ≡ (err data_error, decided)
unfolding record_career_decision career_fits
refused_choice = refl

try_begin_ambient_lem_example :
    ((try_begin_ambient (pos 2) 200 store).0 ≡ ok (granted (pos 2) 200 store))
    × ((later : ℕ)
        → 200 ≤ later
        → count_recent later (try_begin_ambient (pos 2) 200 store).1.ambient
          ≡ count_recent later store.ambient
            + (if granted (pos 2) 200 store && is_recent later 200 then 1 else 0))
try_begin_ambient_lem_example = try_begin_ambient_lem (pos 2) 200 store

one_recent : count_recent 150 store.ambient ≤ max_ambient_messages_per_hour
unfolding count_recent
one_recent = omega arith

ambient_rate_kept_example :
    count_recent 300 (tries ((pos 6, 200) ∷ (pos 6, 300) ∷ []) store).ambient
    ≤ max_ambient_messages_per_hour
ambient_rate_kept_example =
    ambient_rate_kept ((pos 6, 200) ∷ (pos 6, 300) ∷ []) 150 store (omega arith, (omega arith, tt))
      one_recent

purge_pending_bot_data-ends_example :
    (n : ℕ) × ((purge_pending_bot_data store).0 ≡ some n)
    × (n ≤ pending store.purges)
    × IsPurged store (purge_pending_bot_data store).1
purge_pending_bot_data-ends_example = purge_pending_bot_data-ends store

read_frame-encode_frame_example :
    (encode_frame (1 ∷ 2 ∷ []) ≡ ok (0 ∷ 0 ∷ 0 ∷ 2 ∷ 1 ∷ 2 ∷ []))
    × (read_frame (0 ∷ 0 ∷ 0 ∷ 2 ∷ 1 ∷ 2 ∷ 9 ∷ []) ≡ ok (1 ∷ 2 ∷ [], 9 ∷ []))
read_frame-encode_frame_example = read_frame-encode_frame (1 ∷ 2 ∷ []) (9 ∷ []) (omega arith)
