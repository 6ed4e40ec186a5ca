-- ===== src/Ledger/Tables.antt =====
-- The budget tables of the Playerbots database, and the statements that sidecar/src/playerbots_llm/ledger.py
-- runs on them. Money columns are DECIMAL(12, 6) and hold whole microdollars.
use mod_playerbot_llm.Prelude.{
  ℕ, ◌+◌, ◌*◌, ◌/◌, Bool, true, false, ◌&&◌, Option, none, some, List, [], ◌∷◌, map, any, sum_by,
  Result, ok, err, ltb, leb, ◌==◌, if◌then◌else◌,
}
use mod_playerbot_llm.Prelude.Text.{Text, text_eq}
use mod_playerbot_llm.Budget.{RequestKind}

pub data ReservationState : Type 0 where
  reserved completed released expired : ReservationState

abbrev pub is_reserved : ReservationState → Bool
is_reserved reserved = true
is_reserved _ = false

-- A row of `playerbot_llm_budget_reservation`.
pub record ReservationRow : Type 0 where
  pub id : ℕ
  pub public_id : Text
  pub budget_date : ℕ
  pub request_kind : RequestKind
  pub priority_lane : Text
  pub model : Text
  pub max_cost_usd : ℕ
  pub actual_cost_usd : Option ℕ
  pub state : ReservationState
  pub expires_at : ℕ
  pub settled_at : Option ℕ

-- A row of `playerbot_llm_daily_budget`.
pub record DayRow : Type 0 where
  pub budget_date : ℕ
  pub spent_usd : ℕ
  pub reserved_usd : ℕ

-- The columns of the one row of `playerbot_social_runtime_control` that the breaker uses.
pub record Control : Type 0 where
  pub budget_circuit_open : Bool
  pub budget_circuit_reason : Text
  pub budget_circuit_opened_at : ℕ

pub record Database : Type 0 where
  pub locks : List Text
  pub days : List DayRow
  pub reservations : List ReservationRow
  pub next_id : ℕ
  pub control : Option Control

pub data LedgerFault : Type 0 where
  bad_model day_row_missing out_of_range duplicate_public_id : LedgerFault

abbrev pub max_column : ℕ
max_column = 999999999999

-- What a column holds of an amount in nano-USD: rounded to the microdollar, refused out of range.
unfoldable pub usd_column : ℕ → Result LedgerFault ℕ
usd_column nano =
    let micro = (nano + 500) / 1000 in if ltb max_column micro then err out_of_range else ok micro

-- `usd_to_nano` of a value read back.
abbrev pub nano_of_column : ℕ → ℕ
nano_of_column micro = micro * 1000

abbrev pub on_day : ℕ → ReservationRow → Bool
on_day day r = r.budget_date == day && is_reserved r.state

abbrev pub held_by : ℕ → ReservationRow → ℕ
held_by day r = if on_day day r then r.max_cost_usd else 0

-- SELECT SUM(max_cost_usd) ... WHERE budget_date = day AND state = 'reserved'
unfoldable pub held : ℕ → List ReservationRow → ℕ
held day = sum_by (held_by day)

abbrev pub held_after : ℕ → ℕ → ReservationRow → ℕ
held_after day now r = if on_day day r && ltb now r.expires_at then r.max_cost_usd else 0

-- ... AND expires_at > now
unfoldable pub live : ℕ → ℕ → List ReservationRow → ℕ
live day now = sum_by (held_after day now)

abbrev pub expire_row : ℕ → ℕ → ReservationRow → ReservationRow
expire_row day now r =
    if on_day day r && leb r.expires_at now then record r { state = expired } else r

-- UPDATE ... SET state = 'expired' WHERE budget_date = day AND state = 'reserved' AND expires_at <= now
unfoldable pub sweep : ℕ → ℕ → List ReservationRow → List ReservationRow
sweep day now = map (expire_row day now)

-- WHERE id = i AND state = 'reserved'
abbrev pub is_open : ℕ → ReservationRow → Bool
is_open i r = r.id == i && is_reserved r.state

abbrev pub complete_row : ℕ → ℕ → ℕ → ReservationRow → ReservationRow
complete_row i cost now r =
    if is_open i r
    then record r { state = completed; actual_cost_usd = some cost; settled_at = some now }
    else r

unfoldable pub complete : ℕ → ℕ → ℕ → List ReservationRow → List ReservationRow
complete i cost now = map (complete_row i cost now)

abbrev pub release_row : ℕ → ReservationRow → ReservationRow
release_row i r = if is_open i r then record r { state = released } else r

unfoldable pub give_back : ℕ → List ReservationRow → List ReservationRow
give_back i = map (release_row i)

-- SELECT spent_usd ... WHERE budget_date = day
unfoldable pub find_spent : ℕ → List DayRow → Option ℕ
find_spent day [] = none
find_spent day (d ∷ ds) = if d.budget_date == day then some d.spent_usd else find_spent day ds

-- INSERT ... ON DUPLICATE KEY UPDATE budget_date = budget_date
unfoldable pub upsert_day : ℕ → List DayRow → List DayRow
upsert_day day [] = record { budget_date = day; spent_usd = 0; reserved_usd = 0 } ∷ []
upsert_day day (d ∷ ds) = if d.budget_date == day then d ∷ ds else d ∷ upsert_day day ds

abbrev pub spend_row : ℕ → ℕ → DayRow → DayRow
spend_row day total d = if d.budget_date == day then record d { spent_usd = total } else d

abbrev pub reserve_row : ℕ → ℕ → DayRow → DayRow
reserve_row day total d = if d.budget_date == day then record d { reserved_usd = total } else d

abbrev pub circuit_of : Option Control → Bool
circuit_of none = false
circuit_of (some c) = c.budget_circuit_open

abbrev pub has_public_id : Text → List ReservationRow → Bool
has_public_id public_id = any (λ r. text_eq public_id r.public_id)
