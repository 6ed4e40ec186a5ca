-- ===== src/Examples.antt =====
-- The theorems at concrete inputs: a budget of five dollars, one reservation of two dollars, a day that has
-- spent one.
pub mod Money
pub mod Charges
pub mod Stored
pub mod Served
pub mod Gated
pub mod Talked
pub mod Billed
pub mod Prompted
pub mod Bridged
pub mod Started
use mod_playerbot_llm.Prelude.{ℕ, none, some, [], ◌∷◌}
use mod_playerbot_llm.Prelude.Text.{codes}
use mod_playerbot_llm.Budget.{Ratio, chat_response}
use mod_playerbot_llm.Ledger.Tables.{ReservationRow, reserved, DayRow, Database}
use mod_playerbot_llm.Ledger.{BudgetLedger, Reservation}

abbrev pub quarter : Ratio
quarter = record { coefficient = 25; scale = 2 }

abbrev pub book : BudgetLedger
book = record { ceiling_nano = 5000000000; reserve_ratio = quarter }

abbrev pub today : ℕ
today = 20000

abbrev pub noon : ℕ
noon = 1728043200

abbrev pub one_row : ReservationRow
one_row = record {
  id = 1;
  public_id = codes "req_a";
  budget_date = today;
  request_kind = chat_response;
  priority_lane = codes "unspecified";
  model = codes "m";
  max_cost_usd = 2000000;
  actual_cost_usd = none;
  state = reserved;
  expires_at = 1728043800;
  settled_at = none;
}

abbrev pub one_day : DayRow
one_day = record { budget_date = today; spent_usd = 1000000; reserved_usd = 2000000 }

abbrev pub tables : Database
tables = record {
  locks = [];
  days = one_day ∷ [];
  reservations = one_row ∷ [];
  next_id = 2;
  control = none;
}

abbrev pub ticket : Reservation
ticket = record {
  reservation_id = 1;
  public_id = codes "req_a";
  budget_date = today;
  max_cost_nano = 2000000000;
}
