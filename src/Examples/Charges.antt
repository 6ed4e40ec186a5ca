-- ===== src/Examples/Charges.antt =====
-- The ledger's theorems on one reservation.
use mod_playerbot_llm.Prelude.{ℕ, ◌+◌, ◌≤◌, ◌≡◌, ◌≢◌, refl, true, false, none, some, ok, arith}
use mod_playerbot_llm.Prelude.Int.{pos, ◌+ℤ◌}
use mod_playerbot_llm.Prelude.Text.{codes, Text}
use mod_playerbot_llm.Budget.{
  admitted, admit, committed_nano, quantize_storable_nano, circuit_should_open,
  storable_actual_cost_nano, immediate_human, chat_response,
}
use mod_playerbot_llm.Schema.{acquire_named_lock, utc_day}
use mod_playerbot_llm.Ledger.Tables.{
  Control, nano_of_column, held, circuit_of, find_spent, upsert_day, sweep, usd_column,
}
use mod_playerbot_llm.Ledger.Sums.{spent_on}
use mod_playerbot_llm.Ledger.{
  Ask, reserve_in_day, lock_day, circuit_open, outstanding_nano, refresh_reserved_usd, refused,
  SettlementReceipt, reserve, settle, release, snapshot, mint_public_id, quantized,
}
use mod_playerbot_llm.Ledger.Funding.{IsFunded, IsUsable}
use mod_playerbot_llm.Ledger.Settling.{IsIssued}
use mod_playerbot_llm.Ledger.Recording.{Recorded, settle_breach-opens}
use mod_playerbot_llm.Ledger.Once.{settle_once}
use mod_playerbot_llm.Ledger.Runs.{
  World, new_world, reserved_world, start, step, reserves, Reach, ceiling_kept,
}
use mod_playerbot_llm.Ledger.Deciding.{reserve_returns, granted, grant}
use mod_playerbot_llm.Ledger.Circuit.{reserve_stopped, circuit_stays_open}
use mod_playerbot_llm.Examples.{book, today, noon, tables, ticket}

usable : IsUsable book
usable = (omega arith, omega arith)

pub tables-IsFunded : IsFunded book tables
unfolding held find_spent
tables-IsFunded = record {
  held_fits = λ day. ground arith;
  funded = λ day h h'. ground arith;
  spent_fits = λ day. ground arith;
}

ticket-IsIssued : IsIssued ticket tables
ticket-IsIssued = record { matches = (λ e. (refl, refl), tt); minted = omega arith; whole = refl }

settle_once_example :
    let db = (settle ticket (pos 1500000500) noon tables).1 in
    ((settle ticket (pos 7) noon db).0 ≡ ok refused)
    × ((day : ℕ) → spent_on day (settle ticket (pos 7) noon db).1.days ≡ spent_on day db.days)
    × ((release ticket db).0 ≡ ok false)
settle_once_example =
    settle_once book ticket (pos 1500000500) (pos 7) noon noon tables usable ticket-IsIssued
      tables-IsFunded

settle_breach-opens_example :
    let settled = settle ticket (pos 2000000001) noon tables in
    ((rc : SettlementReceipt) × (settled.0 ≡ ok rc)
      × (rc.completed ≡ true)
      × (rc.breach ≡ true)
      × (rc.stored_cost_nano ≡ some (storable_actual_cost_nano (pos 2000000001))))
    × Recorded ticket (pos 2000000001) tables settled.1
    × (circuit_of settled.1.control ≡ true)
unfolding circuit_should_open
settle_breach-opens_example =
    settle_breach-opens {book = book} ticket (pos 2000000001) noon tables usable tables-IsFunded
      refl refl

abbrev question : Ask
question = record {
  request_kind = chat_response;
  model = codes "m";
  max_cost_nano = some (pos 1000000500);
  priority = immediate_human;
}

abbrev random : Text
random = codes "b"

reserve_returns_example :
    let d =
      admit
        (pos 5000000000)
        (snapshot noon tables)
        (quantized (some (pos 1000000500)))
        immediate_human
        book.reserve_ratio in
    (reserve book question random noon tables).0
    ≡ ok (d, granted d (grant book question (mint_public_id random) (utc_day noon) noon tables))
unfolding mint_public_id
reserve_returns_example =
    reserve_returns book question random noon tables usable tables-IsFunded refl refl

abbrev new : World
new = new_world none

abbrev asked : World
asked = reserved_world book question random noon new

asked-Reach : Reach book asked
asked-Reach = step new asked (start none) (reserves question random noon new)

asked_closed : circuit_of asked.db.control ≡ false
unfolding reserve reserve_in_day mint_public_id lock_day circuit_open acquire_named_lock
    outstanding_nano upsert_day find_spent sweep usd_column refresh_reserved_usd held admit
    committed_nano quantize_storable_nano ◌+ℤ◌ utc_day
asked_closed = refl

ceiling_kept_example :
    nano_of_column (spent_on today asked.db.days)
      + nano_of_column (held today asked.db.reservations)
    ≤ 5000000000
ceiling_kept_example = ceiling_kept book asked usable asked-Reach asked_closed today

abbrev alarm : Control
alarm = record {
  budget_circuit_open = true;
  budget_circuit_reason = codes "cost";
  budget_circuit_opened_at = 5;
}

abbrev stopped_world : World
stopped_world = new_world (some alarm)

reserve_stopped_example :
    ((reserve book question random noon stopped_world.db).1.control ≡ some alarm)
    × ((r : _) → (reserve book question random noon stopped_world.db).0 ≢ ok (admitted, some r))
reserve_stopped_example = reserve_stopped book question random noon stopped_world.db refl

circuit_stays_open_example :
    circuit_of (reserved_world book question random noon stopped_world).db.control ≡ true
circuit_stays_open_example =
    circuit_stays_open book stopped_world (reserved_world book question random noon stopped_world)
      usable (start (some alarm)) (reserves question random noon stopped_world) refl
