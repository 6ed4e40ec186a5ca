-- ===== src/Ledger/Recording.antt =====
-- `BudgetLedger.settle` and `release` as the tables show them: the row, and what each day has spent.
use mod_playerbot_llm.Prelude.{
  ℕ, ◌+◌, ◌≡◌, ◌≢◌, refl, Bool, true, false, ◌&&◌, Option, none, some, List, [], ◌∷◌, any, min, ok,
  arith, ◌==◌, if◌then◌else◌, Bool-cases, inl, inr, ==_iff,
}
use mod_playerbot_llm.Prelude.Int.{ℤ, pos}
use mod_playerbot_llm.Prelude.Text.{Text}
use mod_playerbot_llm.Budget.{max_storable_nano, storable_actual_cost_nano, circuit_should_open}
use mod_playerbot_llm.Budget.Rounding.{storable_actual_cost_bounds}
use mod_playerbot_llm.Ledger.Tables.{
  ReservationState, completed, ReservationRow, Database, nano_of_column, is_open, complete,
  circuit_of,
}
use mod_playerbot_llm.Ledger.Sums.{
  spent_on, spent_on-upsert, spent_on-reserve_row, complete_none_open, give_back_none_open,
}
use mod_playerbot_llm.Ledger.{
  BudgetLedger, Reservation, SettlementReceipt, is_breach, is_saturated, reason, receipt, settle,
  release,
}
use mod_playerbot_llm.Ledger.Funding.{IsFunded, IsUsable}
use mod_playerbot_llm.Ledger.Settling.{
  left, was_open, stopped, paid, refreshed, new_total, settled_column,
}
use mod_playerbot_llm.Ledger.Charging.{
  after_settle, spent_before, settle_lem, paid_spent, new_total_exact, upserted_known,
}
use mod_playerbot_llm.Ledger.Once.{after_settle_rows, release_lem, given}

abbrev is_completed : ReservationState → Bool
is_completed completed = true
is_completed _ = false

abbrev costs : ℕ → Option ℕ → Bool
costs nano none = false
costs nano (some micro) = nano_of_column micro == nano

-- A row under this id that was completed at this cost.
abbrev pub is_paid : ℕ → ℕ → ReservationRow → Bool
is_paid i nano row = row.id == i && (is_completed row.state && costs nano row.actual_cost_usd)

-- The tables have a cost on record: its reservation is completed at the cost as it can be stored, its day
-- has spent as much more, up to the largest storable total, and no other day has.
pub record Recorded (r : Reservation) (actual : ℤ) (before after : Database) : Type 0 where
  pub row_paid :
      any (is_paid r.reservation_id (storable_actual_cost_nano actual)) after.reservations ≡ true
  pub none_open : any (is_open r.reservation_id) after.reservations ≡ false
  pub day_spent :
      nano_of_column (spent_on r.budget_date after.days)
      ≡ min max_storable_nano
          (nano_of_column (spent_on r.budget_date before.days) + storable_actual_cost_nano actual)
  pub others_kept :
      (other : ℕ) → other ≢ r.budget_date → spent_on other after.days ≡ spent_on other before.days

-- The tables after a reservation was given back: it is not held any more, and no day has spent anything.
pub record Returned (r : Reservation) (before after : Database) : Type 0 where
  pub none_open : any (is_open r.reservation_id) after.reservations ≡ false
  pub spent_kept : (day : ℕ) → spent_on day after.days ≡ spent_on day before.days

whole_column :
    (actual : ℤ) → nano_of_column (settled_column actual) ≡ storable_actual_cost_nano actual
whole_column actual = let (_, whole, _) = storable_actual_cost_bounds actual in omega arith

complete_paid :
    (i micro nano now : ℕ) (rows : List ReservationRow)
    → nano_of_column micro ≡ nano
    → any (is_open i) rows ≡ true
    → any (is_paid i nano) (complete i micro now rows) ≡ true
unfolding complete
complete_paid i micro nano now [] e h = cc
complete_paid i micro nano now (row ∷ rows) e h =
    ground (arith, complete_paid i micro nano now rows e)

stopped_days :
    (breach saturated : Bool) (reason : Text) (now : ℕ) (db : Database)
    → (stopped breach saturated reason now db).days ≡ db.days
stopped_days true _ reason now db = refl
stopped_days false true reason now db = refl
stopped_days false false reason now db = refl

after_settle_spent :
    (r : Reservation) (actual : ℤ) (now day : ℕ) (db : Database)
    → spent_on day (after_settle r actual now db).days ≡ (
        if day == r.budget_date then new_total actual (spent_before r db) else spent_on day db.days)
after_settle_spent r actual now day db =
    let spent = spent_before r db in
    let charged = paid r actual spent (left r actual now db) in
    rw
      (stopped_days (is_breach r actual) (is_saturated spent (storable_actual_cost_nano actual))
        (reason r actual spent) now (refreshed r.budget_date charged))
      (rw (spent_on-reserve_row r.budget_date day _ charged.days) (
        rw (paid_spent r actual spent day (left r actual now db) (upserted_known r.budget_date db))
          (rw (spent_on-upsert r.budget_date day db.days) refl)))

module _ {book : BudgetLedger} (r : Reservation) (actual : ℤ) (now : ℕ) (db : Database) where
  after_settle-Recorded :
      IsFunded book db → was_open r db ≡ true → Recorded r actual db (after_settle r actual now db)
  after_settle-Recorded f opened =
      let spent_fits = f.spent_fits r.budget_date in
      let (exact, _) = new_total_exact actual (spent_before r db) (omega arith) (omega arith) in
      record {
        row_paid =
            rw (after_settle_rows r actual now db)
              (complete_paid r.reservation_id _ _ now db.reservations (whole_column actual) opened);
        none_open =
            rw (after_settle_rows r actual now db)
              (complete_none_open r.reservation_id _ now db.reservations);
        day_spent =
            rw (after_settle_spent r actual now r.budget_date db)
              (rw ((==_iff r.budget_date r.budget_date).1 refl) (ground arith));
        others_kept = λ other ne.
            rw (after_settle_spent r actual now other db)
              (elim (Bool-cases (other == r.budget_date)) [
                | inl same ↦ absurd (ne ((==_iff other r.budget_date).0 same))
                | inr apart ↦ rw apart refl
              ]);
      }

  -- The settlement of a reservation that is still reserved.
  pub settle-Recorded :
      IsUsable book
      → IsFunded book db
      → was_open r db ≡ true
      → Recorded r actual db (settle r actual now db).1
  settle-Recorded usable f opened =
      rw (settle_lem r actual now db usable f) (rw opened (after_settle-Recorded f opened))

  -- Under a usable ceiling and from a funded state, a reported cost above the reserved maximum, or below
  -- zero, is recorded when the reservation is still reserved: the settlement returns a receipt that is
  -- completed, reports the breach and names the stored cost; the row is completed at that cost and no row
  -- is reserved under its id; its day has spent that much more, up to the largest storable total, and no
  -- other day has; and the circuit is open.
  pub settle_breach-opens :
      IsUsable book
      → IsFunded book db
      → was_open r db ≡ true
      → circuit_should_open (pos r.max_cost_nano) actual ≡ true
      → ((rc : SettlementReceipt) × ((settle r actual now db).0 ≡ ok rc)
          × (rc.completed ≡ true)
          × (rc.breach ≡ true)
          × (rc.stored_cost_nano ≡ some (storable_actual_cost_nano actual)))
        × Recorded r actual db (settle r actual now db).1
        × (circuit_of (settle r actual now db).1.control ≡ true)
  settle_breach-opens usable f opened breach = (
    rw (settle_lem r actual now db usable f)
        (rw opened (receipt r actual (spent_before r db), refl, refl, breach, refl)),
    settle-Recorded usable f opened,
    rw (settle_lem r actual now db usable f) (rw opened (rw breach refl)),
  )

module _ {book : BudgetLedger} (r : Reservation) (db : Database) where
  pub release-Returned : IsUsable book → IsFunded book db → Returned r db (release r db).1
  release-Returned usable f = rw (release_lem r db usable f) (elim (Bool-cases (was_open r db)) [
    | inl opened ↦ rw opened (record {
      none_open = give_back_none_open r.reservation_id db.reservations;
      spent_kept = λ day.
          rw (spent_on-reserve_row r.budget_date day _ (given r db).days)
            (spent_on-upsert r.budget_date day db.days);
    })
    | inr gone ↦ rw gone (record {
      none_open = give_back_none_open r.reservation_id db.reservations;
      spent_kept = λ day. spent_on-upsert r.budget_date day db.days;
    })
  ])
