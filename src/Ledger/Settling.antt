-- ===== src/Ledger/Settling.antt =====
-- The statements of `BudgetLedger.settle`, one by one: what each leaves in the tables.
use mod_playerbot_llm.Prelude.{
  ℕ, ◌+◌, ◌/◌, ◌%◌, ◌≤◌, ◌<◌, ◌≡◌, refl, Bool, true, false, ◌||◌, some, map, any, All, ok, arith,
  if◌then◌else◌, Bool-cases, inl, inr,
}
use mod_playerbot_llm.Prelude.Int.{ℤ}
use mod_playerbot_llm.Prelude.Text.{Text, take}
use mod_playerbot_llm.Budget.{max_storable_nano, storable_actual_cost_nano}
use mod_playerbot_llm.Budget.Rounding.{storable_actual_cost_bounds}
use mod_playerbot_llm.Ledger.Tables.{
  Database, usd_column, nano_of_column, held, is_open, complete, circuit_of, spend_row, reserve_row,
}
use mod_playerbot_llm.Ledger.Sums.{
  Matches, spent_on, spent_on-upsert, held-complete, held-complete-le,
}
use mod_playerbot_llm.Ledger.{
  BudgetLedger, Reservation, refused, charge, added_to, is_breach, is_saturated, reason, receipt,
  circuit_reason_limit, add_spent, open_if, settle_in_day, refresh_reserved_usd, open_circuit,
}
use mod_playerbot_llm.Ledger.Funding.{IsFunded, IsFunded-mono, locked, lock_day_lem}

-- A reservation that `reserve` handed out: the row under its id carries its day and its maximum.
pub record IsIssued (r : Reservation) (db : Database) : Type 0 where
  pub matches : All (Matches r.reservation_id r.budget_date r.max_cost_nano) db.reservations
  pub minted : r.reservation_id < db.next_id
  pub whole : r.max_cost_nano % 1000 ≡ 0

-- Whole microdollars in range are stored as they are.
pub usd_column_whole : (n : ℕ) → n ≤ max_storable_nano → n % 1000 ≡ 0 → usd_column n ≡ ok (n / 1000)
unfolding usd_column
usd_column_whole n fits whole = ground arith

abbrev pub settled_column : ℤ → ℕ
settled_column actual = storable_actual_cost_nano actual / 1000

pub storable_column :
    (actual : ℤ) → usd_column (storable_actual_cost_nano actual) ≡ ok (settled_column actual)
storable_column actual =
    let (fits, whole, _) = storable_actual_cost_bounds actual in usd_column_whole _ fits whole

-- The database once the row has left the reserved state.
abbrev pub left : Reservation → ℤ → ℕ → Database → Database
left r actual now db = record (locked r.budget_date db) {
  reservations = complete r.reservation_id (settled_column actual) now db.reservations;
}

abbrev pub was_open : Reservation → Database → Bool
was_open r db = any (is_open r.reservation_id) db.reservations

pub settle_in_day_lem :
    (r : Reservation) (actual : ℤ) (now : ℕ) (db : Database)
    → settle_in_day r actual now db
      ≡ (if was_open r db
            then charge r actual now (nano_of_column (spent_on r.budget_date db.days))
            else (λ d. (ok refused, d)))
          (left r actual now db)
unfolding settle_in_day
settle_in_day_lem r actual now db = rw (lock_day_lem r.budget_date db) (
    rw (storable_column actual)
      (elim (Bool-cases (was_open r db)) [ inl opened ↦ rw opened | inr gone ↦ rw gone ]))

abbrev pub refreshed : ℕ → Database → Database
refreshed day db = record db { days = map (reserve_row day (held day db.reservations)) db.days }

back : (h : ℕ) → nano_of_column h / 1000 ≡ h
back h = omega arith

-- A total under a storable ceiling is always recorded.
pub refresh_lem :
    (day : ℕ) (db : Database)
    → nano_of_column (held day db.reservations) ≤ max_storable_nano
    → refresh_reserved_usd day db ≡ (ok tt, refreshed day db)
unfolding refresh_reserved_usd
refresh_lem day db fits =
    rw (usd_column_whole (nano_of_column (held day db.reservations)) fits (omega arith))
      (rw (back (held day db.reservations)))

-- The day's new total, in microdollars.
abbrev pub new_total : ℤ → ℕ → ℕ
new_total actual spent = (spent + added_to spent (storable_actual_cost_nano actual)) / 1000

pub add_spent_lem :
    (day : ℕ) (actual : ℤ) (spent : ℕ) (db : Database)
    → spent ≤ max_storable_nano
    → spent % 1000 ≡ 0
    → add_spent day spent (added_to spent (storable_actual_cost_nano actual)) db
      ≡ (ok tt, record db { days = map (spend_row day (new_total actual spent)) db.days })
add_spent_lem day actual spent db fits whole =
    let (_, whole', _) = storable_actual_cost_bounds actual in
    rw (
      usd_column_whole (spent + added_to spent (storable_actual_cost_nano actual)) (omega arith)
        (omega arith))

abbrev pub stopped : Bool → Bool → Text → ℕ → Database → Database
stopped breach saturated reason now db =
    if breach || saturated
    then record db {
      control = some (record {
        budget_circuit_open = true;
        budget_circuit_reason = take circuit_reason_limit reason;
        budget_circuit_opened_at = now;
      });
    }
    else db

open_if_lem :
    (breach saturated : Bool) (reason : Text) (now : ℕ) (db : Database)
    → open_if breach saturated reason now db ≡ (ok tt, stopped breach saturated reason now db)
unfolding open_circuit
open_if_lem true _ reason now db = refl
open_if_lem false true reason now db = refl
open_if_lem false false reason now db = refl

-- The database after a charge.
abbrev pub paid : Reservation → ℤ → ℕ → Database → Database
paid r actual spent db = record db {
  days = map (spend_row r.budget_date (new_total actual spent)) db.days;
}

abbrev pub charged : Reservation → ℤ → ℕ → ℕ → Database → Database
charged r actual now spent db =
    stopped (is_breach r actual) (is_saturated spent (storable_actual_cost_nano actual))
      (reason r actual spent) now (refreshed r.budget_date (paid r actual spent db))

pub charge_lem :
    (r : Reservation) (actual : ℤ) (now spent : ℕ) (db : Database)
    → spent ≤ max_storable_nano
    → spent % 1000 ≡ 0
    → nano_of_column (held r.budget_date db.reservations) ≤ max_storable_nano
    → charge r actual now spent db ≡ (ok (receipt r actual spent), charged r actual now spent db)
unfolding charge
charge_lem r actual now spent db fits whole held_fits =
    rw (add_spent_lem r.budget_date actual spent db fits whole)
      (rw (refresh_lem r.budget_date (paid r actual spent db) held_fits) (rw open_if_lem refl))

module _ {book : BudgetLedger} (r : Reservation) (actual : ℤ) (now : ℕ) (db : Database) where
  pub left-IsFunded : IsFunded book db → IsFunded book (left r actual now db)
  left-IsFunded =
      IsFunded-mono db (left r actual now db) (λ day. spent_on-upsert r.budget_date day db.days)
        (λ day. held-complete-le r.reservation_id (settled_column actual) now day db.reservations)
        (λ h. h)

  -- The row leaves room for its maximum.
  pub left_room :
      IsIssued r db
      → IsFunded book db
      → was_open r db ≡ true
      → circuit_of db.control ≡ false
      → nano_of_column (spent_on r.budget_date db.days)
          + nano_of_column (held r.budget_date (left r actual now db).reservations)
          + r.max_cost_nano
        ≤ book.ceiling_nano
  left_room issued f opened closed = omega (
    arith,
    f.funded r.budget_date refl closed,
    held-complete r.reservation_id (settled_column actual) now r.budget_date r.max_cost_nano
        db.reservations issued.matches opened,
  )
