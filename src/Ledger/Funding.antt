-- ===== src/Ledger/Funding.antt =====
-- The invariant of the ledger: what a day has spent and holds stays under the ceiling until the circuit opens.
use mod_playerbot_llm.Prelude.{Bool, ℕ, ◌+◌, ◌≤◌, ◌<◌, ◌≡◌, false, map, Result, ok, err, arith}
use mod_playerbot_llm.Budget.{max_storable_nano}
use mod_playerbot_llm.Schema.{acquire_named_lock}
use mod_playerbot_llm.Prelude.Text.{codes}
use mod_playerbot_llm.Ledger.Tables.{
  Database, max_column, nano_of_column, held, sweep, upsert_day, reserve_row, circuit_of,
}
use mod_playerbot_llm.Ledger.Sums.{
  spent_on, find_spent-upsert, spent_on-upsert, spent_on-reserve_row, held-sweep-le,
}
use mod_playerbot_llm.Ledger.{BudgetLedger, lock_day, set_reserved, refresh_reserved_usd}

-- The ceiling bounds what every day has spent and holds while the circuit is closed, and what it holds
-- always. `stopping` says that the circuit is about to open.
pub record IsFundedUnless (stopping : Bool) (book : BudgetLedger) (db : Database) : Type 0 where
  pub held_fits : (day : ℕ) → nano_of_column (held day db.reservations) ≤ book.ceiling_nano
  pub funded :
      (day : ℕ)
      → stopping ≡ false
      → circuit_of db.control ≡ false
      → nano_of_column (spent_on day db.days) + nano_of_column (held day db.reservations)
        ≤ book.ceiling_nano
  pub spent_fits : (day : ℕ) → spent_on day db.days ≤ max_column

abbrev pub IsFunded : BudgetLedger → Database → Type 0
IsFunded = IsFundedUnless false

-- The ceilings that `validate_daily_ceiling` accepts.
abbrev pub IsUsable : BudgetLedger → Type 0
IsUsable book = (0 < book.ceiling_nano) × (book.ceiling_nano ≤ max_storable_nano)

-- A change that spends nothing and holds no more keeps the invariant.
pub IsFunded-mono :
    {stopping : Bool} {book : BudgetLedger} (a b : Database)
    → ((day : ℕ) → spent_on day b.days ≡ spent_on day a.days)
    → ((day : ℕ) → held day b.reservations ≤ held day a.reservations)
    → (circuit_of b.control ≡ false → circuit_of a.control ≡ false)
    → IsFundedUnless stopping book a
    → IsFundedUnless stopping book b
IsFunded-mono a b same less closed f = record {
  held_fits = λ day. omega (arith, less day, f.held_fits day);
  funded = λ day b h. omega (arith, same day, less day, f.funded day b (closed h));
  spent_fits = λ day. omega (arith, same day, f.spent_fits day);
}

abbrev pub locked : ℕ → Database → Database
locked day db = record db {
  locks = acquire_named_lock (codes "budget_day") db.locks;
  days = upsert_day day db.days;
}

abbrev pub swept : ℕ → ℕ → Database → Database
swept day now db = record (locked day db) { reservations = sweep day now db.reservations }

pub lock_day_lem :
    (day : ℕ) (db : Database)
    → lock_day day db
      ≡ (ok (nano_of_column (spent_on day db.days), circuit_of db.control), locked day db)
unfolding lock_day
lock_day_lem day db = rw (find_spent-upsert day db.days)

pub locked-IsFunded :
    {stopping : Bool} {book : BudgetLedger} (day : ℕ) (db : Database)
    → IsFundedUnless stopping book db
    → IsFundedUnless stopping book (locked day db)
locked-IsFunded day db =
    IsFunded-mono db (locked day db) (λ other. spent_on-upsert day other db.days)
      (λ other. omega arith) (λ h. h)

pub swept-IsFunded :
    {stopping : Bool} {book : BudgetLedger} (day now : ℕ) (db : Database)
    → IsFundedUnless stopping book db
    → IsFundedUnless stopping book (swept day now db)
swept-IsFunded day now db =
    IsFunded-mono db (swept day now db) (λ other. spent_on-upsert day other db.days)
      (λ other. held-sweep-le day now other db.reservations) (λ h. h)

set_reserved-IsFunded :
    {stopping : Bool} {book : BudgetLedger} (day : ℕ) (r : Result _ ℕ) (db : Database)
    → IsFundedUnless stopping book db
    → IsFundedUnless stopping book (set_reserved day r db).1
set_reserved-IsFunded day (ok total) db f =
    IsFunded-mono db (record db { days = map (reserve_row day total) db.days })
      (λ other. spent_on-reserve_row day other total db.days) (λ other. omega arith) (λ h. h) f
set_reserved-IsFunded day (err e) db f = f

pub refresh-IsFunded :
    {stopping : Bool} {book : BudgetLedger} (day : ℕ) (db : Database)
    → IsFundedUnless stopping book db
    → IsFundedUnless stopping book (refresh_reserved_usd day db).1
unfolding refresh_reserved_usd
refresh-IsFunded day db f = set_reserved-IsFunded day _ db f
