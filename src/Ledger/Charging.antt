-- ===== src/Ledger/Charging.antt =====
-- The charge of a settlement keeps the invariant; `settle` and `release` keep it.
use mod_playerbot_llm.Prelude.{
  ℕ, ◌+◌, ◌%◌, ◌≤◌, ◌≡◌, ◌≢◌, ◌⊎◌, refl, ap, Bool, true, false, ◌||◌, none, ok, arith, ◌==◌,
  if◌then◌else◌, Bool-cases, inl, inr, ==_iff,
}
use mod_playerbot_llm.Prelude.Int.{ℤ}
use mod_playerbot_llm.Prelude.Text.{Text}
use mod_playerbot_llm.Budget.{max_storable_nano, storable_actual_cost_nano}
use mod_playerbot_llm.Budget.Rounding.{storable_actual_cost_bounds, storable-le_max}
use mod_playerbot_llm.Ledger.Tables.{
  Database, nano_of_column, held, circuit_of, max_column, find_spent, upsert_day,
}
use mod_playerbot_llm.Ledger.Sums.{
  spent_on, find_spent-upsert, spent_on-upsert, spent_on-spend_row_ne, spent_on-spend_row_self,
  spent_on-reserve_row,
}
use mod_playerbot_llm.Ledger.{
  BudgetLedger, Reservation, added_to, is_breach, is_saturated, settle, receipt, refused,
}
use mod_playerbot_llm.Ledger.Funding.{IsFundedUnless, IsFunded, IsFunded-mono, IsUsable}
use mod_playerbot_llm.Ledger.Settling.{
  IsIssued, left, was_open, left-IsFunded, left_room, new_total, paid, refreshed, stopped, charged,
  charge_lem, settle_in_day_lem,
}

pub new_total_exact :
    (actual : ℤ) (spent : ℕ)
    → spent ≤ max_storable_nano
    → spent % 1000 ≡ 0
    → (nano_of_column (new_total actual spent)
        ≡ spent + added_to spent (storable_actual_cost_nano actual))
      × (new_total actual spent ≤ max_column)
new_total_exact actual spent fits whole =
    let (_, whole', _) = storable_actual_cost_bounds actual in (omega arith, omega arith)

-- Without a breach or a saturation the whole cost is added, and it is within the reservation.
added_within :
    (r : Reservation) (actual : ℤ) (spent : ℕ)
    → r.max_cost_nano % 1000 ≡ 0
    → (is_breach r actual || is_saturated spent (storable_actual_cost_nano actual)) ≡ false
    → added_to spent (storable_actual_cost_nano actual) ≤ r.max_cost_nano
added_within r actual spent whole h = ground (arith, storable-le_max r.max_cost_nano actual whole)

stopped-IsFunded :
    {book : BudgetLedger} (breach saturated : Bool) (reason : Text) (now : ℕ) (db : Database)
    → IsFundedUnless (breach || saturated) book db
    → IsFunded book (stopped breach saturated reason now db)
stopped-IsFunded true _ reason now db f = record {
  held_fits = f.held_fits;
  funded = λ day _ h. cc;
  spent_fits = f.spent_fits;
}
stopped-IsFunded false true reason now db f = record {
  held_fits = f.held_fits;
  funded = λ day _ h. cc;
  spent_fits = f.spent_fits;
}
stopped-IsFunded false false reason now db f = f

pub refreshed-IsFunded :
    {stopping : Bool} {book : BudgetLedger} (day : ℕ) (db : Database)
    → IsFundedUnless stopping book db
    → IsFundedUnless stopping book (refreshed day db)
refreshed-IsFunded day db =
    IsFunded-mono db (refreshed day db) (λ other. spent_on-reserve_row day other _ db.days)
      (λ other. omega arith) (λ h. h)

-- What `paid` spends on each day.
pub paid_spent :
    (r : Reservation) (actual : ℤ) (spent other : ℕ) (db : Database)
    → find_spent r.budget_date db.days ≢ none
    → spent_on other (paid r actual spent db).days
      ≡ (if other == r.budget_date then new_total actual spent else spent_on other db.days)
paid_spent r actual spent other db known = elim (Bool-cases (other == r.budget_date)) [
  | inl same ↦
      rw (same, (==_iff other r.budget_date).0 same)
        (spent_on-spend_row_self r.budget_date (new_total actual spent) db.days known)
  | inr ne ↦ rw ne (
      spent_on-spend_row_ne r.budget_date other (new_total actual spent) db.days
        (λ e. ground arith))
]

module _ {book : BudgetLedger} (r : Reservation) (actual : ℤ) (db : Database) where
  paid-IsFunded :
      (known : find_spent r.budget_date db.days ≢ none)
      → r.max_cost_nano % 1000 ≡ 0
      → (circuit_of db.control ≡ false
          → nano_of_column (spent_on r.budget_date db.days)
              + nano_of_column (held r.budget_date db.reservations)
              + r.max_cost_nano
            ≤ book.ceiling_nano)
      → IsFunded book db
      → let spent = nano_of_column (spent_on r.budget_date db.days) in
        IsFundedUnless
          (is_breach r actual || is_saturated spent (storable_actual_cost_nano actual))
          book
          (paid r actual spent db)
  paid-IsFunded known whole room f =
      let spent = nano_of_column (spent_on r.budget_date db.days) in
      let spent_fits = f.spent_fits r.budget_date in
      let (exact, fits) = new_total_exact actual spent (omega arith) (omega arith) in
      record {
        held_fits = f.held_fits;
        funded = λ day calm closed. ground (
          arith,
          ==_iff day r.budget_date,
          paid_spent r actual spent day db known,
          f.funded day refl closed,
          room closed,
          added_within r actual spent whole calm,
        );
        spent_fits =
            λ day. ground (arith, paid_spent r actual spent day db known, f.spent_fits day);
      }

pub upserted_known : (day : ℕ) (db : Database) → find_spent day (upsert_day day db.days) ≢ none
upserted_known day db e = cc (find_spent-upsert day db.days)

abbrev pub spent_before : Reservation → Database → ℕ
spent_before r db = nano_of_column (spent_on r.budget_date db.days)

left_spent :
    (r : Reservation) (actual : ℤ) (now : ℕ) (db : Database)
    → spent_before r (left r actual now db) ≡ spent_before r db
left_spent r actual now db = ap nano_of_column (spent_on-upsert r.budget_date r.budget_date db.days)

-- The database after a settlement of a reservation that was still reserved.
abbrev pub after_settle : Reservation → ℤ → ℕ → Database → Database
after_settle r actual now db = charged r actual now (spent_before r db) (left r actual now db)

module _ {book : BudgetLedger} (r : Reservation) (actual : ℤ) (now : ℕ) (db : Database) where
  left-paid-IsFunded :
      IsIssued r db
      → was_open r db ≡ true
      → IsFunded book db
      → IsFundedUnless
          (is_breach r actual
            || is_saturated (spent_before r db) (storable_actual_cost_nano actual))
          book
          (paid r actual (spent_before r db) (left r actual now db))
  left-paid-IsFunded issued opened f = rw (← left_spent r actual now db) (
      paid-IsFunded r actual (left r actual now db) (upserted_known r.budget_date db) issued.whole
        (λ closed. rw left_spent (left_room r actual now db issued f opened closed))
        (left-IsFunded r actual now db f))

  pub after_settle-IsFunded :
      IsIssued r db
      → was_open r db ≡ true
      → IsFunded book db
      → IsFunded book (after_settle r actual now db)
  after_settle-IsFunded issued opened f =
      stopped-IsFunded (is_breach r actual)
        (is_saturated (spent_before r db) (storable_actual_cost_nano actual)) _ now _
        (refreshed-IsFunded r.budget_date _ (left-paid-IsFunded issued opened f))

  -- Under a usable ceiling a settlement returns a receipt whatever is reported, and no statement of it can
  -- overflow: a refused receipt that only locks the day, or the charge.
  pub settle_lem :
      IsUsable book
      → IsFunded book db
      → settle r actual now db ≡ (
          if was_open r db
          then (ok (receipt r actual (spent_before r db)), after_settle r actual now db)
          else (ok refused, left r actual now db))
  unfolding settle
  settle_lem usable f =
      let fits = (left-IsFunded r actual now db f).held_fits r.budget_date in
      let spent_fits = f.spent_fits r.budget_date in
      rw (settle_in_day_lem r actual now db) (elim (Bool-cases (was_open r db)) [
        | inl opened ↦ rw opened (
            rw (
              charge_lem r actual now (spent_before r db) (left r actual now db) (omega arith)
                (omega arith) (omega arith)))
        | inr gone ↦ rw gone
      ])

  pub settle_results :
      IsUsable book
      → IsFunded book db
      → ((settle r actual now db).0 ≡ ok (receipt r actual (spent_before r db)))
        ⊎ ((settle r actual now db).0 ≡ ok refused)
  settle_results usable f = rw (settle_lem usable f) (elim (Bool-cases (was_open r db)) [
    | inl opened ↦ rw opened (inl refl)
    | inr gone ↦ rw gone (inr refl)
  ])

  -- A settlement keeps the ledger funded, whatever cost is reported.
  pub settle-IsFunded :
      IsUsable book → IsIssued r db → IsFunded book db → IsFunded book (settle r actual now db).1
  settle-IsFunded usable issued f = rw (settle_lem usable f) (elim (Bool-cases (was_open r db)) [
    | inl opened ↦ rw opened (after_settle-IsFunded issued opened f)
    | inr gone ↦ rw gone (left-IsFunded r actual now db f)
  ])
