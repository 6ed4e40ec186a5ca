-- ===== src/Ledger/Once.antt =====
-- A reservation is charged or given back at most once: after the first of these nothing moves money for it.
use mod_playerbot_llm.Prelude.{
  ℕ, ◌≡◌, refl, Bool, true, false, ok, arith, if◌then◌else◌, Bool-cases, inl, inr,
}
use mod_playerbot_llm.Prelude.Int.{ℤ}
use mod_playerbot_llm.Prelude.Text.{Text}
use mod_playerbot_llm.Budget.{storable_actual_cost_nano}
use mod_playerbot_llm.Ledger.Tables.{Database, give_back}
use mod_playerbot_llm.Ledger.Sums.{
  spent_on, spent_on-upsert, complete_none_open, give_back_none_open, held-give_back-le,
}
use mod_playerbot_llm.Ledger.{
  BudgetLedger, Reservation, refused, is_breach, is_saturated, reason, settle, release_in_day,
  release,
}
use mod_playerbot_llm.Ledger.Funding.{IsFunded, IsFunded-mono, IsUsable, locked, lock_day_lem}
use mod_playerbot_llm.Ledger.Settling.{
  IsIssued, left, was_open, stopped, paid, refreshed, refresh_lem,
}
use mod_playerbot_llm.Ledger.Charging.{
  after_settle, spent_before, settle_lem, settle-IsFunded, refreshed-IsFunded,
}

stopped_rows :
    (breach saturated : Bool) (reason : Text) (now : ℕ) (db : Database)
    → (stopped breach saturated reason now db).reservations ≡ db.reservations
stopped_rows true _ reason now db = refl
stopped_rows false true reason now db = refl
stopped_rows false false reason now db = refl

pub after_settle_rows :
    (r : Reservation) (actual : ℤ) (now : ℕ) (db : Database)
    → (after_settle r actual now db).reservations ≡ (left r actual now db).reservations
after_settle_rows r actual now db =
    stopped_rows (is_breach r actual)
      (is_saturated (spent_before r db) (storable_actual_cost_nano actual))
      (reason r actual (spent_before r db)) now
      (refreshed r.budget_date (paid r actual (spent_before r db) (left r actual now db)))

stopped_next :
    (breach saturated : Bool) (reason : Text) (now : ℕ) (db : Database)
    → (stopped breach saturated reason now db).next_id ≡ db.next_id
stopped_next true _ reason now db = refl
stopped_next false true reason now db = refl
stopped_next false false reason now db = refl

pub after_settle_next :
    (r : Reservation) (actual : ℤ) (now : ℕ) (db : Database)
    → (after_settle r actual now db).next_id ≡ db.next_id
after_settle_next r actual now db =
    stopped_next (is_breach r actual)
      (is_saturated (spent_before r db) (storable_actual_cost_nano actual))
      (reason r actual (spent_before r db)) now
      (refreshed r.budget_date (paid r actual (spent_before r db) (left r actual now db)))

abbrev pub given : Reservation → Database → Database
given r db = record (locked r.budget_date db) {
  reservations = give_back r.reservation_id db.reservations;
}

given-IsFunded :
    {book : BudgetLedger} (r : Reservation) (db : Database)
    → IsFunded book db
    → IsFunded book (given r db)
given-IsFunded r db =
    IsFunded-mono db (given r db) (λ day. spent_on-upsert r.budget_date day db.days)
      (λ day. held-give_back-le r.reservation_id day db.reservations) (λ h. h)

abbrev pub after_release : Reservation → Database → Database
after_release r db = if was_open r db then refreshed r.budget_date (given r db) else given r db

module _ {book : BudgetLedger} (r : Reservation) (db : Database) where
  -- A release reports whether the reservation was still held, and no statement of it fails.
  pub release_lem :
      IsUsable book → IsFunded book db → release r db ≡ (ok (was_open r db), after_release r db)
  unfolding release release_in_day
  release_lem usable f =
      let fits = (given-IsFunded r db f).held_fits r.budget_date in
      rw (lock_day_lem r.budget_date db) (elim (Bool-cases (was_open r db)) [
        | inl opened ↦ rw opened (rw (refresh_lem r.budget_date (given r db) (omega arith)))
        | inr gone ↦ rw gone
      ])

  pub release-IsFunded : IsUsable book → IsFunded book db → IsFunded book (release r db).1
  release-IsFunded usable f = rw (release_lem usable f) (elim (Bool-cases (was_open r db)) [
    | inl opened ↦ rw opened (refreshed-IsFunded r.budget_date (given r db) (given-IsFunded r db f))
    | inr gone ↦ rw gone (given-IsFunded r db f)
  ])

  release_gone : IsUsable book → IsFunded book db → was_open r (release r db).1 ≡ false
  release_gone usable f = rw (release_lem usable f) (elim (Bool-cases (was_open r db)) [
    | inl opened ↦ rw opened (give_back_none_open r.reservation_id db.reservations)
    | inr gone ↦ rw gone (give_back_none_open r.reservation_id db.reservations)
  ])

module _ {book : BudgetLedger} (r : Reservation) (actual : ℤ) (now : ℕ) (db : Database) where
  settle_gone : IsUsable book → IsFunded book db → was_open r (settle r actual now db).1 ≡ false
  settle_gone usable f =
      rw (settle_lem r actual now db usable f) (elim (Bool-cases (was_open r db)) [
        | inl opened ↦ rw opened (
            rw (after_settle_rows r actual now db)
              (complete_none_open r.reservation_id _ now db.reservations))
        | inr gone ↦ rw gone (complete_none_open r.reservation_id _ now db.reservations)
      ])

  -- Settling a reservation that is no longer reserved is refused, and charges no day.
  settle_unheld :
      IsUsable book
      → IsFunded book db
      → was_open r db ≡ false
      → ((settle r actual now db).0 ≡ ok refused)
        × ((day : ℕ) → spent_on day (settle r actual now db).1.days ≡ spent_on day db.days)
  settle_unheld usable f gone =
      rw (settle_lem r actual now db usable f)
        (rw gone (refl, λ day. spent_on-upsert r.budget_date day db.days))

-- A reservation is charged at most once: after a settlement of a reservation that the ledger handed out, under a
-- usable ceiling and from a funded state, a second settlement is refused and leaves what every day has spent,
-- and a release finds nothing to give back.
pub settle_once :
    (book : BudgetLedger) (r : Reservation) (actual again : ℤ) (now later : ℕ) (db : Database)
    → IsUsable book
    → IsIssued r db
    → IsFunded book db
    → let db' = (settle r actual now db).1 in
      ((settle r again later db').0 ≡ ok refused)
      × ((day : ℕ) → spent_on day (settle r again later db').1.days ≡ spent_on day db'.days)
      × ((release r db').0 ≡ ok false)
settle_once book r actual again now later db usable issued f =
    let db' = (settle r actual now db).1 in
    let f' = settle-IsFunded r actual now db usable issued f in
    let gone = settle_gone r actual now db usable f in
    let (receipt, same) = settle_unheld r again later db' usable f' gone in
    (receipt, same, rw (release_lem r db' usable f') (rw gone refl))
