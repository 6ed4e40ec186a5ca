-- ===== src/Ledger/Runs.antt =====
-- Runs of the ledger: any sequence of reservations, settlements and releases of the reservations handed
-- out, at any instants, with any reported costs.
use mod_playerbot_llm.Prelude.{
  ℕ, zero, suc, ◌≤◌, ◌+◌, ◌≡◌, refl, false, Option, none, some, List, [], ◌∷◌, All, arith,
  Bool-cases, inl, inr,
}
use mod_playerbot_llm.Prelude.Int.{ℤ}
use mod_playerbot_llm.Prelude.Text.{Text}
use mod_playerbot_llm.Ledger.Tables.{
  Database, Control, find_spent, nano_of_column, held, circuit_of,
}
use mod_playerbot_llm.Ledger.Sums.{spent_on}
use mod_playerbot_llm.Ledger.{BudgetLedger, Reservation, Ask, reserve, settle, release}
use mod_playerbot_llm.Ledger.Funding.{IsFunded, IsUsable}
use mod_playerbot_llm.Ledger.Settling.{IsIssued, left, was_open, refreshed, settled_column}
use mod_playerbot_llm.Ledger.Reserving.{reserve-IsFunded}
use mod_playerbot_llm.Ledger.Charging.{settle_lem, settle-IsFunded, after_settle}
use mod_playerbot_llm.Ledger.Once.{
  release_lem, release-IsFunded, given, after_settle_rows, after_settle_next,
}
use mod_playerbot_llm.Ledger.Issuing.{
  labels-complete, labels-give_back, Good, Good-same, note, reserve-Good,
}

-- The tables and the reservations handed out so far.
pub record World : Type 0 where
  pub db : Database
  pub issued : List Reservation

abbrev pub at : ℕ → List Reservation → Option Reservation
at i [] = none
at zero (r ∷ rs) = some r
at (suc i) (r ∷ rs) = at i rs

abbrev pub reserved_world : BudgetLedger → Ask → Text → ℕ → World → World
reserved_world book ask random now w =
    let x = reserve book ask random now w.db in record { db = x.1; issued = note x.0 w.issued }

pub data Step (book : BudgetLedger) : World → World → Type 0 where
  reserves :
      (ask : Ask) (random : Text) (now : ℕ) (w : World)
      → Step book w (reserved_world book ask random now w)
  settles :
      (i : ℕ) (r : Reservation) (actual : ℤ) (now : ℕ) (w : World)
      → at i w.issued ≡ some r
      → Step book w (record w { db = (settle r actual now w.db).1 })
  releases :
      (i : ℕ) (r : Reservation) (w : World)
      → at i w.issued ≡ some r
      → Step book w (record w { db = (release r w.db).1 })

-- Before the first request.
abbrev pub new_world : Option Control → World
new_world control = record {
  db = record { locks = []; days = []; reservations = []; next_id = 1; control = control };
  issued = [];
}

pub data Reach (book : BudgetLedger) : World → Type 0 where
  start : (control : Option Control) → Reach book (new_world control)
  step : (a b : World) → Reach book a → Step book a b → Reach book b

pub record IsSound (book : BudgetLedger) (w : World) : Type 0 where
  pub is_funded : IsFunded book w.db
  pub good : Good w.db w.issued

All-at :
    (P : Reservation → Type 0) (i : ℕ) (r : Reservation) (rs : List Reservation)
    → at i rs ≡ some r
    → All P rs
    → P r
All-at P i r [] e h = cc
All-at P zero r (x ∷ xs) e h = ground arith
All-at P (suc i) r (x ∷ xs) e h = All-at P i r xs e h.1

module _ {book : BudgetLedger} (usable : IsUsable book) (db : Database) (f : IsFunded book db) where
  pub settle-Good :
      (r : Reservation) (actual : ℤ) (now : ℕ) (issued : List Reservation)
      → Good db issued
      → Good (settle r actual now db).1 issued
  settle-Good r actual now issued g =
      let same = labels-complete r.reservation_id (settled_column actual) now db.reservations in
      rw (settle_lem r actual now db usable f) (elim (Bool-cases (was_open r db)) [
        | inl opened ↦ rw opened (
            Good-same db (after_settle r actual now db)
              (rw (after_settle_rows r actual now db) same) (after_settle_next r actual now db) g)
        | inr gone ↦ rw gone (Good-same db (left r actual now db) same refl g)
      ])

  pub release-Good :
      (r : Reservation) (issued : List Reservation) → Good db issued → Good (release r db).1 issued
  release-Good r issued g =
      let same = labels-give_back r.reservation_id db.reservations in
      rw (release_lem r db usable f) (elim (Bool-cases (was_open r db)) [
        | inl opened ↦ rw opened (Good-same db (refreshed r.budget_date (given r db)) same refl g)
        | inr gone ↦ rw gone (Good-same db (given r db) same refl g)
      ])

Step-IsSound :
    {book : BudgetLedger} {a b : World}
    → IsUsable book
    → Step book a b
    → IsSound book a
    → IsSound book b
Step-IsSound {book} usable (reserves ask random now w) s = record {
  is_funded = reserve-IsFunded book ask random now w.db s.is_funded;
  good = reserve-Good book ask random now w.db w.issued s.good;
}
Step-IsSound usable (settles i r actual now w e) s =
    let issued = All-at (λ x. IsIssued x w.db) i r w.issued e s.good.issues in
    record {
      is_funded = settle-IsFunded r actual now w.db usable issued s.is_funded;
      good = settle-Good usable w.db s.is_funded r actual now w.issued s.good;
    }
Step-IsSound usable (releases i r w e) s = record {
  is_funded = release-IsFunded r w.db usable s.is_funded;
  good = release-Good usable w.db s.is_funded r w.issued s.good;
}

none_held : (day : ℕ) → held day [] ≡ 0
unfolding held
none_held day = refl

none_spent : (day : ℕ) → spent_on day [] ≡ 0
unfolding find_spent
none_spent day = refl

pub Reach-IsSound :
    {book : BudgetLedger} {w : World} → IsUsable book → Reach book w → IsSound book w
Reach-IsSound usable (start control) = record {
  is_funded = record {
    held_fits = λ day. omega (arith, none_held day);
    funded = λ day h h'. omega (arith, none_held day, none_spent day);
    spent_fits = λ day. omega (arith, none_spent day);
  };
  good = record { issues = tt; numbered = tt };
}
Reach-IsSound usable (step a b r s) = Step-IsSound usable s (Reach-IsSound usable r)

-- In every run of the ledger under a usable ceiling, from empty tables on: while the circuit is closed, what
-- a day has spent and what its reservations hold never exceed the ceiling together.
pub ceiling_kept :
    (book : BudgetLedger) (w : World)
    → IsUsable book
    → Reach book w
    → circuit_of w.db.control ≡ false
    → (day : ℕ)
    → nano_of_column (spent_on day w.db.days) + nano_of_column (held day w.db.reservations)
      ≤ book.ceiling_nano
ceiling_kept book w usable r closed day = (Reach-IsSound usable r).is_funded.funded day refl closed
