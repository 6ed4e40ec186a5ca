-- ===== src/Ledger/Circuit.antt =====
-- The breaker: once open it stays open, and no reservation is admitted.
use mod_playerbot_llm.Prelude.{
  ℕ, ◌≡◌, ◌≢◌, refl, Bool, true, false, Option, some, Result, ok, err, settled, continue, pure,
  Bool-cases, inl, inr,
}
use mod_playerbot_llm.Prelude.Int.{ℤ}
use mod_playerbot_llm.Prelude.Text.{Text}
use mod_playerbot_llm.Budget.{
  AdmissionDecision, admitted, denied_circuit_open, admit, storable_actual_cost_nano,
}
use mod_playerbot_llm.Schema.{utc_day}
use mod_playerbot_llm.Ledger.Tables.{Database, LedgerFault, circuit_of}
use mod_playerbot_llm.Ledger.{
  BudgetLedger, Reservation, Ask, reserve, settle, release, mint_public_id, bad_model_name,
  set_reserved, refresh_reserved_usd, is_breach, is_saturated, reason,
}
use mod_playerbot_llm.Ledger.Funding.{IsFunded, IsUsable, swept}
use mod_playerbot_llm.Ledger.Settling.{left, was_open, stopped, refreshed, paid}
use mod_playerbot_llm.Ledger.Reserving.{decision, reserve_in_day_lem}
use mod_playerbot_llm.Ledger.Charging.{settle_lem, spent_before}
use mod_playerbot_llm.Ledger.Once.{release_lem}
use mod_playerbot_llm.Ledger.Runs.{World, Step, reserves, settles, releases, Reach, Reach-IsSound}

-- What a call of `reserve` may do behind an open circuit.
abbrev Stopped :
    Database → Result LedgerFault (AdmissionDecision × Option Reservation) × Database → Type 0
Stopped db x = (x.1.control ≡ db.control) × ((r : Reservation) → x.0 ≢ ok (admitted, some r))

decision_stopped :
    (book : BudgetLedger) (ask : Ask) (day now : ℕ) (db : Database)
    → circuit_of db.control ≡ true
    → decision book ask day now db ≡ denied_circuit_open
unfolding admit
decision_stopped book ask day now db h = rw h refl

refresh-Stopped :
    (before db : Database) (day : ℕ) (total : Result LedgerFault ℕ)
    → db.control ≡ before.control
    → Stopped before (
        settled before
          (continue (set_reserved day total db) (λ _. pure (denied_circuit_open, Option.none))))
refresh-Stopped before db day (ok n) e = (e, λ r h. cc)
refresh-Stopped before db day (err x) e = (refl, λ r h. cc)

-- Behind an open circuit a call of `reserve` hands out no reservation, and leaves the circuit as it is.
pub reserve_stopped :
    (book : BudgetLedger) (ask : Ask) (random : Text) (now : ℕ) (db : Database)
    → circuit_of db.control ≡ true
    → ((reserve book ask random now db).1.control ≡ db.control)
      × ((r : Reservation) → (reserve book ask random now db).0 ≢ ok (admitted, some r))
unfolding reserve refresh_reserved_usd
reserve_stopped book ask random now db h = elim (Bool-cases (bad_model_name ask.model)) [
  | inl bad ↦ rw bad (refl, λ r e. cc)
  | inr usable ↦ rw usable (
      rw (reserve_in_day_lem book ask (mint_public_id random) (utc_day now) now db) (
        rw (decision_stopped book ask (utc_day now) now db h)
          (refresh-Stopped db (swept (utc_day now) now db) (utc_day now) _ refl)))
]

stopped_open :
    (breach saturated : Bool) (reason : Text) (now : ℕ) (db : Database)
    → circuit_of db.control ≡ true
    → circuit_of (stopped breach saturated reason now db).control ≡ true
stopped_open true _ reason now db h = refl
stopped_open false true reason now db h = refl
stopped_open false false reason now db h = h

module _ {book : BudgetLedger} (usable : IsUsable book) (db : Database) (f : IsFunded book db) where
  settle_open :
      (r : Reservation) (actual : ℤ) (now : ℕ)
      → circuit_of db.control ≡ true
      → circuit_of (settle r actual now db).1.control ≡ true
  settle_open r actual now h =
      rw (settle_lem r actual now db usable f) (elim (Bool-cases (was_open r db)) [
        | inl opened ↦ rw opened (
            stopped_open (is_breach r actual)
              (is_saturated (spent_before r db) (storable_actual_cost_nano actual))
              (reason r actual (spent_before r db)) now
              (refreshed r.budget_date (paid r actual (spent_before r db) (left r actual now db)))
              h)
        | inr gone ↦ rw gone h
      ])

  release_open :
      (r : Reservation) → circuit_of db.control ≡ true → circuit_of (release r db).1.control ≡ true
  release_open r h =
      rw (release_lem r db usable f)
        (elim (Bool-cases (was_open r db)) [ inl opened ↦ rw opened h | inr gone ↦ rw gone h ])

-- No call of the ledger closes the circuit: from any reachable state, once it is open the next state has it
-- open as well.
pub circuit_stays_open :
    (book : BudgetLedger) (a b : World)
    → IsUsable book
    → Reach book a
    → Step book a b
    → circuit_of a.db.control ≡ true
    → circuit_of b.db.control ≡ true
circuit_stays_open book a b usable reach (reserves ask random now w) h =
    rw ((reserve_stopped book ask random now w.db h).0) h
circuit_stays_open book a b usable reach (settles i r actual now w e) h =
    settle_open usable w.db (Reach-IsSound usable reach).is_funded r actual now h
circuit_stays_open book a b usable reach (releases i r w e) h =
    release_open usable w.db (Reach-IsSound usable reach).is_funded r h
