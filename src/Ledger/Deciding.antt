-- ===== src/Ledger/Deciding.antt =====
-- `BudgetLedger.reserve` against `BudgetLedger.snapshot` and `admit`: what a call returns, on every branch.
use mod_playerbot_llm.Prelude.{
  ℕ, ◌/◌, ◌≡◌, ◌≢◌, refl, false, Option, none, some, List, [], ◌∷◌, Result, ok, err, arith, inl,
  inr, settled,
}
use mod_playerbot_llm.Prelude.Int.{pos}
use mod_playerbot_llm.Prelude.Text.{Text}
use mod_playerbot_llm.Budget.{AdmissionDecision, admitted, admit}
use mod_playerbot_llm.Budget.Admission.{admitted-cases}
use mod_playerbot_llm.Schema.{utc_day}
use mod_playerbot_llm.Ledger.Tables.{
  Database, ReservationRow, sweep, nano_of_column, find_spent, has_public_id,
}
use mod_playerbot_llm.Ledger.Sums.{or_zero, held-sweep, spent_on-upsert}
use mod_playerbot_llm.Ledger.{
  BudgetLedger, Reservation, Ask, reserve, mint_public_id, record_decision, new_row, bad_model_name,
  quantized, cost_or_zero, snapshot, spent_or_zero,
}
use mod_playerbot_llm.Ledger.Funding.{IsFunded, IsUsable, swept, swept-IsFunded}
use mod_playerbot_llm.Ledger.Settling.{usd_column_whole, refresh_lem}
use mod_playerbot_llm.Ledger.Reserving.{
  decision, reserve_in_day_lem, admitted-HasRoom, HasRoom, with_row, with_row-IsFunded,
}

spent_or_zero_lem : (o : Option ℕ) → spent_or_zero o ≡ nano_of_column (or_zero o)
spent_or_zero_lem none = refl
spent_or_zero_lem (some n) = refl

-- What the transaction decides is what the policy says of the snapshot taken at the same instant.
pub decision_lem :
    (book : BudgetLedger) (ask : Ask) (now : ℕ) (db : Database)
    → decision book ask (utc_day now) now db
      ≡ admit
          (pos book.ceiling_nano)
          (snapshot now db)
          (quantized ask.max_cost_nano)
          ask.priority
          book.reserve_ratio
unfolding snapshot
decision_lem book ask now db =
    rw (held-sweep (utc_day now) now db.reservations)
      (rw (spent_or_zero_lem (find_spent (utc_day now) db.days)) refl)

-- The reservation that an admitted request is given.
abbrev pub granted : AdmissionDecision → Reservation → Option Reservation
granted admitted r = some r
granted _ r = none

pub granted_ne : (d : AdmissionDecision) (r : Reservation) → d ≢ admitted → granted d r ≡ none
granted_ne admitted r h = absurd (h refl)
granted_ne _ r h = refl

has_public_id-sweep :
    (id : Text) (day now : ℕ) (rows : List ReservationRow)
    → has_public_id id (sweep day now rows) ≡ has_public_id id rows
unfolding sweep
has_public_id-sweep id day now [] = refl
has_public_id-sweep id day now (r ∷ rs) = ground (arith, has_public_id-sweep id day now rs)

module _ (book : BudgetLedger) (ask : Ask) (public_id : Text) (day now : ℕ) (db : Database) where
  abbrev pub grant : Reservation
  grant = record {
    reservation_id = db.next_id;
    public_id = public_id;
    budget_date = day;
    max_cost_nano = cost_or_zero (quantized ask.max_cost_nano);
  }

  record_admitted :
      IsUsable book
      → IsFunded book db
      → has_public_id public_id db.reservations ≡ false
      → HasRoom book day now db (cost_or_zero (quantized ask.max_cost_nano))
      → (record_decision ask public_id day now
          (cost_or_zero (quantized ask.max_cost_nano))
          admitted
          (swept day now db)).0
        ≡ ok (admitted, some grant)
  record_admitted usable f fresh (closed, whole, room) =
      let cost = cost_or_zero (quantized ask.max_cost_nano) in
      let row = new_row ask public_id day now (cost / 1000) db.next_id in
      let g =
        with_row-IsFunded {book = book} row (swept day now db) refl closed
          (rw (spent_on-upsert day day db.days) (omega arith)) (swept-IsFunded day now db f) in
      let fits = g.held_fits day in
      rw (usd_column_whole cost (omega arith) whole) (
        rw (has_public_id-sweep public_id day now db.reservations)
          (rw fresh (rw (refresh_lem day (with_row row (swept day now db)) (omega arith)) refl)))

  record_denied :
      (d : AdmissionDecision)
      → IsUsable book
      → IsFunded book db
      → d ≢ admitted
      → (record_decision ask public_id day now
          (cost_or_zero (quantized ask.max_cost_nano))
          d
          (swept day now db)).0
        ≡ ok (d, none)
  record_denied admitted usable f h = absurd (h refl)
  record_denied d usable f h =
      let g = swept-IsFunded {book = book} day now db f in
      let fits = g.held_fits day in rw (refresh_lem day (swept day now db) (omega arith)) refl

settled_ok :
    {S E A : Type 0} (before : S) (x : Result E A × S) (a : A)
    → x.0 ≡ ok a
    → (settled before x).0 ≡ ok a
settled_ok before (ok b, s) a e = e
settled_ok before (err b, s) a e = cc

-- Under a usable ceiling and from a funded state, with a model name in range and a public id that no row
-- has, a call of `reserve` returns: the decision is `admit`'s on the snapshot of the same instant and the
-- quantized cost, and a reservation, for that cost on the day of the call, comes with it exactly when the
-- decision is to admit.
pub reserve_returns :
    (book : BudgetLedger) (ask : Ask) (random : Text) (now : ℕ) (db : Database)
    → IsUsable book
    → IsFunded book db
    → bad_model_name ask.model ≡ false
    → has_public_id (mint_public_id random) db.reservations ≡ false
    → let d =
        admit
          (pos book.ceiling_nano)
          (snapshot now db)
          (quantized ask.max_cost_nano)
          ask.priority
          book.reserve_ratio in
      (reserve book ask random now db).0
      ≡ ok (d, granted d (grant book ask (mint_public_id random) (utc_day now) now db))
unfolding reserve
reserve_returns book ask random now db usable f named fresh =
    let day = utc_day now in
    let id = mint_public_id random in
    rw named (
      rw (← decision_lem book ask now db) (
        rw reserve_in_day_lem (elim (admitted-cases (decision book ask day now db)) [
          | inl e ↦ rw e (
              settled_ok db _ _ (
                record_admitted book ask id day now db usable f fresh
                  (admitted-HasRoom book ask day now db e)))
          | inr ne ↦
              rw (granted_ne _ (grant book ask id day now db) ne)
                (settled_ok db _ _ (record_denied book ask id day now db _ usable f ne))
        ])))
