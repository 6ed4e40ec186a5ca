-- ===== src/Ledger/Issuing.antt =====
-- `BudgetLedger.reserve` hands out the row it wrote, and no statement changes what a row stands for.
use mod_playerbot_llm.Prelude.{
  ℕ, suc, ◌%◌, ◌<◌, ◌≡◌, ◌≢◌, refl, Option, none, some, List, [], ◌∷◌, map, All, All-append, Result,
  ok, err, arith, settled, continue, pure, Bool-cases, inl, inr,
}
use mod_playerbot_llm.Prelude.Text.{Text}
use mod_playerbot_llm.Budget.{AdmissionDecision, admitted}
use mod_playerbot_llm.Budget.Admission.{admitted-cases}
use mod_playerbot_llm.Schema.{utc_day}
use mod_playerbot_llm.Ledger.Tables.{
  Database, ReservationRow, LedgerFault, sweep, complete, give_back, usd_column, nano_of_column,
  has_public_id,
}
use mod_playerbot_llm.Ledger.Sums.{Matches}
use mod_playerbot_llm.Ledger.{
  BudgetLedger, Reservation, Ask, reserve, mint_public_id, record_decision, new_row, set_reserved,
  bad_model_name, refresh_reserved_usd,
}
use mod_playerbot_llm.Ledger.Funding.{swept}
use mod_playerbot_llm.Ledger.Settling.{IsIssued}
use mod_playerbot_llm.Ledger.Reserving.{
  decision, reserve_in_day_lem, admitted-HasRoom, with_row, column_exact,
}

-- What no statement changes of a row.
abbrev pub label : ReservationRow → ℕ × (ℕ × ℕ)
label row = (row.id, (row.budget_date, row.max_cost_usd))

labels-sweep :
    (day now : ℕ) (rows : List ReservationRow) → map label (sweep day now rows) ≡ map label rows
unfolding sweep
labels-sweep day now [] = refl
labels-sweep day now (r ∷ rs) = ground (arith, labels-sweep day now rs)

pub labels-complete :
    (i cost now : ℕ) (rows : List ReservationRow)
    → map label (complete i cost now rows) ≡ map label rows
unfolding complete
labels-complete i cost now [] = refl
labels-complete i cost now (r ∷ rs) = ground (arith, labels-complete i cost now rs)

pub labels-give_back :
    (i : ℕ) (rows : List ReservationRow) → map label (give_back i rows) ≡ map label rows
unfolding give_back
labels-give_back i [] = refl
labels-give_back i (r ∷ rs) = ground (arith, labels-give_back i rs)

module _ (Q : ℕ × (ℕ × ℕ) → Type 0) where
  to_labels : (rows : List ReservationRow) → All (λ r. Q (label r)) rows → All Q (map label rows)
  to_labels [] h = tt
  to_labels (r ∷ rs) h = (h.0, to_labels rs h.1)

  from_labels : (rows : List ReservationRow) → All Q (map label rows) → All (λ r. Q (label r)) rows
  from_labels [] h = tt
  from_labels (r ∷ rs) h = (h.0, from_labels rs h.1)

  relabel :
      (a b : List ReservationRow)
      → map label b ≡ map label a
      → All (λ r. Q (label r)) a
      → All (λ r. Q (label r)) b
  relabel a b e h = from_labels b (rw e (to_labels a h))

pub All-weaken :
    {A : Type 0} {P Q : A → Type 0} (f : (x : A) → P x → Q x) (xs : List A) → All P xs → All Q xs
All-weaken f [] h = tt
All-weaken f (x ∷ xs) h = (f x h.0, All-weaken f xs h.1)

-- Every reservation handed out is the row under its id, and ids are minted in order.
pub record Good (db : Database) (issued : List Reservation) : Type 0 where
  pub issues : All (λ r. IsIssued r db) issued
  pub numbered : All (λ row. row.id < db.next_id) db.reservations

IsIssued-same :
    (a b : Database)
    → map label b.reservations ≡ map label a.reservations
    → b.next_id ≡ a.next_id
    → (r : Reservation) → IsIssued r a
    → IsIssued r b
IsIssued-same a b e n r h = record {
  matches =
      relabel
        (λ l.
          l.0 ≡ r.reservation_id
          → (l.1.0 ≡ r.budget_date) × (nano_of_column l.1.1 ≡ r.max_cost_nano))
        a.reservations b.reservations e h.matches;
  minted = rw n h.minted;
  whole = h.whole;
}

pub Good-same :
    (a b : Database) {issued : List Reservation}
    → map label b.reservations ≡ map label a.reservations
    → b.next_id ≡ a.next_id
    → Good a issued
    → Good b issued
Good-same a b {issued} e n g = record {
  issues = All-weaken (IsIssued-same a b e n) issued g.issues;
  numbered = rw n (relabel (λ l. l.0 < a.next_id) a.reservations b.reservations e g.numbered);
}

-- What a call of `reserve` adds to the reservations handed out.
abbrev pub note :
    Result LedgerFault (AdmissionDecision × Option Reservation)
    → List Reservation
    → List Reservation
note (ok (d, some r)) issued = r ∷ issued
note (ok (d, none)) issued = issued
note (err e) issued = issued

abbrev pub GoodAfter :
    Result LedgerFault (AdmissionDecision × Option Reservation) × Database
    → List Reservation
    → Type 0
GoodAfter x issued = Good x.1 (note x.0 issued)

-- A fresh row under the next id, and the reservation for it.
module _ (ask : Ask) (public_id : Text) (day now cost c : ℕ) (db : Database)
    (issued : List Reservation) where
  abbrev row : ReservationRow
  row = new_row ask public_id day now c db.next_id

  abbrev minted_reservation : Reservation
  minted_reservation = record {
    reservation_id = db.next_id;
    public_id = public_id;
    budget_date = day;
    max_cost_nano = cost;
  }

  issued_before : Good db issued → (r : Reservation) → IsIssued r db → IsIssued r (with_row row db)
  issued_before g r h = record {
    matches =
        All-append (Matches r.reservation_id r.budget_date r.max_cost_nano) db.reservations
          (row ∷ []) h.matches (λ e. absurd (let m = h.minted in omega arith), tt);
    minted = let m = h.minted in omega arith;
    whole = h.whole;
  }

  issued_now :
      Good db issued
      → nano_of_column c ≡ cost
      → cost % 1000 ≡ 0
      → IsIssued minted_reservation (with_row row db)
  issued_now g exact whole = record {
    matches =
        All-append (Matches db.next_id day cost) db.reservations (row ∷ [])
          (All-weaken {Q = Matches db.next_id day cost}
            (λ x (h : x.id < db.next_id) e. absurd (omega arith)) db.reservations g.numbered)
          (λ e. (refl, exact), tt);
    minted = omega arith;
    whole = whole;
  }

  Good-minted :
      Good db issued
      → nano_of_column c ≡ cost
      → cost % 1000 ≡ 0
      → Good (with_row row db) (minted_reservation ∷ issued)
  Good-minted g exact whole = record {
    issues = (issued_now g exact whole, All-weaken (issued_before g) issued g.issues);
    numbered =
        All-append (λ x. x.id < suc db.next_id) db.reservations (row ∷ [])
          (All-weaken (λ x (h : x.id < db.next_id). omega arith) db.reservations g.numbered)
          (omega arith, tt);
  }

  -- The end of a reservation, whatever the day's new total does.
  Good-noted :
      (before : Database) (total : Result LedgerFault ℕ)
      → Good before issued
      → Good (with_row row db) (minted_reservation ∷ issued)
      → GoodAfter
          (settled before (
            continue
              (set_reserved day total (with_row row db))
              (λ _. pure (admitted, some minted_reservation))))
          issued
  Good-noted before (ok n) g h = Good-same (with_row row db) _ refl refl h
  Good-noted before (err e) g h = g

module _ (ask : Ask) (public_id : Text) (day now cost : ℕ) (before db : Database)
    (issued : List Reservation) where
  Good-admitted :
      (r : Result LedgerFault ℕ)
      → usd_column cost ≡ r
      → cost % 1000 ≡ 0
      → Good before issued
      → Good db issued
      → GoodAfter (settled before (record_decision ask public_id day now cost admitted db)) issued
  unfolding refresh_reserved_usd
  Good-admitted (err x) e whole g h = rw e g
  Good-admitted (ok c) e whole g h =
      rw e (elim (Bool-cases (has_public_id public_id db.reservations)) [
        | inl taken ↦ rw taken g
        | inr fresh ↦ rw fresh (
            Good-noted ask public_id day now cost c db issued before _ g (
              Good-minted ask public_id day now cost c db issued h (column_exact cost whole c e)
                whole))
      ])

  Good-refused :
      (total : Result LedgerFault ℕ) (d : AdmissionDecision)
      → Good before issued
      → Good db issued
      → GoodAfter
          (settled before (continue (set_reserved day total db) (λ _. pure (d, none))))
          issued
  Good-refused (ok n) d g h = Good-same db _ refl refl h
  Good-refused (err e) d g h = g

  Good-denied :
      (d : AdmissionDecision)
      → d ≢ admitted
      → Good before issued
      → Good db issued
      → GoodAfter (settled before (record_decision ask public_id day now cost d db)) issued
  unfolding refresh_reserved_usd
  Good-denied admitted h g g' = absurd (h refl)
  Good-denied d h g g' = Good-refused _ d g g'

pub reserve-Good :
    (book : BudgetLedger) (ask : Ask) (random : Text) (now : ℕ) (db : Database)
    (issued : List Reservation)
    → Good db issued
    → GoodAfter (reserve book ask random now db) issued
unfolding reserve
reserve-Good book ask random now db issued g = elim (Bool-cases (bad_model_name ask.model)) [
  | inl bad ↦ rw bad g
  | inr usable ↦
      let day = utc_day now in
      let h = Good-same db (swept day now db) (labels-sweep day now db.reservations) refl g in
      rw usable (
        rw reserve_in_day_lem (elim (admitted-cases (decision book ask day now db)) [
          | inl e ↦
              let (_, whole, _) = admitted-HasRoom book ask day now db e in
              rw e (
                Good-admitted ask (mint_public_id random) day now _ db (swept day now db) issued _
                  refl whole g h)
          | inr ne ↦
              Good-denied ask (mint_public_id random) day now _ db (swept day now db) issued _ ne g
                h
        ]))
]
