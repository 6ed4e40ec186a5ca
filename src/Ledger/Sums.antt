-- ===== src/Ledger/Sums.antt =====
-- How the statements of the ledger change what a day has spent and what its reservations hold.
use mod_playerbot_llm.Prelude.{
  ℕ, ◌+◌, ◌≤◌, ◌≡◌, ◌≢◌, refl, true, false, Option, none, some, List, [], ◌∷◌, ◌++◌, map, any, All,
  arith, ◌==◌, if◌then◌else◌,
}
use mod_playerbot_llm.Ledger.Tables.{
  ReservationRow, reserved, DayRow, held, live, sweep, is_open, complete, give_back, find_spent,
  upsert_day, spend_row, reserve_row, nano_of_column,
}

abbrev pub or_zero : Option ℕ → ℕ
or_zero none = 0
or_zero (some n) = n

-- The microdollars that a day has spent, 0 before its first row.
abbrev pub spent_on : ℕ → List DayRow → ℕ
spent_on day days = or_zero (find_spent day days)

pub find_spent-upsert :
    (day : ℕ) (days : List DayRow) → find_spent day (upsert_day day days) ≡ some (spent_on day days)
unfolding find_spent upsert_day
find_spent-upsert day [] = ground arith
find_spent-upsert day (d ∷ ds) = ground (arith, find_spent-upsert day ds)

pub spent_on-upsert :
    (day other : ℕ) (days : List DayRow)
    → spent_on other (upsert_day day days) ≡ spent_on other days
unfolding find_spent upsert_day
spent_on-upsert day other [] = ground arith
spent_on-upsert day other (d ∷ ds) = ground (arith, spent_on-upsert day other ds)

pub spent_on-reserve_row :
    (day other total : ℕ) (days : List DayRow)
    → spent_on other (map (reserve_row day total) days) ≡ spent_on other days
unfolding find_spent
spent_on-reserve_row day other total [] = refl
spent_on-reserve_row day other total (d ∷ ds) =
    ground (arith, spent_on-reserve_row day other total ds)

pub spent_on-spend_row_ne :
    (day other total : ℕ) (days : List DayRow)
    → other ≢ day
    → spent_on other (map (spend_row day total) days) ≡ spent_on other days
unfolding find_spent
spent_on-spend_row_ne day other total [] h = refl
spent_on-spend_row_ne day other total (d ∷ ds) h =
    ground (arith, spent_on-spend_row_ne day other total ds h)

pub spent_on-spend_row_self :
    (day total : ℕ) (days : List DayRow)
    → find_spent day days ≢ none
    → spent_on day (map (spend_row day total) days) ≡ total
unfolding find_spent
spent_on-spend_row_self day total [] h = absurd (h refl)
spent_on-spend_row_self day total (d ∷ ds) h = ground (arith, spent_on-spend_row_self day total ds)

-- After the sweep of a day its reservations hold what is still live.
pub held-sweep :
    (day now : ℕ) (rows : List ReservationRow) → held day (sweep day now rows) ≡ live day now rows
unfolding held live sweep
held-sweep day now [] = refl
held-sweep day now (r ∷ rs) = ground (arith, held-sweep day now rs)

pub held-sweep-le :
    (day now other : ℕ) (rows : List ReservationRow)
    → held other (sweep day now rows) ≤ held other rows
unfolding held sweep
held-sweep-le day now other [] = omega arith
held-sweep-le day now other (r ∷ rs) = ground (arith, held-sweep-le day now other rs)

pub held-append :
    (day : ℕ) (rows : List ReservationRow) (r : ReservationRow)
    → r.state ≡ reserved
    → held day (rows ++ r ∷ [])
      ≡ held day rows + (if r.budget_date == day then r.max_cost_usd else 0)
unfolding held
held-append day [] r e = ground arith
held-append day (x ∷ xs) r e = ground (arith, held-append day xs r e)

pub held-complete-le :
    (i cost now day : ℕ) (rows : List ReservationRow)
    → held day (complete i cost now rows) ≤ held day rows
unfolding held complete
held-complete-le i cost now day [] = omega arith
held-complete-le i cost now day (r ∷ rs) = ground (arith, held-complete-le i cost now day rs)

pub held-give_back-le :
    (i day : ℕ) (rows : List ReservationRow) → held day (give_back i rows) ≤ held day rows
unfolding held give_back
held-give_back-le i day [] = omega arith
held-give_back-le i day (r ∷ rs) = ground (arith, held-give_back-le i day rs)

-- The row under an id has this day and this maximum.
abbrev pub Matches : ℕ → ℕ → ℕ → ReservationRow → Type 0
Matches i day max r = r.id ≡ i → (r.budget_date ≡ day) × (nano_of_column r.max_cost_usd ≡ max)

-- Completing a reserved row takes its maximum out of what its day holds.
pub held-complete :
    (i cost now day max : ℕ) (rows : List ReservationRow)
    → All (Matches i day max) rows
    → any (is_open i) rows ≡ true
    → nano_of_column (held day (complete i cost now rows)) + max ≤ nano_of_column (held day rows)
unfolding held complete
held-complete i cost now day max [] m h = cc
held-complete i cost now day max (r ∷ rs) m h =
    ground (arith, held-complete i cost now day max rs m.1, held-complete-le i cost now day rs, m.0)

pub complete_none_open :
    (i cost now : ℕ) (rows : List ReservationRow)
    → any (is_open i) (complete i cost now rows) ≡ false
unfolding complete
complete_none_open i cost now [] = refl
complete_none_open i cost now (r ∷ rs) = ground (arith, complete_none_open i cost now rs)

pub give_back_none_open :
    (i : ℕ) (rows : List ReservationRow) → any (is_open i) (give_back i rows) ≡ false
unfolding give_back
give_back_none_open i [] = refl
give_back_none_open i (r ∷ rs) = ground (arith, give_back_none_open i rs)
