-- ===== src/Examples/Started.antt =====
-- The first start on a migrated database, and the next one.
use mod_playerbot_llm.Prelude.{
  ◌≡◌, refl, Bool, true, false, some, List, [], ◌∷◌, ◌++◌, map, Result, ok, if◌then◌else◌,
}
use mod_playerbot_llm.Prelude.Text.{Text, codes, text_eq}
use mod_playerbot_llm.Schema.Shapes.{
  ColumnShape, IndexShape, CheckShape, TableShape, provider_shapes, neutral_budget_identifiers,
  daily_budget_shape, budget_reservation_shape, bot_purge_shape,
}
use mod_playerbot_llm.Schema.Startup.{
  ColumnRow, IndexRow, CheckRow, TableRows, Catalogue, SchemaError, rows_of, check_layout,
  validate_shapes, create_tables, ensure_schema,
}
use mod_playerbot_llm.Schema.Restart.{ensure_schema-restarts}

abbrev extra_of : Bool → Bool → Text
extra_of true on_update = codes "auto_increment"
extra_of false true = codes "DEFAULT_GENERATED on update current_timestamp"
extra_of false false = []

abbrev column_row : ColumnShape → ColumnRow
column_row shape = record {
  column_name = shape.name;
  column_type = shape.column_type;
  is_nullable = shape.is_nullable;
  column_default = shape.column_default;
  extra = extra_of shape.auto_increment shape.on_update;
}

abbrev index_rows : List IndexShape → List IndexRow
index_rows [] = []
index_rows (shape ∷ shapes) =
    map
      (λ column. record {
        index_name = shape.name;
        non_unique = shape.non_unique;
        column_name = column;
      })
      shape.columns
    ++ index_rows shapes

abbrev check_row : CheckShape → CheckRow
check_row shape = record { constraint_name = shape.name; check_clause = shape.clause }

abbrev rows_from : TableShape → TableRows
rows_from shape = record {
  columns = map column_row shape.columns;
  indexes = index_rows shape.indexes;
  checks = map check_row shape.checks;
  constraint_names = neutral_budget_identifiers;
}

abbrev no_rows : TableRows
no_rows = record { columns = []; indexes = []; checks = []; constraint_names = [] }

abbrev made_from : List (Text × TableShape) → Text → TableRows
made_from [] name = no_rows
made_from ((table, shape) ∷ shapes) name =
    let rest = made_from shapes name in if text_eq name table then rows_from shape else rest

abbrev created : Text → TableRows
created = made_from provider_shapes

abbrev migrated : Catalogue
migrated =
    (codes "playerbot_llm_daily_budget", rows_from daily_budget_shape)
    ∷ (codes "playerbot_llm_budget_reservation", rows_from budget_reservation_shape)
    ∷ (codes "playerbot_social_runtime_control", no_rows)
    ∷ (codes "playerbot_llm_bot_purge", rows_from bot_purge_shape)
    ∷ []

abbrev is_zero : Text → Bool
is_zero = text_eq (codes "0")

abbrev started : Catalogue
started = (ensure_schema (λ text. text) is_zero created migrated).1

first_start : (ensure_schema (λ text. text) is_zero created migrated).0 ≡ ok tt
unfolding ensure_schema check_layout validate_shapes create_tables rows_of
first_start = refl

whole : (r : Result SchemaError Unit × Catalogue) → r.0 ≡ ok tt → r ≡ (ok tt, r.1)
whole (result, db) h = rw h refl

ensure_schema-restarts_example :
    (ensure_schema (λ text. text) is_zero created started ≡ (ok tt, started))
    × ((name : Text) (rows : TableRows)
        → rows_of name migrated ≡ some rows
        → rows_of name started ≡ some rows)
ensure_schema-restarts_example =
    ensure_schema-restarts (λ text. text) is_zero created migrated started
      (whole (ensure_schema (λ text. text) is_zero created migrated) first_start)
