-- ===== src/Schema/Startup.antt =====
-- `ensure_schema` of schema.py: which databases the sidecar starts on, and the tables that it creates there.
use mod_playerbot_llm.Prelude.{
  Bool, true, false, not, ◌&&◌, ◌||◌, Option, none, some, List, [], ◌∷◌, ◌++◌, any, all, length,
  keep_if, map, Result, ok, err, ◌==◌, is_none, if◌then◌else◌,
}
use mod_playerbot_llm.Prelude.Text.{Text, codes, text_eq}
use mod_playerbot_llm.Protocol.{one_of, refuse}
use mod_playerbot_llm.Generation.Memory.{contains}
use mod_playerbot_llm.Schema.Shapes.{
  ColumnShape, IndexShape, CheckShape, TableShape, required_module_tables, budget_tables,
  sidecar_owned_tables, legacy_provider_tables, neutral_budget_identifiers,
  legacy_budget_identifiers, provider_tables, provider_shapes,
}

-- Rows of `information_schema` about one table, in the order of the queries.
pub record ColumnRow : Type 0 where
  pub column_name : Text
  pub column_type : Text
  pub is_nullable : Text
  pub column_default : Option Text
  pub extra : Text

pub record IndexRow : Type 0 where
  pub index_name : Text
  pub non_unique : Bool
  pub column_name : Text

pub record CheckRow : Type 0 where
  pub constraint_name : Text
  pub check_clause : Text

pub record TableRows : Type 0 where
  pub columns : List ColumnRow
  pub indexes : List IndexRow
  pub checks : List CheckRow
  pub constraint_names : List Text

-- The tables of the database.
abbrev pub Catalogue : Type 0
Catalogue = List (Text × TableRows)

unfoldable pub rows_of : Text → Catalogue → Option TableRows
rows_of name [] = none
rows_of name ((table, rows) ∷ tables) =
    let rest = rows_of name tables in if text_eq name table then some rows else rest

abbrev pub has : Catalogue → Text → Bool
has db name = not (is_none (rows_of name db))

-- The reasons of a `LedgerError` at the start.
pub data SchemaError : Type 0 where
  schema_missing mixed_layout budget_identifiers : SchemaError
  unexpected_shape : Text → SchemaError

abbrev pub option_eq : Option Text → Option Text → Bool
option_eq none none = true
option_eq (some a) (some b) = text_eq a b
option_eq _ _ = false

abbrev pub same_bool : Bool → Bool → Bool
same_bool true b = b
same_bool false b = not b

abbrev pub column_eq : ColumnShape → ColumnShape → Bool
column_eq a b =
    (text_eq a.name b.name
      && (text_eq a.column_type b.column_type && text_eq a.is_nullable b.is_nullable))
    && (option_eq a.column_default b.column_default
        && (same_bool a.auto_increment b.auto_increment && same_bool a.on_update b.on_update))

abbrev pub columns_eq : List ColumnShape → List ColumnShape → Bool
columns_eq [] [] = true
columns_eq (a ∷ xs) (b ∷ ys) = column_eq a b && columns_eq xs ys
columns_eq _ _ = false

abbrev pub texts_eq : List Text → List Text → Bool
texts_eq [] [] = true
texts_eq (a ∷ xs) (b ∷ ys) = text_eq a b && texts_eq xs ys
texts_eq _ _ = false

abbrev pub index_eq : IndexShape → IndexShape → Bool
index_eq a b =
    text_eq a.name b.name && (same_bool a.non_unique b.non_unique && texts_eq a.columns b.columns)

abbrev pub check_eq : CheckShape → CheckShape → Bool
check_eq a b = text_eq a.name b.name && text_eq a.clause b.clause

-- Two dicts are equal when they are as long and one has every entry of the other.
abbrev pub same_entries : {A : Type 0} → (A → A → Bool) → List A → List A → Bool
same_entries eq actual expected =
    length actual == length expected && all (λ e. any (eq e) actual) expected

-- A further column of an index that is there, or the first one of a new index.
abbrev pub add_index : List IndexShape → IndexRow → List IndexShape
add_index [] row =
    record { name = row.index_name; non_unique = row.non_unique; columns = row.column_name ∷ [] }
    ∷ []
add_index (shape ∷ shapes) row =
    let rest = shape ∷ add_index shapes row in
    if text_eq shape.name row.index_name
    then record shape {
      non_unique = row.non_unique;
      columns = shape.columns ++ row.column_name ∷ [];
    }
      ∷ shapes
    else rest

abbrev pub add_indexes : List IndexShape → List IndexRow → List IndexShape
add_indexes shapes [] = shapes
add_indexes shapes (row ∷ rows) = add_indexes (add_index shapes row) rows

abbrev pub without_parentheses : Text → Text
without_parentheses [] = []
without_parentheses (c ∷ []) = c ∷ []
without_parentheses (c ∷ d ∷ cs) =
    let shorter = without_parentheses cs in
    let rest = c ∷ without_parentheses (d ∷ cs) in if c == 40 && d == 41 then shorter else rest

-- `str.lower` and the comparison of a `Decimal` with zero are the standard library's, and what MySQL makes of the
-- CREATE statement of a table is MySQL's.
module _ (lower : Text → Text) (is_zero : Text → Bool) (created : Text → TableRows) where
  abbrev pub normalized_default : Option Text → Option Text
  normalized_default none = none
  normalized_default (some value) =
      let text : Text = without_parentheses (lower value) in
      if is_zero text then some (codes "0") else some text

  abbrev pub normalized_check : Text → Text
  normalized_check value =
      keep_if (λ c. not (any (λ d. c == d) (96 ∷ 40 ∷ 41 ∷ 32 ∷ 9 ∷ 13 ∷ 10 ∷ []))) (lower value)

  abbrev pub column_of : ColumnRow → ColumnShape
  column_of row = record {
    name = row.column_name;
    column_type = lower row.column_type;
    is_nullable = row.is_nullable;
    column_default = normalized_default row.column_default;
    auto_increment = contains (codes "auto_increment") (lower row.extra);
    on_update = contains (codes "on update current_timestamp") (lower row.extra);
  }

  abbrev pub check_of : CheckRow → CheckShape
  check_of row = record { name = row.constraint_name; clause = normalized_check row.check_clause }

  abbrev pub has_shape : TableShape → Option TableRows → Bool
  has_shape shape none = false
  has_shape shape (some rows) =
      columns_eq (map column_of rows.columns) shape.columns
      && (same_entries index_eq (add_indexes [] rows.indexes) shape.indexes
          && same_entries check_eq (map check_of rows.checks) shape.checks)

  abbrev pub expected_of : Text → List (Text × TableShape) → Option TableRows → Bool
  expected_of name [] rows = false
  expected_of name ((table, shape) ∷ shapes) rows =
      let rest = expected_of name shapes rows in
      if text_eq name table then has_shape shape rows else rest

  -- `_validate_provider_table_shapes`, its tables sorted.
  unfoldable pub validate_shapes : List Text → Catalogue → Result SchemaError Unit
  validate_shapes [] db = ok tt
  validate_shapes (name ∷ names) db =
      let rest = validate_shapes names db in
      if expected_of name provider_shapes (rows_of name db)
      then rest
      else err (unexpected_shape name)

  abbrev pub names_of : Option TableRows → List Text
  names_of none = []
  names_of (some rows) = rows.constraint_names

  abbrev pub indexes_of : Option TableRows → List Text
  indexes_of none = []
  indexes_of (some rows) = map (λ row. row.index_name) rows.indexes

  abbrev pub present_identifiers : Catalogue → List Text
  present_identifiers db =
      names_of (rows_of (codes "playerbot_llm_daily_budget") db)
      ++ (names_of (rows_of (codes "playerbot_llm_budget_reservation") db)
          ++ indexes_of (rows_of (codes "playerbot_llm_budget_reservation") db))

  abbrev pub fresh_neutral : Catalogue → Bool
  fresh_neutral db = all (has db) budget_tables && not (any (has db) sidecar_owned_tables)

  abbrev pub complete_neutral : Catalogue → Bool
  complete_neutral db = all (has db) budget_tables && all (has db) sidecar_owned_tables

  abbrev pub wrong_identifiers : List Text → Bool
  wrong_identifiers present =
      not (all (one_of present) neutral_budget_identifiers)
      || any (one_of present) legacy_budget_identifiers

  -- What is refused before any table is created.
  unfoldable pub check_layout : Catalogue → Result SchemaError Unit
  check_layout db =
      refuse
        (not (any (has db) legacy_provider_tables)
          && (not (any (has db) budget_tables || any (has db) sidecar_owned_tables)
              && not (all (has db) required_module_tables)))
        schema_missing
        (refuse
          (any (has db) legacy_provider_tables || not (fresh_neutral db || complete_neutral db))
          mixed_layout
          (refuse (wrong_identifiers (present_identifiers db)) budget_identifiers (
            refuse (not (all (has db) required_module_tables)) schema_missing
              (validate_shapes (keep_if (has db) provider_tables) db))))

  -- `SCHEMA_STATEMENTS`: CREATE TABLE IF NOT EXISTS for each of the tables.
  unfoldable pub create_tables : List Text → Catalogue → Catalogue
  create_tables [] db = db
  create_tables (name ∷ names) db =
      create_tables names (if has db name then db else (name, created name) ∷ db)

  abbrev pub start_on : Catalogue → Result SchemaError Unit → Result SchemaError Unit × Catalogue
  start_on db (err e) = (err e, db)
  start_on db (ok done) =
      let complete = create_tables sidecar_owned_tables db in
      (validate_shapes provider_tables complete, complete)

  unfoldable pub ensure_schema : Catalogue → Result SchemaError Unit × Catalogue
  ensure_schema db = start_on db (check_layout db)
