-- ===== src/Schema/Restart.antt =====
-- Starting again on a database that `ensure_schema` of schema.py accepted.
use mod_playerbot_llm.Prelude.{
  and_false, or_true, or_false, keep_all, all_both, ◌≡◌, refl, ◌∙◌, ap, Bool, true, false, not,
  ◌||◌, some, List, [], ◌∷◌, ◌++◌, any, all, ok, Bool-cases, Option-cases, Result-cases, inl, inr,
  arith,
}
use mod_playerbot_llm.Prelude.Text.{Text, codes, text_eq, text_eq_sound}
use mod_playerbot_llm.Protocol.{one_of}
use mod_playerbot_llm.Generation.Gates.{refuse_ok, not-false}
use mod_playerbot_llm.Schema.Shapes.{
  required_module_tables, budget_tables, sidecar_owned_tables, legacy_provider_tables,
  provider_tables,
}
use mod_playerbot_llm.Schema.Startup.{
  TableRows, Catalogue, rows_of, has, validate_shapes, present_identifiers, fresh_neutral,
  complete_neutral, wrong_identifiers, check_layout, create_tables, ensure_schema,
}

member_holds :
    (p : Text → Bool) (names : List Text) (name : Text)
    → all p names ≡ true
    → one_of names name ≡ true
    → p name ≡ true
member_holds p [] name h m = cc
member_holds p (first ∷ names) name h m = elim (Bool-cases (text_eq name first)) [
  | inl same ↦ rw (text_eq_sound name first same) (ground arith)
  | inr other ↦ let m' = rw other at m in member_holds p names name (ground arith) m'
]

members_hold :
    (p : Text → Bool) (names some_names : List Text)
    → all p names ≡ true
    → all (one_of names) some_names ≡ true
    → all p some_names ≡ true
members_hold p names [] h m = refl
members_hold p names (name ∷ rest) h m =
    let first : one_of names name ≡ true = ground arith in
    rw (member_holds p names name h first) (members_hold p names rest h (ground arith))

module _ (lower : Text → Text) (is_zero : Text → Bool) (created : Text → TableRows) where
  abbrev made : List Text → Catalogue → Catalogue
  made = create_tables lower is_zero created

  -- A table that is not created, and one that was there, keep their rows.
  made_apart :
      (names : List Text) (db : Catalogue) (name : Text)
      → one_of names name ≡ false
      → rows_of name (made names db) ≡ rows_of name db
  unfolding create_tables rows_of
  made_apart [] db name apart = refl
  made_apart (first ∷ names) db name apart =
      let other : text_eq name first ≡ false = ground arith in
      let apart' : one_of names name ≡ false = ground arith in
      elim (Bool-cases (has db first)) [
        | inl there ↦ rw there (made_apart names db name apart')
        | inr absent ↦
            rw absent (made_apart names ((first, created first) ∷ db) name apart' ∙ (rw other refl))
      ]

  pub made_keeps :
      (names : List Text) (db : Catalogue) (name : Text) (rows : TableRows)
      → rows_of name db ≡ some rows
      → rows_of name (made names db) ≡ some rows
  unfolding create_tables rows_of
  made_keeps [] db name rows h = h
  made_keeps (first ∷ names) db name rows h = elim (Bool-cases (has db first)) [
    | inl there ↦ rw there (made_keeps names db name rows h)
    | inr absent ↦ rw absent (elim (Bool-cases (text_eq name first)) [
      | inl same ↦ let absent' = rw (← text_eq_sound name first same, h) at absent in cc
      | inr other ↦ made_keeps names ((first, created first) ∷ db) name rows (rw other h)
    ])
  ]

  made-has :
      (names : List Text) (db : Catalogue) (name : Text)
      → has db name ≡ true
      → has (made names db) name ≡ true
  made-has names db name h = elim (Option-cases (rows_of name db)) [
    | inl nothing ↦ let h' = rw nothing at h in cc
    | inr (rows, found) ↦ rw (made_keeps names db name rows found) refl
  ]

  made_member :
      (names : List Text) (db : Catalogue) (name : Text)
      → one_of names name ≡ true
      → has (made names db) name ≡ true
  unfolding create_tables rows_of
  made_member [] db name m = cc
  made_member (first ∷ names) db name m = elim (Bool-cases (text_eq name first)) [
    | inr other ↦ let m' = rw other at m in made_member names _ name m'
    | inl same ↦ elim (Bool-cases (has db first)) [
      | inl there ↦ rw there (made-has names db name (rw (text_eq_sound name first same) there))
      | inr absent ↦ rw absent (made-has names ((first, created first) ∷ db) name (rw same refl))
    ]
  ]

  made-all :
      (names some_names : List Text) (db : Catalogue)
      → all (one_of names) some_names ≡ true
      → all (has (made names db)) some_names ≡ true
  made-all names [] db m = refl
  made-all names (name ∷ rest) db m =
      rw (made_member names db name (ground arith)) (made-all names rest db (ground arith))

  all_apart :
      (names others : List Text) (db : Catalogue)
      → any (one_of names) others ≡ false
      → all (has (made names db)) others ≡ all (has db) others
  all_apart names [] db m = refl
  all_apart names (name ∷ rest) db m =
      rw (made_apart names db name (ground arith), all_apart names rest db (ground arith)) refl

  any_apart :
      (names others : List Text) (db : Catalogue)
      → any (one_of names) others ≡ false
      → any (has (made names db)) others ≡ any (has db) others
  any_apart names [] db m = refl
  any_apart names (name ∷ rest) db m =
      rw (made_apart names db name (ground arith), any_apart names rest db (ground arith)) refl

  made_again : (names : List Text) (db : Catalogue) → all (has db) names ≡ true → made names db ≡ db
  unfolding create_tables
  made_again [] db h = refl
  made_again (name ∷ names) db h =
      let there : has db name ≡ true = ground arith in rw there (made_again names db (ground arith))

  -- A database that passes every check before the tables are created.
  record IsReady (db : Catalogue) : Type 0 where
    no_legacy : any (has db) legacy_provider_tables ≡ false
    layout :
        (fresh_neutral lower is_zero created db || complete_neutral lower is_zero created db) ≡ true
    identifiers :
        wrong_identifiers lower is_zero created (present_identifiers lower is_zero created db)
        ≡ false
    required : all (has db) required_module_tables ≡ true

  check_layout-IsReady :
      (db : Catalogue) → check_layout lower is_zero created db ≡ ok tt → IsReady db
  unfolding check_layout
  check_layout-IsReady db h =
      let (_, h1) = refuse_ok _ _ _ tt h in
      let (mixed, h2) =
        refuse_ok
          (any (has db) legacy_provider_tables
            || not (
                fresh_neutral lower is_zero created db
                || complete_neutral lower is_zero created db))
          _ _ tt h1 in
      let (identifiers, h3) = refuse_ok _ _ _ tt h2 in
      let (required, _) = refuse_ok _ _ _ tt h3 in
      record {
        no_legacy = (or_false _ _ mixed).0;
        layout = not-false _ (or_false _ _ mixed).1;
        identifiers = identifiers;
        required = not-false (all (has db) required_module_tables) required;
      }

  -- The checks of a database that has all its tables.
  complete_passes :
      (db : Catalogue)
      → IsReady db
      → all (has db) budget_tables ≡ true
      → all (has db) sidecar_owned_tables ≡ true
      → validate_shapes lower is_zero created provider_tables db ≡ ok tt
      → check_layout lower is_zero created db ≡ ok tt
  unfolding check_layout
  complete_passes db r budgets owned shapes =
      let every : all (has db) provider_tables ≡ true =
        members_hold (has db) (sidecar_owned_tables ++ required_module_tables) provider_tables
          (all_both (has db) sidecar_owned_tables required_module_tables owned r.required) refl in
      let bare =
        and_false (not (any (has db) budget_tables || any (has db) sidecar_owned_tables)) in
      let layout = or_true (not (any (has db) sidecar_owned_tables)) in
      rw
        (
          r.no_legacy,
          r.required,
          bare,
          budgets,
          owned,
          layout,
          r.identifiers,
          keep_all (has db) provider_tables every,
        )
        shapes

  has_budgets :
      (db : Catalogue)
      → (fresh_neutral lower is_zero created db || complete_neutral lower is_zero created db) ≡ true
      → all (has db) budget_tables ≡ true
  has_budgets db h = elim (Bool-cases (all (has db) budget_tables)) [
    | inl there ↦ there
    | inr absent ↦ let h' = rw absent at h in cc
  ]

  made-IsReady : (db : Catalogue) → IsReady db → IsReady (made sidecar_owned_tables db)
  made-IsReady db r =
      let budgets =
        all_apart sidecar_owned_tables budget_tables db refl ∙ has_budgets db r.layout in
      let owned = made-all sidecar_owned_tables sidecar_owned_tables db refl in
      let now = made sidecar_owned_tables db in
      let daily = made_apart sidecar_owned_tables db (codes "playerbot_llm_daily_budget") refl in
      let reservation =
        made_apart sidecar_owned_tables db (codes "playerbot_llm_budget_reservation") refl in
      record {
        no_legacy = any_apart sidecar_owned_tables legacy_provider_tables db refl ∙ r.no_legacy;
        layout = rw (budgets, owned) (or_true (not (any (has now) sidecar_owned_tables)));
        identifiers = rw (daily, reservation) r.identifiers;
        required = all_apart sidecar_owned_tables required_module_tables db refl ∙ r.required;
      }

  -- On a database that the sidecar once started on, it starts again and creates nothing; the first start changed no
  -- table that was there.
  pub ensure_schema-restarts :
      (db db' : Catalogue)
      → ensure_schema lower is_zero created db ≡ (ok tt, db')
      → (ensure_schema lower is_zero created db' ≡ (ok tt, db'))
        × ((name : Text) (rows : TableRows)
            → rows_of name db ≡ some rows
            → rows_of name db' ≡ some rows)
  unfolding ensure_schema
  ensure_schema-restarts db db' h = elim (Result-cases (check_layout lower is_zero created db)) [
    | inr (e, refused) ↦ let h' = rw refused at h in cc
    | inl (tt, passed) ↦
        let h' = rw passed at h in
        let same : made sidecar_owned_tables db ≡ db' = ap (λ r. r.1) h' in
        let shapes : validate_shapes lower is_zero created provider_tables
              (made sidecar_owned_tables db)
            ≡ ok tt =
          ap (λ r. r.0) h' in
        let ready = check_layout-IsReady db passed in
        let budgets =
          all_apart sidecar_owned_tables budget_tables db refl ∙ has_budgets db ready.layout in
        let owned = made-all sidecar_owned_tables sidecar_owned_tables db refl in
        let again =
          complete_passes (made sidecar_owned_tables db) (made-IsReady db ready) budgets owned
            shapes in
        rw (← same) (
          rw (again, made_again sidecar_owned_tables (made sidecar_owned_tables db) owned, shapes)
              refl,
          λ name rows there. made_keeps sidecar_owned_tables db name rows there,
        )
  ]
