-- ===== src/Store/Rows.antt =====
-- `append_turn` as a whole, and the rows under a primary key.
use mod_playerbot_llm.Prelude.{
  ℕ, zero, suc, ◌^◌, ◌≤◌, length, Option, none, ◌<◌, ◌≡◌, ◌≢◌, refl, ap, sym, true, List, [], ◌∷◌,
  ◌++◌, All-append, some, ok, arith, ◌==◌, Bool-cases, inl, inr, ==_iff,
}
use mod_playerbot_llm.Prelude.Text.{Text, take}
use mod_playerbot_llm.Store.{
  Turn, Tables, trim, append_turn, recent_turns, turns_of, is_role, record_profile, get_profile,
  record_career_decision, get_career_decision, conversation_turn_limit,
}
use mod_playerbot_llm.Store.Columns.{
  ProfileRow, CareerRow, profile_guid, career_guid, fits_varchar, profile_row, profile_fits,
  update_profile, read_profile, career_row, career_fits, update_career, read_career, Profile,
  upsert, find, CareerDecision,
}
use mod_playerbot_llm.Store.Turns.{
  IsOrdered, IsNumbered, last, turns_of-trim, turns_of-append, turns_of-trim_other, All-map,
  IsOrdered-append, IsOrdered-keep_if, All-keep_if,
}

abbrev appended : ℕ → Text → Text → ℕ → Tables → List Turn
appended guid role content now s =
    s.turns
    ++ record {
      id = s.next_turn_id;
      bot_guid = guid;
      role = role;
      content = content;
      created_at = now;
    }
      ∷ []

appended-IsOrdered :
    (guid : ℕ) (role content : Text) (now : ℕ) (s : Tables)
    → IsNumbered s
    → IsOrdered (appended guid role content now s)
appended-IsOrdered guid role content now s n = IsOrdered-append s.turns _ n.ordered n.minted

module _ (guid : ℕ) (role content : Text) (now : ℕ) (s : Tables) (n : IsNumbered s)
    (r : is_role role ≡ true) where
  -- Appending a turn of a known role leaves the bot the last 12 of its conversation with the new turn at the
  -- end, in order, and every other bot its own conversation.
  pub recent_turns-append_turn :
      let s' = (append_turn guid role content now s).1 in
      ((recent_turns guid s').0
        ≡ ok (last conversation_turn_limit (turns_of guid s.turns ++ (role, content) ∷ [])))
      × ((other : ℕ) → other ≢ guid → (recent_turns other s').0 ≡ (recent_turns other s).0)
  unfolding append_turn recent_turns
  recent_turns-append_turn =
      let t : Turn = record {
        id = s.next_turn_id;
        bot_guid = guid;
        role = role;
        content = content;
        created_at = now;
      } in
      rw r (
        rw
            (turns_of-trim guid conversation_turn_limit (s.turns ++ t ∷ [])
              (appended-IsOrdered guid role content now s n))
            (rw (turns_of-append guid s.turns t) (rw ((==_iff guid guid).1 refl) refl)),
        λ other ne.
            rw (turns_of-trim_other guid other conversation_turn_limit (s.turns ++ t ∷ []) ne) (
              rw (turns_of-append other s.turns t) (elim (Bool-cases (guid == other)) [
                | inl same ↦ absurd (ne (sym ((==_iff guid other).0 same)))
                | inr apart ↦ rw apart refl
              ])),
      )

  -- The ids stay in order, and below the next one.
  pub append_turn-IsNumbered : IsNumbered (append_turn guid role content now s).1
  unfolding append_turn trim
  append_turn-IsNumbered = rw r (record {
    ordered = IsOrdered-keep_if _ _ (appended-IsOrdered guid role content now s n);
    minted = All-keep_if _ _ _ (
        All-append (λ t. t.id < suc s.next_turn_id) s.turns _
          (All-map {P = λ t. t.id < s.next_turn_id} {Q = λ t. t.id < suc s.next_turn_id}
            (λ t h. omega arith) s.turns n.minted)
          (omega arith, tt));
  })

abbrev assigned : {A : Type 0} → (A → A → A) → A → Option A → A
assigned assign row none = row
assigned assign row (some x) = assign x row

module _ {A : Type 0} (key : A → ℕ) (assign : A → A → A)
    (keeps : (x row : A) → key (assign x row) ≡ key x) where
  -- The row under the key is the new one, or what the assignments make of the old one.
  find-upsert :
      (row : A) (rows : List A)
      → find key (key row) (upsert key assign row rows)
        ≡ some (assigned assign row (find key (key row) rows))
  unfolding find upsert
  find-upsert row [] = ground arith
  find-upsert row (x ∷ xs) = ground (arith, keeps x row, find-upsert row xs)

  find-upsert_ne :
      (row : A) (guid : ℕ) (rows : List A)
      → guid ≢ key row
      → find key guid (upsert key assign row rows) ≡ find key guid rows
  unfolding find upsert
  find-upsert_ne row guid [] ne = ground arith
  find-upsert_ne row guid (x ∷ xs) ne = ground (arith, keeps x row, find-upsert_ne row guid xs ne)

take-within : (limit : ℕ) (text : Text) → length text ≤ limit → take limit text ≡ text
take-within zero [] h = refl
take-within zero (c ∷ cs) h = absurd (omega arith)
take-within (suc n) [] h = refl
take-within (suc n) (c ∷ cs) h = ap (◌∷◌ c) (take-within n cs (omega arith))

within-fits_varchar :
    (limit : ℕ) (text : Text) → length text ≤ limit → fits_varchar limit text ≡ true
within-fits_varchar zero [] h = refl
within-fits_varchar zero (c ∷ cs) h = absurd (omega arith)
within-fits_varchar (suc n) [] h = refl
within-fits_varchar (suc n) (c ∷ cs) h = within-fits_varchar n cs (omega arith)

-- The columns hold the profile as it is.
pub record IsStorable (guid : ℕ) (profile : Profile) : Type 0 where
  pub guid_fits : guid < 2 ^ 64
  pub version_fits : profile.profile_version < 2 ^ 32
  pub crafting_fits : profile.crafting_affinity < 2 ^ 8
  pub gathering_fits : profile.gathering_affinity < 2 ^ 8
  pub exploration_fits : profile.exploration_affinity < 2 ^ 8
  pub sociability_fits : profile.sociability < 2 ^ 8
  pub voice_fits : length profile.voice ≤ 32
  pub name_fits : length profile.bot_name ≤ 48

-- The columns hold the decision as it is.
pub record IsStorableDecision (guid : ℕ) (decision : CareerDecision) : Type 0 where
  pub guid_fits : guid < 2 ^ 64
  pub version_fits : decision.career_version < 2 ^ 32
  pub token_fits : length decision.candidate_token ≤ 64
  pub style_fits : length decision.spending_style ≤ 32

read-assigned_profile :
    (guid : ℕ) (profile : Profile) (now : ℕ) (old : Option ProfileRow)
    → IsStorable guid profile
    → read_profile (some (assigned update_profile (profile_row guid profile now) old))
      ≡ some profile
read-assigned_profile guid profile now none f =
    rw (take-within 32 profile.voice f.voice_fits)
      (rw (take-within 48 profile.bot_name f.name_fits) refl)
read-assigned_profile guid profile now (some x) f =
    rw (take-within 32 profile.voice f.voice_fits)
      (rw (take-within 48 profile.bot_name f.name_fits) refl)

read-assigned_career :
    (guid : ℕ) (decision : CareerDecision) (now : ℕ) (old : Option CareerRow)
    → IsStorableDecision guid decision
    → read_career (some (assigned update_career (career_row guid decision now) old)) ≡ some decision
read-assigned_career guid decision now none f =
    rw (take-within 64 decision.candidate_token f.token_fits)
      (rw (take-within 32 decision.spending_style f.style_fits) refl)
read-assigned_career guid decision now (some x) f =
    rw (take-within 64 decision.candidate_token f.token_fits)
      (rw (take-within 32 decision.spending_style f.style_fits) refl)

profile-fits :
    (guid : ℕ) (profile : Profile) → IsStorable guid profile → profile_fits guid profile ≡ true
unfolding profile_fits
profile-fits guid profile f = rw (within-fits_varchar 32 profile.voice f.voice_fits) (
    rw (within-fits_varchar 48 profile.bot_name f.name_fits) (
      let a = f.guid_fits in
      let b = f.version_fits in
      let c = f.crafting_fits in
      let d = f.gathering_fits in
      let e = f.exploration_fits in let g = f.sociability_fits in ground arith))

decision-fits :
    (guid : ℕ) (decision : CareerDecision)
    → IsStorableDecision guid decision
    → career_fits guid decision ≡ true
unfolding career_fits
decision-fits guid decision f = rw (within-fits_varchar 64 decision.candidate_token f.token_fits) (
    rw (within-fits_varchar 32 decision.spending_style f.style_fits)
      (let a = f.guid_fits in let b = f.version_fits in ground arith))

-- A profile that the columns hold is recorded whole: it is read back, and no other bot's profile changes.
pub get_profile-record_profile :
    (guid : ℕ) (profile : Profile) (now : ℕ) (s : Tables)
    → IsStorable guid profile
    → let (result, s') = record_profile guid profile now s in
      (result ≡ ok tt)
      × ((get_profile guid s').0 ≡ ok (some profile))
      × ((other : ℕ) → other ≢ guid → (get_profile other s').0 ≡ (get_profile other s).0)
unfolding record_profile get_profile
get_profile-record_profile guid profile now s f =
    let row = profile_row guid profile now in
    rw (profile-fits guid profile f) (
      refl,
      ap ok (
          rw (find-upsert profile_guid update_profile (λ x row. refl) row s.profiles)
            (read-assigned_profile guid profile now (find profile_guid guid s.profiles) f)),
      λ other ne.
          rw (find-upsert_ne profile_guid update_profile (λ x row. refl) row other s.profiles ne)
            refl,
    )

-- A career decision that the columns hold (a guid of 64 bits, a version of 32, a token of at most 64
-- characters and a style of at most 32) is recorded, over what the bot had decided before: all of it is
-- read back, and no other bot's decision changes.
pub get_career_decision-record_career_decision :
    (guid : ℕ) (decision : CareerDecision) (now : ℕ) (s : Tables)
    → IsStorableDecision guid decision
    → let (result, s') = record_career_decision guid decision now s in
      (result ≡ ok tt)
      × ((get_career_decision guid s').0 ≡ ok (some decision))
      × ((other : ℕ)
          → other ≢ guid
          → (get_career_decision other s').0 ≡ (get_career_decision other s).0)
unfolding record_career_decision get_career_decision
get_career_decision-record_career_decision guid decision now s f =
    let row = career_row guid decision now in
    rw (decision-fits guid decision f) (
      refl,
      ap ok (
          rw (find-upsert career_guid update_career (λ x row. refl) row s.careers)
            (read-assigned_career guid decision now (find career_guid guid s.careers) f)),
      λ other ne.
          rw (find-upsert_ne career_guid update_career (λ x row. refl) row other s.careers ne) refl,
    )
