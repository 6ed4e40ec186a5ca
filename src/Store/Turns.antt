-- ===== src/Store/Turns.antt =====
-- What `append_turn` keeps of a conversation.
use mod_playerbot_llm.Prelude.{
  ℕ, zero, suc, ◌-◌, ◌<◌, ◌≡◌, ◌≢◌, refl, ap, Bool, true, not, ◌||◌, List, [], ◌∷◌, ◌++◌, map, All,
  All-append, keep_if, keep_if-append, length, drop, arith, ltb, if◌then◌else◌, Bool-cases, inl,
  inr,
}
use mod_playerbot_llm.Prelude.Text.{Text}
use mod_playerbot_llm.Store.{Turn, Tables, said_by, newer, is_newest, trim, said, turns_of}

-- Ids grow along the table and stay below the next one.
abbrev pub IsOrdered : List Turn → Type 0
IsOrdered [] = Unit
IsOrdered (t ∷ ts) = All (λ x. t.id < x.id) ts × IsOrdered ts

-- An older row in front of the table changes no rank behind it.
newer-cons :
    (guid : ℕ) (t : Turn) (id : ℕ) (ts : List Turn)
    → t.id < id
    → newer guid id (t ∷ ts) ≡ newer guid id ts
unfolding newer
newer-cons guid t id ts h = ground arith

newer_of_oldest :
    (guid id : ℕ) (ts : List Turn)
    → All (λ x. id < x.id) ts
    → newer guid id ts ≡ length (keep_if (said_by guid) ts)
unfolding newer
newer_of_oldest guid id [] h = refl
newer_of_oldest guid id (t ∷ ts) h = ground (arith, newer_of_oldest guid id ts h.1, h.0)

newer_self : (guid : ℕ) (t : Turn) (ts : List Turn) → newer guid t.id (t ∷ ts) ≡ newer guid t.id ts
unfolding newer
newer_self guid t ts = ground arith

keep_if_cong :
    (p q : Turn → Bool) (ts : List Turn) → All (λ t. p t ≡ q t) ts → keep_if p ts ≡ keep_if q ts
keep_if_cong p q [] h = refl
keep_if_cong p q (t ∷ ts) h = rw (h.0) (rw (keep_if_cong p q ts h.1) refl)

pub All-map :
    {P Q : Turn → Type 0} (f : (t : Turn) → P t → Q t) (ts : List Turn) → All P ts → All Q ts
All-map f [] h = tt
All-map f (t ∷ ts) h = (f t h.0, All-map f ts h.1)

abbrev stays : ℕ → ℕ → List Turn → Turn → Bool
stays guid limit all t = not (said_by guid t) || is_newest guid limit all t

trim-tail :
    (guid limit : ℕ) (t : Turn) (ts : List Turn)
    → All (λ x. t.id < x.id) ts
    → keep_if (stays guid limit (t ∷ ts)) ts ≡ keep_if (stays guid limit ts) ts
trim-tail guid limit t ts h = keep_if_cong (stays guid limit (t ∷ ts)) (stays guid limit ts) ts (
    All-map {P = λ x. t.id < x.id} {Q = λ x. stays guid limit (t ∷ ts) x ≡ stays guid limit ts x}
      (λ x lt. rw (newer-cons guid t x.id ts lt) refl) ts h)

-- The first row of an ordered table is kept exactly when fewer than `limit` of the bot's rows follow it.
trim-cons :
    (guid limit : ℕ) (t : Turn) (ts : List Turn)
    → All (λ x. t.id < x.id) ts
    → trim guid limit (t ∷ ts) ≡ (
        if not (said_by guid t) || ltb (length (keep_if (said_by guid) ts)) limit
        then t ∷ trim guid limit ts
        else trim guid limit ts)
unfolding trim
trim-cons guid limit t ts h =
    rw (trim-tail guid limit t ts h)
      (rw (newer_self guid t ts) (rw (newer_of_oldest guid t.id ts h) refl))

drop_none : (n : ℕ) → drop {A = Turn} n [] ≡ []
drop_none zero = refl
drop_none (suc n) = refl

drop-cons :
    (n limit : ℕ) (t : Turn) (xs : List Turn)
    → drop (suc n - limit) (t ∷ xs)
      ≡ (if ltb n limit then t ∷ drop (n - limit) xs else drop (n - limit) xs)
drop-cons n limit t xs = elim (Bool-cases (ltb n limit)) [
  | inl lt ↦
      let none_left : suc n - limit ≡ 0 = ground arith in
      let none_over : n - limit ≡ 0 = ground arith in rw lt (rw none_left (rw none_over refl))
  | inr ge ↦
      let one_over : suc n - limit ≡ suc (n - limit) = ground arith in rw ge (rw one_over refl)
]

-- The rows of the trimmed bot are its last `limit`.
trim_own :
    (guid limit : ℕ) (ts : List Turn)
    → IsOrdered ts
    → keep_if (said_by guid) (trim guid limit ts)
      ≡ (let own = keep_if (said_by guid) ts in drop (length own - limit) own)
unfolding trim
trim_own guid limit [] o = rw (drop_none (0 - limit)) refl
trim_own guid limit (t ∷ ts) o =
    rw (trim-cons guid limit t ts o.0) (elim (Bool-cases (said_by guid t)) [
      | inl own ↦ rw own (
          rw (drop-cons (length (keep_if (said_by guid) ts)) limit t (keep_if (said_by guid) ts))
            (elim (Bool-cases (ltb (length (keep_if (said_by guid) ts)) limit)) [
              | inl lt ↦ rw lt (rw own (ap (λ xs. t ∷ xs) (trim_own guid limit ts o.1)))
              | inr ge ↦ rw ge (trim_own guid limit ts o.1)
            ]))
      | inr ne ↦ rw ne (rw ne (trim_own guid limit ts o.1))
    ])

keep_if-keep_if :
    (p q : Turn → Bool) (ts : List Turn)
    → ((t : Turn) → q t ≡ true → p t ≡ true)
    → keep_if q (keep_if p ts) ≡ keep_if q ts
keep_if-keep_if p q [] h = refl
keep_if-keep_if p q (t ∷ ts) h = ground (arith, h t, keep_if-keep_if p q ts h)

-- The rows of every other bot stay.
trim_other :
    (guid other limit : ℕ) (ts : List Turn)
    → other ≢ guid
    → keep_if (said_by other) (trim guid limit ts) ≡ keep_if (said_by other) ts
unfolding trim
trim_other guid other limit ts ne =
    keep_if-keep_if (stays guid limit ts) (said_by other) ts (λ t h. ground arith)

map-drop : (n : ℕ) (ts : List Turn) → map said (drop n ts) ≡ drop n (map said ts)
map-drop zero ts = refl
map-drop (suc n) [] = refl
map-drop (suc n) (t ∷ ts) = map-drop n ts

map-append : (xs ys : List Turn) → map said (xs ++ ys) ≡ map said xs ++ map said ys
map-append [] ys = refl
map-append (x ∷ xs) ys = ap (λ zs. said x ∷ zs) (map-append xs ys)

length-said : (ts : List Turn) → length (map said ts) ≡ length ts
length-said [] = refl
length-said (t ∷ ts) = ap suc (length-said ts)

-- The last `limit` entries.
abbrev pub last : ℕ → List (Text × Text) → List (Text × Text)
last limit xs = drop (length xs - limit) xs

pub turns_of-trim :
    (guid limit : ℕ) (ts : List Turn)
    → IsOrdered ts
    → turns_of guid (trim guid limit ts) ≡ last limit (turns_of guid ts)
unfolding turns_of
turns_of-trim guid limit ts o = rw (trim_own guid limit ts o) (
    rw (map-drop (length (keep_if (said_by guid) ts) - limit) (keep_if (said_by guid) ts))
      (rw (length-said (keep_if (said_by guid) ts)) refl))

pub turns_of-trim_other :
    (guid other limit : ℕ) (ts : List Turn)
    → other ≢ guid
    → turns_of other (trim guid limit ts) ≡ turns_of other ts
unfolding turns_of
turns_of-trim_other guid other limit ts ne = ap (map said) (trim_other guid other limit ts ne)

append_none : (xs : List (Text × Text)) → xs ++ [] ≡ xs
append_none [] = refl
append_none (x ∷ xs) = ap (λ ys. x ∷ ys) (append_none xs)

pub turns_of-append :
    (guid : ℕ) (ts : List Turn) (t : Turn)
    → turns_of guid (ts ++ t ∷ [])
      ≡ (if said_by guid t then turns_of guid ts ++ said t ∷ [] else turns_of guid ts)
unfolding turns_of
turns_of-append guid ts t = rw (keep_if-append (said_by guid) ts (t ∷ [])) (
    rw map-append (elim (Bool-cases (said_by guid t)) [
      | inl own ↦ rw own refl
      | inr ne ↦ rw ne (append_none (map said (keep_if (said_by guid) ts)))
    ]))

-- The table of the turns as every operation leaves it: ids in order, all below the next one.
pub record IsNumbered (s : Tables) : Type 0 where
  pub ordered : IsOrdered s.turns
  pub minted : All (λ t. t.id < s.next_turn_id) s.turns

pub IsOrdered-append :
    (ts : List Turn) (t : Turn)
    → IsOrdered ts
    → All (λ x. x.id < t.id) ts
    → IsOrdered (ts ++ t ∷ [])
IsOrdered-append [] t o h = (tt, tt)
IsOrdered-append (x ∷ xs) t o h =
    (All-append (λ y. x.id < y.id) xs (t ∷ []) o.0 (h.0, tt), IsOrdered-append xs t o.1 h.1)

pub All-keep_if :
    (P : Turn → Type 0) (p : Turn → Bool) (ts : List Turn) → All P ts → All P (keep_if p ts)
All-keep_if P p [] h = tt
All-keep_if P p (t ∷ ts) h = elim (Bool-cases (p t)) [
  | inl passes ↦ rw passes (h.0, All-keep_if P p ts h.1)
  | inr fails ↦ rw fails (All-keep_if P p ts h.1)
]

pub IsOrdered-keep_if : (p : Turn → Bool) (ts : List Turn) → IsOrdered ts → IsOrdered (keep_if p ts)
IsOrdered-keep_if p [] o = tt
IsOrdered-keep_if p (t ∷ ts) o = elim (Bool-cases (p t)) [
  | inl passes ↦ rw passes (All-keep_if (λ x. t.id < x.id) p ts o.0, IsOrdered-keep_if p ts o.1)
  | inr fails ↦ rw fails (IsOrdered-keep_if p ts o.1)
]
