-- ===== src/Store/Purging.antt =====
-- The purge loop as a whole.
use mod_playerbot_llm.Prelude.{
  ℕ, zero, suc, ◌+◌, ◌≤◌, ◌<◌, ◌≡◌, ◌≢◌, refl, ◌∙◌, false, none, some, List, [], ◌∷◌, length, arith,
  ◌==◌, Bool-cases, inl, inr, Option-cases, ==_iff,
}
use mod_playerbot_llm.Store.{
  Tables, PurgeIntent, purge_bot, purge_loop, lock_purge, purge_pending_bot_data, next_purge,
}
use mod_playerbot_llm.Store.Purge.{
  is_pending, pending, next_pending, all_acknowledged, acknowledge_less,
  is_pending-acknowledge_self, is_pending-acknowledge_ne, IsGone, IsSame, purge_bot-IsGone,
  purge_bot-IsSame, IsPurged,
}

pending_none : (guid : ℕ) (ps : List PurgeIntent) → pending ps ≡ 0 → is_pending guid ps ≡ false
unfolding pending is_pending
pending_none guid [] e = refl
pending_none guid (p ∷ ps) e = ground (arith, pending_none guid ps)

pending-le : (ps : List PurgeIntent) → pending ps ≤ length ps
unfolding pending
pending-le [] = omega arith
pending-le (p ∷ ps) = ground (arith, pending-le ps)

IsPurged-none : (s : Tables) → next_purge s.purges ≡ none → IsPurged s (lock_purge s)
IsPurged-none s e = record {
  acknowledged = all_acknowledged s.purges e;
  gone = λ guid h. absurd (cc (pending_none guid s.purges (all_acknowledged s.purges e)));
  same = λ guid h. (refl, refl, refl);
}

IsSame-trans : (guid : ℕ) (a b c : Tables) → IsSame guid a b → IsSame guid b c → IsSame guid a c
IsSame-trans guid a b c (p, q, r) (p', q', r') = (p' ∙ p, q' ∙ q, r' ∙ r)

IsGone-same : (guid : ℕ) (a b : Tables) → IsGone guid a → IsSame guid a b → IsGone guid b
IsGone-same guid a b (p, q, r) (p', q', r') = (p' ∙ p, q' ∙ q, r' ∙ r)

module _ (first : ℕ) (s after : Tables) (e : next_purge s.purges ≡ some first) where
  abbrev purged_one : Tables
  purged_one = purge_bot first (lock_purge s)

  pending_before :
      (guid : ℕ) → guid ≢ first → is_pending guid purged_one.purges ≡ is_pending guid s.purges
  unfolding purge_bot
  pending_before guid ne = is_pending-acknowledge_ne first guid s.purges ne

  pending_first : is_pending first purged_one.purges ≡ false
  unfolding purge_bot
  pending_first = is_pending-acknowledge_self first s.purges

  pending_fewer : pending purged_one.purges < pending s.purges
  unfolding purge_bot
  pending_fewer = acknowledge_less first s.purges (next_pending first s.purges e)

  IsPurged-some : IsPurged purged_one after → IsPurged s after
  IsPurged-some p = record {
    acknowledged = p.acknowledged;
    gone = λ guid h. elim (Bool-cases (guid == first)) [
      | inl same ↦ rw ((==_iff guid first).0 same) (
          IsGone-same first purged_one after (purge_bot-IsGone first (lock_purge s))
            (p.same first pending_first))
      | inr apart ↦ p.gone guid (pending_before guid (λ q. ground arith) ∙ h)
    ];
    same = λ guid h.
        let ne : guid ≢ first = λ q. cc (next_pending first s.purges e) in
        IsSame-trans guid s purged_one after (purge_bot-IsSame first guid (lock_purge s) ne)
          (p.same guid (pending_before guid ne ∙ h));
  }

purge_loop_lem :
    (fuel purged : ℕ) (s : Tables)
    → pending s.purges < fuel
    → (n : ℕ) × ((purge_loop fuel purged s).0 ≡ some n)
      × (n ≤ purged + pending s.purges)
      × IsPurged s (purge_loop fuel purged s).1
unfolding purge_loop
purge_loop_lem zero purged s h = absurd (omega arith)
purge_loop_lem (suc fuel) purged s h = elim (Option-cases (next_purge s.purges)) [
  | inl e ↦ rw e (purged, refl, omega arith, IsPurged-none s e)
  | inr (first, e) ↦
      let fewer = pending_fewer first s (lock_purge s) e in
      let (n, result, le, p) =
        purge_loop_lem fuel (suc purged) (purge_bot first (lock_purge s)) (omega arith) in
      rw e (n, result, omega arith, IsPurged-some first s _ e p)
]

-- The purge loop ends, with a count of at most the intents that waited. Afterwards no intent waits, nothing
-- is left of a bot whose intent waited, and the profile, the career and the conversation of every other bot
-- are as they were.
pub purge_pending_bot_data-ends :
    (s : Tables)
    → (n : ℕ) × ((purge_pending_bot_data s).0 ≡ some n)
      × (n ≤ pending s.purges)
      × IsPurged s (purge_pending_bot_data s).1
unfolding purge_pending_bot_data
purge_pending_bot_data-ends s =
    let few = pending-le s.purges in
    let (n, result, le, p) = purge_loop_lem (suc (length s.purges)) 0 s (omega arith) in
    (n, result, omega arith, p)
