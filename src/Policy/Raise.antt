-- ===== src/Policy/Raise.antt =====
-- When agent/policy.py lets the difficulty be raised.
use bridgesat_agent.Common.{
  ◌*◌, ◌≤◌, ◌<◌, ◌≡◌, ◌↔◌, refl, true, false, Option, none, some, List, [], ◌∷◌, ◌++◌, arith, All,
  inl, inr, length, ◌≢◌, Bool-cases, leb, contains, contains-append, contains-distinct,
}
use bridgesat_agent.Learner.{should_promote_difficulty, should_support}
use bridgesat_agent.Memory.{BoundedAction, raise_difficulty, action_eq, action_beq}
use bridgesat_agent.Policy.Types.{PolicyInput, PolicyConstraints, truthy}
use bridgesat_agent.Policy.Safety.Recall.{IsReusable, reusable-cases, recalled_actions-IsReusable}
use bridgesat_agent.Policy.Branches.{
  time_budget_exhausted, reuse_recalled, recall_conflict, widen_unless, prerequisite_blocker,
  after_repeated_errors, misconception_observed, support_needed, mastery_promotion,
  continue_practice,
}
use bridgesat_agent.Policy.Rules.{
  recalled_actions, note_all, without_recall, repeated_errors, is_some, needs_support, is_promoted,
  ladder, by_recalled, derive_body, derive_policy_constraints,
}

-- The tests that lead to a promotion, as the ladder meets them.
ladder_raise_iff :
    (i : PolicyInput)
    → (contains (ladder i).allowed_actions raise_difficulty ≡ true) ↔ (
        (i.requires_unmastered_prerequisite ≡ false)
        × (repeated_errors i ≡ false)
        × (is_some i.active_misconception ≡ false)
        × (needs_support i ≡ false)
        × (is_promoted i ≡ true))
unfolding ladder prerequisite_blocker after_repeated_errors misconception_observed support_needed
    mastery_promotion continue_practice action_beq
ladder_raise_iff i = ground arith

-- Raising the difficulty is earned: no errors in a row, no misconception, no missing prerequisite, a
-- streak, and mastery, confidence and recent answers over the thresholds.
pub record IsEarned (i : PolicyInput) : Type 0 where
  pub prerequisite : i.requires_unmastered_prerequisite ≡ false
  pub few_errors : i.consecutive_errors < 2
  pub no_misconception : i.active_misconception ≡ none
  pub not_repeated : i.repeated_misconception ≡ false
  pub streak : 2 ≤ i.correct_streak
  pub mastered : 72 * i.mastery.den ≤ i.mastery.num * 100
  pub confident : 55 * i.confidence.den ≤ i.confidence.num * 100
  pub enough : 3 ≤ i.recent_total
  pub mostly_correct : 2 ≤ i.recent_correct_without_high_hint

IsEarned-of_tests :
    (i : PolicyInput)
    → i.requires_unmastered_prerequisite ≡ false
    → repeated_errors i ≡ false
    → is_some i.active_misconception ≡ false
    → needs_support i ≡ false
    → is_promoted i ≡ true
    → IsEarned i
unfolding repeated_errors is_some needs_support is_promoted should_promote_difficulty should_support
IsEarned-of_tests i a b c d e = ground arith

tests_of_earned :
    (i : PolicyInput)
    → IsEarned i
    → (repeated_errors i ≡ false)
      × (is_some i.active_misconception ≡ false)
      × (needs_support i ≡ false)
      × (is_promoted i ≡ true)
unfolding repeated_errors is_some needs_support is_promoted should_promote_difficulty should_support
    truthy
tests_of_earned i h = ground arith

ladder_raise :
    (i : PolicyInput) → (contains (ladder i).allowed_actions raise_difficulty ≡ true) ↔ IsEarned i
ladder_raise i = (
  λ h. let t = (ladder_raise_iff i).0 h in IsEarned-of_tests i t.0 t.1 t.2 t.3 t.4,
  λ h. let t = tests_of_earned i h in (ladder_raise_iff i).1 (h.prerequisite, t.0, t.1, t.2, t.3),
)

not_recalled :
    (recalled : List BoundedAction)
    → All IsReusable recalled
    → contains recalled raise_difficulty ≡ false
unfolding action_beq
not_recalled [] h = refl
not_recalled (a ∷ rest) h = elim (reusable-cases a h.0) [
  | inl e ↦ rw (← e) (not_recalled rest h.1)
  | inr e ↦ rw (← e) (not_recalled rest h.1)
]

widen_raise :
    (guard : Option BoundedAction) (base : PolicyConstraints) (recalled : List BoundedAction)
    → All IsReusable recalled
    → contains (widen_unless guard base recalled).allowed_actions raise_difficulty
      ≡ contains base.allowed_actions raise_difficulty
unfolding widen_unless
widen_raise (some g) base recalled h = refl
widen_raise none base recalled h = ground (
  arith,
  contains-distinct (base.allowed_actions ++ recalled) raise_difficulty,
  contains-append base.allowed_actions recalled raise_difficulty,
  not_recalled recalled h,
)

by_recalled_raise :
    (rec : PolicyInput → PolicyConstraints) (i : PolicyInput) (recalled : List BoundedAction)
    → All IsReusable recalled
    → (contains (rec (without_recall i)).allowed_actions raise_difficulty ≡ true) ↔ IsEarned i
    → (contains (by_recalled rec i recalled).allowed_actions raise_difficulty ≡ true)
      ↔ ((length recalled ≢ 1) × IsEarned i)
unfolding by_recalled reuse_recalled recall_conflict
by_recalled_raise rec i [] h base =
    (λ k. (omega arith, (ladder_raise i).0 k), λ k. (ladder_raise i).1 k.1)
by_recalled_raise rec i (a ∷ []) h base =
    (λ k. ground (arith, not_recalled (a ∷ []) h), λ k. absurd (k.0 refl))
by_recalled_raise rec i (a ∷ b ∷ rest) h base =
    let c : PolicyConstraints = rec (without_recall i) in
    (
      λ k. (omega arith, base.0 (rw (widen_raise c.hard_action c (a ∷ b ∷ rest) h) at k)),
      λ k. rw (widen_raise c.hard_action c (a ∷ b ∷ rest) h) (base.1 k.1),
    )

IsEarned-without_recall : (i : PolicyInput) → IsEarned (without_recall i) ↔ IsEarned i
IsEarned-without_recall i = (λ h. ground arith, λ h. ground arith)

base_raise :
    (i : PolicyInput)
    → leb i.minutes_remaining 2 ≡ false
    → (contains (derive_body ladder (without_recall i)).allowed_actions raise_difficulty ≡ true)
      ↔ IsEarned i
unfolding derive_body by_recalled recalled_actions note_all
base_raise i late = rw late (
  λ k. (IsEarned-without_recall i).0 ((ladder_raise (without_recall i)).0 k),
  λ k. (ladder_raise (without_recall i)).1 ((IsEarned-without_recall i).1 k),
)

-- Raising the difficulty is allowed exactly if more than 2 minutes remain, not exactly one teaching
-- strategy is recalled, and the raise is earned: no missing prerequisite, at most one error in a row, no
-- active or repeated misconception, two correct answers in a row, mastery of at least 0.72, confidence of
-- at least 0.55, and three recent answers of which two are correct without many hints.
pub raise_iff :
    (i : PolicyInput)
    → (contains (derive_policy_constraints i).allowed_actions raise_difficulty ≡ true)
      ↔ ((2 < i.minutes_remaining) × (length (recalled_actions i) ≢ 1) × IsEarned i)
unfolding derive_policy_constraints
raise_iff i = elim (Bool-cases (leb i.minutes_remaining 2)) [
  | inl late ↦
      unfold derive_body time_budget_exhausted action_beq in
      rw late (λ k. ground arith, λ k. ground arith)
  | inr early ↦
      unfold derive_body in
      rw early (
        let same : (contains
                (by_recalled (derive_body ladder) i (recalled_actions i)).allowed_actions
                raise_difficulty
              ≡ true)
            ↔ ((length (recalled_actions i) ≢ 1) × IsEarned i) =
          by_recalled_raise (derive_body ladder) i (recalled_actions i)
            (recalled_actions-IsReusable i) (base_raise i early) in
        (λ k. (ground arith, (same.0 k).0, (same.0 k).1), λ k. same.1 (k.1, k.2)))
]
