-- ===== src/Policy/Difficulty.antt =====
-- The difficulty that agent/policy.py asks for next, and the level of a hint.
use Prim.Native.Nat.{min, max}
use bridgesat_agent.Common.{
  ◌==◌, nat_eq, ℕ, ◌+◌, ◌-◌, ◌≤◌, ◌≡◌, refl, Bool, true, false, Option, none, some, List, [], ◌∷◌,
  arith, inl, inr, Bool-cases, leb, if◌then◌else◌,
}
use bridgesat_agent.Memory.{
  BoundedAction, action_eq, give_hint_1, give_hint_2, give_hint_3, parse_action, value,
}
use bridgesat_agent.Policy.Types.{PolicyInput, PolicyConstraints, hint_level}
use bridgesat_agent.Policy.Branches.{
  time_budget_exhausted, reuse_recalled, recall_conflict, widen_unless, prerequisite_blocker,
  after_repeated_errors, misconception_observed, support_needed, mastery_promotion,
  continue_practice, hint_decision,
}
use bridgesat_agent.Policy.Rules.{
  recalled_actions, without_recall, repeated_errors, is_some, needs_support, is_promoted, ladder,
  by_recalled, derive_body, derive_policy_constraints,
}

-- The next difficulty is at most one step up, and within 1 and 3 at most one step away.
abbrev InStep : ℕ → ℕ → Type 0
InStep from to = (to ≤ from + 1) × (1 ≤ from → from ≤ 3 → (from ≤ to + 1) × (1 ≤ to) × (to ≤ 3))

abbrev Steps : ℕ → PolicyConstraints → Type 0
Steps from c = (d : ℕ) × (c.preferred_fallback.difficulty ≡ some d) × InStep from d

if-Steps :
    (b : Bool) {from : ℕ} (c d : PolicyConstraints)
    → Steps from c
    → Steps from d
    → Steps from (if b then c else d)
if-Steps true c d h k = h
if-Steps false c d h k = k

ladder-Steps : (i : PolicyInput) → Steps i.difficulty (ladder i)
unfolding ladder prerequisite_blocker after_repeated_errors misconception_observed support_needed
    mastery_promotion continue_practice
ladder-Steps i =
    if-Steps i.requires_unmastered_prerequisite _ _ (i.difficulty, refl, omega arith)
      (if-Steps (repeated_errors i) _ _ (i.difficulty, ground arith, omega arith)
        (if-Steps (is_some i.active_misconception) _ _ (i.difficulty, refl, omega arith)
          (if-Steps (needs_support i) _ _
            (
              (if i.repeated_misconception then i.difficulty else max 1 (i.difficulty - 1)),
              ground arith,
              ground arith,
            )
            (if-Steps (is_promoted i) _ _ (min 3 (i.difficulty + 1), refl, ground arith)
              (i.difficulty, refl, omega arith)))))

widen-Steps :
    (guard : Option BoundedAction) (from : ℕ) (base : PolicyConstraints)
    (recalled : List BoundedAction)
    → Steps from base
    → Steps from (widen_unless guard base recalled)
unfolding widen_unless
widen-Steps (some g) from base recalled h = h
widen-Steps none from base recalled h = h

body-Steps :
    (rec : PolicyInput → PolicyConstraints) (i : PolicyInput) (recalled : List BoundedAction)
    → Steps i.difficulty (rec (without_recall i))
    → Steps i.difficulty (by_recalled rec i recalled)
unfolding by_recalled reuse_recalled recall_conflict
body-Steps rec i [] h = ladder-Steps i
body-Steps rec i (a ∷ []) h = (i.difficulty, refl, omega arith)
body-Steps rec i (a ∷ b ∷ rest) h =
    let c : PolicyConstraints = rec (without_recall i) in
    widen-Steps c.hard_action i.difficulty c (a ∷ b ∷ rest) h

time-Steps : (i : PolicyInput) → Steps i.difficulty (time_budget_exhausted i)
unfolding time_budget_exhausted
time-Steps i = (i.difficulty, refl, omega arith)

-- The fallback asks for a difficulty at most one above the input's; if the input's is between 1 and
-- 3, so is the fallback's, and it is at most one step away.
fallback_difficulty :
    (i : PolicyInput)
    → (d : ℕ) × ((derive_policy_constraints i).preferred_fallback.difficulty ≡ some d)
      × ((d ≤ i.difficulty + 1)
          × (1 ≤ i.difficulty → i.difficulty ≤ 3 → (i.difficulty ≤ d + 1) × (1 ≤ d) × (d ≤ 3)))
unfolding derive_policy_constraints derive_body
fallback_difficulty i = if-Steps (leb i.minutes_remaining 2) _ _ (time-Steps i) (
    body-Steps (derive_body ladder) i (recalled_actions i) (
      if-Steps (leb i.minutes_remaining 2) _ _ (time-Steps (without_recall i)) (
        body-Steps ladder (without_recall i) (recalled_actions (without_recall i))
          (ladder-Steps (without_recall (without_recall i))))))

parse-hint :
    (level : ℕ)
    → parse_action
        (if level == 1 then "GIVE_HINT_1" else if level == 2 then "GIVE_HINT_2" else "GIVE_HINT_3")
      ≡ some (if level == 1 then give_hint_1 else if level == 2 then give_hint_2 else give_hint_3)
unfolding parse_action value
parse-hint level = elim (Bool-cases (level == 1)) [
  | inl one ↦ rw one
  | inr more ↦ elim (Bool-cases (level == 2)) [
    | inl two ↦ rw (more, two)
    | inr three ↦ rw (more, three)
  ]
]

-- A hint is one of the three hint actions, its level is 1, 2 or 3, and it rises with the hints used
-- until it is 3.
hint_level_bounds :
    (used : ℕ)
    → (level : ℕ) × ((hint_decision used).action_payload ≡ hint_level level)
      × (parse_action (hint_decision used).action
          ≡ some
              (if level == 1 then give_hint_1 else if level == 2 then give_hint_2 else give_hint_3))
      × (1 ≤ level)
      × (level ≤ 3)
      × (level ≤ used + 1)
unfolding hint_decision
hint_level_bounds used =
    (min 3 (used + 1), refl, parse-hint (min 3 (used + 1)), omega arith, omega arith, omega arith)
