-- ===== src/Policy/Recursion.antt =====
-- The recursive call of `derive_policy_constraints` (agent/policy.py), and what it is for.
use bridgesat_agent.Common.{
  ◌≡◌, refl, ap, true, false, Option, none, some, List, [], ◌∷◌, ◌++◌, ◌≢◌, ◌||◌, ◌&&◌, not, sym,
  Bool, Bool-cases, inl, inr, arith, length, leb, if◌then◌else◌, contains, contains-append,
  contains-distinct,
}
use bridgesat_agent.Memory.{BoundedAction, action_eq}
use bridgesat_agent.Policy.Types.{PolicyInput, PolicyConstraints}
use bridgesat_agent.Policy.Branches.{
  prerequisite_blocker, after_repeated_errors, misconception_observed, support_needed,
  mastery_promotion, continue_practice, time_budget_exhausted, recall_conflict, widen_unless,
}
use bridgesat_agent.Policy.Rules.{
  repeated_errors, needs_support, is_promoted, recalled_actions, note_all, without_recall, ladder,
  by_recalled, derive_body, derive_policy_constraints,
}

abbrev pub is_hard : Option BoundedAction → Bool
is_hard none = false
is_hard (some a) = true

-- A call that recalls nothing makes no recursive call.
derive_body-without_recall :
    (f g : PolicyInput → PolicyConstraints) (i : PolicyInput)
    → derive_body f (without_recall i) ≡ derive_body g (without_recall i)
unfolding derive_body by_recalled recalled_actions note_all
derive_body-without_recall f g i = refl

by_recalled_cong :
    (f g : PolicyInput → PolicyConstraints) (i : PolicyInput) (recalled : List BoundedAction)
    → f (without_recall i) ≡ g (without_recall i)
    → by_recalled f i recalled ≡ by_recalled g i recalled
unfolding by_recalled
by_recalled_cong f g i [] h = refl
by_recalled_cong f g i (a ∷ []) h = refl
by_recalled_cong f g i (a ∷ b ∷ rest) h = ap (λ c. recall_conflict c (a ∷ b ∷ rest)) h

-- The policy satisfies the recursive equation that the source is: one round of its body, whose
-- recursive call is the policy itself.
derive_unfold :
    (i : PolicyInput) → derive_policy_constraints i ≡ derive_body derive_policy_constraints i
unfolding derive_policy_constraints derive_body
derive_unfold i =
    ap (λ c. if leb i.minutes_remaining 2 then time_budget_exhausted i else c)
      (by_recalled_cong (derive_body ladder) derive_policy_constraints i (recalled_actions i)
        (derive_body-without_recall ladder (derive_body ladder) i))

-- What recalled strategies may change: nothing but the allowed actions, which the strategies join unless
-- a hard action holds.
abbrev pub IsWidened : PolicyConstraints → List BoundedAction → PolicyConstraints → Type 0
IsWidened base recalled c =
    (c.hard_action ≡ base.hard_action)
    × (c.preferred_fallback ≡ base.preferred_fallback)
    × ((a : BoundedAction)
        → contains c.allowed_actions a ≡ (
            contains base.allowed_actions a
            || (not (is_hard base.hard_action) && contains recalled a)))

no_recall : (c : PolicyConstraints) → IsWidened c [] c
no_recall c = (refl, refl, λ a. ground arith)

conflict-IsWidened :
    (c : PolicyConstraints) (recalled : List BoundedAction)
    → IsWidened c recalled (recall_conflict c recalled)
unfolding recall_conflict widen_unless
conflict-IsWidened c recalled = widened c.hard_action refl
  where
    widened :
        (guard : Option BoundedAction)
        → c.hard_action ≡ guard
        → IsWidened c recalled (widen_unless guard c recalled)
    widened (some g) e = (refl, refl, λ a. rw e (ground arith))
    widened none e = (
      sym e,
      refl,
      λ a. rw e (
          ground (
            arith,
            contains-distinct (c.allowed_actions ++ recalled) a,
            contains-append c.allowed_actions recalled a,
          )),
    )

-- No branch of the ladder reads what is recalled.
ladder-without_recall : (i : PolicyInput) → ladder (without_recall i) ≡ ladder i
unfolding ladder prerequisite_blocker after_repeated_errors misconception_observed support_needed
    mastery_promotion continue_practice repeated_errors needs_support is_promoted
ladder-without_recall i = refl

without-ladder :
    (i : PolicyInput)
    → leb i.minutes_remaining 2 ≡ false
    → derive_policy_constraints (without_recall i) ≡ ladder i
unfolding derive_policy_constraints derive_body by_recalled recalled_actions note_all
without-ladder i early = rw early (ladder-without_recall i)

by_recalled-IsWidened :
    (i : PolicyInput) (recalled : List BoundedAction)
    → leb i.minutes_remaining 2 ≡ false
    → length recalled ≢ 1
    → IsWidened
        (derive_policy_constraints (without_recall i))
        recalled
        (by_recalled derive_policy_constraints i recalled)
unfolding by_recalled
by_recalled-IsWidened i [] early several = rw (without-ladder i early) (no_recall (ladder i))
by_recalled-IsWidened i (a ∷ []) early several = absurd (several refl)
by_recalled-IsWidened i (a ∷ b ∷ rest) early several =
    conflict-IsWidened (derive_policy_constraints (without_recall i)) (a ∷ b ∷ rest)

late-IsWidened :
    (i : PolicyInput) (recalled : List BoundedAction)
    → leb i.minutes_remaining 2 ≡ true
    → IsWidened
        (derive_policy_constraints (without_recall i))
        recalled
        (derive_body derive_policy_constraints i)
unfolding derive_policy_constraints derive_body time_budget_exhausted
late-IsWidened i recalled late = rw late (refl, refl, λ a. ground arith)

-- Recalled strategies, unless there is exactly one, do not change what the deterministic policy does,
-- late or early and in every branch: the hard action and the fallback are those of the same situation
-- with nothing recalled, and the allowed actions are those of that situation, joined by the recalled
-- strategies exactly if no hard action holds.
pub recall_only_widens :
    (i : PolicyInput)
    → length (recalled_actions i) ≢ 1
    → IsWidened
        (derive_policy_constraints (without_recall i))
        (recalled_actions i)
        (derive_policy_constraints i)
recall_only_widens i several = rw (derive_unfold i) (elim (Bool-cases (leb i.minutes_remaining 2)) [
  | inl late ↦ late-IsWidened i (recalled_actions i) late
  | inr early ↦
      unfold derive_body in rw early (by_recalled-IsWidened i (recalled_actions i) early several)
])
