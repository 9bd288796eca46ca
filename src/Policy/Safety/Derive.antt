-- ===== src/Policy/Safety/Derive.antt =====
-- `derive_policy_constraints` and `decide_next_action` keep the promise (agent/policy.py).
use bridgesat_agent.Common.{
  arith, All, leb, ◌≡◌, refl, Bool, true, false, Option, none, some, List, [], ◌∷◌, if◌then◌else◌,
  contains, lookup,
}
use bridgesat_agent.Session.{SessionState, answer_evaluated, can_transition}
use bridgesat_agent.Memory.{BoundedAction, action_eq, value}
use bridgesat_agent.Memory.Actions.{parse_action-value}
use bridgesat_agent.Policy.Types.{
  PolicyInput, PolicyConstraints, PolicyResult, preferred_fallback_as_result,
}
use bridgesat_agent.Policy.Rules.{
  recalled_actions, without_recall, repeated_errors, ladder, is_some, needs_support, is_promoted,
  by_recalled, derive_body, derive_policy_constraints, decide_next_action,
}
use bridgesat_agent.Policy.Safety.{leads_on, IsSafe}
use bridgesat_agent.Policy.Safety.Branches.{
  time_budget_exhausted-IsSafe, prerequisite_blocker-IsSafe, after_repeated_errors-IsSafe,
  misconception_observed-IsSafe, support_needed-IsSafe, mastery_promotion-IsSafe,
  continue_practice-IsSafe,
}
use bridgesat_agent.Policy.Safety.Recall.{
  IsReusable, recalled_actions-IsReusable, reuse_recalled-IsSafe, recall_conflict-IsSafe,
}

if-IsSafe : (b : Bool) {c d : PolicyConstraints} → IsSafe c → IsSafe d → IsSafe (if b then c else d)
if-IsSafe true h k = h
if-IsSafe false h k = k

ladder-IsSafe : (i : PolicyInput) → IsSafe (ladder i)
unfolding ladder
ladder-IsSafe i = if-IsSafe i.requires_unmastered_prerequisite (prerequisite_blocker-IsSafe i) (
    if-IsSafe (repeated_errors i) (after_repeated_errors-IsSafe i) (
      if-IsSafe (is_some i.active_misconception) (misconception_observed-IsSafe i) (
        if-IsSafe (needs_support i) (support_needed-IsSafe i)
          (if-IsSafe (is_promoted i) (mastery_promotion-IsSafe i) (continue_practice-IsSafe i)))))

by_recalled-IsSafe :
    (rec : PolicyInput → PolicyConstraints) (i : PolicyInput) (recalled : List BoundedAction)
    → All IsReusable recalled
    → IsSafe (rec (without_recall i))
    → IsSafe (by_recalled rec i recalled)
unfolding by_recalled
by_recalled-IsSafe rec i [] h safe = ladder-IsSafe i
by_recalled-IsSafe rec i (a ∷ []) h safe = reuse_recalled-IsSafe i a h.0
by_recalled-IsSafe rec i (a ∷ b ∷ rest) h safe =
    recall_conflict-IsSafe (rec (without_recall i)) (a ∷ b ∷ rest) h safe

derive_body-IsSafe :
    (rec : PolicyInput → PolicyConstraints) (i : PolicyInput)
    → IsSafe (rec (without_recall i))
    → IsSafe (derive_body rec i)
unfolding derive_body
derive_body-IsSafe rec i safe =
    if-IsSafe (leb i.minutes_remaining 2) (time_budget_exhausted-IsSafe i)
      (by_recalled-IsSafe rec i (recalled_actions i) (recalled_actions-IsReusable i) safe)

-- For every input: each allowed action has a next state that is a legal transition from an evaluated
-- answer, the deterministic fallback is one of the allowed actions, and a hard action is the only
-- allowed one.
pub derive-IsSafe : (i : PolicyInput) → IsSafe (derive_policy_constraints i)
unfolding derive_policy_constraints
derive-IsSafe i = derive_body-IsSafe (derive_body ladder) i (
    derive_body-IsSafe ladder (without_recall i)
      (ladder-IsSafe (without_recall (without_recall i))))

result_of_safe :
    (c : PolicyConstraints) (safe : IsSafe c) (o : Option SessionState)
    → lookup safe.fallback c.next_states ≡ o
    → leads_on o ≡ true
    → (r : PolicyResult) × (preferred_fallback_as_result c ≡ some r)
      × (can_transition answer_evaluated r.next_state ≡ true)
      × ((a : BoundedAction) × (r.decision.action ≡ value a)
          × (contains c.allowed_actions a ≡ true))
unfolding preferred_fallback_as_result
result_of_safe c safe none e h = cc
result_of_safe c safe (some s) e h = (
  record { decision = c.preferred_fallback; next_state = s },
  ground (arith, parse_action-value safe.fallback, safe.fallback_value),
  h,
  (safe.fallback, safe.fallback_value, safe.fallback_allowed),
)

-- The policy never fails: it always returns a decision, whose action is one of the allowed actions
-- and whose next state is a legal transition from an evaluated answer.
pub decide_next_action_total :
    (i : PolicyInput)
    → (r : PolicyResult) × (decide_next_action i ≡ some r)
      × (can_transition answer_evaluated r.next_state ≡ true)
      × ((a : BoundedAction) × (r.decision.action ≡ value a)
          × (contains (derive_policy_constraints i).allowed_actions a ≡ true))
unfolding decide_next_action
decide_next_action_total i =
    let safe : IsSafe (derive_policy_constraints i) = derive-IsSafe i in
    result_of_safe (derive_policy_constraints i) safe
      (lookup safe.fallback (derive_policy_constraints i).next_states) refl
      (safe.legal safe.fallback safe.fallback_allowed)
