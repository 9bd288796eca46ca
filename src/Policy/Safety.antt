-- ===== src/Policy/Safety.antt =====
-- What `PolicyConstraints` promises (agent/policy.py). The proofs are in the modules below.
pub mod Branches
pub mod Recall
pub mod Derive
use mathlib.Core.Path.{subst}
use bridgesat_agent.Common.{
  All, All-append, String, not, ◌&&◌, leb, ℕ, ◌≤◌, ◌≡◌, ◌⊎◌, inl, inr, refl, Bool, true, false,
  Option, none, some, List, [], ◌∷◌, ◌++◌, arith, if◌then◌else◌, contains, lookup, insert,
  lookup-insert, distinct, contains-append, contains-distinct, Bool-cases, Option-cases, ◌==◌,
}
use bridgesat_agent.Session.{SessionState, answer_evaluated, can_transition, session_summary}
use bridgesat_agent.Memory.{
  BoundedAction, show_worked_example, show_micro_lesson, retry_same_skill, lower_difficulty,
  raise_difficulty, switch_to_prerequisite, end_with_review, action_eq, action_beq, action_beq_iff,
  value, parse_action,
}
use bridgesat_agent.Memory.Actions.{parse_action-value}
use bridgesat_agent.Policy.Types.{
  PolicyInput, PolicyConstraints, PolicyResult, preferred_fallback_as_result, next_state_by_action,
  truthy,
}
use bridgesat_agent.Policy.Branches.{
  time_budget_exhausted, reuse_recalled, recall_conflict, widen_unless, prerequisite_blocker,
  after_repeated_errors, misconception_observed, support_needed, mastery_promotion,
  continue_practice, add_next_states, get_or_default,
}
use bridgesat_agent.Policy.Rules.{
  recalled_actions, note_all, note_recalled, reusable_memory_actions, without_recall,
  repeated_errors, ladder, is_some, needs_support, is_promoted, by_recalled, derive_body,
  derive_policy_constraints, decide_next_action,
}

-- The next state that is stored for an action can be entered after an evaluated answer.
abbrev pub leads_on : Option SessionState → Bool
leads_on none = false
leads_on (some s) = can_transition answer_evaluated s

-- The promise of `PolicyConstraints`: every allowed action has a legal next state, the fallback is
-- an allowed action, and a hard action is the only one allowed.
pub record IsSafe (c : PolicyConstraints) : Type 0 where
  pub fallback : BoundedAction
  pub fallback_value : c.preferred_fallback.action ≡ value fallback
  pub fallback_allowed : contains c.allowed_actions fallback ≡ true
  pub legal :
      (a : BoundedAction)
      → contains c.allowed_actions a ≡ true
      → leads_on (lookup a c.next_states) ≡ true
  pub hard : (a : BoundedAction) → c.hard_action ≡ some a → c.allowed_actions ≡ a ∷ []
