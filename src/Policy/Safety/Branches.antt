-- ===== src/Policy/Safety/Branches.antt =====
-- Each branch that recalls nothing keeps the promise (agent/policy.py).
use bridgesat_agent.Common.{◌≡◌, refl, true, arith, if◌then◌else◌, contains, lookup}
use bridgesat_agent.Session.{can_transition}
use bridgesat_agent.Memory.{
  BoundedAction, show_worked_example, show_micro_lesson, retry_same_skill, lower_difficulty,
  raise_difficulty, switch_to_prerequisite, end_with_review, action_eq, action_beq,
}
use bridgesat_agent.Policy.Types.{PolicyInput, truthy}
use bridgesat_agent.Policy.Branches.{
  time_budget_exhausted, prerequisite_blocker, after_repeated_errors, misconception_observed,
  support_needed, mastery_promotion, continue_practice,
}
use bridgesat_agent.Policy.Safety.{leads_on, IsSafe}

time_budget_exhausted-legal :
    (i : PolicyInput) (a : BoundedAction)
    → contains (time_budget_exhausted i).allowed_actions a ≡ true
    → leads_on (lookup a (time_budget_exhausted i).next_states) ≡ true
unfolding time_budget_exhausted can_transition
time_budget_exhausted-legal i a h = ground arith

pub time_budget_exhausted-IsSafe : (i : PolicyInput) → IsSafe (time_budget_exhausted i)
unfolding time_budget_exhausted can_transition action_beq
time_budget_exhausted-IsSafe i = record {
  fallback = end_with_review;
  fallback_value = refl;
  fallback_allowed = refl;
  legal = time_budget_exhausted-legal i;
  hard = λ a h. cc;
}

prerequisite_blocker-legal :
    (i : PolicyInput) (a : BoundedAction)
    → contains (prerequisite_blocker i).allowed_actions a ≡ true
    → leads_on (lookup a (prerequisite_blocker i).next_states) ≡ true
unfolding prerequisite_blocker can_transition
prerequisite_blocker-legal i a h = ground arith

pub prerequisite_blocker-IsSafe : (i : PolicyInput) → IsSafe (prerequisite_blocker i)
unfolding prerequisite_blocker can_transition action_beq
prerequisite_blocker-IsSafe i = record {
  fallback = switch_to_prerequisite;
  fallback_value = refl;
  fallback_allowed = refl;
  legal = prerequisite_blocker-legal i;
  hard = λ a h. cc;
}

after_repeated_errors-legal :
    (i : PolicyInput) (a : BoundedAction)
    → contains (after_repeated_errors i).allowed_actions a ≡ true
    → leads_on (lookup a (after_repeated_errors i).next_states) ≡ true
unfolding after_repeated_errors can_transition
after_repeated_errors-legal i a h = ground arith

pub after_repeated_errors-IsSafe : (i : PolicyInput) → IsSafe (after_repeated_errors i)
unfolding after_repeated_errors can_transition action_beq
after_repeated_errors-IsSafe i = record {
  fallback = if truthy i.active_misconception then show_worked_example else show_micro_lesson;
  fallback_value = ground arith;
  fallback_allowed = ground arith;
  legal = after_repeated_errors-legal i;
  hard = λ a h. cc;
}

misconception_observed-legal :
    (i : PolicyInput) (a : BoundedAction)
    → contains (misconception_observed i).allowed_actions a ≡ true
    → leads_on (lookup a (misconception_observed i).next_states) ≡ true
unfolding misconception_observed can_transition
misconception_observed-legal i a h = ground arith

pub misconception_observed-IsSafe : (i : PolicyInput) → IsSafe (misconception_observed i)
unfolding misconception_observed can_transition action_beq
misconception_observed-IsSafe i = record {
  fallback = retry_same_skill;
  fallback_value = refl;
  fallback_allowed = refl;
  legal = misconception_observed-legal i;
  hard = λ a h. cc;
}

support_needed-legal :
    (i : PolicyInput) (a : BoundedAction)
    → contains (support_needed i).allowed_actions a ≡ true
    → leads_on (lookup a (support_needed i).next_states) ≡ true
unfolding support_needed can_transition
support_needed-legal i a h = ground arith

pub support_needed-IsSafe : (i : PolicyInput) → IsSafe (support_needed i)
unfolding support_needed can_transition action_beq
support_needed-IsSafe i = record {
  fallback = if i.repeated_misconception then show_worked_example else lower_difficulty;
  fallback_value = ground arith;
  fallback_allowed = ground arith;
  legal = support_needed-legal i;
  hard = λ a h. cc;
}

mastery_promotion-legal :
    (i : PolicyInput) (a : BoundedAction)
    → contains (mastery_promotion i).allowed_actions a ≡ true
    → leads_on (lookup a (mastery_promotion i).next_states) ≡ true
unfolding mastery_promotion can_transition
mastery_promotion-legal i a h = ground arith

pub mastery_promotion-IsSafe : (i : PolicyInput) → IsSafe (mastery_promotion i)
unfolding mastery_promotion can_transition action_beq
mastery_promotion-IsSafe i = record {
  fallback = raise_difficulty;
  fallback_value = refl;
  fallback_allowed = refl;
  legal = mastery_promotion-legal i;
  hard = λ a h. cc;
}

continue_practice-legal :
    (i : PolicyInput) (a : BoundedAction)
    → contains (continue_practice i).allowed_actions a ≡ true
    → leads_on (lookup a (continue_practice i).next_states) ≡ true
unfolding continue_practice can_transition
continue_practice-legal i a h = ground arith

pub continue_practice-IsSafe : (i : PolicyInput) → IsSafe (continue_practice i)
unfolding continue_practice can_transition action_beq
continue_practice-IsSafe i = record {
  fallback = retry_same_skill;
  fallback_value = refl;
  fallback_allowed = refl;
  legal = continue_practice-legal i;
  hard = λ a h. cc;
}
