-- ===== src/Policy/Rules.antt =====
-- agent/policy.py: the ladder of `derive_policy_constraints` that chooses a branch, and
-- `decide_next_action`.
use bridgesat_agent.Common.{
  Bool, true, false, not, ◌&&◌, ◌||◌, String, Option, none, some, List, [], ◌∷◌, ◌++◌, leb,
  if◌then◌else◌, contains,
}
use bridgesat_agent.Learner.{should_promote_difficulty, should_support}
use bridgesat_agent.Memory.{
  BoundedAction, show_worked_example, show_micro_lesson, action_eq, parse_action,
}
use bridgesat_agent.Policy.Types.{
  PolicyInput, PolicyConstraints, PolicyResult, preferred_fallback_as_result, truthy,
}
use bridgesat_agent.Policy.Branches.{
  time_budget_exhausted, reuse_recalled, recall_conflict, prerequisite_blocker,
  after_repeated_errors, misconception_observed, support_needed, mastery_promotion,
  continue_practice,
}

-- `reusable_memory_actions`
abbrev pub reusable_memory_actions : List BoundedAction
reusable_memory_actions = show_worked_example ∷ show_micro_lesson ∷ []

-- One round of the loop over the recalled strings: an unknown string, an action that is no memory
-- action and a repeated action are passed over.
unfoldable pub note_recalled : List BoundedAction → Option BoundedAction → List BoundedAction
note_recalled recalled none = recalled
note_recalled recalled (some action) =
    if contains reusable_memory_actions action && not (contains recalled action)
    then recalled ++ action ∷ []
    else recalled

unfoldable pub note_all : List BoundedAction → List String → List BoundedAction
note_all recalled [] = recalled
note_all recalled (raw ∷ rest) = note_all (note_recalled recalled (parse_action raw)) rest

-- `recalled_actions`, with the older boolean contract behind the list.
unfoldable pub recalled_actions : PolicyInput → List BoundedAction
recalled_actions inputs = elim (note_all [] inputs.recalled_successful_interventions) [
  | [] ↦ if inputs.recalled_successful_episode then show_worked_example ∷ [] else []
  | a ∷ rest ↦ a ∷ rest
]

-- `replace(inputs, …)`: the same situation with nothing recalled.
abbrev pub without_recall : PolicyInput → PolicyInput
without_recall inputs = record inputs {
  recalled_successful_episode = false;
  recalled_episode_ids = [];
  recalled_successful_interventions = [];
  recalled_episode_ids_by_intervention = [];
}

unfoldable pub repeated_errors : PolicyInput → Bool
repeated_errors inputs =
    leb 2 inputs.consecutive_errors
    || (truthy inputs.active_misconception && leb 2 inputs.misconception_observation_count)

unfoldable pub is_some : Option String → Bool
is_some none = false
is_some (some _) = true

unfoldable pub needs_support : PolicyInput → Bool
needs_support i =
    should_support i.mastery i.confidence i.consecutive_errors i.repeated_misconception false

unfoldable pub is_promoted : PolicyInput → Bool
is_promoted i =
    leb 2 i.correct_streak
    && should_promote_difficulty i.mastery i.confidence i.recent_correct_without_high_hint
        i.recent_total false

-- The part of the ladder behind the recalled strategies.
unfoldable pub ladder : PolicyInput → PolicyConstraints
ladder inputs =
    if inputs.requires_unmastered_prerequisite
    then prerequisite_blocker inputs
    else if repeated_errors inputs
    then after_repeated_errors inputs
    else if is_some inputs.active_misconception
    then misconception_observed inputs
    else if needs_support inputs
    then support_needed inputs
    else if is_promoted inputs
    then mastery_promotion inputs
    else continue_practice inputs

-- By the recalled strategies; `rec` is the recursive call.
unfoldable pub by_recalled :
    (PolicyInput → PolicyConstraints) → PolicyInput → List BoundedAction → PolicyConstraints
by_recalled rec inputs [] = ladder inputs
by_recalled rec inputs (action ∷ []) = reuse_recalled inputs action
by_recalled rec inputs (action ∷ second ∷ rest) =
    recall_conflict (rec (without_recall inputs)) (action ∷ second ∷ rest)

-- The body of `derive_policy_constraints`, over what its recursive call returns.
unfoldable pub derive_body : (PolicyInput → PolicyConstraints) → PolicyInput → PolicyConstraints
derive_body rec inputs =
    if leb inputs.minutes_remaining 2
    then time_budget_exhausted inputs
    else by_recalled rec inputs (recalled_actions inputs)

-- The recursive call has nothing recalled, so it makes no further one.
unfoldable pub derive_policy_constraints : PolicyInput → PolicyConstraints
derive_policy_constraints = derive_body (derive_body ladder)

unfoldable pub decide_next_action : PolicyInput → Option PolicyResult
decide_next_action inputs = preferred_fallback_as_result (derive_policy_constraints inputs)
