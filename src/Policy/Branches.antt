-- ===== src/Policy/Branches.antt =====
-- agent/policy.py: what each branch of `derive_policy_constraints` returns, and `hint_decision`.
use Prim.Native.Nat.{min, max}
use bridgesat_agent.Common.{
  ℕ, ◌+◌, ◌-◌, String, Option, none, some, List, [], ◌∷◌, ◌++◌, if◌then◌else◌, ◌==◌, nat_eq,
  string_eq, lookup, insert, distinct,
}
use bridgesat_agent.Session.{
  SessionState, question_active, worked_example_active, micro_lesson_active, practice_adapted,
  session_summary,
}
use bridgesat_agent.Memory.{
  BoundedAction, show_worked_example, show_micro_lesson, retry_same_skill, lower_difficulty,
  raise_difficulty, switch_to_prerequisite, end_with_review, action_eq, value,
}
use bridgesat_agent.Policy.Types.{
  PolicyInput, Payload, review, about_misconception, at_difficulty, hint_level, AgentDecision,
  PolicyConstraints, next_state_by_action, truthy,
}

-- `_decision`
abbrev pub decision :
    PolicyInput → BoundedAction → String → String → Payload → List String → ℕ → AgentDecision
decision inputs action reason_code reason_text payload episode_ids difficulty = record {
  action = value action;
  action_payload = payload;
  reason_code = reason_code;
  reason_text = reason_text;
  target_skill = some inputs.skill;
  difficulty = some difficulty;
  episode_ids = episode_ids;
}

-- The time budget is spent.
unfoldable pub time_budget_exhausted : PolicyInput → PolicyConstraints
time_budget_exhausted inputs = record {
  hard_action = some end_with_review;
  allowed_actions = end_with_review ∷ [];
  preferred_fallback =
      decision inputs end_with_review "TIME_BUDGET_EXHAUSTED"
        "Only a few minutes remain, so the agent closes with a short review instead of starting a new item."
        (review "time_budget") [] inputs.difficulty;
  next_states = (end_with_review, session_summary) ∷ [];
  reasons = "TIME_BUDGET_EXHAUSTED" ∷ [];
}

-- `dict.get(key, default)`
abbrev pub get_or_default : {A : Type 0} → Option A → A → A
get_or_default none d = d
get_or_default (some a) d = a

unfoldable pub reuse_text : BoundedAction → String
reuse_text action =
    if action == show_worked_example
    then "A validated episode from earlier practice shows that a worked example succeeded for this same error; reusing that teaching strategy before more practice."
    else "A validated episode from earlier practice shows that a micro-lesson succeeded for this same error; reusing that teaching strategy before more practice."

-- One recalled teaching strategy: it is reused. `NEXT_STATE_BY_ACTION` has every memory action, so
-- the default of its lookup is never taken.
unfoldable pub reuse_recalled : PolicyInput → BoundedAction → PolicyConstraints
unfolding reuse_text
reuse_recalled inputs action = record {
  hard_action = some action;
  allowed_actions = action ∷ [];
  preferred_fallback =
      decision inputs action "RECALLED_SUCCESSFUL_EPISODE" (reuse_text action)
        (about_misconception inputs.skill inputs.subskill inputs.active_misconception)
        (get_or_default (lookup (value action) inputs.recalled_episode_ids_by_intervention)
          inputs.recalled_episode_ids)
        inputs.difficulty;
  next_states = (action, get_or_default (lookup action next_state_by_action) session_summary) ∷ [];
  reasons = "RECALLED_SUCCESSFUL_EPISODE" ∷ [];
}

-- `for action in recalled_actions: next_states[action] = NEXT_STATE_BY_ACTION[action]`
unfoldable pub add_next_states :
    List BoundedAction → List (BoundedAction × SessionState) → List (BoundedAction × SessionState)
add_next_states [] d = d
add_next_states (a ∷ rest) d =
    add_next_states rest
      (insert a (get_or_default (lookup a next_state_by_action) session_summary) d)

-- Several recalled strategies: those of the situation without recall, widened by the recalled ones,
-- unless a hard guard holds there.
unfoldable pub widen_unless :
    Option BoundedAction → PolicyConstraints → List BoundedAction → PolicyConstraints
widen_unless (some guard) base recalled = base
widen_unless none base recalled = record {
  hard_action = none;
  allowed_actions = distinct (base.allowed_actions ++ recalled);
  preferred_fallback = base.preferred_fallback;
  next_states = add_next_states recalled base.next_states;
  reasons = distinct (base.reasons ++ "RECALLED_SUCCESSFUL_INTERVENTION_CONFLICT" ∷ []);
}

unfoldable pub recall_conflict : PolicyConstraints → List BoundedAction → PolicyConstraints
unfolding widen_unless
recall_conflict base recalled = widen_unless base.hard_action base recalled

unfoldable pub prerequisite_blocker : PolicyInput → PolicyConstraints
prerequisite_blocker inputs = record {
  hard_action = some switch_to_prerequisite;
  allowed_actions = switch_to_prerequisite ∷ [];
  preferred_fallback =
      decision inputs switch_to_prerequisite "PREREQUISITE_BLOCKER"
        "The current item needs a prerequisite that has not been mastered, so practice switches to the prerequisite."
        (at_difficulty inputs.skill inputs.difficulty) [] inputs.difficulty;
  next_states = (switch_to_prerequisite, practice_adapted) ∷ [];
  reasons = "PREREQUISITE_BLOCKER" ∷ [];
}

unfoldable pub after_repeated_errors : PolicyInput → PolicyConstraints
after_repeated_errors inputs =
    let chosen : AgentDecision =
      if truthy inputs.active_misconception
      then decision inputs show_worked_example "REPEATED_MISCONCEPTION"
          "Repeated errors map to the same misconception, so a worked example isolates the error pattern before more practice."
          (about_misconception inputs.skill inputs.subskill inputs.active_misconception) []
          inputs.difficulty
      else decision inputs show_micro_lesson "REPEATED_SKILL_ERRORS"
          "Two consecutive errors on the same skill indicate a concept gap, so a short lesson is inserted before more practice."
          (at_difficulty inputs.skill inputs.difficulty) [] inputs.difficulty in
    record {
      hard_action = none;
      allowed_actions = retry_same_skill ∷ show_worked_example ∷ show_micro_lesson ∷ [];
      preferred_fallback = chosen;
      next_states =
          (retry_same_skill, question_active)
          ∷ (show_worked_example, worked_example_active)
          ∷ (show_micro_lesson, micro_lesson_active)
          ∷ [];
      reasons = chosen.reason_code ∷ [];
    }

unfoldable pub misconception_observed : PolicyInput → PolicyConstraints
misconception_observed inputs = record {
  hard_action = none;
  allowed_actions = retry_same_skill ∷ [];
  preferred_fallback =
      decision inputs retry_same_skill "MISCONCEPTION_OBSERVED"
        "The error maps to a known misconception; one more distinct item on the same skill gathers confirmation evidence."
        (at_difficulty inputs.skill inputs.difficulty) [] inputs.difficulty;
  next_states = (retry_same_skill, question_active) ∷ [];
  reasons = "MISCONCEPTION_OBSERVED" ∷ [];
}

unfoldable pub support_needed : PolicyInput → PolicyConstraints
support_needed inputs =
    let lower : ℕ = max 1 (inputs.difficulty - 1) in
    let chosen : AgentDecision =
      if inputs.repeated_misconception
      then decision inputs show_worked_example "REPEATED_MISCONCEPTION"
          "A repeated misconception triggers a worked example."
          (at_difficulty inputs.skill inputs.difficulty) [] inputs.difficulty
      else decision inputs lower_difficulty "SUPPORT_NEEDED"
          "Mastery or streak evidence indicates support is needed, so the next item stays on the same skill at a lower difficulty."
          (at_difficulty inputs.skill lower) [] lower in
    record {
      hard_action = none;
      allowed_actions = show_worked_example ∷ show_micro_lesson ∷ lower_difficulty ∷ [];
      preferred_fallback = chosen;
      next_states =
          (show_worked_example, worked_example_active)
          ∷ (show_micro_lesson, micro_lesson_active)
          ∷ (lower_difficulty, practice_adapted)
          ∷ [];
      reasons = chosen.reason_code ∷ [];
    }

unfoldable pub mastery_promotion : PolicyInput → PolicyConstraints
mastery_promotion inputs =
    let higher : ℕ = min 3 (inputs.difficulty + 1) in
    record {
      hard_action = none;
      allowed_actions = retry_same_skill ∷ raise_difficulty ∷ [];
      preferred_fallback =
          decision inputs raise_difficulty "MASTERY_PROMOTION"
            "Correct answers without hints and sufficient confidence support a harder item on the same skill."
            (at_difficulty inputs.skill higher) [] higher;
      next_states =
          (retry_same_skill, practice_adapted) ∷ (raise_difficulty, practice_adapted) ∷ [];
      reasons = "MASTERY_PROMOTION" ∷ [];
    }

unfoldable pub continue_practice : PolicyInput → PolicyConstraints
continue_practice inputs = record {
  hard_action = none;
  allowed_actions = retry_same_skill ∷ [];
  preferred_fallback =
      decision inputs retry_same_skill "CONTINUE_PRACTICE"
        "The student is progressing; more evidence is needed before changing difficulty."
        (at_difficulty inputs.skill inputs.difficulty) [] inputs.difficulty;
  next_states = (retry_same_skill, practice_adapted) ∷ [];
  reasons = "CONTINUE_PRACTICE" ∷ [];
}

-- `hint_decision`; its level is 1, 2 or 3.
unfoldable pub hint_decision : ℕ → AgentDecision
hint_decision hints_used =
    let level : ℕ = min 3 (hints_used + 1) in
    record {
      action =
          if level == 1 then "GIVE_HINT_1" else if level == 2 then "GIVE_HINT_2" else "GIVE_HINT_3";
      action_payload = hint_level level;
      reason_code = "HINT_REQUESTED";
      reason_text =
          if level == 1
          then "Student requested hint level 1."
          else if level == 2
          then "Student requested hint level 2."
          else "Student requested hint level 3.";
      target_skill = none;
      difficulty = none;
      episode_ids = [];
    }
