-- ===== src/Examples/Policy.antt =====
-- Inputs of the policy (agent/policy.py) and the session states (domain/sessions.py).
use bridgesat_agent.Common.{
  ◌<◌, ◌↔◌, ◌≢◌, length, nat_eq, ◌≤◌, ◌≡◌, refl, true, false, none, some, [], ◌∷◌, contains, arith,
}
use bridgesat_agent.Session.{
  question_active, answer_evaluated, session_summary, session_completed, paused, transition,
  can_transition,
}
use bridgesat_agent.Session.Progress.{Reach, start, step, phase, Reach-phase, can_finish}
use bridgesat_agent.Memory.{
  action_eq, action_beq, raise_difficulty, BoundedAction, value, parse_action,
}
use bridgesat_agent.Policy.Types.{PolicyInput, PolicyResult}
use bridgesat_agent.Policy.Rules.{
  recalled_actions, without_recall, derive_policy_constraints, decide_next_action, note_all,
  note_recalled,
}
use bridgesat_agent.Policy.Safety.{IsSafe}
use bridgesat_agent.Policy.Safety.Derive.{derive-IsSafe, decide_next_action_total}
use bridgesat_agent.Policy.Recursion.{IsWidened, recall_only_widens}
use bridgesat_agent.Policy.Raise.{IsEarned, raise_iff}

-- Two strategies helped this learner before.
abbrev pub learner : PolicyInput
learner = record {
  student_id = "s1";
  session_id = "n1";
  skill = "fractions";
  subskill = none;
  difficulty = 2;
  mastery = record { num = 8; den = 10 };
  confidence = record { num = 6; den = 10 };
  consecutive_errors = 0;
  correct_streak = 3;
  repeated_misconception = false;
  active_misconception = none;
  misconception_observation_count = 0;
  misconception_distinct_items = 0;
  requires_unmastered_prerequisite = false;
  minutes_remaining = 20;
  hints_used_this_item = 0;
  state = answer_evaluated;
  recalled_successful_episode = false;
  recalled_episode_ids = "ep1" ∷ "ep2" ∷ [];
  recalled_successful_interventions = "SHOW_WORKED_EXAMPLE" ∷ "SHOW_MICRO_LESSON" ∷ [];
  recalled_episode_ids_by_intervention = [];
  recent_correct_without_high_hint = 3;
  recent_total = 3;
}

derive-IsSafe_example : IsSafe (derive_policy_constraints learner)
derive-IsSafe_example = derive-IsSafe learner

decide_next_action_total_example :
    (r : PolicyResult) × (decide_next_action learner ≡ some r)
    × (can_transition answer_evaluated r.next_state ≡ true)
    × ((a : BoundedAction) × (r.decision.action ≡ value a)
        × (contains (derive_policy_constraints learner).allowed_actions a ≡ true))
decide_next_action_total_example = decide_next_action_total learner

raise_iff_example :
    (contains (derive_policy_constraints learner).allowed_actions raise_difficulty ≡ true)
    ↔ ((2 < 20) × (length (recalled_actions learner) ≢ 1) × IsEarned learner)
raise_iff_example = raise_iff learner

recall_only_widens_example :
    IsWidened
      (derive_policy_constraints (without_recall learner))
      (recalled_actions learner)
      (derive_policy_constraints learner)
unfolding recalled_actions note_all note_recalled parse_action value action_beq
recall_only_widens_example = recall_only_widens learner (λ e. omega (arith, e))

Reach-phase_example : phase question_active ≤ phase session_summary
unfolding transition can_transition
Reach-phase_example = Reach-phase question_active session_summary (step start refl)

can_finish_example : Reach paused session_completed
can_finish_example = can_finish paused
