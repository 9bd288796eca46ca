-- ===== src/Examples/Hybrid.antt =====
-- Proposals of a model for the learner of the policy's examples (agent/hybrid.py).
use bridgesat_agent.Common.{◌≤◌, ◌≡◌, ◌↔◌, refl, true, false, none, some, [], ◌∷◌}
use bridgesat_agent.Session.{answer_evaluated, question_active, state_beq, can_transition}
use bridgesat_agent.Memory.{
  retry_same_skill, show_worked_example, end_session, end_with_review, action_eq, action_beq,
}
use bridgesat_agent.Policy.Types.{PolicyConstraints, PolicyInput, review}
use bridgesat_agent.Policy.Rules.{derive_body, derive_policy_constraints}
use bridgesat_agent.Examples.Policy.{learner}
use bridgesat_agent.Policy.Branches.{time_budget_exhausted}
use bridgesat_agent.Hybrid.Types.{Context, Episode, Evidence, Proposal}
use bridgesat_agent.Hybrid.Gate.{choose_mode, is_hybrid}
use bridgesat_agent.Hybrid.Verifier.{
  action_fault, episode_fault, content_fault, grounding_fault, check_rationale, verify_proposal,
}
use bridgesat_agent.Hybrid.Claims.{has_pattern, occurs, begins, check_claims, is_foreign}
use bridgesat_agent.Hybrid.Stages.{IsPermitted, IsGroundedEpisode, IsGroundedContent}
use bridgesat_agent.Hybrid.Grounding.{accepted_sound, allowed_passes, hybrid_iff}

abbrev constraints : PolicyConstraints
constraints = record {
  hard_action = none;
  allowed_actions = retry_same_skill ∷ show_worked_example ∷ [];
  preferred_fallback = record {
    action = "RETRY_SAME_SKILL";
    action_payload = review "x";
    reason_code = "CONTINUE_PRACTICE";
    reason_text = "";
    target_skill = none;
    difficulty = none;
    episode_ids = [];
  };
  next_states = (retry_same_skill, question_active) ∷ [];
  reasons = [];
}

abbrev context : Context
context = record {
  skill = "fractions";
  active_misconception = none;
  difficulty = 2;
  current_state = answer_evaluated;
  hints_used = 0;
  consecutive_errors = 0;
  correct_streak = 0;
  misconception_evidence_count = 0;
  intervention_stats = [];
}

abbrev episode : Episode
episode = record {
  student_id = "s1";
  status = "validated";
  skill = "fractions";
  misconception = none;
  intervention = "SHOW_WORKED_EXAMPLE";
  outcome_correct = true;
  different_item = true;
  effectiveness = record { num = 8; den = 10 };
  confidence = record { num = 8; den = 10 };
}

abbrev evidence : Evidence
evidence = record {
  episodes = ("ep1", episode) ∷ [];
  content = [];
  expected_student_id = some "s1";
}

abbrev proposal : Proposal
proposal = record {
  proposed_action = retry_same_skill;
  selected_episode_id = some "ep1";
  selected_content_id = none;
  lowered_rationale = "ok";
  evidence_claims = [];
}

accepted_sound_example :
    IsPermitted context constraints retry_same_skill true
    × IsGroundedEpisode context evidence (some "ep1")
    × IsGroundedContent context evidence none
unfolding verify_proposal grounding_fault action_fault episode_fault content_fault check_rationale
    has_pattern occurs begins check_claims is_foreign action_beq can_transition state_beq
accepted_sound_example = accepted_sound context constraints proposal evidence true refl

abbrev barred : Proposal
barred = record proposal { proposed_action = end_session }

hybrid_iff_example :
    (is_hybrid (
        choose_mode constraints
          (record {
            multiple_relevant_episodes = false;
            conflicting_episodes = false;
            supported_interventions = [];
          })
          (record { configured = true; circuit_open = false; budget_exhausted = false })
          false
          true)
      ≡ true)
    ↔ ((constraints.hard_action ≡ none)
        × (false ≡ false)
        × (true ≡ true)
        × (false ≡ false)
        × (false ≡ false)
        × (true ≡ true)
        × (2 ≤ 2))
hybrid_iff_example =
    hybrid_iff constraints
      (record {
        multiple_relevant_episodes = false;
        conflicting_episodes = false;
        supported_interventions = [];
      })
      (record { configured = true; circuit_open = false; budget_exhausted = false }) false true

-- One minute is left.
abbrev hurried : PolicyInput
hurried = record learner { minutes_remaining = 1 }

abbrev closing : Proposal
closing = record proposal { proposed_action = end_with_review }

allowed_passes_example :
    action_fault context (derive_policy_constraints hurried) closing true ≡ none
unfolding derive_policy_constraints derive_body time_budget_exhausted action_beq
allowed_passes_example = allowed_passes hurried context closing refl refl
