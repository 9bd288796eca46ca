-- ===== src/Policy/Types.antt =====
-- The data of agent/policy.py, and `AgentDecision` of domain/events.py.
use text.Mathlib.Text.{◌==◌ as str_eq}
use bridgesat_agent.Common.{ℕ, Bool, false, not, String, Option, none, some, List, [], ◌∷◌, lookup}
use bridgesat_agent.Session.{
  SessionState, question_active, worked_example_active, micro_lesson_active, practice_adapted,
  session_summary,
}
use bridgesat_agent.Learner.{Ratio}
use bridgesat_agent.Memory.{
  BoundedAction, show_worked_example, show_micro_lesson, retry_same_skill, lower_difficulty,
  raise_difficulty, switch_to_prerequisite, end_with_review, action_eq, parse_action,
}

-- `PolicyInput`. A negative number of minutes is read as 0.
pub record PolicyInput : Type 0 where
  pub student_id : String
  pub session_id : String
  pub skill : String
  pub subskill : Option String
  pub difficulty : ℕ
  pub mastery : Ratio
  pub confidence : Ratio
  pub consecutive_errors : ℕ
  pub correct_streak : ℕ
  pub repeated_misconception : Bool
  pub active_misconception : Option String
  pub misconception_observation_count : ℕ
  pub misconception_distinct_items : ℕ
  pub requires_unmastered_prerequisite : Bool
  pub minutes_remaining : ℕ
  pub hints_used_this_item : ℕ
  pub state : SessionState
  pub recalled_successful_episode : Bool
  pub recalled_episode_ids : List String
  pub recalled_successful_interventions : List String
  pub recalled_episode_ids_by_intervention : List (String × List String)
  pub recent_correct_without_high_hint : ℕ
  pub recent_total : ℕ

-- The dictionaries that the policy writes as `action_payload`.
pub data Payload : Type 0 where
  review : String → Payload
  about_misconception : String → Option String → Option String → Payload
  at_difficulty : String → ℕ → Payload
  hint_level : ℕ → Payload

-- `AgentDecision`, with the fields that the policy sets; the policy version is a constant.
pub record AgentDecision : Type 0 where
  pub action : String
  pub action_payload : Payload
  pub reason_code : String
  pub reason_text : String
  pub target_skill : Option String
  pub difficulty : Option ℕ
  pub episode_ids : List String

-- `PolicyConstraints`
pub record PolicyConstraints : Type 0 where
  pub hard_action : Option BoundedAction
  pub allowed_actions : List BoundedAction
  pub preferred_fallback : AgentDecision
  pub next_states : List (BoundedAction × SessionState)
  pub reasons : List String

-- `PolicyResult`
pub record PolicyResult : Type 0 where
  pub decision : AgentDecision
  pub next_state : SessionState

-- `NEXT_STATE_BY_ACTION`
abbrev pub next_state_by_action : List (BoundedAction × SessionState)
next_state_by_action =
    (show_worked_example, worked_example_active)
    ∷ (show_micro_lesson, micro_lesson_active)
    ∷ (retry_same_skill, question_active)
    ∷ (lower_difficulty, practice_adapted)
    ∷ (raise_difficulty, practice_adapted)
    ∷ (switch_to_prerequisite, practice_adapted)
    ∷ (end_with_review, session_summary)
    ∷ []

-- `preferred_fallback_as_result`; `none` is a string that is no action, or an action with no state.
unfoldable pub preferred_fallback_as_result : PolicyConstraints → Option PolicyResult
preferred_fallback_as_result c = elim (parse_action c.preferred_fallback.action) [
  | none ↦ none
  | some action ↦ elim (lookup action c.next_states) [
    | none ↦ none
    | some s ↦ some (record { decision = c.preferred_fallback; next_state = s })
  ]
]

-- A Python string that may be `None`, as a test: the empty string is false.
unfoldable pub truthy : Option String → Bool
truthy none = false
truthy (some s) = not (str_eq s "")
