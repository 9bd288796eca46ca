-- ===== src/Session.antt =====
-- domain/sessions.py: the states of a study session and the transition table.
pub mod Progress
use bridgesat_agent.Common.{
  ◌≡◌, ◌↔◌, true, Bool, List, [], ◌∷◌, if◌then◌else◌, Eq, contains, test_of, test_of_iff,
}

pub data SessionState : Type 0 where
  new profile_ready diagnostic_active diagnostic_complete plan_ready : SessionState
  question_active hint_active answer_evaluated : SessionState
  worked_example_active micro_lesson_active practice_adapted paused : SessionState
  session_summary session_completed : SessionState

SessionState-discrete : Discrete SessionState
SessionState-discrete = hlevel

unfoldable pub state_beq : SessionState → SessionState → Bool
unfolding SessionState-discrete
state_beq a b = test_of SessionState-discrete a b

pub state_beq_iff : (a b : SessionState) → (state_beq a b ≡ true) ↔ (a ≡ b)
unfolding state_beq
state_beq_iff a b = test_of_iff SessionState-discrete a b

instance abbrev pub state_eq : Eq SessionState
state_eq = record { decides = state_beq_iff; is_equal = state_beq }

-- `ACTIVE_STATES`
abbrev pub active_states : List SessionState
active_states =
    question_active ∷ hint_active ∷ answer_evaluated ∷ worked_example_active ∷ micro_lesson_active
    ∷ practice_adapted ∷ []

-- `TRANSITIONS`
abbrev pub transitions : SessionState → List SessionState
transitions new = profile_ready ∷ []
transitions profile_ready = diagnostic_active ∷ []
transitions diagnostic_active = diagnostic_complete ∷ []
transitions diagnostic_complete = plan_ready ∷ []
transitions plan_ready = question_active ∷ []
transitions question_active = hint_active ∷ answer_evaluated ∷ paused ∷ session_summary ∷ []
transitions hint_active = question_active ∷ answer_evaluated ∷ paused ∷ session_summary ∷ []
transitions answer_evaluated =
    worked_example_active ∷ micro_lesson_active ∷ practice_adapted ∷ question_active ∷ paused
    ∷ session_summary ∷ []
transitions worked_example_active = question_active ∷ paused ∷ session_summary ∷ []
transitions micro_lesson_active = question_active ∷ paused ∷ session_summary ∷ []
transitions practice_adapted = question_active ∷ paused ∷ session_summary ∷ []
transitions paused = question_active ∷ paused ∷ session_summary ∷ []
transitions session_summary = session_completed ∷ []
transitions session_completed = []

unfoldable pub can_transition : SessionState → SessionState → Bool
unfolding state_beq
can_transition source target = contains (transitions source) target

-- The result of `transition`: the new state, or `IllegalTransitionError` with its two states.
pub data Outcome : Type 0 where
  moved : SessionState → Outcome
  illegal_transition : SessionState → SessionState → Outcome

unfoldable pub transition : SessionState → SessionState → Outcome
transition source target =
    if can_transition source target then moved target else illegal_transition source target
