-- ===== src/Agent/Payloads.antt =====
-- What a presentation says, and what it is compared with (sync/service.py
-- `_start_presented_intervention`).
use bridgesat_agent.Common.{
  ℕ, Bool, ◌&&◌, ◌||◌, not, String, Option, none, some, if◌then◌else◌, ◌==◌, nat_eq, string_eq,
  option_eq, find_by,
}
use bridgesat_agent.Memory.{show_worked_example, show_micro_lesson, value}
use bridgesat_agent.Policy.Types.{
  Payload, review, about_misconception, at_difficulty, hint_level, truthy,
}
use bridgesat_agent.Sync.Types.{Envelope, Store}
use bridgesat_agent.Sync.Rows.{Result, done, raised, ◌>>=◌, invalid}
use bridgesat_agent.Agent.{LessonPayload, AgentEvent, TraceRow, Rest}

-- What a presentation says.
pub record Presentation : Type 0 where
  pub source_answer_event_id : String
  pub content_id : String
  pub content_version : ℕ
  pub skill : String
  pub intervention : String
  pub misconception : Option String

-- `expected_action_by_event`
unfoldable pub expected_action : String → Option String
expected_action event_type =
    if event_type == "WORKED_EXAMPLE_PRESENTED"
    then some (value show_worked_example)
    else if event_type == "MICRO_LESSON_PRESENTED"
    then some (value show_micro_lesson)
    else none

abbrev pub required : Option String → Result String
required none = raised invalid
required (some t) = if truthy (some t) then done t else raised invalid

abbrev pub required_number : Option ℕ → Result ℕ
required_number none = raised invalid
required_number (some n) = if n == 0 then raised invalid else done n

-- `if wrong: raise EventValidationError(…, code=INVALID_SCHEMA)`
abbrev pub unless {ℓ} : {A : Type ℓ} → Bool → Result A → Result A
unless wrong next = if wrong then raised invalid else next

-- The payload has all that is required, and the intervention that goes with the type of the event.
unfoldable pub presentation_of : Envelope → Result Presentation
presentation_of e = elim (expected_action e.event_type) [
  | none ↦ raised invalid
  | some action ↦ do
    source ← required e.payload.source_answer_event_id
    content ← required e.payload.content_id
    version ← required_number e.payload.content_version
    skill ← required e.payload.skill
    intervention ← required e.payload.intervention
    unless
        (not (intervention == action)
          || (not (e.payload.misconception == none) && not (truthy e.payload.misconception)))
        (done (record {
          source_answer_event_id = source;
          content_id = content;
          content_version = version;
          skill = skill;
          intervention = intervention;
          misconception = e.payload.misconception;
        }))
]

-- The server's decision, the question of its answer, and the trace of a ranked decision.
pub record Row : Type 0 where
  pub event : AgentEvent
  pub source_question_id : Option String
  pub trace : Option TraceRow

abbrev pub is_decision_for : Envelope → String → AgentEvent → Bool
is_decision_for e source x =
    x.student_id == e.student_id && x.session_id == e.session_id && x.source_event_id == source

unfoldable pub decision_row : Envelope → String → Store Rest → Option Row
decision_row e source s = elim (find_by (is_decision_for e source) s.rest.agent_events) [
  | none ↦ none
  | some event ↦
      elim (find_by (λ l. l.event_id == source && l.student_id == e.student_id) s.learning_events) [
        | none ↦ none
        | some answer ↦ some (record {
          event = event;
          source_question_id = answer.payload_question_id;
          trace =
              find_by (λ t. t.source_event_id == source && t.student_id == e.student_id)
                s.rest.traces;
        })
      ]
]

-- The entries of the policy's own payload that are read here.
abbrev pub payload_of_policy : Payload → LessonPayload
payload_of_policy p = record {
  content_id = none;
  content_version = none;
  review_status = none;
  content_hash = none;
  pack_version = none;
  skill = elim p [
    | review focus ↦ none
    | about_misconception skill subskill misconception ↦ some skill
    | at_difficulty skill difficulty ↦ some skill
    | hint_level level ↦ none
  ];
  misconception = elim p [
    | review focus ↦ none
    | about_misconception skill subskill misconception ↦ misconception
    | at_difficulty skill difficulty ↦ none
    | hint_level level ↦ none
  ];
  license = none;
  source_lineage = none;
}
