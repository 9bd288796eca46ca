-- ===== src/Agent/Present.antt =====
-- A lesson that the student was shown (sync/service.py `_start_presented_intervention`).
use Prim.Native.String.{◌++◌ as ◌^◌}
use bridgesat_agent.Common.{
  Bool, false, ◌&&◌, not, String, Option, none, some, [], if◌then◌else◌, ◌==◌, nat_eq, string_eq,
  option_eq, find_by,
}
use bridgesat_agent.Memory.Builder.{start_runtime_candidate}
use bridgesat_agent.Policy.Types.{truthy}
use bridgesat_agent.Sync.Types.{
  question_version_unknown, Envelope, Store, event_validation_error, other_error,
}
use bridgesat_agent.Sync.Scoring.{pack}
use bridgesat_agent.Sync.Rows.{Result, done, raised, ◌>>=◌, invalid}
use bridgesat_agent.Sync.Apply.{World, first_characters}
use bridgesat_agent.Agent.{LessonPayload, ActionPayload, Rest}
use bridgesat_agent.Agent.Decide.{Decided, Setup, decide_and_record, in_batch}
use bridgesat_agent.Agent.Lessons.{
  lesson_matches_durable_payload, lesson_matches_verified_payload, lesson_type_of,
}
use bridgesat_agent.Agent.Payloads.{
  Presentation, Row, decision_row, payload_of_policy, presentation_of, unless,
}

-- `json.loads(row["action_payload_json"])`
abbrev pub durable_payload : ActionPayload → LessonPayload
durable_payload p = elim p.lesson [ none ↦ payload_of_policy p.by_policy | some l ↦ l ]

-- `row["verified_action"]`, which counts when it is not empty.
abbrev pub verified_action_of : Row → Option String
verified_action_of row = elim row.trace [
  | none ↦ none
  | some t ↦ if truthy (some t.verified_action) then some t.verified_action else none
]

-- `row["verified_action"] or durable_action`
unfoldable pub served_action : Row → String
served_action row = elim (verified_action_of row) [ none ↦ row.event.action | some a ↦ a ]

unfoldable pub verified_payload_of : Row → Option LessonPayload
verified_payload_of row = elim row.trace [ none ↦ none | some t ↦ t.verified_action_payload ]

-- `expected`: the payload of the served action, once its lesson is found to be the pack's.
unfoldable pub expected_payload :
    Setup → Envelope → Presentation → String → Row → Store Rest → Result LessonPayload
expected_payload w e p kind row s = elim (verified_action_of row) [
  | some action ↦ elim (verified_payload_of row) [
    | none ↦ raised invalid
    | some payload ↦
        if lesson_matches_verified_payload w.dirs s.rest.registry e.content_pack_version kind
          p.misconception payload
        then done payload
        else raised invalid
  ]
  | none ↦
      if lesson_matches_durable_payload w.dirs s.rest.registry e.content_pack_version kind
        p.misconception (durable_payload row.event.action_payload)
      then done (durable_payload row.event.action_payload)
      else raised invalid
]

-- The presentation is that of the decision.
unfoldable pub agrees : Envelope → Presentation → LessonPayload → Option String → Bool
agrees e p expected source_question_id =
    expected.content_id == some p.content_id
    && expected.content_version == some p.content_version
    && expected.skill == some p.skill
    && expected.misconception == p.misconception
    && expected.review_status == some "approved"
    && e.question_id == some p.content_id
    && e.question_version == some p.content_version
    && truthy source_question_id

-- `episode_id`
unfoldable pub presented_episode_id : Setup → Presentation → String
presented_episode_id w p =
    "ep_" ^ first_characters 12 (w.sha256 (p.source_answer_event_id ^ (":" ^ p.content_id)))

-- The pending episode, unless it is there.
unfoldable pub start_episode : Setup → Envelope → Presentation → String → Store Rest → Result Rest
start_episode w e p trigger s =
    elim (find_by (λ r. r.episode_id == presented_episode_id w p) s.rest.memory.episodes) [
      | some _ ↦ done s.rest
      | none ↦
          in_batch (
            start_runtime_candidate
              (record {
                student_id = e.student_id;
                session_id = e.session_id;
                skill = p.skill;
                misconception = p.misconception;
                intervention = p.intervention;
              })
              (presented_episode_id w p) p.content_id trigger e.event_id w.now s.rest.memory)
          >>= λ (episode, m). done (record s.rest { memory = m })
    ]

-- `_start_presented_intervention`, behind the presentation and the decision that it names. A pack that
-- is not there is no `EventValidationError`.
unfoldable pub start_for : Setup → Envelope → Presentation → Row → Store Rest → Result Rest
start_for w e p row s = elim ((pack w.dirs [] e.content_pack_version).0) [
  | none ↦ raised other_error
  | some key ↦
      if not (e.content_pack_version == key.pack_version)
      then raised (event_validation_error question_version_unknown false)
      else unless (not (served_action row == p.intervention))
          (elim (lesson_type_of p.intervention) [
            | none ↦ raised invalid
            | some kind ↦ do
              expected ← expected_payload w e p kind row s
              elim row.source_question_id [
                | none ↦ raised invalid
                | some trigger ↦
                    unless (not (agrees e p expected (some trigger)))
                      (start_episode w e p trigger s)
              ]
          ])
]

-- `_start_presented_intervention`
unfoldable pub start_presented_intervention : Setup → Envelope → Store Rest → Result Rest
start_presented_intervention w e s = presentation_of e >>= λ p.
    elim (decision_row e p.source_answer_event_id s) [
      | none ↦ raised invalid
      | some row ↦ start_for w e p row s
    ]

-- The batch with the agent's side filled in.
unfoldable pub world_of : Setup → World Rest Decided
world_of w = record {
  now = w.now;
  dirs = w.dirs;
  foreign = w.foreign;
  sha256 = w.sha256;
  start_presented_intervention = start_presented_intervention w;
  decide_and_record = decide_and_record w;
}
