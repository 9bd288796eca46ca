-- ===== src/Agent/Serve.antt =====
-- The decision that is recorded: with the lesson of a teaching action, or the fallback
-- (sync/service.py `_decide_and_record_agent_event`).
use bridgesat_agent.Common.{String, Option, none, some, List, if◌then◌else◌, string_eq}
use bridgesat_agent.Session.{SessionState, question_active}
use bridgesat_agent.Memory.{retry_same_skill, value}
use bridgesat_agent.Memory.Tables.{episode_eq}
use bridgesat_agent.Policy.Types.{at_difficulty, PolicyInput, PolicyResult}
use bridgesat_agent.Sync.Scoring.{Lesson, PackAnswerKey, teaching_asset_meta}
use bridgesat_agent.Agent.{LessonPayload, ActionPayload, Registry}
use bridgesat_agent.Agent.Lessons.{lesson_type_of, registry_matches_lesson}

-- The decision as it is recorded: the policy's, with a lesson or without, or the fallback.
pub record Served : Type 0 where
  pub action : String
  pub action_payload : ActionPayload
  pub reason_code : String
  pub reason_text : String
  pub episode_ids : List String
  pub next_state : SessionState
  pub lesson_id : Option String

unfoldable pub as_decided : PolicyResult → Served
as_decided r = record {
  action = r.decision.action;
  action_payload = record { by_policy = r.decision.action_payload; lesson = none };
  reason_code = r.decision.reason_code;
  reason_text = r.decision.reason_text;
  episode_ids = r.decision.episode_ids;
  next_state = r.next_state;
  lesson_id = none;
}

-- The entries of a lesson that are merged into the payload.
abbrev pub payload_of_lesson : PackAnswerKey → Lesson → Option String → LessonPayload
payload_of_lesson key l misconception = record {
  content_id = some l.id;
  content_version = some l.version;
  review_status = some l.review_status;
  content_hash = some l.content_hash;
  pack_version = some key.pack_version;
  skill = some l.target_skill;
  misconception = misconception;
  license = some l.license;
  source_lineage = some l.source_lineage;
}

unfoldable pub with_lesson : PackAnswerKey → Lesson → Option String → PolicyResult → Served
with_lesson key l misconception r = record {
  action = r.decision.action;
  action_payload = record {
    by_policy = r.decision.action_payload;
    lesson = some (payload_of_lesson key l misconception);
  };
  reason_code = r.decision.reason_code;
  reason_text = r.decision.reason_text;
  episode_ids = r.decision.episode_ids;
  next_state = r.next_state;
  lesson_id = some l.id;
}

-- Without a lesson that may be shown, the student stays on the skill with another question.
unfoldable pub content_unavailable : PolicyInput → PolicyResult → Served
content_unavailable inputs r = record {
  action = value retry_same_skill;
  action_payload = record {
    by_policy = at_difficulty inputs.skill inputs.difficulty;
    lesson = none;
  };
  reason_code = "CONTENT_UNAVAILABLE_FALLBACK";
  reason_text =
      "The selected teaching asset is unavailable or no longer passes the approved-content gate, so the student stays on the same skill with another question.";
  episode_ids = r.decision.episode_ids;
  next_state = question_active;
  lesson_id = none;
}

-- A teaching action gets the pack's lesson, if the registry has it as it is.
unfoldable pub serve :
    Registry → PackAnswerKey → Option String → PolicyInput → PolicyResult → Served
serve registry key misconception inputs r = elim (lesson_type_of r.decision.action) [
  | none ↦ as_decided r
  | some kind ↦ elim (teaching_asset_meta key inputs.skill kind misconception) [
    | none ↦ content_unavailable inputs r
    | some l ↦
        if registry_matches_lesson registry key l
        then with_lesson key l misconception r
        else content_unavailable inputs r
  ]
]
