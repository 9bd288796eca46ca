-- ===== src/Examples/Lessons.antt =====
-- A pack with one lesson, a wrong answer and the presentation of the lesson (app/sync/service.py).
use bridgesat_agent.Common.{Bool, true, false, String, none, some, [], ◌∷◌, string_eq, option_eq}
use bridgesat_agent.Session.{worked_example_active}
use bridgesat_agent.Learner.{initial}
use bridgesat_agent.Policy.Types.{about_misconception, PolicyInput, PolicyResult}
use bridgesat_agent.Sync.Types.{Request, Envelope, EvidenceRow, Store}
use bridgesat_agent.Sync.Scoring.{Item, Lesson, PackDir, PackAnswerKey}
use bridgesat_agent.Sync.Rows.{done, raised}
use bridgesat_agent.Sync.Apply.{ScoredAnswer}
use bridgesat_agent.Agent.{Registry, Rest}
use bridgesat_agent.Agent.Inputs.{policy_input}
use bridgesat_agent.Agent.Decide.{Setup, decide_and_record}
use bridgesat_agent.Agent.Present.{start_presented_intervention}
use bridgesat_agent.Examples.Sync.{no_payload}
use bridgesat_agent.Examples.Memory.{notes}

abbrev pub sign_lesson : Lesson
sign_lesson = record {
  id = "lesson_1";
  version = 1;
  content_type = "worked_example";
  target_skill = "algebra";
  review_status = "approved";
  target_misconceptions = "sign" ∷ [];
  content_hash = "h1";
  license = "{}";
  license_id = some "cc0";
  license_name = some "CC0";
  source_lineage = "{}";
  source_id = some "src_1";
}

abbrev pub question : String → Item
question id = record {
  id = id;
  version = 1;
  answer_choice_id = "A";
  target_skill = some "algebra";
  target_subskill = none;
  difficulty = some 2;
  misconception_map = ("B", "sign") ∷ [];
}

abbrev pub algebra_dir : PackDir
algebra_dir = record {
  name = "algebra-1";
  manifest = some (record { status = "published"; pack_version = some "1"; pack_id = none });
  items = some (question "q1" ∷ question "q2" ∷ []);
  lessons = sign_lesson ∷ [];
}

abbrev pub published_key : PackAnswerKey
published_key = record {
  pack_version = "1";
  pack_id = "algebra";
  items = ("q1", question "q1") ∷ ("q2", question "q2") ∷ [];
  lessons = sign_lesson ∷ [];
}

abbrev pub content : Registry
content = record {
  items =
      record {
        content_id = "lesson_1";
        version = 1;
        content_type = "worked_example";
        target_skill = "algebra";
        license_id = "cc0";
        license_name = "CC0";
        source_id = "src_1";
        review_status = "approved";
        status = "approved";
        withdrawn_at = none;
        canonical_body_hash = "h1";
        license_snapshot = some "{}";
        source_lineage = some "{}";
      }
      ∷ [];
  versions = record { content_id = "lesson_1"; version = 1; content_hash = "h1" } ∷ [];
  packs = record { pack_id = "algebra"; pack_version = "1"; status = "published" } ∷ [];
  pack_items = record { pack_id = "algebra"; content_id = "lesson_1"; version = 1 } ∷ [];
}

-- The digest is the text itself.
abbrev pub setup : Setup
setup = record {
  now = 100;
  dirs = algebra_dir ∷ [];
  foreign = λ c id. false;
  sha256 = λ t. t;
  new_stat_id = λ t. t;
  new_fact_id = λ t. t;
  new_outbox_id = λ t kind. t;
  foreign_agent_event = λ id. false;
}

abbrev pub wrong_answer : Envelope
wrong_answer = record {
  event_id = "e1";
  student_id = "ann";
  session_id = "s1";
  device_id = "d1";
  device_sequence = 4;
  device_occurred_at = none;
  event_type = "ANSWER_SUBMITTED";
  payload = record no_payload { question_id = some "q1"; question_version = some 1 };
  content_pack_version = "1";
  question_id = some "q1";
  question_version = some 1;
  depends_on_event_ids = [];
  integrity_hash = none;
}

abbrev pub scored : ScoredAnswer
scored = record {
  meta = record {
    skill = some "algebra";
    subskill = none;
    difficulty = some 2;
    misconception_map = ("B", "sign") ∷ [];
  };
  question_id = "q1";
  question_version = 1;
  correct = false;
  misconception = some "sign";
  skill_state = initial;
}

abbrev pub seen : String → String → EvidenceRow
seen event_id item_id = record {
  student_id = "ann";
  session_id = "s1";
  event_id = event_id;
  skill = "algebra";
  misconception = "sign";
  item_id = item_id;
  item_version = 1;
}

-- The answer is stored, and is the second one with this misconception.
abbrev pub answered : Store Rest
answered = record {
  students = [];
  devices = [];
  learning_events =
      record {
        event_id = "e1";
        student_id = "ann";
        session_id = "s1";
        event_type = "ANSWER_SUBMITTED";
        device_id = "d1";
        device_sequence = 4;
        payload_question_id = some "q1";
      }
      ∷ [];
  sessions = [];
  attempts = [];
  skills = [];
  evidence = seen "e0" "q2" ∷ seen "e1" "q1" ∷ [];
  conflicts = [];
  rest = record {
    memory = record notes { episodes = [] };
    agent_events = [];
    traces = [];
    registry = content;
  };
}

abbrev pub teach : PolicyResult
teach = record {
  decision = record {
    action = "SHOW_WORKED_EXAMPLE";
    action_payload = about_misconception "algebra" none (some "sign");
    reason_code = "REPEATED_MISCONCEPTION";
    reason_text = "A repeated error.";
    target_skill = some "algebra";
    difficulty = some 2;
    episode_ids = [];
  };
  next_state = worked_example_active;
}

abbrev pub inputs : PolicyInput
inputs = policy_input wrong_answer scored published_key "algebra" answered

abbrev pub shown : Envelope
shown = record wrong_answer {
  event_id = "e2";
  device_sequence = 5;
  event_type = "WORKED_EXAMPLE_PRESENTED";
  payload = record no_payload {
    source_answer_event_id = some "e1";
    content_id = some "lesson_1";
    content_version = some 1;
    skill = some "algebra";
    intervention = some "SHOW_WORKED_EXAMPLE";
    misconception = some "sign";
  };
  question_id = some "lesson_1";
}

abbrev pub after_decision : Store Rest
after_decision = record answered {
  rest = elim (decide_and_record setup wrong_answer scored answered) [
    | done (rest, d, next) ↦ rest
    | raised f ↦ answered.rest
  ];
}

abbrev pub lesson_started : Bool
lesson_started = elim (start_presented_intervention setup shown after_decision) [
  | done rest ↦ true
  | raised f ↦ false
]

-- Before the answer arrives.
abbrev pub class : Store Rest
class = record answered {
  students = record { id = "ann"; is_active = true; has_deletion = false } ∷ [];
  devices =
      record { device_id = "d1"; student_id = "ann"; is_active = true; last_device_sequence = 3 }
      ∷ [];
  learning_events = [];
  evidence = seen "e0" "q2" ∷ [];
}

abbrev pub one_answer : Request
one_answer = record {
  device_id = "d1";
  student_id = "ann";
  events =
      record wrong_answer {
        payload = record wrong_answer.payload { selected_choice_id = some "B" };
        integrity_hash = some "sha256:ANSWER_SUBMITTED\0{}";
      }
      ∷ [];
}
