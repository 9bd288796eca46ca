-- ===== src/Examples/Sync.antt =====
-- Batches of one student (app/sync).
use bridgesat_agent.Common.{
  ◌≡◌, refl, true, false, String, none, some, [], ◌∷◌, count_by, find_by, arith, update_by, sort_by,
  insert_by,
}
use bridgesat_agent.Session.{question_active, answer_evaluated}
use bridgesat_agent.Policy.Types.{truthy}
use bridgesat_agent.Sync.Types.{
  Payload, Envelope, Request, AttemptRow, SessionRow, Store, Validity, valid, non_scoring_duplicate,
  answer_attempts_pkey, unique_violation,
}
use bridgesat_agent.Outbox.Rows.{decimal}
use bridgesat_agent.Sync.Scoring.{
  PackDir, PackAnswerKey, Meta, pack, load, available_versions, published_as, pack_id_of,
}
use bridgesat_agent.Sync.Rows.{
  done, raised, learning_event_exists, learning_event_owner, locked_session, insert_session,
  session_owner, insert_learning_event_row, attempt_owner, attempt_event_owner,
}
use bridgesat_agent.Sync.Apply.{Output, World, attempt_id_of}
use bridgesat_agent.Sync.Answers.{store_answer, is_completed}
use bridgesat_agent.Sync.Handlers.{apply_event, apply_session_completed, complete_session}
use bridgesat_agent.Sync.Batch.{
  verify_integrity, sequence_increases, missing_dependency_of, settle, apply_checked, process_event,
  process_events, student_exists, advance_device_sequence, global_id_collision,
}
use bridgesat_agent.Sync.Service.{
  nothing, process_batch, process_batch_locked, from_device, run_batch, finish_batch,
}
use bridgesat_agent.Sync.Frame.{Gives}
use bridgesat_agent.Sync.Frame.Events.{IsSettled, apply_event-IsSettled}
use bridgesat_agent.Sync.Guarantees.{Delivers, AnswersAll, process_batch-Delivers, answered_once}
use bridgesat_agent.Sync.Redelivery.{accepted_of, redelivery}
use bridgesat_agent.Sync.Attempts.{
  Unscored, duplicate_id, duplicate_scores_nothing, third_submission_fails,
}
use bridgesat_agent.Sync.Packs.{IsFresh, cache_transparent}

-- Nothing is handed over, no other tenant exists, and the digest is the text itself.
abbrev demo : World (Unit {0}) (Unit {0})
demo = record {
  now = 100;
  dirs = [];
  foreign = λ c id. false;
  sha256 = λ t. t;
  start_presented_intervention = λ e s. done tt;
  decide_and_record = λ e a s. done (tt, tt, answer_evaluated);
}

abbrev pub no_payload : Payload
no_payload = record {
  question_id = none;
  question_version = none;
  selected_choice_id = none;
  attempt_id = some "a1";
  hint_level = none;
  minutes_remaining = none;
  source_answer_event_id = none;
  content_id = none;
  content_version = none;
  skill = none;
  intervention = none;
  misconception = none;
  canonical = "{}";
  dumped_bytes = 2;
}

abbrev finished : Envelope
finished = record {
  event_id = "e1";
  student_id = "s1";
  session_id = "n1";
  device_id = "d1";
  device_sequence = 4;
  device_occurred_at = none;
  event_type = "SESSION_COMPLETED";
  payload = no_payload;
  content_pack_version = "1";
  question_id = none;
  question_version = none;
  depends_on_event_ids = [];
  integrity_hash = some "sha256:SESSION_COMPLETED\0{}";
}

abbrev batch : Request
batch = record { device_id = "d1"; student_id = "s1"; events = finished ∷ [] }

abbrev school : Store (Unit {0})
school = record {
  students = record { id = "s1"; is_active = true; has_deletion = false } ∷ [];
  devices =
      record { device_id = "d1"; student_id = "s1"; is_active = true; last_device_sequence = 3 }
      ∷ [];
  learning_events = [];
  sessions = [];
  attempts = [];
  skills = [];
  evidence = [];
  conflicts = [];
  rest = tt;
}

accepts_finished : accepted_of (process_batch demo batch school).0 ≡ "e1" ∷ []
unfolding process_batch process_batch_locked from_device run_batch finish_batch process_events
    process_event verify_integrity sequence_increases missing_dependency_of settle apply_checked
    student_exists advance_device_sequence learning_event_exists learning_event_owner locked_session
    insert_session session_owner insert_learning_event_row apply_event apply_session_completed
    complete_session is_completed count_by find_by update_by sort_by insert_by
accepts_finished = refl

process_batch-Delivers_example : Delivers batch school (process_batch demo batch school)
process_batch-Delivers_example = process_batch-Delivers demo batch school

redelivery_example :
    (process_batch demo batch (process_batch demo batch school).1).1
    ≡ (process_batch demo batch school).1
redelivery_example = redelivery demo demo batch batch school refl (rw accepts_finished refl, tt)

answered_once_example : AnswersAll batch (process_batch demo batch school).0
unfolding student_exists find_by
answered_once_example = answered_once demo batch school (omega arith) refl

apply_event_example :
    Gives (IsSettled finished (school, nothing)) (apply_event demo true finished (school, nothing))
apply_event_example = apply_event-IsSettled demo finished (school, nothing)

abbrev answer : Envelope
answer = record finished { event_id = "e3"; event_type = "ANSWER_SUBMITTED" }

abbrev attempt : String → String → Validity → AttemptRow
attempt attempt_id event_id validity = record {
  attempt_id = attempt_id;
  event_id = event_id;
  student_id = "s1";
  session_id = "n1";
  content_id = "q1";
  version = 1;
  selected_choice_id = "A";
  correct = true;
  hint_level = 0;
  weight = 10000;
  validity = validity;
  occurred_at = 50;
}

abbrev open_session : SessionRow
open_session = record {
  session_id = "n1";
  student_id = "s1";
  session_state = question_active;
  completed_at = none;
}

-- The attempt `a1` was submitted twice.
abbrev attempted : Store (Unit {0})
attempted = record school {
  sessions = open_session ∷ [];
  attempts = attempt "a1" "e1" valid ∷ attempt "a1#dup1" "e2" non_scoring_duplicate ∷ [];
}

abbrev item : Meta
item = record {
  skill = some "fractions";
  subskill = none;
  difficulty = some 2;
  misconception_map = ("B", "adds_denominators") ∷ [];
}

-- The attempt `a1` was submitted once.
abbrev scored_once : Store (Unit {0})
scored_once = record school {
  sessions = open_session ∷ [];
  attempts = attempt "a1" "e1" valid ∷ [];
}

duplicate_scores_nothing_example :
    (p : Store (Unit {0}) × Output (Unit {0})) × (store_answer demo true answer "q1" 1 "B" false
        item
        (scored_once, nothing)
      ≡ done p)
    × Unscored (duplicate_id answer scored_once) "e3" (scored_once, nothing) p
unfolding count_by attempt_id_of attempt_owner attempt_event_owner locked_session find_by truthy
    decimal
duplicate_scores_nothing_example =
    duplicate_scores_nothing demo true answer "q1" 1 "B" false item scored_once nothing
      (some open_session) (omega arith) refl refl refl refl refl refl

third_submission_fails_example :
    (store_answer demo true answer "q1" 1 "A" true item (attempted, nothing)
      ≡ raised (unique_violation answer_attempts_pkey))
    × (global_id_collision answer_attempts_pkey answer attempted ≡ none)
unfolding count_by attempt_id_of attempt_owner locked_session find_by truthy
third_submission_fails_example =
    third_submission_fails demo true answer "q1" 1 "A" true item (attempted, nothing) open_session
      "s1" refl refl refl refl refl

abbrev algebra : PackDir
algebra = record {
  name = "algebra-1";
  manifest = some (record { status = "published"; pack_version = some "1"; pack_id = none });
  items = some [];
  lessons = [];
}

abbrev algebra_key : PackAnswerKey
algebra_key = record { pack_version = "1"; pack_id = "algebra"; items = []; lessons = [] }

cache_transparent_example :
    ((pack (algebra ∷ []) [] "1").0 ≡ (pack (algebra ∷ []) [] "1").0)
    × IsFresh (algebra ∷ []) (pack (algebra ∷ []) [] "1").1
cache_transparent_example = cache_transparent (algebra ∷ []) [] "1" (λ v key found. cc)

-- A second look-up finds the kept key.
kept_pack : pack (algebra ∷ []) (("1", algebra_key) ∷ []) "1" ≡ pack (algebra ∷ []) [] "1"
unfolding pack load available_versions published_as truthy pack_id_of
kept_pack = refl
