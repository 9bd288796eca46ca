-- ===== src/Sync/Rows.antt =====
-- The reads and single writes of sync/service.py on its tables. `foreign c id` says that a row of
-- another tenant holds this value of the unique constraint.
use bridgesat_agent.Common.{
  Bool, true, false, ◌&&◌, ◌||◌, String, Option, none, some, [], ◌∷◌, ◌++◌, if◌then◌else◌, ◌==◌,
  nat_eq, string_eq, option_eq, find_by, update_by,
}
use bridgesat_agent.Session.{SessionState, session_completed, state_eq}
use bridgesat_agent.Sync.Types.{
  invalid_schema, ConflictType, Envelope, EventRow, SessionRow, AttemptRow, Store, Constraint,
  learning_events_pkey, answer_attempts_pkey, answer_attempts_event_id_key, study_sessions_pkey,
  Fault, event_validation_error, unique_violation,
}

-- What a step that may raise gives.
pub data Result {ℓ} (A : Type ℓ) : Type ℓ where
  done : A → Result A
  raised : Fault → Result A

infixl 5 ◌>>=◌
abbrev pub ◌>>=◌ {ℓ κ} : {A : Type ℓ} {B : Type κ} → Result A → (A → Result B) → Result B
done a >>= f = f a
raised e >>= f = raised e

-- `EventValidationError(…, code=INVALID_SCHEMA, retryable=False)`
abbrev pub invalid : Fault
invalid = event_validation_error invalid_schema false

-- `_event_row`
abbrev pub event_row : Envelope → EventRow
event_row e = record {
  event_id = e.event_id;
  student_id = e.student_id;
  session_id = e.session_id;
  event_type = e.event_type;
  device_id = e.device_id;
  device_sequence = e.device_sequence;
  payload_question_id = e.payload.question_id;
}

abbrev pub is_session : Envelope → SessionRow → Bool
is_session e r = r.session_id == e.session_id && r.student_id == e.student_id

module _ {ℓ} {R : Type ℓ} where
  -- `EventStore.learning_event_exists` and `EventStore.learning_event_owner`
  unfoldable pub learning_event_exists : String → String → Store R → Bool
  learning_event_exists event_id student_id s =
      elim (find_by (λ r. r.event_id == event_id && r.student_id == student_id) s.learning_events) [
        | none ↦ false
        | some _ ↦ true
      ]

  unfoldable pub learning_event_owner : String → Store R → Option String
  learning_event_owner event_id s = elim (find_by (λ r. r.event_id == event_id) s.learning_events) [
    | none ↦ none
    | some r ↦ some r.student_id
  ]

  -- `_attempt_owner`, `_attempt_event_owner` and `_session_owner`
  unfoldable pub attempt_owner : String → Store R → Option String
  attempt_owner attempt_id s = elim (find_by (λ r. r.attempt_id == attempt_id) s.attempts) [
    | none ↦ none
    | some r ↦ some r.student_id
  ]

  unfoldable pub attempt_event_owner : String → Store R → Option String
  attempt_event_owner event_id s = elim (find_by (λ r. r.event_id == event_id) s.attempts) [
    | none ↦ none
    | some r ↦ some r.student_id
  ]

  unfoldable pub session_owner : String → Store R → Option String
  session_owner session_id s = elim (find_by (λ r. r.session_id == session_id) s.sessions) [
    | none ↦ none
    | some r ↦ some r.student_id
  ]

  -- `_locked_session`
  unfoldable pub locked_session : String → String → Store R → Result (Option SessionRow)
  locked_session session_id student_id s =
      elim (find_by (λ r. r.session_id == session_id) s.sessions) [
        | none ↦ done none
        | some r ↦ if r.student_id == student_id then done (some r) else raised invalid
      ]

  -- `INSERT INTO study_sessions`
  unfoldable pub insert_session :
      (Constraint → String → Bool) → SessionRow → Store R → Result (Store R)
  insert_session foreign row s =
      if foreign study_sessions_pkey row.session_id
      then raised (unique_violation study_sessions_pkey)
      else elim (session_owner row.session_id s) [
        | none ↦ done (record s { sessions = s.sessions ++ row ∷ [] })
        | some _ ↦ raised (unique_violation study_sessions_pkey)
      ]

  -- `_ensure_session`
  unfoldable pub ensure_session :
      (Constraint → String → Bool) → Envelope → SessionState → Store R → Result (Store R)
  ensure_session foreign e default_state s = locked_session e.session_id e.student_id s >>= λ row.
      elim row [
        | none ↦
            insert_session foreign
              (record {
                session_id = e.session_id;
                student_id = e.student_id;
                session_state = default_state;
                completed_at = none;
              })
              s
        | some _ ↦ done s
      ]

  -- `_transition_session`: a completed session stays.
  unfoldable pub transition_session : Envelope → SessionState → Store R → Result (Store R)
  transition_session e target s = locked_session e.session_id e.student_id s >>= λ row. elim row [
    | none ↦ done s
    | some r ↦
        if r.session_state == session_completed || r.session_state == target
        then done s
        else done (record s {
          sessions = update_by (is_session e) (λ r. record r { session_state = target }) s.sessions;
        })
  ]

  -- `_insert_learning_event_row`
  unfoldable pub insert_learning_event_row :
      (Constraint → String → Bool) → Envelope → Store R → Result (Store R)
  insert_learning_event_row foreign e s = elim (learning_event_owner e.event_id s) [
    | none ↦
        if foreign learning_events_pkey e.event_id
        then raised (unique_violation learning_events_pkey)
        else done (record s { learning_events = s.learning_events ++ event_row e ∷ [] })
    | some owner ↦
        if owner == e.student_id
        then raised (unique_violation learning_events_pkey)
        else raised invalid
  ]

  -- `_record_conflict`
  unfoldable pub record_conflict : Envelope → ConflictType → Store R → Store R
  record_conflict e t s = record s {
    conflicts =
        s.conflicts
        ++ record {
          event_id = e.event_id;
          student_id = e.student_id;
          session_id = e.session_id;
          conflict_type = t;
        }
          ∷ [];
  }

  -- `INSERT INTO answer_attempts`, whose constraints are checked in the order of their creation
  unfoldable pub insert_attempt :
      (Constraint → String → Bool) → AttemptRow → Store R → Result (Store R)
  insert_attempt foreign row s = elim (attempt_owner row.attempt_id s) [
    | some _ ↦ raised (unique_violation answer_attempts_pkey)
    | none ↦
        if foreign answer_attempts_pkey row.attempt_id
        then raised (unique_violation answer_attempts_pkey)
        else elim (attempt_event_owner row.event_id s) [
          | some _ ↦ raised (unique_violation answer_attempts_event_id_key)
          | none ↦
              if foreign answer_attempts_event_id_key row.event_id
              then raised (unique_violation answer_attempts_event_id_key)
              else done (record s { attempts = s.attempts ++ row ∷ [] })
        ]
  ]
