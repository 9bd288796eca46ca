-- ===== src/Sync/Types.antt =====
-- The messages of the sync protocol (sync/protocol.py), and the rows of the tables that
-- sync/service.py reads and writes.
use bridgesat_agent.Common.{ℕ, ◌≡◌, ◌↔◌, Bool, true, String, Option, List, Eq, test_of, test_of_iff}
use bridgesat_agent.Session.{SessionState}
use bridgesat_agent.Learner.{SkillState}

-- `SyncErrorCode`
pub data ErrorCode : Type 0 where
  invalid_schema unauthorized_student device_revoked duplicate_event attempt_already_scored :
      ErrorCode
  question_version_unknown content_withdrawn missing_dependency session_expired : ErrorCode
  session_branch_conflict payload_too_large rate_limited internal_retryable : ErrorCode

-- `ConflictType`
pub data ConflictType : Type 0 where
  parallel_attempt_detected session_branch_conflict summary_revised attempt_already_scored :
      ConflictType

ConflictType-discrete : Discrete ConflictType
ConflictType-discrete = hlevel

unfoldable pub conflict_beq : ConflictType → ConflictType → Bool
unfolding ConflictType-discrete
conflict_beq a b = test_of ConflictType-discrete a b

pub conflict_beq_iff : (a b : ConflictType) → (conflict_beq a b ≡ true) ↔ (a ≡ b)
unfolding conflict_beq
conflict_beq_iff a b = test_of_iff ConflictType-discrete a b

instance abbrev pub conflict_eq : Eq ConflictType
conflict_eq = record { decides = conflict_beq_iff; is_equal = conflict_beq }

-- The dictionary `payload`, by the entries that are read; `canonical` is its compact JSON text with
-- sorted keys, and `dumped_bytes` the size of the JSON text whose length is limited.
pub record Payload : Type 0 where
  pub question_id : Option String
  pub question_version : Option ℕ
  pub selected_choice_id : Option String
  pub attempt_id : Option String
  pub hint_level : Option ℕ
  pub minutes_remaining : Option ℕ
  pub source_answer_event_id : Option String
  pub content_id : Option String
  pub content_version : Option ℕ
  pub skill : Option String
  pub intervention : Option String
  pub misconception : Option String
  pub canonical : String
  pub dumped_bytes : ℕ

-- `SyncEventEnvelope`
pub record Envelope : Type 0 where
  pub event_id : String
  pub student_id : String
  pub session_id : String
  pub device_id : String
  pub device_sequence : ℕ
  pub device_occurred_at : Option ℕ
  pub event_type : String
  pub payload : Payload
  pub content_pack_version : String
  pub question_id : Option String
  pub question_version : Option ℕ
  pub depends_on_event_ids : List String
  pub integrity_hash : Option String

-- `SyncRejectedEvent` and `SyncConflict`, without their texts for a reader
pub record Rejected : Type 0 where
  pub event_id : String
  pub code : ErrorCode
  pub retryable : Bool

pub record Conflict : Type 0 where
  pub event_id : String
  pub conflict_type : ConflictType

-- `SyncRequest`
pub record Request : Type 0 where
  pub device_id : String
  pub student_id : String
  pub events : List Envelope

-- The tables `students` (with `student_deletions`), `devices`, `learning_events`, `study_sessions`,
-- `answer_attempts`, `student_skill_states`, `misconception_evidence` and `sync_conflicts`.
pub record StudentRow : Type 0 where
  pub id : String
  pub is_active : Bool
  pub has_deletion : Bool

pub record DeviceRow : Type 0 where
  pub device_id : String
  pub student_id : String
  pub is_active : Bool
  pub last_device_sequence : ℕ

pub record EventRow : Type 0 where
  pub event_id : String
  pub student_id : String
  pub session_id : String
  pub event_type : String
  pub device_id : String
  pub device_sequence : ℕ
  pub payload_question_id : Option String

pub record SessionRow : Type 0 where
  pub session_id : String
  pub student_id : String
  pub session_state : SessionState
  pub completed_at : Option ℕ

-- `validity`
pub data Validity : Type 0 where
  valid non_scoring_duplicate : Validity

Validity-discrete : Discrete Validity
Validity-discrete = hlevel

unfoldable pub validity_beq : Validity → Validity → Bool
unfolding Validity-discrete
validity_beq a b = test_of Validity-discrete a b

pub validity_beq_iff : (a b : Validity) → (validity_beq a b ≡ true) ↔ (a ≡ b)
unfolding validity_beq
validity_beq_iff a b = test_of_iff Validity-discrete a b

instance abbrev pub validity_eq : Eq Validity
validity_eq = record { decides = validity_beq_iff; is_equal = validity_beq }

pub record AttemptRow : Type 0 where
  pub attempt_id : String
  pub event_id : String
  pub student_id : String
  pub session_id : String
  pub content_id : String
  pub version : ℕ
  pub selected_choice_id : String
  pub correct : Bool
  pub hint_level : ℕ
  pub weight : ℕ
  pub validity : Validity
  pub occurred_at : ℕ

pub record SkillRow : Type 0 where
  pub student_id : String
  pub skill : String
  pub state : SkillState

pub record EvidenceRow : Type 0 where
  pub student_id : String
  pub session_id : String
  pub event_id : String
  pub skill : String
  pub misconception : String
  pub item_id : String
  pub item_version : ℕ

pub record ConflictRow : Type 0 where
  pub event_id : String
  pub student_id : String
  pub session_id : String
  pub conflict_type : ConflictType

-- `R` is the state of the parts that an applied event hands over to: the episodes, the strategy
-- memory and the agent events.
pub record Store {ℓ} (R : Type ℓ) : Type ℓ where
  pub students : List StudentRow
  pub devices : List DeviceRow
  pub learning_events : List EventRow
  pub sessions : List SessionRow
  pub attempts : List AttemptRow
  pub skills : List SkillRow
  pub evidence : List EvidenceRow
  pub conflicts : List ConflictRow
  pub rest : R

-- The unique constraints that `_GLOBAL_ID_CONSTRAINTS` names.
pub data Constraint : Type 0 where
  learning_events_pkey answer_attempts_pkey answer_attempts_event_id_key study_sessions_pkey :
      Constraint

-- The exceptions that end the application of an event: `EventValidationError` and `UniqueViolation`,
-- and any other, which ends the batch.
pub data Fault : Type 0 where
  event_validation_error : ErrorCode → Bool → Fault
  unique_violation : Constraint → Fault
  other_error : Fault
