-- ===== src/Deletion/Store.antt =====
-- The tables that the deletion touches, and the removal of a student's personal rows
-- (memory/deletion.py, `_PG_DELETIONS`). Of a personal row only its owner is read.
use bridgesat_agent.Common.{
  ℕ, ◌≡◌, ◌↔◌, Bool, true, not, String, Option, List, [], ◌∷◌, if◌then◌else◌, Eq, ◌==◌, string_eq,
  test_of, test_of_iff, contains, filter_by,
}
use bridgesat_agent.Outbox.Rows.{Table}

pub data StudentStatus : Type 0 where
  active deletion_pending deleted : StudentStatus

StudentStatus-discrete : Discrete StudentStatus
StudentStatus-discrete = hlevel

unfoldable pub standing_beq : StudentStatus → StudentStatus → Bool
unfolding StudentStatus-discrete
standing_beq a b = test_of StudentStatus-discrete a b

pub standing_beq_iff : (a b : StudentStatus) → (standing_beq a b ≡ true) ↔ (a ≡ b)
unfolding standing_beq
standing_beq_iff a b = test_of_iff StudentStatus-discrete a b

instance abbrev pub standing_eq : Eq StudentStatus
standing_eq = record { decides = standing_beq_iff; is_equal = standing_beq }

-- `DELETION_STATES`
pub data DeletionState : Type 0 where
  requested sqlite_deleted index_deletion_pending verified failed : DeletionState

-- A row of `students`.
pub record Student : Type 0 where
  pub id : String
  pub status : StudentStatus
  pub updated_at : ℕ

-- A row of `student_tokens`.
pub record Token : Type 0 where
  pub student_id : String
  pub revoked_at : Option ℕ

-- A row of `study_sessions`.
pub record Session : Type 0 where
  pub session_id : String
  pub student_id : String

-- A row of `student_deletions`.
pub record Deletion : Type 0 where
  pub deletion_id : String
  pub student_id : String
  pub state : DeletionState
  pub requested_at : ℕ
  pub sqlite_deleted_at : Option ℕ
  pub index_deletion_pending_at : Option ℕ
  pub verified_at : Option ℕ
  pub last_error : Option String

-- The tables whose rows name a session and no student.
pub data PartTable : Type 0 where
  session_branches session_items : PartTable

-- The tables whose rows name their student and are read by nothing else here.
pub data OwnedTable : Type 0 where
  student_skill_states study_plans answer_attempts learning_events agent_events : OwnedTable
  misconception_evidence learning_episodes student_memory_facts intervention_stats : OwnedTable
  devices sync_conflicts legacy_mastery_imports : OwnedTable

PartTable-discrete : Discrete PartTable
PartTable-discrete = hlevel

unfoldable pub part_beq : PartTable → PartTable → Bool
unfolding PartTable-discrete
part_beq a b = test_of PartTable-discrete a b

pub part_beq_iff : (a b : PartTable) → (part_beq a b ≡ true) ↔ (a ≡ b)
unfolding part_beq
part_beq_iff a b = test_of_iff PartTable-discrete a b

OwnedTable-discrete : Discrete OwnedTable
OwnedTable-discrete = hlevel

unfoldable pub owned_beq : OwnedTable → OwnedTable → Bool
unfolding OwnedTable-discrete
owned_beq a b = test_of OwnedTable-discrete a b

pub owned_beq_iff : (a b : OwnedTable) → (owned_beq a b ≡ true) ↔ (a ≡ b)
unfolding owned_beq
owned_beq_iff a b = test_of_iff OwnedTable-discrete a b

pub record Store : Type 0 where
  pub students : List Student
  pub deletions : List Deletion
  pub tokens : List Token
  pub sessions : List Session
  pub outbox : Table
  -- the session of each row
  pub parts : PartTable → List String
  -- the student of each row
  pub owned : OwnedTable → List String

pub data PersonalTable : Type 0 where
  student_tokens study_sessions memory_outbox : PersonalTable
  part : PartTable → PersonalTable
  owned_rows : OwnedTable → PersonalTable

-- `SELECT session_id FROM study_sessions WHERE student_id = …`
abbrev pub sessions_of : String → List Session → List String
sessions_of student [] = []
sessions_of student (s ∷ rest) =
    if s.student_id == student
    then s.session_id ∷ sessions_of student rest
    else sessions_of student rest

-- One statement of `_PG_DELETIONS`.
unfoldable pub delete_rows : String → PersonalTable → Store → Store
delete_rows student student_tokens s = record s {
  tokens = filter_by (λ t. not (t.student_id == student)) s.tokens;
}
delete_rows student study_sessions s = record s {
  sessions = filter_by (λ t. not (t.student_id == student)) s.sessions;
}
delete_rows student memory_outbox s = record s {
  outbox = filter_by (λ r. not (r.student_id == student)) s.outbox;
}
delete_rows student (part t) s = record s {
  parts = λ u.
      if part_beq u t
      then filter_by (λ sid. not (contains (sessions_of student s.sessions) sid)) (s.parts u)
      else s.parts u;
}
delete_rows student (owned_rows t) s = record s {
  owned = λ u.
      if owned_beq u t then filter_by (λ owner. not (owner == student)) (s.owned u) else s.owned u;
}

-- `_PG_DELETIONS`: what names a session goes before the sessions.
abbrev pub pg_deletions : List PersonalTable
pg_deletions =
    student_tokens
    ∷ owned_rows student_skill_states
    ∷ owned_rows study_plans
    ∷ part session_branches
    ∷ part session_items
    ∷ owned_rows answer_attempts
    ∷ study_sessions
    ∷ owned_rows learning_events
    ∷ owned_rows agent_events
    ∷ owned_rows misconception_evidence
    ∷ owned_rows learning_episodes
    ∷ owned_rows student_memory_facts
    ∷ owned_rows intervention_stats
    ∷ memory_outbox
    ∷ owned_rows devices
    ∷ owned_rows sync_conflicts
    ∷ owned_rows legacy_mastery_imports
    ∷ []

-- The loop over the statements.
unfoldable pub delete_all : String → List PersonalTable → Store → Store
delete_all student [] s = s
delete_all student (t ∷ rest) s = delete_all student rest (delete_rows student t s)
