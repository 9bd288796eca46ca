-- ===== src/Deletion/Erasure.antt =====
-- What the removal of the personal rows leaves (memory/deletion.py, `execute_sqlite_deletion`).
use bridgesat_agent.Common.{
  ◌≡◌, refl, true, not, ◌||◌, String, some, ◌==◌, string_eq, contains, filter_by, find_by, All,
}
use bridgesat_agent.Outbox.Rows.{Row, Table}
use bridgesat_agent.Outbox.Repository.{key_of}
use bridgesat_agent.Deletion.Store.{
  PartTable, session_branches, session_items, OwnedTable, student_skill_states, Store, part_beq,
  owned_beq, sessions_of, delete_rows, pg_deletions, delete_all,
}
use bridgesat_agent.Deletion.Steps.{deletion_request}

-- The student's rows are gone: `before` holds the sessions that named them.
pub record IsErased (student : String) (before after : Store) : Type 0 where
  pub tokens : All (λ t. not (t.student_id == student) ≡ true) after.tokens
  pub sessions : All (λ t. not (t.student_id == student) ≡ true) after.sessions
  pub parts :
      (t : PartTable)
      → All (λ sid. not (contains (sessions_of student before.sessions) sid) ≡ true) (after.parts t)
  pub owned : (t : OwnedTable) → All (λ owner. not (owner == student) ≡ true) (after.owned t)

-- What is not the student's is as it was.
pub record IsSpared (student : String) (before after : Store) : Type 0 where
  pub tokens : filter_by (λ t. not (t.student_id == student)) before.tokens ≡ after.tokens
  pub sessions : filter_by (λ t. not (t.student_id == student)) before.sessions ≡ after.sessions
  pub parts :
      (t : PartTable)
      → filter_by (λ sid. not (contains (sessions_of student before.sessions) sid)) (before.parts t)
        ≡ after.parts t
  pub owned :
      (t : OwnedTable)
      → filter_by (λ owner. not (owner == student)) (before.owned t) ≡ after.owned t
  pub students : after.students ≡ before.students

delete_all-parts :
    (student : String) (s : Store) (t : PartTable)
    → filter_by (λ sid. not (contains (sessions_of student s.sessions) sid)) (s.parts t)
      ≡ (delete_all student pg_deletions s).parts t
unfolding delete_all delete_rows part_beq
delete_all-parts student s session_branches = refl
delete_all-parts student s session_items = refl

delete_all-owned :
    (student : String) (s : Store) (t : OwnedTable)
    → filter_by (λ owner. not (owner == student)) (s.owned t)
      ≡ (delete_all student pg_deletions s).owned t
unfolding delete_all delete_rows owned_beq
delete_all-owned student s student_skill_states = refl
delete_all-owned student s _ = refl

pub delete_all-IsSpared :
    (student : String) (s : Store) → IsSpared student s (delete_all student pg_deletions s)
unfolding delete_all delete_rows
delete_all-IsSpared student s = record {
  tokens = refl;
  sessions = refl;
  parts = delete_all-parts student s;
  owned = delete_all-owned student s;
  students = refl;
}

pub delete_all-deletions :
    (student : String) (s : Store) → (delete_all student pg_deletions s).deletions ≡ s.deletions
unfolding delete_all delete_rows
delete_all-deletions student s = refl

-- Of the student's rows of the outbox only the request to the index is left, and it is there.
abbrev pub HasOnlyRequest : String → Table → Type 0
HasOnlyRequest student outbox =
    All (λ r. not (r.student_id == student) || r.operation == "delete_student" ≡ true) outbox
    × ((r : Row) × (find_by (λ r. r.idempotency_key == key_of (deletion_request student)) outbox
          ≡ some r))
