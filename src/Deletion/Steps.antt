-- ===== src/Deletion/Steps.antt =====
-- `StudentMemoryDeletionService` of memory/deletion.py: request, removal, completion. A step that
-- raises gives the store of the last commit.
use bridgesat_agent.Common.{
  ℕ, suc, Bool, true, false, not, ◌&&◌, String, Option, none, some, List, [], ◌∷◌, ◌++◌, length,
  if◌then◌else◌, ◌==◌, string_eq, nat_eq, leb, option_eq, filter_by, find_by, update_by, sort_by,
}
use bridgesat_agent.Outbox.Rows.{Row, Table, dead_letter, status_eq}
use bridgesat_agent.Outbox.Repository.{Request, enqueue}
use bridgesat_agent.Outbox.Worker.{Worker}
use bridgesat_agent.Outbox.Batches.{Surroundings, run_pending}
use bridgesat_agent.Deletion.Store.{
  StudentStatus, active, deletion_pending, deleted, standing_eq, DeletionState, requested,
  sqlite_deleted, index_deletion_pending, verified, failed, Deletion, Store, pg_deletions,
  delete_all,
}

-- The errors that the steps raise.
pub data Fault : Type 0 where
  unknown_student : Fault
  not_active : StudentStatus → Fault
  no_longer_active : Fault
  invalid_transition : Option DeletionState → DeletionState → Fault
  wrong_state : Option DeletionState → Fault
  not_deletion_pending : Fault
  duplicate_key : Fault

pub data Outcome {ℓ} (A : Type ℓ) : Type ℓ where
  returned : A → Store → Outcome A
  raised : Fault → Store → Outcome A

-- `except BaseException: rollback; raise`, to the store of the last commit.
abbrev pub rollback {ℓ} : {A : Type ℓ} → Store → Outcome A → Outcome A
rollback s (raised fault _) = raised fault s
rollback s (returned a t) = returned a t

-- `_ALLOWED_TRANSITIONS`
unfoldable pub may_follow : Option DeletionState → DeletionState → Bool
may_follow none requested = true
may_follow (some requested) requested = true
may_follow (some requested) sqlite_deleted = true
may_follow (some sqlite_deleted) sqlite_deleted = true
may_follow (some sqlite_deleted) index_deletion_pending = true
may_follow (some sqlite_deleted) verified = true
may_follow (some sqlite_deleted) failed = true
may_follow (some index_deletion_pending) index_deletion_pending = true
may_follow (some index_deletion_pending) verified = true
may_follow (some index_deletion_pending) failed = true
may_follow (some verified) verified = true
may_follow (some failed) failed = true
may_follow _ _ = false

abbrev pub state_in : Option Deletion → Option DeletionState
state_in none = none
state_in (some d) = some d.state

-- The student's row of `student_deletions`, and its state: `deletion_status`.
abbrev pub deletion_of : String → Store → Option Deletion
deletion_of student s = find_by (λ d. d.student_id == student) s.deletions

abbrev pub deletion_status : String → Store → Option DeletionState
deletion_status student s = state_in (deletion_of student s)

-- The columns of a state that has its own time.
abbrev pub stamp : DeletionState → ℕ → Option String → Deletion → Deletion
stamp sqlite_deleted now error d = record d {
  state = sqlite_deleted;
  sqlite_deleted_at = some now;
  last_error = error;
}
stamp index_deletion_pending now error d = record d {
  state = index_deletion_pending;
  index_deletion_pending_at = some now;
  last_error = error;
}
stamp verified now error d = record d {
  state = verified;
  verified_at = some now;
  last_error = error;
}
stamp state now error d = record d { state = state; last_error = error }

abbrev pub new_deletion : String → String → DeletionState → ℕ → Deletion
new_deletion draw student state now = record {
  deletion_id = draw;
  student_id = student;
  state = state;
  requested_at = now;
  sqlite_deleted_at = none;
  index_deletion_pending_at = none;
  verified_at = none;
  last_error = none;
}

-- `_set_state` with `started`: the row is added or set back; `draw` is the new row's id.
unfoldable pub start_state : String → String → DeletionState → ℕ → Store → Outcome (Unit {0})
start_state student draw state now s =
    if may_follow (deletion_status student s) state
    then elim (deletion_of student s) [
      | none ↦ elim (find_by (λ d. d.deletion_id == draw) s.deletions) [
        | some _ ↦ raised duplicate_key s
        | none ↦
            returned tt
              (record s { deletions = s.deletions ++ new_deletion draw student state now ∷ [] })
      ]
      | some _ ↦ returned tt (record s {
        deletions =
            update_by (λ d. d.student_id == student)
              (λ d. record d { state = state; last_error = none }) s.deletions;
      })
    ]
    else raised (invalid_transition (deletion_status student s) state) s

-- `_set_state` without `started`.
unfoldable pub set_state : String → DeletionState → Option String → ℕ → Store → Outcome (Unit {0})
set_state student state error now s =
    if may_follow (deletion_status student s) state
    then returned tt (record s {
      deletions = update_by (λ d. d.student_id == student) (stamp state now error) s.deletions;
    })
    else raised (invalid_transition (deletion_status student s) state) s

-- `UPDATE students SET status = … WHERE id = … AND status = …`: the row that was changed, if any.
unfoldable pub move_student : String → StudentStatus → StudentStatus → ℕ → Store → Option Store
move_student student from new_status now s =
    elim (find_by (λ t. t.id == student && t.status == from) s.students) [
      | none ↦ none
      | some _ ↦ some (record s {
        students =
            update_by (λ t. t.id == student && t.status == from)
              (λ t. record t { status = new_status; updated_at = now }) s.students;
      })
    ]

abbrev pub is_live : Option ℕ → Bool
is_live none = true
is_live (some at) = false

unfoldable pub revoke_tokens : String → ℕ → Store → Store
revoke_tokens student now s = record s {
  tokens =
      update_by (λ t. t.student_id == student && is_live t.revoked_at)
        (λ t. record t { revoked_at = some now }) s.tokens;
}

-- `request_deletion`
unfoldable pub request_deletion : String → String → ℕ → Store → Outcome (Unit {0})
request_deletion student draw now s = elim (find_by (λ t. t.id == student) s.students) [
  | none ↦ raised unknown_student s
  | some t ↦
      if not (t.status == active)
      then raised (not_active t.status) s
      else elim (start_state student draw requested now s) [
        | raised fault _ ↦ raised fault s
        | returned _ started ↦ elim (move_student student active deletion_pending now started) [
          | none ↦ raised no_longer_active s
          | some moved ↦ returned tt (revoke_tokens student now moved)
        ]
      ]
]

abbrev pub deletion_request : String → Request
deletion_request student = record {
  student_id = student;
  aggregate_type = "student";
  aggregate_id = student;
  operation = "delete_student";
  payload_student_id = some student;
  version = 1;
}

-- `execute_sqlite_deletion`: the rows go, the outbox event and the state come, in one transaction.
unfoldable pub execute_sqlite_deletion : String → String → ℕ → Store → Outcome (Unit {0})
execute_sqlite_deletion student outbox_id now s =
    let cleared : Store = delete_all student pg_deletions s in
    elim (enqueue outbox_id now (deletion_request student) cleared.outbox) [
      | none ↦ raised duplicate_key s
      | some (_, outbox) ↦
          rollback s
            (set_state student sqlite_deleted none now (record cleared { outbox = outbox }))
    ]

-- What the deletion asks of the configured index beside the deliveries: the answer of
-- `verify_student_deleted`, or the counts of episodes and facts, where it has them.
pub record DeletionIndex : Type 0 where
  pub surroundings : Surroundings
  pub verify_student_deleted : Option (String → Bool)
  pub counts : Option (String → ℕ × ℕ)

-- `verify_not_retrievable`
unfoldable pub verify_not_retrievable : Option DeletionIndex → String → Bool
verify_not_retrievable none student = true
verify_not_retrievable (some index) student = elim index.verify_student_deleted [
  | some verify ↦ verify student
  | none ↦ elim index.counts [
    | none ↦ false
    | some count ↦ let (episodes, facts) = count student in episodes == 0 && facts == 0
  ]
]

-- `_finalize_verified`
unfoldable pub finalize_verified : String → ℕ → Store → Outcome (Unit {0})
finalize_verified student now s = elim (set_state student verified none now s) [
  | raised fault _ ↦ raised fault s
  | returned _ marked ↦ elim (move_student student deletion_pending deleted now marked) [
    | none ↦ raised not_deletion_pending s
    | some done ↦ returned tt done
  ]
]

-- The worker's batch for the student. The fuel is one round more than the table has rows.
unfoldable pub deliver_for : Surroundings → String → ℕ → ℕ → ℕ → Store → Store
deliver_for env student now lease batch_size s =
    let worker : Worker = record {
      table = s.outbox;
      processed_total = 0;
      successful_total = 0;
      failed_total = 0;
      last_errors = [];
    } in
    elim (run_pending (suc (length s.outbox)) (some env) now lease batch_size
      (record { student = some student; outbox_ids = none }) worker) [
        | none ↦ s
        | some (_, w) ↦ record s { outbox = w.table }
      ]

abbrev pub first_error : List Row → Option (Option String)
first_error [] = none
first_error (r ∷ rest) = some r.last_error

-- The dead `delete_student` rows of the student, the oldest first, and the error of the first.
unfoldable pub dead_deletion : String → Table → Option (Option String)
dead_deletion student outbox = first_error (
    filter_by (λ r. r.operation == "delete_student" && r.aggregate_id == student)
      (sort_by (λ a b. leb a.created_at b.created_at)
        (filter_by (λ r. r.status == dead_letter) outbox)))

-- `_completion_state`
abbrev pub is_completable : Option DeletionState → Bool
is_completable (some sqlite_deleted) = true
is_completable (some index_deletion_pending) = true
is_completable _ = false

abbrev pub report {ℓ κ} : {A : Type ℓ} {B : Type κ} → B → Outcome A → Outcome B
report b (returned _ s) = returned b s
report b (raised fault s) = raised fault s

-- After the delivery: the end, the failure or another wait.
unfoldable pub conclude : Option DeletionIndex → String → ℕ → Store → Outcome Bool
conclude index student now s =
    if verify_not_retrievable index student
    then report true (finalize_verified student now s)
    else elim (dead_deletion student s.outbox) [
      | some error ↦ report false (set_state student failed error now s)
      | none ↦ report false (set_state student index_deletion_pending none now s)
    ]

-- `complete_index_deletion`
unfoldable pub complete_index_deletion :
    Option DeletionIndex → String → ℕ → ℕ → ℕ → Store → Outcome Bool
complete_index_deletion index student now lease batch_size s =
    if not (is_completable (deletion_status student s))
    then raised (wrong_state (deletion_status student s)) s
    else elim index [
      | none ↦ report true (finalize_verified student now s)
      | some i ↦
          conclude (some i) student now (deliver_for i.surroundings student now lease batch_size s)
    ]
