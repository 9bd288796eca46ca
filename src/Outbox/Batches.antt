-- ===== src/Outbox/Batches.antt =====
-- A batch of the worker (memory/worker.py): `OutboxWorker.run_pending`, and the choice of the next
-- student, `OutboxRepository.due_student_id` (memory/outbox.py). No other transaction changes the
-- table while a batch runs; the rows that others lock are an argument of every round.
use bridgesat_agent.Common.{
  ℕ, zero, suc, ◌+◌, ◌-◌, Bool, true, false, not, ◌&&◌, ◌||◌, String, Option, none, some, List, [],
  ◌∷◌, length, if◌then◌else◌, ◌==◌, ltb, string_eq, nat_eq, contains, filter_by, sort_by,
}
use bridgesat_agent.Outbox.Rows.{Row, Table}
use bridgesat_agent.Outbox.Repository.{Scope, is_due, in_scope, is_nothing, claim_due}
use bridgesat_agent.Outbox.Worker.{Index, Worker, deliver_rows}

-- `if exclude_student_ids is not None and not exclude_student_ids: exclude_student_ids = None`
abbrev pub drop_empty : Option (List String) → Option (List String)
drop_empty none = none
drop_empty (some []) = none
drop_empty (some (x ∷ xs)) = some (x ∷ xs)

abbrev pub passes_excluded : Option (List String) → String → Bool
passes_excluded none s = true
passes_excluded (some students) s = not (contains students s)

-- `LIMIT 1` and the column `student_id`
abbrev pub student_of_first : List Row → Option String
student_of_first [] = none
student_of_first (r ∷ rest) = some r.student_id

-- The order of the text column `student_id` is the database's.
module _ (precedes : String → String → Bool) where
  -- `ORDER BY next_attempt_at, created_at, student_id`
  abbrev pub by_student : Row → Row → Bool
  by_student a b =
      ltb a.next_attempt_at b.next_attempt_at
      || (a.next_attempt_at == b.next_attempt_at
          && (ltb a.created_at b.created_at
              || (a.created_at == b.created_at && precedes a.student_id b.student_id)))

  -- `due_student_id`
  unfoldable pub due_student_id : ℕ → Scope → Option (List String) → Table → Option String
  due_student_id now scope exclude table =
      if is_nothing scope.outbox_ids
      then none
      else student_of_first (
          sort_by by_student (
            filter_by
              (λ r.
                is_due now r
                && in_scope scope r
                && passes_excluded (drop_empty exclude) r.student_id)
              table))

-- What a batch has at hand: the index, the printing of its errors, the order of the students, the
-- claim tokens that a round draws and the rows that others lock in it.
pub record Surroundings : Type 0 where
  pub index : Index
  pub quoted : Option String → String
  pub first_500 : String → String
  pub precedes : String → String → Bool
  pub tokens : ℕ → ℕ → String
  pub locked : ℕ → List String

module _ (env : Surroundings) (now lease batch_size : ℕ) (scope : Scope) where
  -- What a round claims for its student.
  abbrev pub claim_for : ℕ → String → ℕ → Table → List Row × Table
  claim_for k student processed table =
      claim_due (env.tokens k) now lease (batch_size - processed)
        (record { student = some student; outbox_ids = scope.outbox_ids }) (env.locked k) table

  -- The worker after a round: claimed rows are delivered.
  abbrev pub after_round : ℕ → String → ℕ → Worker → Worker
  after_round k student processed w =
      let (rows, table') = claim_for k student processed w.table in
      deliver_rows env.index env.quoted env.first_500 now rows (record w { table = table' })

  -- The loop of `run_pending` with the number of the round, the rows processed and the students
  -- seen; a round without rows goes on with the next student. `none` stands for no fuel.
  unfoldable pub rounds : ℕ → ℕ → ℕ → List String → Worker → Option (ℕ × Worker)
  rounds zero k processed students w = none
  rounds (suc fuel) k processed students w = elim (ltb processed batch_size) [
    | false ↦ some (processed, record w { processed_total = w.processed_total + processed })
    | true ↦ elim (due_student_id env.precedes now scope (some students) w.table) [
      | none ↦ some (processed, record w { processed_total = w.processed_total + processed })
      | some student ↦
          rounds fuel (suc k) (processed + length (claim_for k student processed w.table).0)
            (student ∷ students) (after_round k student processed w)
    ]
  ]

-- `_reset_run_state`
abbrev pub reset_run_state : Worker → Worker
reset_run_state w = record w { successful_total = 0; failed_total = 0; last_errors = [] }

-- `run_pending` on fuel: the number of rows, and the worker. Without an index nothing is claimed.
unfoldable pub run_pending :
    ℕ → Option Surroundings → ℕ → ℕ → ℕ → Scope → Worker → Option (ℕ × Worker)
run_pending fuel none now lease batch_size scope w = some (0, reset_run_state w)
run_pending fuel (some env) now lease batch_size scope w =
    rounds env now lease batch_size scope fuel 0 0 [] (reset_run_state w)
