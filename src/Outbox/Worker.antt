-- ===== src/Outbox/Worker.antt =====
-- Delivery of claimed rows (memory/worker.py): `OutboxWorker._deliver_rows` with the index as a
-- parameter.
use Prim.Native.String.{◌++◌}
use bridgesat_agent.Common.{
  ℕ, ◌+◌, Bool, false, not, ◌&&◌, ◌||◌, String, Option, none, some, List, [], ◌∷◌, if◌then◌else◌,
  ◌==◌, string_eq, option_eq, nat_eq, insert,
}
use bridgesat_agent.Outbox.Rows.{Status, Row, Table}
use bridgesat_agent.Outbox.Repository.{complete, mark_deleted, mark_failed}

-- What the worker asks of the configured index: whether it has a method, and the text of the
-- exception that a call of it for a row raises, or `none` when the call returns. A claimed row is
-- delivered once, so the answer is a function of the row.
pub record Index : Type 0 where
  pub has_method : String → Bool
  pub raises : String → Row → Option String

-- The tables and the diagnostics of a worker.
pub record Worker : Type 0 where
  pub table : Table
  pub processed_total : ℕ
  pub successful_total : ℕ
  pub failed_total : ℕ
  pub last_errors : List (String × String)

-- `DISPATCH_BY_OPERATION.get(operation)`
abbrev pub dispatch_by_operation : String → Option String
dispatch_by_operation operation =
    if operation == "upsert_episode"
    then some "upsert_episode"
    else if operation == "upsert_fact"
    then some "upsert_fact"
    else if operation == "delete_student"
    then some "delete_student"
    else none

-- `_record_stale`
abbrev pub record_stale : String → Worker → Worker
record_stale outbox_id w = record w {
  last_errors = insert outbox_id "stale claim; superseded by another worker" w.last_errors;
}

-- `_record_failure`
abbrev pub record_failure : String → Option Status → String → Worker → Worker
record_failure outbox_id none error w = record_stale outbox_id w
record_failure outbox_id (some status) error w = record w {
  failed_total = w.failed_total + 1;
  last_errors = insert outbox_id error w.last_errors;
}

-- The calls of the repository with a record's token. `claim_token = NULL` matches no row.
abbrev pub fail_claim : Row → Option String → String → ℕ → Table → Option Status × Table
fail_claim row none error now table = (none, table)
fail_claim row (some token) error now table = mark_failed row.outbox_id token error now table

abbrev pub finish_claim : Row → Option String → String → ℕ → Table → Bool × Table
finish_claim row none method now table = (false, table)
finish_claim row (some token) method now table =
    if method == "delete_student"
    then mark_deleted row.outbox_id token now table
    else complete row.outbox_id token now table

-- `mark_failed` and `_record_failure`, as all three error paths of a delivery call them.
unfoldable pub give_up : Row → String → ℕ → Worker → Worker
give_up row error now w =
    let (status, table') = fail_claim row row.claim_token error now w.table in
    record_failure row.outbox_id status error (record w { table = table' })

-- After the index took the row: the completion, or the loss of the claim.
unfoldable pub settle : Row → String → ℕ → Worker → Worker
settle row method now w =
    let (completed, table') = finish_claim row row.claim_token method now w.table in
    let stored : Worker = record w { table = table' } in
    if completed
    then record stored { successful_total = w.successful_total + 1 }
    else record_stale row.outbox_id stored

module _ (index : Index) (quoted : Option String → String) (first_500 : String → String) where
  -- The body of the loop of `_deliver_rows`. `quoted` is Python's `repr` and `first_500` its slice
  -- `[:MAX_ERROR_LENGTH]`.
  unfoldable pub deliver_row : ℕ → Row → Worker → Worker
  deliver_row now row w = elim (dispatch_by_operation row.operation) [
    | none ↦ give_up row (first_500 ("unsupported operation " ++ row.operation)) now w
    | some method ↦
        if not (index.has_method method)
        then give_up row (first_500 ("unsupported operation " ++ row.operation)) now w
        else if (method == "upsert_episode" || method == "upsert_fact")
            && not (row.payload_student_id == some row.student_id)
        then give_up row
            (first_500 (
              "payload student_id "
              ++ (quoted row.payload_student_id
                  ++ (" does not match authoritative student_id "
                      ++ quoted (some row.student_id)))))
            now w
        else elim (index.raises method row) [
          | none ↦ settle row method now w
          | some error ↦ give_up row (first_500 error) now w
        ]
  ]

  -- `_deliver_rows`
  unfoldable pub deliver_rows : ℕ → List Row → Worker → Worker
  deliver_rows now [] w = w
  deliver_rows now (row ∷ rows) w = deliver_rows now rows (deliver_row now row w)
