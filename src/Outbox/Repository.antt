-- ===== src/Outbox/Repository.antt =====
-- `OutboxRepository` of memory/outbox.py: the operations on the table.
use bridgesat_agent.Common.{
  ℕ, suc, ◌+◌, Bool, true, false, not, ◌&&◌, ◌||◌, String, Option, none, some, List, [], ◌∷◌, ◌++◌,
  ltb, leb, take, if◌then◌else◌, ◌==◌, nat_eq, string_eq, option_eq, contains, filter_by, count_by,
  update_by, find_by, sort_by,
}
use bridgesat_agent.Outbox.Rows.{
  Status, pending, processing, indexed, retrying, dead_letter, deletion_pending, deleted, status_eq,
  Row, Table, outbox_idempotency_key, next_retry_delay_seconds,
}

-- What the caller of `enqueue` asks for.
pub record Request : Type 0 where
  pub student_id : String
  pub aggregate_type : String
  pub aggregate_id : String
  pub operation : String
  pub payload_student_id : Option String
  pub version : ℕ

abbrev pub key_of : Request → String
key_of q = outbox_idempotency_key q.student_id q.aggregate_type q.aggregate_id q.version q.operation

abbrev pub new_row : String → ℕ → Request → Row
new_row outbox_id now q = record {
  outbox_id = outbox_id;
  student_id = q.student_id;
  aggregate_type = q.aggregate_type;
  aggregate_id = q.aggregate_id;
  operation = q.operation;
  payload_student_id = q.payload_student_id;
  idempotency_key = key_of q;
  status = pending;
  attempt_count = 0;
  next_attempt_at = now;
  last_error = none;
  created_at = now;
  completed_at = none;
  claim_token = none;
}

-- `enqueue`: the id of the row with the key, which is inserted if there is none. `none` is the
-- violation of the primary key, by an id that another row has.
unfoldable pub enqueue : String → ℕ → Request → Table → Option (String × Table)
enqueue outbox_id now q table = elim (find_by (λ r. r.idempotency_key == key_of q) table) [
  | some existing ↦ some (existing.outbox_id, table)
  | none ↦ elim (find_by (λ r. r.outbox_id == outbox_id) table) [
    | some _ ↦ none
    | none ↦ some (outbox_id, table ++ new_row outbox_id now q ∷ [])
  ]
]

-- The condition of `claim_due` and `due_student_id`: a waiting row that is due, or a claim whose
-- lease has run out.
unfoldable pub is_due : ℕ → Row → Bool
is_due now r =
    ((r.status == pending || r.status == retrying || r.status == deletion_pending)
      && leb r.next_attempt_at now)
    || (r.status == processing && leb r.next_attempt_at now)

-- An optional filter that is left out passes.
abbrev pub passes_student : Option String → String → Bool
passes_student none s = true
passes_student (some wanted) s = s == wanted

abbrev pub passes_ids : Option (List String) → String → Bool
passes_ids none s = true
passes_ids (some wanted) s = contains wanted s

-- What a caller restricts a claim to.
pub record Scope : Type 0 where
  pub student : Option String
  pub outbox_ids : Option (List String)

abbrev pub in_scope : Scope → Row → Bool
in_scope scope r =
    passes_student scope.student r.student_id && passes_ids scope.outbox_ids r.outbox_id

-- `ORDER BY next_attempt_at, created_at`
abbrev pub by_due_time : Row → Row → Bool
by_due_time a b =
    ltb a.next_attempt_at b.next_attempt_at
    || (a.next_attempt_at == b.next_attempt_at && leb a.created_at b.created_at)

-- The rows that a claim takes. `locked` are the ids of the rows that other transactions hold, which
-- `SKIP LOCKED` passes over.
unfoldable pub select_due : ℕ → ℕ → Scope → List String → Table → List Row
select_due now batch_size scope locked table = take batch_size (
    sort_by by_due_time (
      filter_by (λ r. is_due now r && in_scope scope r && not (contains locked r.outbox_id)) table))

abbrev pub hold : ℕ → String → Row → Row
hold lease token r = record r {
  status = processing;
  next_attempt_at = lease;
  claim_token = some token;
}

-- The loop over the selected rows; `tokens` are the drawn claim tokens, from the `k`-th on.
unfoldable pub claim_rows : (ℕ → String) → ℕ → ℕ → List Row → Table → List Row × Table
claim_rows tokens lease k [] table = ([], table)
claim_rows tokens lease k (row ∷ rows) table =
    let (claimed, table') =
      claim_rows tokens lease (suc k) rows
        (update_by (λ r. r.outbox_id == row.outbox_id) (hold lease (tokens k)) table) in
    (record row { claim_token = some (tokens k) } ∷ claimed, table')

-- `outbox_ids is not None and not outbox_ids`
abbrev pub is_nothing : Option (List String) → Bool
is_nothing none = false
is_nothing (some []) = true
is_nothing (some (x ∷ xs)) = false

-- `claim_due`
unfoldable pub claim_due : (ℕ → String) → ℕ → ℕ → ℕ → Scope → List String → Table → List Row × Table
claim_due tokens now lease batch_size scope locked table =
    if is_nothing scope.outbox_ids
    then ([], table)
    else claim_rows tokens lease 0 (select_due now batch_size scope locked table) table

-- The row that a worker with this token still holds.
abbrev pub is_owned : String → String → Row → Bool
is_owned outbox_id token r =
    r.outbox_id == outbox_id && r.status == processing && r.claim_token == some token

abbrev pub finish : Status → ℕ → Row → Row
finish status now r = record r {
  status = status;
  completed_at = some now;
  last_error = none;
  claim_token = none;
}

-- `complete` and `mark_deleted`: whether the claim was still held, and the table.
unfoldable pub complete : String → String → ℕ → Table → Bool × Table
complete outbox_id token now table = (
  count_by (is_owned outbox_id token) table == 1,
  update_by (is_owned outbox_id token) (finish indexed now) table,
)

unfoldable pub mark_deleted : String → String → ℕ → Table → Bool × Table
mark_deleted outbox_id token now table = (
  count_by (is_owned outbox_id token) table == 1,
  update_by (is_owned outbox_id token) (finish deleted now) table,
)

abbrev pub fail_with : Status → ℕ → ℕ → String → Row → Row
fail_with status attempts next error r = record r {
  status = status;
  attempt_count = attempts;
  next_attempt_at = next;
  last_error = some error;
  claim_token = none;
}

-- Where a failed delivery goes after this many attempts: its status and the next time.
unfoldable pub after_failure : ℕ → ℕ → Status × ℕ
after_failure attempts now = elim (next_retry_delay_seconds attempts) [
  | none ↦ (dead_letter, now)
  | some delay ↦ (retrying, now + delay)
]

-- `mark_failed`: the new status, or `none` for a claim that is not held any more. `error` is the
-- text after it was cut to 500 characters.
unfoldable pub mark_failed : String → String → String → ℕ → Table → Option Status × Table
mark_failed outbox_id token error now table = elim (find_by (is_owned outbox_id token) table) [
  | none ↦ (none, table)
  | some row ↦
      let attempts : ℕ = row.attempt_count + 1 in
      let (status, next) = after_failure attempts now in
      let table' =
        update_by (is_owned outbox_id token) (fail_with status attempts next error) table in
      if count_by (is_owned outbox_id token) table == 1
      then (some status, table')
      else (none, table')
]
