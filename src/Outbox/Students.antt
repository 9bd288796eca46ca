-- ===== src/Outbox/Students.antt =====
-- No operation of the outbox changes whose row a row is (memory/outbox.py, memory/worker.py).
use bridgesat_agent.Common.{
  ℕ, suc, ◌+◌, ◌≡◌, refl, Bool, String, Option, none, some, List, [], ◌∷◌, ◌==◌, string_eq, nat_eq,
  find_by, count_by, update_by, Bool-cases, Option-cases, inl, inr,
}
use bridgesat_agent.Outbox.Rows.{Row, Table, indexed, deleted}
use bridgesat_agent.Outbox.Repository.{
  Scope, select_due, claim_rows, claim_due, is_nothing, is_owned, hold, finish, fail_with,
  after_failure, complete, mark_deleted, mark_failed,
}
use bridgesat_agent.Outbox.Worker.{
  Index, Worker, fail_claim, finish_claim, give_up, settle, deliver_row, deliver_rows,
}
use bridgesat_agent.Outbox.Delivery.{deliver_row-cases}

abbrev pub students_of : Table → List String
students_of [] = []
students_of (r ∷ rest) = r.student_id ∷ students_of rest

students-update :
    (test : Row → Bool) (f : Row → Row) (table : Table)
    → ((r : Row) → (f r).student_id ≡ r.student_id)
    → students_of (update_by test f table) ≡ students_of table
unfolding update_by
students-update test f [] keep = refl
students-update test f (r ∷ rest) keep = elim (Bool-cases (test r)) [
  | inl e ↦ rw (e, keep r, students-update test f rest keep) refl
  | inr e ↦ rw (e, students-update test f rest keep) refl
]

students-claim_rows :
    (tokens : ℕ → String) (lease k : ℕ) (rows : List Row) (table : Table)
    → students_of (claim_rows tokens lease k rows table).1 ≡ students_of table
unfolding claim_rows
students-claim_rows tokens lease k [] table = refl
students-claim_rows tokens lease k (row ∷ rows) table =
    let held : Table =
      update_by (λ r. r.outbox_id == row.outbox_id) (hold lease (tokens k)) table in
    let rest : students_of (claim_rows tokens lease (suc k) rows held).1 ≡ students_of held =
      students-claim_rows tokens lease (suc k) rows held in
    let same : students_of held ≡ students_of table =
      students-update (λ r. r.outbox_id == row.outbox_id) (hold lease (tokens k)) table
        (λ r. refl) in
    cc

pub students-claim_due :
    (tokens : ℕ → String) (now lease batch : ℕ) (scope : Scope) (locked : List String)
    (table : Table)
    → students_of (claim_due tokens now lease batch scope locked table).1 ≡ students_of table
unfolding claim_due
students-claim_due tokens now lease batch scope locked table =
    elim (Bool-cases (is_nothing scope.outbox_ids)) [
      | inl nothing ↦ rw nothing refl
      | inr something ↦
          rw something
            (students-claim_rows tokens lease 0 (select_due now batch scope locked table) table)
    ]

students-mark_failed :
    (id token error : String) (now : ℕ) (table : Table)
    → students_of (mark_failed id token error now table).1 ≡ students_of table
unfolding mark_failed
students-mark_failed id token error now table =
    elim (Option-cases (find_by (is_owned id token) table)) [
      | inl lost ↦ rw (lost, mark_failed) refl
      | inr (row, held) ↦
          let n : ℕ = row.attempt_count + 1 in
          let same : students_of (
                update_by (is_owned id token)
                  (fail_with (after_failure n now).0 n (after_failure n now).1 error) table)
              ≡ students_of table =
            students-update (is_owned id token) _ table (λ r. refl) in
          elim (Bool-cases (count_by (is_owned id token) table == 1)) [
            | inl one ↦ rw (held, one, mark_failed) same
            | inr other ↦ rw (held, other, mark_failed) same
          ]
    ]

students-fail_claim :
    (row : Row) (held : Option String) (error : String) (now : ℕ) (table : Table)
    → students_of (fail_claim row held error now table).1 ≡ students_of table
students-fail_claim row none error now table = refl
students-fail_claim row (some token) error now table =
    students-mark_failed row.outbox_id token error now table

students-finish_claim :
    (row : Row) (held : Option String) (method : String) (now : ℕ) (table : Table)
    → students_of (finish_claim row held method now table).1 ≡ students_of table
unfolding complete mark_deleted
students-finish_claim row none method now table = refl
students-finish_claim row (some token) method now table =
    elim (Bool-cases (method == "delete_student")) [
      | inl e ↦
          rw e
            (students-update (is_owned row.outbox_id token) (finish deleted now) table (λ r. refl))
      | inr e ↦
          rw e
            (students-update (is_owned row.outbox_id token) (finish indexed now) table (λ r. refl))
    ]

students-give_up :
    (row : Row) (error : String) (now : ℕ) (w : Worker)
    → students_of (give_up row error now w).table ≡ students_of w.table
unfolding give_up
students-give_up row error now w =
    elim (Option-cases (fail_claim row row.claim_token error now w.table).0) [
      | inl lost ↦ rw (lost, give_up) (students-fail_claim row row.claim_token error now w.table)
      | inr (status, held) ↦
          rw (held, give_up) (students-fail_claim row row.claim_token error now w.table)
    ]

students-settle :
    (row : Row) (method : String) (now : ℕ) (w : Worker)
    → students_of (settle row method now w).table ≡ students_of w.table
unfolding settle
students-settle row method now w =
    elim (Bool-cases (finish_claim row row.claim_token method now w.table).0) [
      | inl done ↦ rw (done, settle) (students-finish_claim row row.claim_token method now w.table)
      | inr lost ↦ rw (lost, settle) (students-finish_claim row row.claim_token method now w.table)
    ]

pub students-deliver_rows :
    (index : Index) (quoted : Option String → String) (first_500 : String → String) (now : ℕ)
    (rows : List Row) (w : Worker)
    → students_of (deliver_rows index quoted first_500 now rows w).table ≡ students_of w.table
unfolding deliver_rows
students-deliver_rows index quoted first_500 now [] w = refl
students-deliver_rows index quoted first_500 now (row ∷ rows) w =
    let v : Worker = deliver_row index quoted first_500 now row w in
    let rest : students_of (deliver_rows index quoted first_500 now rows v).table
        ≡ students_of v.table =
      students-deliver_rows index quoted first_500 now rows v in
    let same : students_of v.table ≡ students_of w.table =
      deliver_row-cases index quoted first_500 (λ v. students_of v.table ≡ students_of w.table) now
        row w (λ error. students-give_up row error now w)
        (λ method. students-settle row method now w) in
    cc
