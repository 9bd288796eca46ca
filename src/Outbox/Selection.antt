-- ===== src/Outbox/Selection.antt =====
-- The rows that a claim selects (memory/outbox.py).
use bridgesat_agent.Common.{
  ap, All-take, ℕ, suc, ◌≤◌, ◌≡◌, inl, inr, refl, Bool, true, not, ◌&&◌, String, some, List, [],
  ◌∷◌, arith, take, length, length-take_le, ◌==◌, nat_eq, string_eq, contains, filter_by, update_by,
  sort_by, All, All-filter_by, All-sort_by, Bool-cases,
}
use bridgesat_agent.Outbox.Rows.{status_eq, Row, Table}
use bridgesat_agent.Outbox.Repository.{
  Scope, in_scope, is_due, by_due_time, select_due, hold, claim_rows, claim_due, is_nothing,
}

select_due-IsDue :
    (P : Row → Type 0) (now batch : ℕ) (scope : Scope) (locked : List String) (table : Table)
    → All P table
    → All
        (λ r.
          P r × ((is_due now r && in_scope scope r && not (contains locked r.outbox_id)) ≡ true))
        (select_due now batch scope locked table)
unfolding select_due
select_due-IsDue P now batch scope locked table h =
    let test : Row → Bool =
      λ r. is_due now r && in_scope scope r && not (contains locked r.outbox_id) in
    let Q : Row → Type 0 = λ r. P r × (test r ≡ true) in
    All-take Q batch (sort_by by_due_time (filter_by test table))
      (All-sort_by Q by_due_time (filter_by test table) (All-filter_by P test table h))

-- What holds of the selected rows but for their tokens holds of the claimed records.
claim_rows-All :
    (Q : Row → Type 0)
    → ((r : Row) (t : String) → Q r → Q (record r { claim_token = some t }))
    → (tokens : ℕ → String) (lease k : ℕ) (rows : List Row) (table : Table) → All Q rows
    → All Q (claim_rows tokens lease k rows table).0
unfolding claim_rows
claim_rows-All Q keep tokens lease k [] table h = tt
claim_rows-All Q keep tokens lease k (row ∷ rows) table h = (
  keep row (tokens k) h.0,
  claim_rows-All Q keep tokens lease (suc k) rows
      (update_by (λ r. r.outbox_id == row.outbox_id) (hold lease (tokens k)) table) h.1,
)

pub claim_due-All :
    (P : Row → Type 0)
    → ((r : Row) (t : String) → P r → P (record r { claim_token = some t }))
    → (tokens : ℕ → String) (now lease batch : ℕ) (scope : Scope) (locked : List String)
      (table : Table)
    → All P table
    → All
        (λ r.
          P r × ((is_due now r && in_scope scope r && not (contains locked r.outbox_id)) ≡ true))
        (claim_due tokens now lease batch scope locked table).0
unfolding claim_due
claim_due-All P keep tokens now lease batch scope locked table h =
    elim (Bool-cases (is_nothing scope.outbox_ids)) [
      | inl nothing ↦ rw nothing tt
      | inr something ↦ rw something (
          claim_rows-All
            (λ r.
              P r
              × ((is_due now r && in_scope scope r && not (contains locked r.outbox_id)) ≡ true))
            (λ r t q. (keep r t q.0, unfold is_due in q.1)) tokens lease 0
            (select_due now batch scope locked table) table
            (select_due-IsDue P now batch scope locked table h))
    ]

length-claim_rows :
    (tokens : ℕ → String) (lease k : ℕ) (rows : List Row) (table : Table)
    → length (claim_rows tokens lease k rows table).0 ≡ length rows
unfolding claim_rows
length-claim_rows tokens lease k [] table = refl
length-claim_rows tokens lease k (row ∷ rows) table = ap suc (
    length-claim_rows tokens lease (suc k) rows
      (update_by (λ r. r.outbox_id == row.outbox_id) (hold lease (tokens k)) table))

pub length-claim_due :
    (tokens : ℕ → String) (now lease batch : ℕ) (scope : Scope) (locked : List String)
    (table : Table)
    → length (claim_due tokens now lease batch scope locked table).0 ≤ batch
unfolding claim_due select_due
length-claim_due tokens now lease batch scope locked table =
    elim (Bool-cases (is_nothing scope.outbox_ids)) [
      | inl nothing ↦ rw nothing (omega arith)
      | inr something ↦
          let rows : List Row = sort_by by_due_time (
            filter_by (λ r. is_due now r && in_scope scope r && not (contains locked r.outbox_id))
              table) in
          rw something (
            omega (
              arith,
              length-claim_rows tokens lease 0 (take batch rows) table,
              length-take_le {0} batch rows,
            ))
    ]
