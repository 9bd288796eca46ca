-- ===== src/Outbox/Termination.antt =====
-- The loop of a batch ends (memory/worker.py, `run_pending`): every round takes another student.
use mathlib.Core.Path.{subst}
use bridgesat_agent.Common.{
  ℕ, zero, suc, ◌+◌, ◌-◌, ◌<◌, ◌≤◌, ◌≡◌, refl, ap, Bool, true, false, not, ◌&&◌, String, Option,
  none, some, List, [], ◌∷◌, length, ltb, string_eq, nat_eq, contains, filter_by, sort_by, count_by,
  All, All-map, All-filter_by, All-sort_by, Bool-cases, Option-cases, arith, inl, inr,
}
use bridgesat_agent.Outbox.Rows.{Row, Table}
use bridgesat_agent.Outbox.Repository.{Scope, is_due, in_scope, is_nothing}
use bridgesat_agent.Outbox.Selection.{length-claim_due}
use bridgesat_agent.Outbox.Worker.{Worker}
use bridgesat_agent.Outbox.Diagnostics.{deliver_rows-counts}
use bridgesat_agent.Outbox.Students.{students_of, students-claim_due, students-deliver_rows}
use bridgesat_agent.Outbox.Batches.{
  Surroundings, drop_empty, passes_excluded, student_of_first, by_student, due_student_id,
  claim_for, after_round, rounds, reset_run_state, run_pending,
}

-- How many rows belong to a student that the batch has not seen.
abbrev unseen : List String → List String → ℕ
unseen students ids = count_by (λ s. not (contains students s)) ids

unseen_le :
    (s : String) (students ids : List String) → unseen (s ∷ students) ids ≤ unseen students ids
unfolding count_by
unseen_le s students [] = omega arith
unseen_le s students (i ∷ ids) = ground (arith, unseen_le s students ids)

unseen_drops :
    (students : List String) (table : Table)
    → All
        (λ r.
          contains students r.student_id ≡ false
          → unseen (r.student_id ∷ students) (students_of table)
            < unseen students (students_of table))
        table
unfolding count_by
unseen_drops students [] = tt
unseen_drops students (r ∷ rest) = (
  (λ new. ground (
    arith,
    new,
    unseen_le r.student_id students (students_of rest),
    string_eq.decides r.student_id r.student_id,
  )),
  All-map
      (λ q.
        contains students q.student_id ≡ false
        → unseen (q.student_id ∷ students) (students_of rest) < unseen students (students_of rest))
      (λ q.
        contains students q.student_id ≡ false
        → unseen (q.student_id ∷ students) (students_of (r ∷ rest))
          < unseen students (students_of (r ∷ rest)))
      rest (λ q drops new. ground (arith, drops new)) (unseen_drops students rest),
)

first_row :
    (P : String → Type 0) (rows : List Row) (s : String)
    → All (λ r. P r.student_id) rows
    → student_of_first rows ≡ some s
    → P s
first_row P [] s all e = ground (arith, e)
first_row P (r ∷ rest) s all e = subst P (ap (λ o. elim o [ none ↦ s | some x ↦ x ]) e) all.0

not_seen :
    (students : List String) (due wanted : Bool) (s : String)
    → (due && wanted && passes_excluded (drop_empty (some students)) s) ≡ true
    → contains students s ≡ false
not_seen [] due wanted s e = refl
not_seen (x ∷ xs) due wanted s e = ground (arith, e)

due_student_unseen :
    (precedes : String → String → Bool) (now : ℕ) (scope : Scope) (students : List String)
    (table : Table) (s : String)
    → due_student_id precedes now scope (some students) table ≡ some s
    → unseen (s ∷ students) (students_of table) < unseen students (students_of table)
unfolding due_student_id
due_student_unseen precedes now scope students table s e =
    elim (Bool-cases (is_nothing scope.outbox_ids)) [
      | inl nothing ↦ absurd (none_some s (rw (nothing, due_student_id) at e))
      | inr something ↦
          first_row
            (λ s. unseen (s ∷ students) (students_of table) < unseen students (students_of table))
            (sort_by (by_student precedes) (filter_by allowed table)) s
            (All-sort_by _ (by_student precedes) (filter_by allowed table) (
              All-map _ _ (filter_by allowed table)
                (λ r p. p.0 (not_seen students (is_due now r) (in_scope scope r) r.student_id p.1))
                (All-filter_by _ allowed table (unseen_drops students table))))
            (rw (something, due_student_id) at e)
    ]
  where
    allowed : Row → Bool
    allowed r =
        is_due now r
        && in_scope scope r
        && passes_excluded (drop_empty (some students)) r.student_id

    none_some : (s : String) → ◌≡◌ {A = Option String} none (some s) → ⊥
    none_some s e = ground (arith, e)

students-after_round :
    (env : Surroundings) (now lease batch : ℕ) (scope : Scope) (k : ℕ) (student : String)
    (processed : ℕ) (w : Worker)
    → students_of (after_round env now lease batch scope k student processed w).table
      ≡ students_of w.table
students-after_round env now lease batch scope k student processed w =
    let (rows, table') = claim_for env now lease batch scope k student processed w.table in
    let delivered =
      students-deliver_rows env.index env.quoted env.first_500 now rows
        (record w { table = table' }) in
    let claimed =
      students-claim_due (env.tokens k) now lease (batch - processed)
        (record { student = some student; outbox_ids = scope.outbox_ids }) (env.locked k) w.table in
    cc

-- The batch is bounded, and its counters of successes and failures grow by at most its rows.
abbrev IsBounded : ℕ → ℕ → Worker → ℕ → Worker → Type 0
IsBounded batch processed w total w' =
    (total ≤ batch)
    × (w'.successful_total + w'.failed_total + processed
        ≤ w.successful_total + w.failed_total + total)

rounds_total :
    (env : Surroundings) (now lease batch : ℕ) (scope : Scope) (fuel k processed : ℕ)
    (students : List String) (w : Worker)
    → unseen students (students_of w.table) < fuel
    → processed ≤ batch
    → (total : ℕ) × (w' : Worker) × (rounds env now lease batch scope fuel k processed students w
        ≡ some (total, w'))
      × IsBounded batch processed w total w'
unfolding rounds
rounds_total env now lease batch scope zero k processed students w enough small =
    absurd (omega (arith, enough))
rounds_total env now lease batch scope (suc fuel) k processed students w enough small =
    elim (Bool-cases (ltb processed batch)) [
      | inr full ↦ (processed, finished, rw (full, rounds) refl, (small, omega arith))
      | inl room ↦
          elim (Option-cases (due_student_id env.precedes now scope (some students) w.table)) [
            | inl nobody ↦
                (processed, finished, rw (room, nobody, rounds) refl, (small, omega arith))
            | inr (student, due) ↦
                let taken : ℕ =
                  length (claim_for env now lease batch scope k student processed w.table).0 in
                let v : Worker = after_round env now lease batch scope k student processed w in
                let bounded : taken ≤ batch - processed =
                  length-claim_due (env.tokens k) now lease (batch - processed)
                    (record { student = some student; outbox_ids = scope.outbox_ids })
                    (env.locked k) w.table in
                let fewer =
                  due_student_unseen env.precedes now scope students w.table student due in
                let left : unseen (student ∷ students) (students_of v.table) < fuel =
                  rw (students-after_round env now lease batch scope k student processed w)
                    (omega (arith, fewer, enough)) in
                let (total, w', runs, (most, counted)) =
                  rounds_total env now lease batch scope fuel (suc k) (processed + taken)
                    (student ∷ students) v left (omega (arith, bounded, small)) in
                let (up, sum) =
                  deliver_rows-counts env.index env.quoted env.first_500 now
                    (claim_for env now lease batch scope k student processed w.table).0
                    (record w {
                      table = (claim_for env now lease batch scope k student processed w.table).1;
                    }) in
                (total, w', rw (room, due, rounds) runs, (most, omega (arith, sum, counted)))
          ]
    ]
  where
    finished : Worker
    finished = record w { processed_total = w.processed_total + processed }

unseen-length :
    (students : List String) (table : Table) → unseen students (students_of table) ≤ length table
unfolding count_by
unseen-length students [] = omega arith
unseen-length students (r ∷ rest) = ground (arith, unseen-length students rest)

-- `run_pending` ends: with one more round than the table has rows it returns. It processes at most
-- `batch_size` rows, and its successes and failures together are at most the rows it reports.
pub run_pending_total :
    (env : Surroundings) (now lease batch_size : ℕ) (scope : Scope) (w : Worker)
    → (total : ℕ) × (w' : Worker) × (run_pending
          (suc (length w.table))
          (some env)
          now
          lease
          batch_size
          scope
          w
        ≡ some (total, w'))
      × (total ≤ batch_size)
      × (w'.successful_total + w'.failed_total ≤ total)
unfolding run_pending
run_pending_total env now lease batch_size scope w =
    let (total, w', runs, (most, counted)) =
      rounds_total env now lease batch_size scope (suc (length w.table)) 0 0 [] (reset_run_state w)
        (omega (arith, unseen-length [] w.table)) (omega arith) in
    (total, w', runs, most, omega (arith, counted))
