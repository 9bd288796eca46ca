-- ===== src/Deletion/Consistency.antt =====
-- The state of a deletion and the standing of its student go together (memory/deletion.py).
use bridgesat_agent.Common.{
  ℕ, ◌≡◌, ◌⊎◌, refl, ap, Bool, true, false, String, Option, none, some, ◌==◌, string_eq, find_by,
  Bool-cases, Option-cases, arith, inl, inr, if◌then◌else◌,
}
use bridgesat_agent.Outbox.Rows.{Table}
use bridgesat_agent.Outbox.Repository.{enqueue}
use bridgesat_agent.Outbox.Batches.{Surroundings}
use bridgesat_agent.Deletion.Store.{
  StudentStatus, active, deletion_pending, deleted, standing_eq, standing_beq_iff, standing_beq,
  DeletionState, requested, sqlite_deleted, index_deletion_pending, verified, failed, Store,
  delete_all, pg_deletions,
}
use bridgesat_agent.Deletion.Steps.{
  Fault, Outcome, returned, raised, rollback, report, may_follow, deletion_status, start_state,
  set_state, move_student, revoke_tokens, deletion_request, request_deletion,
  execute_sqlite_deletion, DeletionIndex, verify_not_retrievable, finalize_verified, deliver_for,
  dead_deletion, is_completable, conclude, complete_index_deletion,
}
use bridgesat_agent.Deletion.Moves.{
  status_of, moved_standing, set_state-status, set_state-returned, set_state-returns, stamped,
  start_state-status, move_student-status,
}
use bridgesat_agent.Deletion.Erasure.{delete_all-IsSpared, delete_all-deletions}

-- Without a deletion a student is active or unknown; a deletion that goes on, or failed, keeps the
-- student pending; a verified one leaves the student deleted.
abbrev pub Agrees : Option DeletionState → Option StudentStatus → Type 0
Agrees none none = Unit
Agrees none (some active) = Unit
Agrees (some verified) (some deleted) = Unit
Agrees (some requested) (some deletion_pending) = Unit
Agrees (some sqlite_deleted) (some deletion_pending) = Unit
Agrees (some index_deletion_pending) (some deletion_pending) = Unit
Agrees (some failed) (some deletion_pending) = Unit
Agrees _ _ = ⊥

abbrev pub IsConsistent : Store → Type 0
IsConsistent s = (student : String) → Agrees (deletion_status student s) (status_of student s)

abbrev pub store_after {ℓ} : {A : Type ℓ} → Outcome A → Store
store_after (returned a s) = s
store_after (raised f s) = s

pub Outcome-cases {ℓ} :
    {A : Type ℓ} (o : Outcome A)
    → ((f : Fault) × (t : Store) × (o ≡ raised f t)) ⊎ ((a : A) × (t : Store) × (o ≡ returned a t))
Outcome-cases (raised f t) = inl (f, t, refl)
Outcome-cases (returned a t) = inr (a, t, refl)

requested-Agrees :
    (b : Bool) (d : Option DeletionState) (st : Option StudentStatus)
    → Agrees d st
    → (b ≡ true → st ≡ some active)
    → Agrees (if b then some requested else d) (moved_standing b active deletion_pending st)
requested-Agrees false d st h e = h
requested-Agrees true d st h e = rw (e refl, (standing_beq_iff active active).1 refl) tt

-- The later states, which leave the student alone.
waiting-Agrees :
    (b : Bool) (state : DeletionState) (d : Option DeletionState) (st : Option StudentStatus)
    → Agrees d st
    → (b ≡ true → may_follow d state ≡ true)
    → (state ≡ requested → ⊥)
    → (state ≡ verified → ⊥)
    → Agrees (if b then some state else d) st
unfolding may_follow
waiting-Agrees false state d st h e p q = h
waiting-Agrees true requested d st h e p q = absurd (p refl)
waiting-Agrees true verified d st h e p q = absurd (q refl)
waiting-Agrees true sqlite_deleted d st h e p q = ground (arith, e refl, h)
waiting-Agrees true index_deletion_pending d st h e p q = ground (arith, e refl, h)
waiting-Agrees true failed d st h e p q = ground (arith, e refl, h)

verified-Agrees :
    (b : Bool) (d : Option DeletionState) (st : Option StudentStatus)
    → Agrees d st
    → (b ≡ true → may_follow d verified ≡ true)
    → Agrees (if b then some verified else d) (moved_standing b deletion_pending deleted st)
unfolding may_follow standing_beq
verified-Agrees false d st h e = h
verified-Agrees true d st h e = ground (arith, e refl, h)

pub request-IsConsistent :
    (who draw : String) (now : ℕ) (s : Store)
    → IsConsistent s
    → IsConsistent (store_after (request_deletion who draw now s))
unfolding request_deletion revoke_tokens
request-IsConsistent who draw now s c student =
    elim (Option-cases (find_by (λ t. t.id == who) s.students)) [
      | inl unknown ↦ rw (unknown, request_deletion) (c student)
      | inr (t, there) ↦ elim (Bool-cases (t.status == active)) [
        | inr other ↦ rw (there, other, request_deletion) (c student)
        | inl is_active ↦ elim (Outcome-cases (start_state who draw requested now s)) [
          | inl (f, u, e) ↦ rw (there, is_active, e, request_deletion) (c student)
          | inr (u, started, e) ↦
              elim (Option-cases (move_student who active deletion_pending now started)) [
                | inl gone ↦ rw (there, is_active, e, gone, request_deletion) (c student)
                | inr (moved, m) ↦
                    let (may, same, states) =
                      start_state-status who draw requested now s started u student e in
                    let (kept, standing) =
                      move_student-status who active deletion_pending now started moved student m in
                    rw (there, is_active, e, m, request_deletion, kept, states, standing, same)
                      (requested-Agrees (who == student) (deletion_status student s)
                        (status_of student s) (c student)
                        (λ b.
                          rw (← (string_eq.decides who student).0 b, there)
                            (ap some ((standing_beq_iff t.status active).0 is_active))))
              ]
        ]
      ]
    ]

set_state-IsConsistent :
    (who : String) (state : DeletionState) (error : Option String) (now : ℕ) (s : Store)
    → may_follow none state ≡ false
    → (state ≡ requested → ⊥)
    → (state ≡ verified → ⊥)
    → IsConsistent s
    → IsConsistent (store_after (set_state who state error now s))
unfolding set_state
set_state-IsConsistent who state error now s start p q c student =
    elim (Bool-cases (may_follow (deletion_status who s) state)) [
      | inr e ↦ rw (e, set_state) (c student)
      | inl e ↦
          let h = set_state-returns who state error now s e in
          rw
            (
              h,
              set_state-status who state error now s (stamped who state error now s) tt student
                  start h,
            )
            (waiting-Agrees (who == student) state (deletion_status student s) (status_of student s)
              (c student) (λ b. rw (← (string_eq.decides who student).0 b) e) p q)
    ]

finalize-IsConsistent :
    (who : String) (now : ℕ) (s : Store)
    → IsConsistent s
    → IsConsistent (store_after (finalize_verified who now s))
unfolding finalize_verified may_follow
finalize-IsConsistent who now s c student =
    elim (Outcome-cases (set_state who verified none now s)) [
      | inl (f, u, e) ↦ rw (e, finalize_verified) (c student)
      | inr (u, marked, e) ↦
          elim (Option-cases (move_student who deletion_pending deleted now marked)) [
            | inl gone ↦ rw (e, gone, finalize_verified) (c student)
            | inr (done, m) ↦
                let (may, made) = set_state-returned who verified none now s marked u e in
                let states = set_state-status who verified none now s marked u student refl e in
                let (kept, standing) =
                  move_student-status who deletion_pending deleted now marked done student m in
                let same : marked.students ≡ s.students = rw (← made) refl in
                rw (e, m, finalize_verified, kept, states, standing, same)
                  (verified-Agrees (who == student) (deletion_status student s)
                    (status_of student s) (c student)
                    (λ b. rw (← (string_eq.decides who student).0 b) may))
          ]
    ]

-- A store with the same students and deletions.
IsConsistent-same :
    (s t : Store)
    → t.students ≡ s.students
    → t.deletions ≡ s.deletions
    → IsConsistent s
    → IsConsistent t
IsConsistent-same s t e d c student = rw (e, d) (c student)

rollback-IsConsistent {ℓ} :
    {A : Type ℓ} (s : Store) (o : Outcome A)
    → IsConsistent s
    → IsConsistent (store_after o)
    → IsConsistent (store_after (rollback s o))
rollback-IsConsistent s (returned a t) c d = d
rollback-IsConsistent s (raised f t) c d = c

report-IsConsistent {ℓ κ} :
    {A : Type ℓ} {B : Type κ} (b : B) (o : Outcome A)
    → IsConsistent (store_after o)
    → IsConsistent (store_after (report b o))
report-IsConsistent b (returned a t) c = c
report-IsConsistent b (raised f t) c = c

pub execute-IsConsistent :
    (who outbox_id : String) (now : ℕ) (s : Store)
    → IsConsistent s
    → IsConsistent (store_after (execute_sqlite_deletion who outbox_id now s))
unfolding execute_sqlite_deletion may_follow
execute-IsConsistent who outbox_id now s c =
    elim (Option-cases
      (enqueue outbox_id now (deletion_request who) (delete_all who pg_deletions s).outbox)) [
        | inl taken ↦ rw (taken, execute_sqlite_deletion) c
        | inr ((id, outbox), added) ↦
            rw (added, execute_sqlite_deletion)
              (rollback-IsConsistent s (set_state who sqlite_deleted none now (emptied outbox)) c (
                set_state-IsConsistent who sqlite_deleted none now (emptied outbox) refl (λ e. cc e)
                  (λ e. cc e)
                  (IsConsistent-same s (emptied outbox) (delete_all-IsSpared who s).students
                    (delete_all-deletions who s) c)))
      ]
  where
    emptied : Table → Store
    emptied outbox = record (delete_all who pg_deletions s) { outbox = outbox }

deliver_for-states :
    (env : Surroundings) (who : String) (now lease batch_size : ℕ) (s : Store)
    → ((deliver_for env who now lease batch_size s).students ≡ s.students)
      × ((deliver_for env who now lease batch_size s).deletions ≡ s.deletions)
unfolding deliver_for
deliver_for-states env who now lease batch_size s = ground arith

conclude-IsConsistent :
    (index : Option DeletionIndex) (who : String) (now : ℕ) (s : Store)
    → IsConsistent s
    → IsConsistent (store_after (conclude index who now s))
unfolding conclude may_follow
conclude-IsConsistent index who now s c = elim (Bool-cases (verify_not_retrievable index who)) [
  | inl e ↦
      rw (e, conclude)
        (report-IsConsistent true (finalize_verified who now s) (finalize-IsConsistent who now s c))
  | inr e ↦ elim (Option-cases (dead_deletion who s.outbox)) [
    | inl waits ↦
        rw (e, waits, conclude)
          (report-IsConsistent false (set_state who index_deletion_pending none now s) (
            set_state-IsConsistent who index_deletion_pending none now s refl (λ e. cc e)
              (λ e. cc e) c))
    | inr (error, dead) ↦
        rw (e, dead, conclude)
          (report-IsConsistent false (set_state who failed error now s)
            (set_state-IsConsistent who failed error now s refl (λ e. cc e) (λ e. cc e) c))
  ]
]

pub complete-IsConsistent :
    (index : Option DeletionIndex) (who : String) (now lease batch_size : ℕ) (s : Store)
    → IsConsistent s
    → IsConsistent (store_after (complete_index_deletion index who now lease batch_size s))
unfolding complete_index_deletion
complete-IsConsistent index who now lease batch_size s c =
    elim (Bool-cases (is_completable (deletion_status who s))) [
      | inr e ↦ rw (e, complete_index_deletion) c
      | inl e ↦ by_index index e
    ]
  where
    by_index :
        (index : Option DeletionIndex)
        → is_completable (deletion_status who s) ≡ true
        → IsConsistent (store_after (complete_index_deletion index who now lease batch_size s))
    by_index none e =
        rw (e, complete_index_deletion)
          (report-IsConsistent true (finalize_verified who now s)
            (finalize-IsConsistent who now s c))
    by_index (some i) e =
        rw (e, complete_index_deletion)
          (conclude-IsConsistent (some i) who now
            (deliver_for i.surroundings who now lease batch_size s)
            (let (same, kept) = deliver_for-states i.surroundings who now lease batch_size s in
              IsConsistent-same s (deliver_for i.surroundings who now lease batch_size s) same kept
                c))
