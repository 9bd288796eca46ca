-- ===== src/Deletion/Protocol.antt =====
-- The deletion protocol over time (memory/deletion.py): whatever is requested, removed and completed
-- for whichever students.
use mathlib.Core.Path.{subst}
use bridgesat_agent.Common.{
  ℕ, ◌≡◌, refl, ap, Bool, true, false, String, Option, none, some, ◌==◌, string_eq, find_by,
  Bool-cases, Option-cases, beq_refl, arith, inl, inr,
}
use bridgesat_agent.Outbox.Rows.{Table}
use bridgesat_agent.Outbox.Repository.{enqueue}
use bridgesat_agent.Deletion.Store.{
  StudentStatus, active, deletion_pending, deleted, DeletionState, requested, sqlite_deleted,
  index_deletion_pending, verified, failed, Store, standing_eq, standing_beq, delete_all,
  pg_deletions,
}
use bridgesat_agent.Deletion.Steps.{
  Fault, unknown_student, not_active, duplicate_key, invalid_transition, wrong_state, Outcome,
  returned, raised, rollback, deletion_request, report, may_follow, deletion_status, set_state,
  request_deletion, execute_sqlite_deletion, DeletionIndex, verify_not_retrievable, move_student,
  start_state, revoke_tokens, finalize_verified, deliver_for, dead_deletion, is_completable,
  conclude, complete_index_deletion,
}
use bridgesat_agent.Deletion.Moves.{
  status_of, raised_returned, store_of, start_state-status, set_state-refuses, set_state-status,
  move_student-status,
}
use bridgesat_agent.Deletion.Consistency.{
  Agrees, IsConsistent, store_after, Outcome-cases, request-IsConsistent, execute-IsConsistent,
  complete-IsConsistent,
}
use bridgesat_agent.Deletion.Erasure.{delete_all-deletions}

-- The stores that the service leads to from one without deletions, its failed steps included.
pub data Reach (start : Store) : Store → Type 0 where
  here : Reach start start
  request :
      {s : Store} (student draw : String) (now : ℕ)
      → Reach start s
      → Reach start (store_after (request_deletion student draw now s))
  execute :
      {s : Store} (student outbox_id : String) (now : ℕ)
      → Reach start s
      → Reach start (store_after (execute_sqlite_deletion student outbox_id now s))
  complete :
      {s : Store} (index : Option DeletionIndex) (student : String) (now lease batch_size : ℕ)
      → Reach start s
      → Reach start (store_after (complete_index_deletion index student now lease batch_size s))

-- However requests, removals and completions of any students follow one another, and whether they
-- return or raise: a student without a deletion is active or unknown, one whose deletion goes on or
-- failed is `deletion_pending`, and one whose deletion is verified is `deleted`.
pub Reach-IsConsistent : (start s : Store) → IsConsistent start → Reach start s → IsConsistent s
Reach-IsConsistent start _ c here = c
Reach-IsConsistent start _ c (request {s = s} student draw now r) =
    request-IsConsistent student draw now s (Reach-IsConsistent start s c r)
Reach-IsConsistent start _ c (execute {s = s} student outbox_id now r) =
    execute-IsConsistent student outbox_id now s (Reach-IsConsistent start s c r)
Reach-IsConsistent start _ c (complete {s = s} index student now lease batch_size r) =
    complete-IsConsistent index student now lease batch_size s (Reach-IsConsistent start s c r)

-- A request that returns leaves the student with a deletion that was requested.
pub request-status :
    (student draw : String) (now : ℕ) (s s' : Store)
    → request_deletion student draw now s ≡ returned tt s'
    → deletion_status student s' ≡ some requested
unfolding request_deletion revoke_tokens
request-status student draw now s s' h =
    elim (Option-cases (find_by (λ t. t.id == student) s.students)) [
      | inl unknown ↦ absurd (raised_returned (rw (unknown, request_deletion) at h))
      | inr (t, there) ↦ elim (Bool-cases (t.status == active)) [
        | inr other ↦ absurd (raised_returned (rw (there, other, request_deletion) at h))
        | inl is_active ↦ elim (Outcome-cases (start_state student draw requested now s)) [
          | inl (f, u, e) ↦
              absurd (raised_returned (rw (there, is_active, e, request_deletion) at h))
          | inr (u, started, e) ↦
              elim (Option-cases (move_student student active deletion_pending now started)) [
                | inl gone ↦
                    absurd (raised_returned (rw (there, is_active, e, gone, request_deletion) at h))
                | inr (moved, m) ↦
                    let made : revoke_tokens student now moved ≡ s' =
                      store_of (rw (there, is_active, e, m, request_deletion) at h) in
                    let (may, same, states) =
                      start_state-status student draw requested now s started u student e in
                    let (kept, standing) =
                      move_student-status student active deletion_pending now started moved student
                        m in
                    rw (← made, kept, states, beq_refl student) refl
              ]
        ]
      ]
    ]

report-returned {ℓ κ} :
    {A : Type ℓ} {B : Type κ} (b b' : B) (s : Store) (o : Outcome A)
    → report b o ≡ returned b' s
    → (b ≡ b') × ((a : A) × (o ≡ returned a s))
report-returned b b' s (raised f t) e = absurd (raised_returned e)
report-returned b b' s (returned a t) e = (value_of e, (a, ap (returned a) (store_of e)))
  where
    value_of : returned b t ≡ returned b' s → b ≡ b'
    value_of e = cc e

finalize-status :
    (student : String) (now : ℕ) (s s' : Store) (u : Unit {0})
    → finalize_verified student now s ≡ returned u s'
    → deletion_status student s' ≡ some verified
unfolding finalize_verified may_follow
finalize-status student now s s' u h =
    elim (Outcome-cases (set_state student verified none now s)) [
      | inl (f, t, e) ↦ absurd (raised_returned (rw (e, finalize_verified) at h))
      | inr (v, marked, e) ↦
          elim (Option-cases (move_student student deletion_pending deleted now marked)) [
            | inl gone ↦ absurd (raised_returned (rw (e, gone, finalize_verified) at h))
            | inr (done, m) ↦
                let made : done ≡ s' = store_of (rw (e, m, finalize_verified) at h) in
                let (kept, standing) =
                  move_student-status student deletion_pending deleted now marked done student m in
                rw
                  (
                    ← made,
                    kept,
                    set_state-status student verified none now s marked v student refl e,
                    beq_refl student,
                  )
                  refl
          ]
    ]

conclude_verified :
    (index : Option DeletionIndex) (student : String) (now : ℕ) (s s' : Store)
    → conclude index student now s ≡ returned true s'
    → (verify_not_retrievable index student ≡ true) × (deletion_status student s' ≡ some verified)
unfolding conclude
conclude_verified index student now s s' h =
    elim (Bool-cases (verify_not_retrievable index student)) [
      | inl e ↦
          let (_, (u, done)) =
            report-returned true true s' (finalize_verified student now s)
              (rw (e, conclude) at h) in
          (e, finalize-status student now s s' u done)
      | inr e ↦ elim (Option-cases (dead_deletion student s.outbox)) [
        | inl waits ↦ cc (
            (report-returned false true s' (set_state student index_deletion_pending none now s)
              (rw (e, waits, conclude) at h)).0)
        | inr (error, dead) ↦ cc (
            (report-returned false true s' (set_state student failed error now s)
              (rw (e, dead, conclude) at h)).0)
      ]
    ]

deleted_of : (st : Option StudentStatus) → Agrees (some verified) st → st ≡ some deleted
deleted_of none a = absurd a
deleted_of (some active) a = absurd a
deleted_of (some deletion_pending) a = absurd a
deleted_of (some deleted) a = refl

-- When `complete_index_deletion` returns true, the deletion had reached `sqlite_deleted` or
-- `index_deletion_pending`, the index (if there is one) showed that it holds nothing of the student,
-- and now the deletion is `verified` and the student `deleted`.
pub complete_verified :
    (index : Option DeletionIndex) (student : String) (now lease batch_size : ℕ) (s s' : Store)
    → IsConsistent s
    → complete_index_deletion index student now lease batch_size s ≡ returned true s'
    → (is_completable (deletion_status student s) ≡ true)
      × (verify_not_retrievable index student ≡ true)
      × (deletion_status student s' ≡ some verified)
      × (status_of student s' ≡ some deleted)
unfolding complete_index_deletion verify_not_retrievable
complete_verified index student now lease batch_size s s' c h =
    elim (Bool-cases (is_completable (deletion_status student s))) [
      | inr e ↦ absurd (raised_returned (rw (e, complete_index_deletion) at h))
      | inl e ↦
          let (shown, state) = by_index index e h in
          let agrees : Agrees (deletion_status student s') (status_of student s') =
            subst (λ o. IsConsistent (store_after o)) h
              (complete-IsConsistent index student now lease batch_size s c) student in
          (e, shown, state, deleted_of (status_of student s') (rw state at agrees))
    ]
  where
    by_index :
        (index : Option DeletionIndex)
        → is_completable (deletion_status student s) ≡ true
        → complete_index_deletion index student now lease batch_size s ≡ returned true s'
        → (verify_not_retrievable index student ≡ true)
          × (deletion_status student s' ≡ some verified)
    by_index none e h =
        let (_, (u, done)) =
          report-returned true true s' (finalize_verified student now s)
            (rw (e, complete_index_deletion) at h) in
        (refl, finalize-status student now s s' u done)
    by_index (some i) e h =
        conclude_verified (some i) student now
          (deliver_for i.surroundings student now lease batch_size s) s'
          (rw (e, complete_index_deletion) at h)

-- A step that raises and leaves the store as it is.
abbrev pub Refuses {ℓ} : {A : Type ℓ} → Outcome A → Store → Type ℓ
Refuses o s = (f : Fault) × (o ≡ raised f s)

abbrev pub is_settled : Option DeletionState → Bool
is_settled (some verified) = true
is_settled (some failed) = true
is_settled _ = false

not_completable : (d : Option DeletionState) → is_settled d ≡ true → is_completable d ≡ false
not_completable d h = ground (arith, h)

no_removal : (d : Option DeletionState) → is_settled d ≡ true → may_follow d sqlite_deleted ≡ false
unfolding may_follow
no_removal d h = ground (arith, h)

not_active_any_more :
    (d : Option DeletionState) (st : StudentStatus)
    → Agrees d (some st)
    → is_settled d ≡ true
    → (st == active) ≡ false
unfolding standing_beq
not_active_any_more d st a h = ground (arith, a, h)

-- A deletion that is `verified` or `failed` is final: another request, another removal and another
-- completion are refused and change nothing.
settled_is_final :
    (student draw outbox_id : String) (index : Option DeletionIndex) (now lease batch_size : ℕ)
    (s : Store)
    → IsConsistent s
    → is_settled (deletion_status student s) ≡ true
    → Refuses (request_deletion student draw now s) s
      × Refuses (execute_sqlite_deletion student outbox_id now s) s
      × Refuses (complete_index_deletion index student now lease batch_size s) s
unfolding complete_index_deletion execute_sqlite_deletion request_deletion
settled_is_final student draw outbox_id index now lease batch_size s c h = (
  elim (Option-cases (find_by (λ t. t.id == student) s.students)) [
    | inl unknown ↦ (unknown_student, rw (unknown, request_deletion) refl)
    | inr (t, there) ↦
        let agrees : Agrees (deletion_status student s) (some t.status) = rw there at (c student) in
        (
          not_active t.status,
          rw
              (
                there,
                not_active_any_more (deletion_status student s) t.status agrees h,
                request_deletion,
              )
              refl,
        )
  ],
  elim (Option-cases (
      enqueue outbox_id now (deletion_request student)
        (delete_all student pg_deletions s).outbox)) [
          | inl taken ↦ (duplicate_key, rw (taken, execute_sqlite_deletion) refl)
          | inr ((id, outbox), added) ↦ (
            invalid_transition (deletion_status student s) sqlite_deleted,
            rw (added, execute_sqlite_deletion) (refused outbox),
          )
        ],
  (
    wrong_state (deletion_status student s),
    rw (not_completable (deletion_status student s) h, complete_index_deletion) refl,
  ),
)
  where
    refused :
        (outbox : Table)
        → rollback s (
            set_state student sqlite_deleted none now
              (record (delete_all student pg_deletions s) { outbox = outbox }))
          ≡ raised (invalid_transition (deletion_status student s) sqlite_deleted) s
    refused outbox =
        rw
          (
            set_state-refuses student sqlite_deleted none now
                (record (delete_all student pg_deletions s) { outbox = outbox })
                (rw (delete_all-deletions student s) (no_removal (deletion_status student s) h)),
            delete_all-deletions student s,
          )
          refl
