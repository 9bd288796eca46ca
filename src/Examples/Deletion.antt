-- ===== src/Examples/Deletion.antt =====
-- A student whose deletion is requested, carried out and completed (memory/deletion.py).
use bridgesat_agent.Common.{
  ◌≡◌, refl, true, none, some, [], ◌∷◌, find_by, Bool-cases, inl, inr, ◌==◌, string_eq, update_by,
  filter_by,
}
use bridgesat_agent.Outbox.Repository.{enqueue}
use bridgesat_agent.Deletion.Store.{
  active, deleted, standing_beq, verified, Store, delete_rows, delete_all,
}
use bridgesat_agent.Deletion.Steps.{
  returned, may_follow, start_state, set_state, move_student, revoke_tokens, request_deletion,
  execute_sqlite_deletion, finalize_verified, complete_index_deletion, deletion_status,
  is_completable, verify_not_retrievable,
}
use bridgesat_agent.Deletion.Moves.{status_of}
use bridgesat_agent.Deletion.Consistency.{IsConsistent, store_after}
use bridgesat_agent.Deletion.Protocol.{
  here, request, execute, complete, Reach-IsConsistent, complete_verified,
}

abbrev pub school : Store
school = record {
  students =
      record { id = "ann"; status = active; updated_at = 0 }
      ∷ record { id = "bob"; status = active; updated_at = 0 }
      ∷ [];
  deletions = [];
  tokens = record { student_id = "ann"; revoked_at = none } ∷ [];
  sessions =
      record { session_id = "s1"; student_id = "ann" }
      ∷ record { session_id = "s2"; student_id = "bob" }
      ∷ [];
  outbox = [];
  parts = λ t. "s1" ∷ "s2" ∷ [];
  owned = λ t. "ann" ∷ "bob" ∷ [];
}

school-IsConsistent : IsConsistent school
unfolding find_by
school-IsConsistent student = elim (Bool-cases ("ann" == student)) [
  | inl e ↦ rw e tt
  | inr e ↦ elim (Bool-cases ("bob" == student)) [ inl f ↦ rw (e, f) tt | inr f ↦ rw (e, f) tt ]
]

abbrev pub after_request : Store
after_request = store_after (request_deletion "ann" "del_1" 5 school)

abbrev after_removal : Store
after_removal = store_after (execute_sqlite_deletion "ann" "out_1" 6 after_request)

abbrev after_completion : Store
after_completion = store_after (complete_index_deletion none "ann" 7 60 20 after_removal)

completion :
    complete_index_deletion none "ann" 7 60 20 after_removal ≡ returned true after_completion
unfolding complete_index_deletion finalize_verified execute_sqlite_deletion request_deletion enqueue
    find_by set_state start_state move_student revoke_tokens may_follow delete_all delete_rows
    standing_beq update_by filter_by
completion = refl

Reach-IsConsistent_example : IsConsistent after_completion
Reach-IsConsistent_example =
    Reach-IsConsistent school after_completion school-IsConsistent
      (complete none "ann" 7 60 20 (execute "ann" "out_1" 6 (request "ann" "del_1" 5 here)))

complete_verified_example :
    (is_completable (deletion_status "ann" after_removal) ≡ true)
    × (verify_not_retrievable none "ann" ≡ true)
    × (deletion_status "ann" after_completion ≡ some verified)
    × (status_of "ann" after_completion ≡ some deleted)
complete_verified_example =
    complete_verified none "ann" 7 60 20 after_removal after_completion
      (Reach-IsConsistent school after_removal school-IsConsistent
        (execute "ann" "out_1" 6 (request "ann" "del_1" 5 here)))
      completion
