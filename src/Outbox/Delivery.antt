-- ===== src/Outbox/Delivery.antt =====
-- What a delivery (memory/worker.py) leaves of the claims it was given.
use bridgesat_agent.Common.{
  ℕ, ◌+◌, ◌≡◌, refl, Bool, false, not, ◌&&◌, ◌||◌, String, Option, none, some, List, [], ◌∷◌, ◌==◌,
  string_eq, option_eq, nat_eq, find_by, count_by, update_by, All, All-update_by, All-update_to,
  All-intro, Bool-cases, Option-cases, arith, inl, inr,
}
use bridgesat_agent.Outbox.Rows.{
  Status, processing, indexed, deleted, status_eq, status_beq, Row, Table,
}
use bridgesat_agent.Outbox.Repository.{
  is_owned, finish, fail_with, after_failure, complete, mark_deleted, mark_failed,
}
use bridgesat_agent.Outbox.Fencing.{IsStale}
use bridgesat_agent.Outbox.Lifecycle.{after_failure-status}
use bridgesat_agent.Outbox.Worker.{
  Index, Worker, dispatch_by_operation, fail_claim, finish_claim, give_up, settle, deliver_row,
  deliver_rows,
}

-- The claim of a delivered record is not held in the table.
abbrev pub IsReleased : Table → Option String → String → Type 0
IsReleased table none id = Unit {0}
IsReleased table (some token) id = IsStale id token table

ended :
    (id token : String) (status : Status) (r : Row)
    → (r.status == processing) ≡ false
    → is_owned id token r ≡ false
ended id token status r e = ground (arith, e)

update_releases :
    (id token : String) (f : Row → Row) (table : Table)
    → ((r : Row) → ((f r).status == processing) ≡ false)
    → IsStale id token (update_by (is_owned id token) f table)
update_releases id token f table ends =
    All-update_to (λ r. Unit {0}) (λ r. is_owned id token r ≡ false) (is_owned id token) f table
      (λ r p e. ended id token (f r).status (f r) (ends r)) (λ r p e. e)
      (All-intro (λ r. Unit {0}) table (λ r. tt))

update_keeps :
    (id token other_id other : String) (f : Row → Row) (table : Table)
    → ((r : Row) → ((f r).status == processing) ≡ false)
    → IsStale id token table
    → IsStale id token (update_by (is_owned other_id other) f table)
update_keeps id token other_id other f table ends h =
    All-update_by (λ r. is_owned id token r ≡ false) (is_owned other_id other) f table
      (λ r p e. ended id token (f r).status (f r) (ends r)) h

-- A step of the table that ends the claim of this record and starts none.
abbrev Ends : String → Option String → Table → Table → Type 0
Ends id held table table' =
    IsReleased table' held id
    × ((other_id other : String) → IsStale other_id other table → IsStale other_id other table')

update-Ends :
    (id token : String) (f : Row → Row) (table : Table)
    → ((r : Row) → ((f r).status == processing) ≡ false)
    → Ends id (some token) table (update_by (is_owned id token) f table)
update-Ends id token f table ends = (
  update_releases id token f table ends,
  λ other_id other h. update_keeps other_id other id token f table ends h,
)

none_found :
    (test : Row → Bool) (table : Table)
    → find_by test table ≡ none
    → All (λ r. test r ≡ false) table
unfolding find_by
none_found test [] h = tt
none_found test (r ∷ rest) h = elim (Bool-cases (test r)) [
  | inl e ↦ ground (arith, h, e)
  | inr e ↦ (e, none_found test rest (rw e at h))
]

mark_failed-Ends :
    (id token error : String) (now : ℕ) (table : Table)
    → Ends id (some token) table (mark_failed id token error now table).1
unfolding mark_failed
mark_failed-Ends id token error now table =
    elim (Option-cases (find_by (is_owned id token) table)) [
      | inl lost ↦
          rw (lost, mark_failed) (none_found (is_owned id token) table lost, λ other_id other h. h)
      | inr (row, held) ↦
          let n : ℕ = row.attempt_count + 1 in
          let step : Ends id (some token) table (
              update_by (is_owned id token)
                (fail_with (after_failure n now).0 n (after_failure n now).1 error) table) =
            update-Ends id token _ table (λ r. after_failure-status n now) in
          elim (Bool-cases (count_by (is_owned id token) table == 1)) [
            | inl one ↦ rw (held, one, mark_failed) step
            | inr other ↦ rw (held, other, mark_failed) step
          ]
    ]

fail_claim-Ends :
    (row : Row) (held : Option String) (error : String) (now : ℕ) (table : Table)
    → Ends row.outbox_id held table (fail_claim row held error now table).1
fail_claim-Ends row none error now table = (tt, λ other_id other h. h)
fail_claim-Ends row (some token) error now table =
    mark_failed-Ends row.outbox_id token error now table

finish_claim-Ends :
    (row : Row) (held : Option String) (method : String) (now : ℕ) (table : Table)
    → Ends row.outbox_id held table (finish_claim row held method now table).1
unfolding complete mark_deleted status_beq
finish_claim-Ends row none method now table = (tt, λ other_id other h. h)
finish_claim-Ends row (some token) method now table =
    elim (Bool-cases (method == "delete_student")) [
      | inl e ↦ rw e (update-Ends row.outbox_id token (finish deleted now) table (λ r. refl))
      | inr e ↦ rw e (update-Ends row.outbox_id token (finish indexed now) table (λ r. refl))
    ]

give_up-Ends :
    (row : Row) (error : String) (now : ℕ) (w : Worker)
    → Ends row.outbox_id row.claim_token w.table (give_up row error now w).table
unfolding give_up
give_up-Ends row error now w =
    elim (Option-cases (fail_claim row row.claim_token error now w.table).0) [
      | inl lost ↦ rw (lost, give_up) (fail_claim-Ends row row.claim_token error now w.table)
      | inr (status, held) ↦
          rw (held, give_up) (fail_claim-Ends row row.claim_token error now w.table)
    ]

settle-Ends :
    (row : Row) (method : String) (now : ℕ) (w : Worker)
    → Ends row.outbox_id row.claim_token w.table (settle row method now w).table
unfolding settle
settle-Ends row method now w =
    elim (Bool-cases (finish_claim row row.claim_token method now w.table).0) [
      | inl done ↦ rw (done, settle) (finish_claim-Ends row row.claim_token method now w.table)
      | inr lost ↦ rw (lost, settle) (finish_claim-Ends row row.claim_token method now w.table)
    ]

module _ (index : Index) (quoted : Option String → String) (first_500 : String → String) where
  -- A delivery is one of the two reports, with some text or method.
  pub deliver_row-cases {κ} :
      (P : Worker → Type κ) (now : ℕ) (row : Row) (w : Worker)
      → ((error : String) → P (give_up row error now w))
      → ((method : String) → P (settle row method now w))
      → P (deliver_row index quoted first_500 now row w)
  unfolding deliver_row
  deliver_row-cases P now row w failed settled =
      elim (Option-cases (dispatch_by_operation row.operation)) [
        | inl unknown ↦ rw (unknown, deliver_row) (failed _)
        | inr (method, known) ↦ elim (Bool-cases (index.has_method method)) [
          | inr missing ↦ rw (known, missing, deliver_row) (failed _)
          | inl there ↦
              elim (Bool-cases (
                (method == "upsert_episode" || method == "upsert_fact")
                && not (row.payload_student_id == some row.student_id))) [
                  | inl foreign ↦ rw (known, there, foreign, deliver_row) (failed _)
                  | inr own ↦ elim (Option-cases (index.raises method row)) [
                    | inl returned ↦ rw (known, there, own, returned, deliver_row) (settled method)
                    | inr (error, raised) ↦ rw (known, there, own, raised, deliver_row) (failed _)
                  ]
                ]
        ]
      ]

  deliver_row-Ends :
      (now : ℕ) (row : Row) (w : Worker)
      → Ends row.outbox_id row.claim_token w.table
          (deliver_row index quoted first_500 now row w).table
  deliver_row-Ends now row w =
      deliver_row-cases (λ v. Ends row.outbox_id row.claim_token w.table v.table) now row w
        (λ error. give_up-Ends row error now w) (λ method. settle-Ends row method now w)

  deliver_rows-keeps :
      (now : ℕ) (rows : List Row) (w : Worker) (id token : String)
      → IsStale id token w.table
      → IsStale id token (deliver_rows index quoted first_500 now rows w).table
  unfolding deliver_rows
  deliver_rows-keeps now [] w id token h = h
  deliver_rows-keeps now (row ∷ rows) w id token h =
      deliver_rows-keeps now rows (deliver_row index quoted first_500 now row w) id token
        ((deliver_row-Ends now row w).1 id token h)

  IsReleased-stays :
      (now : ℕ) (rows : List Row) (w : Worker) (held : Option String) (id : String)
      → IsReleased w.table held id
      → IsReleased (deliver_rows index quoted first_500 now rows w).table held id
  IsReleased-stays now rows w none id h = tt
  IsReleased-stays now rows w (some token) id h = deliver_rows-keeps now rows w id token h

  -- After a batch was delivered none of its claims is held any more, whatever the index did with
  -- each of the rows.
  pub deliver_rows-IsReleased :
      (now : ℕ) (rows : List Row) (w : Worker)
      → All
          (λ row.
            IsReleased
              (deliver_rows index quoted first_500 now rows w).table
              row.claim_token
              row.outbox_id)
          rows
  unfolding deliver_rows
  deliver_rows-IsReleased now [] w = tt
  deliver_rows-IsReleased now (row ∷ rows) w = (
    IsReleased-stays now rows (deliver_row index quoted first_500 now row w) row.claim_token
        row.outbox_id (deliver_row-Ends now row w).0,
    deliver_rows-IsReleased now rows (deliver_row index quoted first_500 now row w),
  )
