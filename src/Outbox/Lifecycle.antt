-- ===== src/Outbox/Lifecycle.antt =====
-- The rows of the outbox over time (memory/outbox.py): one row per key, and a token exactly while a row is
-- claimed.
use mathlib.Core.Path.{subst}
use bridgesat_agent.Common.{
  ℕ, suc, ◌+◌, ◌≡◌, refl, sym, ap, ◌⊎◌, Bool, true, false, inl, inr, String, Option, none, some,
  List, [], ◌∷◌, ◌++◌, ◌==◌, nat_eq, string_eq, option_eq, find_by, update_by, All, All-append,
  All-update_by, Bool-cases, Option-cases, beq_refl, arith,
}
use bridgesat_agent.Outbox.Rows.{processing, indexed, deleted, status_eq, status_beq, Row, Table}
use bridgesat_agent.Outbox.Repository.{
  Request, key_of, new_row, enqueue, Scope, select_due, claim_rows, claim_due, is_nothing, hold,
  is_owned, finish, complete, mark_deleted, fail_with, after_failure, mark_failed,
}

pub find_last :
    (test : Row → Bool) (table : Table) (r : Row)
    → find_by test table ≡ none
    → test r ≡ true
    → find_by test (table ++ r ∷ []) ≡ some r
unfolding find_by
find_last test [] r h e = rw e refl
find_last test (x ∷ table) r h e = ground (arith, find_last test table r, h, e)

some_pair :
    (a c : String) (b d : Table)
    → ◌≡◌ {A = Option (String × Table)} (some (a, b)) (some (c, d))
    → (a ≡ c) × (b ≡ d)
some_pair a c b d e =
    (ap (λ o. elim o [ none ↦ a | some p ↦ p.0 ]) e, ap (λ o. elim o [ none ↦ b | some p ↦ p.1 ]) e)

-- What a call of `enqueue` did: it found the key, or it added the row.
pub enqueue-cases :
    (outbox_id id : String) (now : ℕ) (q : Request) (table table' : Table)
    → enqueue outbox_id now q table ≡ some (id, table')
    → ((r : Row) × (find_by (λ r. r.idempotency_key == key_of q) table ≡ some r)
        × (r.outbox_id ≡ id)
        × (table ≡ table'))
      ⊎ ((find_by (λ r. r.idempotency_key == key_of q) table ≡ none)
          × (outbox_id ≡ id)
          × (table ++ new_row outbox_id now q ∷ [] ≡ table'))
unfolding enqueue
enqueue-cases outbox_id id now q table table' h =
    elim (Option-cases (find_by (λ r. r.idempotency_key == key_of q) table)) [
      | inr (r, there) ↦
          let (same, kept) = some_pair r.outbox_id id table table' (rw (there, enqueue) at h) in
          inl (r, there, same, kept)
      | inl absent ↦ elim (Option-cases (find_by (λ r. r.outbox_id == outbox_id) table)) [
        | inr (r, taken) ↦ absurd (none_some (id, table') (rw (absent, taken, enqueue) at h))
        | inl free ↦
            let (same, added) =
              some_pair outbox_id id (table ++ new_row outbox_id now q ∷ []) table'
                (rw (absent, free, enqueue) at h) in
            inr (absent, same, added)
      ]
    ]
  where
    none_some : (p : String × Table) → ◌≡◌ {A = Option (String × Table)} none (some p) → ⊥
    none_some p e = ground (arith, e)

found_again :
    (outbox_id id : String) (now : ℕ) (q : Request) (table : Table) (r : Row)
    → find_by (λ r. r.idempotency_key == key_of q) table ≡ some r
    → r.outbox_id ≡ id
    → enqueue outbox_id now q table ≡ some (id, table)
unfolding enqueue
found_again outbox_id id now q table r there same =
    rw (there, enqueue) (ap (λ i. some (i, table)) same)

-- Enqueueing the same work again, with other draws and at any time, gives the id of the first row and adds nothing.
enqueue_again :
    (outbox_id other_id id : String) (now later : ℕ) (q : Request) (table table' : Table)
    → enqueue outbox_id now q table ≡ some (id, table')
    → enqueue other_id later q table' ≡ some (id, table')
enqueue_again outbox_id other_id id now later q table table' h =
    elim (enqueue-cases outbox_id id now q table table' h) [
      | inl (r, there, same, kept) ↦
          subst (λ t. enqueue other_id later q t ≡ some (id, t)) kept
            (found_again other_id id later q table r there same)
      | inr (absent, same, added) ↦
          subst (λ t. enqueue other_id later q t ≡ some (id, t)) added
            (found_again other_id id later q (table ++ new_row outbox_id now q ∷ [])
              (new_row outbox_id now q)
              (find_last (λ r. r.idempotency_key == key_of q) table (new_row outbox_id now q) absent
                (beq_refl (key_of q)))
              same)
    ]

abbrev holds_token : Option String → Bool
holds_token none = false
holds_token (some t) = true

-- A row has a claim token exactly while it is processing.
abbrev pub IsLeased : Row → Type 0
IsLeased r = holds_token r.claim_token ≡ (r.status == processing)

-- The tables that the operations lead to, one after another.
pub data Run : Table → Type 0 where
  empty : Run []
  enqueued :
      {table table' : Table} {id : String} (outbox_id : String) (now : ℕ) (q : Request)
      → Run table
      → enqueue outbox_id now q table ≡ some (id, table')
      → Run table'
  claimed :
      {table : Table} (tokens : ℕ → String) (now lease batch : ℕ) (scope : Scope)
      (locked : List String)
      → Run table
      → Run (claim_due tokens now lease batch scope locked table).1
  completed :
      {table : Table} (id token : String) (now : ℕ)
      → Run table
      → Run (complete id token now table).1
  removed :
      {table : Table} (id token : String) (now : ℕ)
      → Run table
      → Run (mark_deleted id token now table).1
  failed :
      {table : Table} (id token error : String) (now : ℕ)
      → Run table
      → Run (mark_failed id token error now table).1

enqueue-IsLeased :
    (outbox_id id : String) (now : ℕ) (q : Request) (table table' : Table)
    → enqueue outbox_id now q table ≡ some (id, table')
    → All IsLeased table
    → All IsLeased table'
unfolding status_beq
enqueue-IsLeased outbox_id id now q table table' h all =
    elim (enqueue-cases outbox_id id now q table table' h) [
      | inl (r, there, same, kept) ↦ subst (All IsLeased) kept all
      | inr (absent, same, added) ↦
          subst (All IsLeased) added
            (All-append IsLeased table (new_row outbox_id now q ∷ []) all (refl, tt))
    ]

claim_rows-IsLeased :
    (tokens : ℕ → String) (lease k : ℕ) (rows : List Row) (table : Table)
    → All IsLeased table
    → All IsLeased (claim_rows tokens lease k rows table).1
unfolding claim_rows status_beq
claim_rows-IsLeased tokens lease k [] table all = all
claim_rows-IsLeased tokens lease k (row ∷ rows) table all =
    claim_rows-IsLeased tokens lease (suc k) rows
      (update_by (λ r. r.outbox_id == row.outbox_id) (hold lease (tokens k)) table)
      (All-update_by IsLeased (λ r. r.outbox_id == row.outbox_id) (hold lease (tokens k)) table
        (λ r p e. refl) all)

claim_due-IsLeased :
    (tokens : ℕ → String) (now lease batch : ℕ) (scope : Scope) (locked : List String)
    (table : Table)
    → All IsLeased table
    → All IsLeased (claim_due tokens now lease batch scope locked table).1
unfolding claim_due
claim_due-IsLeased tokens now lease batch scope locked table all =
    elim (Bool-cases (is_nothing scope.outbox_ids)) [
      | inl nothing ↦ rw nothing all
      | inr something ↦
          rw something
            (claim_rows-IsLeased tokens lease 0 (select_due now batch scope locked table) table all)
    ]

pub after_failure-status : (n now : ℕ) → ((after_failure n now).0 == processing) ≡ false
unfolding after_failure status_beq
after_failure-status n now = ground arith

mark_failed-IsLeased :
    (id token error : String) (now : ℕ) (table : Table)
    → All IsLeased table
    → All IsLeased (mark_failed id token error now table).1
unfolding mark_failed
mark_failed-IsLeased id token error now table all =
    elim (Option-cases (find_by (is_owned id token) table)) [
      | inl lost ↦ ground (arith, lost, all)
      | inr (row, held) ↦
          let n : ℕ = row.attempt_count + 1 in
          let updated : All IsLeased (
              update_by (is_owned id token)
                (fail_with (after_failure n now).0 n (after_failure n now).1 error) table) =
            All-update_by IsLeased (is_owned id token) _ table
              (λ r p e. sym (after_failure-status n now)) all in
          ground (arith, held, updated)
    ]

-- Whatever enqueues, claims, completions, deletions and failures happen, in whatever order, a row
-- carries a claim token exactly while its status is `processing`.
pub Run-IsLeased : (table : Table) → Run table → All IsLeased table
unfolding complete mark_deleted status_beq
Run-IsLeased _ empty = tt
Run-IsLeased table (enqueued {table = before} {id = id} outbox_id now q run h) =
    enqueue-IsLeased outbox_id id now q before table h (Run-IsLeased before run)
Run-IsLeased _ (claimed {table = before} tokens now lease batch scope locked run) =
    claim_due-IsLeased tokens now lease batch scope locked before (Run-IsLeased before run)
Run-IsLeased _ (completed {table = before} id token now run) =
    All-update_by IsLeased (is_owned id token) (finish indexed now) before (λ r p e. refl)
      (Run-IsLeased before run)
Run-IsLeased _ (removed {table = before} id token now run) =
    All-update_by IsLeased (is_owned id token) (finish deleted now) before (λ r p e. refl)
      (Run-IsLeased before run)
Run-IsLeased _ (failed {table = before} id token error now run) =
    mark_failed-IsLeased id token error now before (Run-IsLeased before run)
