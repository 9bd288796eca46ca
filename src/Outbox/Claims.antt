-- ===== src/Outbox/Claims.antt =====
-- Claims (memory/outbox.py): what is taken, and that a live lease excludes other workers.
use text.Mathlib.TextEquality.{eq_iff}
use bridgesat_agent.Common.{
  ap, All-update_to, All-intro, ℕ, suc, ◌≤◌, ◌<◌, ◌≡◌, inl, inr, refl, Bool, true, false, not, ◌&&◌,
  ◌||◌, String, List, [], ◌∷◌, arith, length, ◌==◌, nat_eq, string_eq, contains, update_by, All,
  All-map, Bool-cases,
}
use bridgesat_agent.Outbox.Rows.{pending, processing, status_eq, status_beq_iff, Row, Table}
use bridgesat_agent.Outbox.Repository.{
  Scope, in_scope, is_due, select_due, hold, claim_rows, claim_due, is_nothing,
}
use bridgesat_agent.Outbox.Selection.{claim_due-All, length-claim_due}

abbrev pub ids_of : List Row → List String
ids_of [] = []
ids_of (r ∷ rest) = r.outbox_id ∷ ids_of rest

-- The row is claimed until `lease`.
abbrev pub IsHeld : ℕ → Row → Type 0
IsHeld lease r = (r.status ≡ processing) × (r.next_attempt_at ≡ lease)

-- A row whose id is among those in `ids` satisfies `H`.
abbrev pub AmongHolds : (Row → Type 0) → List String → Row → Type 0
AmongHolds H ids r = contains ids r.outbox_id ≡ true → H r

-- `H` is what a claim with one of these tokens establishes.
module _ (H : Row → Type 0) (tokens : ℕ → String) (lease : ℕ)
    (holds : (k : ℕ) (r : Row) → H (hold lease (tokens k) r)) where
  hold-AmongHolds :
      (ids : List String) (k : ℕ) (id : String) (table : Table)
      → All (AmongHolds H ids) table
      → All
          (AmongHolds H (id ∷ ids))
          (update_by (λ r. r.outbox_id == id) (hold lease (tokens k)) table)
  hold-AmongHolds ids k id table h =
      All-update_to (AmongHolds H ids) (AmongHolds H (id ∷ ids)) (λ r. r.outbox_id == id)
        (hold lease (tokens k)) table (λ r p e c. holds k r)
        (λ r p e c. p (ground (arith, eq_iff id r.outbox_id, eq_iff r.outbox_id id))) h

  claim_rows-AmongHolds :
      (k : ℕ) (rows : List Row) (ids : List String) (table : Table)
      → All (AmongHolds H ids) table
      → All
          (λ r. (contains ids r.outbox_id || contains (ids_of rows) r.outbox_id) ≡ true → H r)
          (claim_rows tokens lease k rows table).1
  unfolding claim_rows
  claim_rows-AmongHolds k [] ids table h =
      All-map (AmongHolds H ids) (λ r. (contains ids r.outbox_id || false) ≡ true → H r) table
        (λ r p e. p (ground arith)) h
  claim_rows-AmongHolds k (row ∷ rows) ids table h =
      let table' : Table =
        update_by (λ r. r.outbox_id == row.outbox_id) (hold lease (tokens k)) table in
      All-map
        (λ r.
          (contains (row.outbox_id ∷ ids) r.outbox_id || contains (ids_of rows) r.outbox_id) ≡ true
          → H r)
        (λ r. (contains ids r.outbox_id || contains (ids_of (row ∷ rows)) r.outbox_id) ≡ true → H r)
        (claim_rows tokens lease (suc k) rows table').1 (λ r p e. p (ground arith))
        (claim_rows-AmongHolds (suc k) rows (row.outbox_id ∷ ids) table'
          (hold-AmongHolds ids k row.outbox_id table h))

-- The claimed records are the selected rows, with their new tokens.
ids-claim_rows :
    (tokens : ℕ → String) (lease k : ℕ) (rows : List Row) (table : Table)
    → ids_of (claim_rows tokens lease k rows table).0 ≡ ids_of rows
unfolding claim_rows
ids-claim_rows tokens lease k [] table = refl
ids-claim_rows tokens lease k (row ∷ rows) table =
    ap (λ l. row.outbox_id ∷ l)
      (ids-claim_rows tokens lease (suc k) rows
        (update_by (λ r. r.outbox_id == row.outbox_id) (hold lease (tokens k)) table))

-- Every row that `claim_due` returned satisfies `H` in the table that it leaves behind.
pub claim_due-AmongHolds :
    (H : Row → Type 0) (tokens : ℕ → String) (lease : ℕ)
    → ((k : ℕ) (r : Row) → H (hold lease (tokens k) r))
    → (now batch : ℕ) (scope : Scope) (locked : List String) (table : Table)
    → let (claimed, table') = claim_due tokens now lease batch scope locked table in
      All (AmongHolds H (ids_of claimed)) table'
unfolding claim_due
claim_due-AmongHolds H tokens lease holds now batch scope locked table =
    elim (Bool-cases (is_nothing scope.outbox_ids)) [
      | inl nothing ↦ rw nothing (All-intro (AmongHolds H []) table (λ r e. cc))
      | inr something ↦
          let rows : List Row = select_due now batch scope locked table in
          rw something (
            All-map
              (λ r. (contains [] r.outbox_id || contains (ids_of rows) r.outbox_id) ≡ true → H r)
              (AmongHolds H (ids_of (claim_rows tokens lease 0 rows table).0))
              (claim_rows tokens lease 0 rows table).1
              (λ r p e. p (rw (ids-claim_rows tokens lease 0 rows table) at e))
              (claim_rows-AmongHolds H tokens lease holds 0 rows [] table
                (All-intro (AmongHolds H []) table (λ r e. cc))))
    ]

-- A claim takes at most `batch` rows, and each of them is due, in the scope that was asked for, and
-- not locked by another transaction.
claim_due_sound :
    (tokens : ℕ → String) (now lease batch : ℕ) (scope : Scope) (locked : List String)
    (table : Table)
    → let (claimed, table') = claim_due tokens now lease batch scope locked table in
      (length claimed ≤ batch)
      × All
          (λ r. (is_due now r && in_scope scope r && not (contains locked r.outbox_id)) ≡ true)
          claimed
claim_due_sound tokens now lease batch scope locked table = (
  length-claim_due tokens now lease batch scope locked table,
  All-map
      (λ r.
        Unit {0} × ((is_due now r && in_scope scope r && not (contains locked r.outbox_id)) ≡ true))
      (λ r. (is_due now r && in_scope scope r && not (contains locked r.outbox_id)) ≡ true)
      (claim_due tokens now lease batch scope locked table).0 (λ r q. q.1)
      (claim_due-All (λ r. Unit {0}) (λ r t q. tt) tokens now lease batch scope locked table
        (All-intro (λ r. Unit {0}) table (λ r. tt))),
)

held_not_due : (r : Row) (lease now : ℕ) → IsHeld lease r → now < lease → is_due now r ≡ false
unfolding is_due
held_not_due r lease now h early = ground (arith, status_beq_iff r.status pending)

not_claimed :
    (ids : List String) (lease now : ℕ) (r : Row) (wanted free : Bool)
    → now < lease
    → AmongHolds (IsHeld lease) ids r
    → (is_due now r && wanted && free) ≡ true
    → contains ids r.outbox_id ≡ false
not_claimed ids lease now r wanted free early held taken =
    elim (Bool-cases (contains ids r.outbox_id)) [
      | inl mine ↦ ground (arith, held_not_due r lease now (held mine) early)
      | inr other ↦ other
    ]

-- While the lease of a claim is alive, no other claim, whatever its scope, takes a row that this one
-- took.
pub claim_exclusive :
    (tokens tokens' : ℕ → String) (now lease batch : ℕ) (scope : Scope) (locked : List String)
    (now' lease' batch' : ℕ) (scope' : Scope) (locked' : List String) (table : Table)
    → now' < lease
    → let (claimed, table') = claim_due tokens now lease batch scope locked table in
      let (claimed', table'') = claim_due tokens' now' lease' batch' scope' locked' table' in
      All (λ r. contains (ids_of claimed) r.outbox_id ≡ false) claimed'
claim_exclusive tokens tokens' now lease batch scope locked now' lease' batch' scope' locked' table
      early =
    let ids : List String = ids_of (claim_due tokens now lease batch scope locked table).0 in
    let table' : Table = (claim_due tokens now lease batch scope locked table).1 in
    All-map
      (λ r.
        AmongHolds (IsHeld lease) ids r
        × ((is_due now' r && in_scope scope' r && not (contains locked' r.outbox_id)) ≡ true))
      (λ r. contains ids r.outbox_id ≡ false)
      (claim_due tokens' now' lease' batch' scope' locked' table').0
      (λ r q.
        not_claimed ids lease now' r (in_scope scope' r) (not (contains locked' r.outbox_id)) early
          q.0 q.1)
      (claim_due-All (AmongHolds (IsHeld lease) ids) (λ r t q. q) tokens' now' lease' batch' scope'
        locked' table'
        (claim_due-AmongHolds (IsHeld lease) tokens lease (λ k r. (refl, refl)) now batch scope
          locked table))
