-- ===== src/Outbox/Fencing.antt =====
-- Claim tokens fence off late workers (memory/outbox.py): a worker whose claim was taken over changes
-- nothing.
use text.Mathlib.TextEquality.{eq_iff}
use bridgesat_agent.Common.{
  ℕ, ◌≡◌, ◌≢◌, refl, true, false, String, Option, none, some, List, [], ◌∷◌, arith, ◌==◌, string_eq,
  option_eq, count_by, find_by, update_by_none, All, All-map, contains, inl, inr, Bool-cases,
}
use bridgesat_agent.Outbox.Rows.{indexed, deleted, status_eq, Row, Table}
use bridgesat_agent.Outbox.Claims.{ids_of, AmongHolds, claim_due-AmongHolds}
use bridgesat_agent.Outbox.Repository.{
  Scope, claim_due, is_owned, finish, complete, mark_deleted, mark_failed,
}

-- No row is a live claim with this id and token.
abbrev pub IsStale : String → String → Table → Type 0
IsStale id token table = All (λ r. is_owned id token r ≡ false) table

count_stale :
    (id token : String) (table : Table)
    → IsStale id token table
    → count_by (is_owned id token) table ≡ 0
unfolding count_by
count_stale id token [] h = refl
count_stale id token (r ∷ rest) h = rw h.0 (count_stale id token rest h.1)

find_stale :
    (id token : String) (table : Table)
    → IsStale id token table
    → find_by (is_owned id token) table ≡ none
unfolding find_by
find_stale id token [] h = refl
find_stale id token (r ∷ rest) h = rw h.0 (find_stale id token rest h.1)

-- With a stale token, `complete`, `mark_deleted` and `mark_failed` report that the claim is lost and
-- leave the table as it is.
pub stale_changes_nothing :
    (id token error : String) (now : ℕ) (table : Table)
    → IsStale id token table
    → (complete id token now table ≡ (false, table))
      × (mark_deleted id token now table ≡ (false, table))
      × (mark_failed id token error now table ≡ (none, table))
unfolding complete mark_deleted mark_failed
stale_changes_nothing id token error now table h = (
  rw (
    count_stale id token table h,
    update_by_none (is_owned id token) (finish indexed now) table (count_stale id token table h),
  ),
  rw (
    count_stale id token table h,
    update_by_none (is_owned id token) (finish deleted now) table (count_stale id token table h),
  ),
  rw (find_stale id token table h, mark_failed),
)

abbrev IsTokened : (ℕ → String) → Row → Type 0
IsTokened tokens r = (k : ℕ) × (r.claim_token ≡ some (tokens k))

other_token :
    (held : Option String) (t token : String)
    → held ≡ some t
    → t ≢ token
    → (held == some token) ≡ false
other_token none t token e ne = ground arith
other_token (some s) t token e ne = ground (arith, eq_iff s token, eq_iff t token)

not_owned :
    (tokens : ℕ → String) (ids : List String) (id token : String) (r : Row)
    → ((k : ℕ) → tokens k ≢ token)
    → contains ids id ≡ true
    → AmongHolds (IsTokened tokens) ids r
    → is_owned id token r ≡ false
not_owned tokens ids id token r fresh taken p = elim (Bool-cases (r.outbox_id == id)) [
  | inl same ↦
      let e : r.outbox_id ≡ id = (eq_iff r.outbox_id id).0 same in
      let (k, held) = p (rw e taken) in
      ground (arith, other_token r.claim_token (tokens k) token held (fresh k))
  | inr other ↦ ground arith
]

-- A worker's claim on a row is lost once another claim took the row with tokens of its own: whatever
-- the worker reports then changes nothing.
pub taken_over :
    (tokens : ℕ → String) (now lease batch : ℕ) (scope : Scope) (locked : List String)
    (table : Table) (id token error : String) (later : ℕ)
    → ((k : ℕ) → tokens k ≢ token)
    → contains (ids_of (claim_due tokens now lease batch scope locked table).0) id ≡ true
    → let table' = (claim_due tokens now lease batch scope locked table).1 in
      (complete id token later table' ≡ (false, table'))
      × (mark_deleted id token later table' ≡ (false, table'))
      × (mark_failed id token error later table' ≡ (none, table'))
taken_over tokens now lease batch scope locked table id token error later fresh taken =
    let ids : List String = ids_of (claim_due tokens now lease batch scope locked table).0 in
    let table' : Table = (claim_due tokens now lease batch scope locked table).1 in
    stale_changes_nothing id token error later table' (
      All-map (AmongHolds (IsTokened tokens) ids) (λ r. is_owned id token r ≡ false) table'
        (λ r p. not_owned tokens ids id token r fresh taken p)
        (claim_due-AmongHolds (IsTokened tokens) tokens lease (λ k r. (k, refl)) now batch scope
          locked table))
