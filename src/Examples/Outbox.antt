-- ===== src/Examples/Outbox.antt =====
-- A table of the outbox (memory/outbox.py).
use text.Mathlib.TextEquality.{eq_iff}
use bridgesat_agent.Common.{
  ℕ, ◌+◌, ◌<◌, ◌≤◌, ◌≡◌, ◌≢◌, ◌⊎◌, refl, true, false, String, none, some, [], ◌∷◌, All, contains,
  arith, string_eq, filter_by, sort_by, insert_by, find_by,
}
use bridgesat_agent.Outbox.Rows.{retrying, dead_letter, Table, status_beq}
use bridgesat_agent.Outbox.Repository.{
  Request, Scope, new_row, enqueue, is_due, select_due, claim_rows, claim_due, complete,
  mark_deleted, mark_failed, after_failure,
}
use bridgesat_agent.Outbox.Claims.{ids_of, claim_exclusive}
use bridgesat_agent.Outbox.Fencing.{taken_over}
use bridgesat_agent.Outbox.Retries.{backoff}
use bridgesat_agent.Outbox.Lifecycle.{IsLeased, empty, enqueued, claimed, Run-IsLeased}

abbrev episode : Request
episode = record {
  student_id = "s1";
  aggregate_type = "episode";
  aggregate_id = "ep1";
  operation = "upsert_episode";
  payload_student_id = some "s1";
  version = 1;
}

abbrev waiting : Table
waiting = new_row "o1" 10 episode ∷ []

abbrev everything : Scope
everything = record { student = none; outbox_ids = none }

-- The tokens of the second worker; the first one holds "a".
abbrev tokens : ℕ → String
tokens k = "b"

other_token : (k : ℕ) → tokens k ≢ "a"
other_token k e = ground (arith, (eq_iff "b" "a").1 e)

is_claimed : contains (ids_of (claim_due tokens 20 80 5 everything [] waiting).0) "o1" ≡ true
unfolding claim_due select_due claim_rows is_due filter_by sort_by insert_by status_beq
is_claimed = refl

claim_exclusive_example :
    All
      (λ r.
        contains (ids_of (claim_due tokens 20 80 5 everything [] waiting).0) r.outbox_id ≡ false)
      (claim_due tokens 30 90 5 everything [] (claim_due tokens 20 80 5 everything [] waiting).1).0
claim_exclusive_example =
    claim_exclusive tokens tokens 20 80 5 everything [] 30 90 5 everything [] waiting (omega arith)

taken_over_example :
    let table' = (claim_due tokens 20 80 5 everything [] waiting).1 in
    (complete "o1" "a" 30 table' ≡ (false, table'))
    × (mark_deleted "o1" "a" 30 table' ≡ (false, table'))
    × (mark_failed "o1" "a" "timeout" 30 table' ≡ (none, table'))
taken_over_example =
    taken_over tokens 20 80 5 everything [] waiting "o1" "a" "timeout" 30 other_token is_claimed

backoff_example :
    ((5 < 3) × (after_failure 3 100 ≡ (dead_letter, 100)))
    ⊎ ((3 ≤ 5)
        × ((after_failure 3 100).0 ≡ retrying)
        × ((after_failure 2 100).1 ≤ (after_failure 3 100).1)
        × ((after_failure 3 100).1 ≤ 100 + 1800))
backoff_example = backoff 2 3 100 (omega arith)

first_enqueue : enqueue "o1" 10 episode [] ≡ some ("o1", waiting)
unfolding enqueue find_by
first_enqueue = refl

Run-IsLeased_example : All IsLeased (claim_due tokens 20 80 5 everything [] waiting).1
Run-IsLeased_example =
    Run-IsLeased (claim_due tokens 20 80 5 everything [] waiting).1
      (claimed tokens 20 80 5 everything [] (enqueued "o1" 10 episode empty first_enqueue))
