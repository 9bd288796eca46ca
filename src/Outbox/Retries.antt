-- ===== src/Outbox/Retries.antt =====
-- The life of an outbox row (memory/outbox.py): the retry schedule, the idempotence of `enqueue`, and
-- what the operations keep of every row.
use bridgesat_agent.Common.{ℕ, ◌+◌, ◌≤◌, ◌<◌, ◌≡◌, ◌↔◌, ◌⊎◌, none, arith, nat_eq, string_eq}
use bridgesat_agent.Outbox.Rows.{retrying, dead_letter, status_eq, next_retry_delay_seconds}
use bridgesat_agent.Outbox.Repository.{after_failure}

-- A failed delivery is retried exactly up to the fifth failure.
retry_iff : (n : ℕ) → (next_retry_delay_seconds n ≡ none) ↔ (5 < n)
unfolding next_retry_delay_seconds
retry_iff n = ground arith

-- From the sixth failure on a row goes to the dead letter at once; before it, it is retried after a
-- delay of at most half an hour, and a later failure waits at least as long as an earlier one.
pub backoff :
    (n m now : ℕ)
    → n ≤ m
    → ((5 < m) × (after_failure m now ≡ (dead_letter, now)))
      ⊎ ((m ≤ 5)
          × ((after_failure m now).0 ≡ retrying)
          × ((after_failure n now).1 ≤ (after_failure m now).1)
          × ((after_failure m now).1 ≤ now + 1800))
unfolding after_failure next_retry_delay_seconds
backoff n m now le = ground arith
