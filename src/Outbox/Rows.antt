-- ===== src/Outbox/Rows.antt =====
-- The rows of `memory_outbox`, their keys and the retry schedule (memory/outbox.py).
use Prim.Native.Nat.{◌/◌, ◌%◌}
use Prim.Native.String.{◌++◌}
use bridgesat_agent.Common.{
  ℕ, zero, suc, ◌-◌, ◌≡◌, ◌↔◌, Bool, true, String, Option, none, some, List, [], ◌∷◌, ltb,
  if◌then◌else◌, Eq, ◌==◌, nat_eq, string_eq, test_of, test_of_iff,
}

-- `OUTBOX_STATUSES`
pub data Status : Type 0 where
  pending processing indexed retrying dead_letter deletion_pending deleted : Status

Status-discrete : Discrete Status
Status-discrete = hlevel

unfoldable pub status_beq : Status → Status → Bool
unfolding Status-discrete
status_beq a b = test_of Status-discrete a b

pub status_beq_iff : (a b : Status) → (status_beq a b ≡ true) ↔ (a ≡ b)
unfolding status_beq
status_beq_iff a b = test_of_iff Status-discrete a b

instance abbrev pub status_eq : Eq Status
status_eq = record { decides = status_beq_iff; is_equal = status_beq }

-- `OutboxRecord`, and a row of the table. Of the payload only its student is read.
pub record Row : Type 0 where
  pub outbox_id : String
  pub student_id : String
  pub aggregate_type : String
  pub aggregate_id : String
  pub operation : String
  pub payload_student_id : Option String
  pub idempotency_key : String
  pub status : Status
  pub attempt_count : ℕ
  pub next_attempt_at : ℕ
  pub last_error : Option String
  pub created_at : ℕ
  pub completed_at : Option ℕ
  pub claim_token : Option String

abbrev pub Table : Type 0
Table = List Row

abbrev pub digit : ℕ → String
digit d =
    if d == 0
    then "0"
    else if d == 1
    then "1"
    else if d == 2
    then "2"
    else if d == 3
    then "3"
    else if d == 4
    then "4"
    else if d == 5
    then "5"
    else if d == 6
    then "6"
    else if d == 7
    then "7"
    else if d == 8
    then "8"
    else "9"

-- A number in decimal; as many rounds as the number are enough.
decimal_rounds : ℕ → ℕ → String
decimal_rounds zero n = digit n
decimal_rounds (suc fuel) n =
    let front = decimal_rounds fuel (n / 10) in
    if ltb n 10 then digit n else front ++ digit (n % 10)

unfoldable pub decimal : ℕ → String
unfolding decimal_rounds
decimal n = decimal_rounds n n

-- `outbox_idempotency_key`
unfoldable pub outbox_idempotency_key : String → String → String → ℕ → String → String
outbox_idempotency_key student_id aggregate_type aggregate_id version operation =
    "memory-index:"
    ++ (student_id
        ++ (":"
            ++ (aggregate_type
                ++ (":" ++ (aggregate_id ++ (":" ++ (decimal version ++ (":" ++ operation))))))))

-- `RETRY_DELAY_SECONDS` and `MAX_ATTEMPTS`
abbrev pub retry_delay_seconds : List ℕ
retry_delay_seconds = 0 ∷ 5 ∷ 30 ∷ 300 ∷ 1800 ∷ []

abbrev pub max_attempts : ℕ
max_attempts = 5

abbrev pub claim_lease_seconds : ℕ
claim_lease_seconds = 60

-- `RETRY_DELAY_SECONDS[i]`; the source reads it only in range.
abbrev pub delay_at : List ℕ → ℕ → ℕ
delay_at [] i = 0
delay_at (d ∷ rest) zero = d
delay_at (d ∷ rest) (suc i) = delay_at rest i

-- `next_retry_delay_seconds`; `none` asks for the dead letter.
unfoldable pub next_retry_delay_seconds : ℕ → Option ℕ
next_retry_delay_seconds attempt_count =
    if attempt_count == 0
    then some 0
    else if ltb max_attempts attempt_count
    then none
    else some (delay_at retry_delay_seconds (attempt_count - 1))
