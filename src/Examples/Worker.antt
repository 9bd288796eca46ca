-- ===== src/Examples/Worker.antt =====
-- A delivery of the outbox worker (memory/worker.py) to an index that is down.
use bridgesat_agent.Common.{
  ℕ, ◌+◌, ◌≤◌, ◌≡◌, true, String, Option, none, some, List, [], ◌∷◌, All, string_eq,
}
use bridgesat_agent.Sync.Batch.{text_leb}
use bridgesat_agent.Outbox.Rows.{Row, Table}
use bridgesat_agent.Outbox.Repository.{Request, Scope, new_row}
use bridgesat_agent.Outbox.Worker.{Index, Worker, deliver_rows}
use bridgesat_agent.Outbox.Delivery.{IsReleased, deliver_rows-IsReleased}
use bridgesat_agent.Outbox.Batches.{Surroundings, run_pending}
use bridgesat_agent.Outbox.Termination.{run_pending_total}

abbrev fact : Request
fact = record {
  student_id = "s1";
  aggregate_type = "fact";
  aggregate_id = "f1";
  operation = "upsert_fact";
  payload_student_id = some "s1";
  version = 1;
}

abbrev pub stored : Table
stored = new_row "o1" 10 fact ∷ new_row "o2" 11 fact ∷ []

abbrev down : Index
down = record { has_method = λ method. true; raises = λ method row. some "timeout" }

abbrev quoted : Option String → String
quoted none = "None"
quoted (some s) = s

abbrev whole : String → String
whole s = s

abbrev start : Worker
start = record {
  table = stored;
  processed_total = 0;
  successful_total = 0;
  failed_total = 0;
  last_errors = [];
}

abbrev pub surroundings : Surroundings
surroundings = record {
  index = down;
  quoted = quoted;
  first_500 = whole;
  precedes = text_leb;
  tokens = λ round k. "t";
  locked = λ round. [];
}

abbrev any_row : Scope
any_row = record { student = none; outbox_ids = none }

-- The first row as a worker holds it that claimed it with the token "t".
abbrev claimed_rows : List Row
claimed_rows = record (new_row "o1" 10 fact) { claim_token = some "t" } ∷ []

deliver_rows-IsReleased_example :
    All
      (λ row.
        IsReleased
          (deliver_rows down quoted whole 20 claimed_rows start).table
          row.claim_token
          row.outbox_id)
      claimed_rows
deliver_rows-IsReleased_example = deliver_rows-IsReleased down quoted whole 20 claimed_rows start

run_pending_total_example :
    (total : ℕ) × (w' : Worker) × (run_pending 3 (some surroundings) 20 80 5 any_row start
      ≡ some (total, w'))
    × (total ≤ 5)
    × (w'.successful_total + w'.failed_total ≤ total)
run_pending_total_example = run_pending_total surroundings 20 80 5 any_row start
