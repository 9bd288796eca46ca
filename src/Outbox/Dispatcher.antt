-- ===== src/Outbox/Dispatcher.antt =====
-- One batch for every tenant (memory/tenant_dispatcher.py). A tenant sees its own table only, so the
-- database is one table per tenant; no other transaction changes it while a batch runs.
use bridgesat_agent.Common.{
  ℕ, suc, ◌+◌, Bool, false, ◌||◌, ◌⊎◌, inl, inr, String, Option, none, some, List, [], ◌∷◌, ◌++◌,
  length, if◌then◌else◌, ◌==◌, string_eq, nat_eq, lookup, insert, distinct, sort_by,
}
use bridgesat_agent.Policy.Types.{truthy}
use bridgesat_agent.Outbox.Rows.{
  pending, processing, retrying, deletion_pending, status_eq, Row, Table,
}
use bridgesat_agent.Outbox.Worker.{Worker}
use bridgesat_agent.Outbox.Batches.{Surroundings, run_pending}

-- An exception: its text and the name of its class.
pub record Failure : Type 0 where
  pub text : String
  pub class_name : String

-- What the dispatcher is given, and how the connections of a run behave: the failure of a tenant's
-- connection or of its setting, of the index for it, of the database inside its batch (with the rows
-- that are left), and of the rollback and close at its end.
pub record Tenancy : Type 0 where
  pub connect : String → Option Failure
  pub index_factory : Option (String → Failure ⊎ Surroundings)
  pub breaks : String → Table → Option (Failure × Table)
  pub cleanup : String → Option Failure
  pub precedes : String → String → Bool
  pub first_500 : String → String

abbrev pub Database : Type 0
Database = List (String × Table)

-- `_error_message`
unfoldable pub error_message : Tenancy → Failure → String
error_message d f = d.first_500 (if truthy (some f.text) then f.text else f.class_name)

abbrev pub is_open : Row → Bool
is_open r =
    r.status == pending
    || r.status == retrying
    || r.status == deletion_pending
    || r.status == processing

abbrev pub has_open : Table → Bool
has_open [] = false
has_open (r ∷ rest) = is_open r || has_open rest

abbrev pub waiting_tenants : Database → List String
waiting_tenants [] = []
waiting_tenants ((t, table) ∷ rest) =
    if has_open table then t ∷ waiting_tenants rest else waiting_tenants rest

-- `tenant_ids`
unfoldable pub tenant_ids : Tenancy → Database → List String
tenant_ids d db = sort_by d.precedes (distinct (waiting_tenants db))

-- What the batch of a tenant leaves: its rows, the deliveries that count, and its error.
pub record Outcome : Type 0 where
  pub table : Table
  pub successes : ℕ
  pub error : Option String

abbrev pub first_error : List (String × String) → String
first_error [] = "outbox delivery failed"
first_error ((id, error) ∷ rest) = error

-- `_record_worker_failures`
unfoldable pub worker_failure : Tenancy → Worker → Option String
worker_failure d w =
    if w.failed_total == 0 then none else some (d.first_500 (first_error w.last_errors))

abbrev pub new_worker : Table → Worker
new_worker table = record {
  table = table;
  processed_total = 0;
  successful_total = 0;
  failed_total = 0;
  last_errors = [];
}

module _ (d : Tenancy) (now lease batch_size : ℕ) where
  -- The batch of a connected tenant, and the clean-up behind it, whose error replaces the worker's.
  unfoldable pub tenant_batch : String → Surroundings → Table → Option Outcome
  tenant_batch t env table = elim (d.breaks t table) [
    | some (f, left) ↦
        some (record { table = left; successes = 0; error = some (error_message d f) })
    | none ↦
        elim (run_pending (suc (length table)) (some env) now lease batch_size
          (record { student = none; outbox_ids = none }) (new_worker table)) [
            | none ↦ none
            | some (n, w) ↦ some (record {
              table = w.table;
              successes = w.successful_total;
              error = elim (d.cleanup t) [
                | some f ↦ some (error_message d f)
                | none ↦ worker_failure d w
              ];
            })
          ]
  ]

  -- The body of the loop up to the error that it records.
  unfoldable pub tenant_outcome :
      (String → Failure ⊎ Surroundings) → String → Table → Option Outcome
  tenant_outcome factory t table = elim (d.connect t) [
    | some f ↦ some (record { table = table; successes = 0; error = some (error_message d f) })
    | none ↦ elim (factory t) [
      | inl f ↦ some (record { table = table; successes = 0; error = some (error_message d f) })
      | inr env ↦ tenant_batch t env table
    ]
  ]

-- The database, and what a run of the dispatcher records.
pub record Run : Type 0 where
  pub database : Database
  pub last_errors : List (String × String)
  pub processed_tenants : List String
  pub processed : ℕ

abbrev pub table_of : String → Database → Table
table_of t db = elim (lookup t db) [ none ↦ [] | some table ↦ table ]

abbrev pub with_error : String → Option String → List (String × String) → List (String × String)
with_error t none errors = errors
with_error t (some e) errors = insert t e errors

-- A tenant counts as processed when it has no error.
unfoldable pub record_outcome : String → Outcome → Run → Run
record_outcome t o r = record {
  database = insert t o.table r.database;
  last_errors = with_error t o.error r.last_errors;
  processed_tenants = elim (lookup t (with_error t o.error r.last_errors)) [
    | none ↦ r.processed_tenants ++ t ∷ []
    | some e ↦ r.processed_tenants
  ];
  processed = r.processed + o.successes;
}

module _ (d : Tenancy) (now lease batch_size : ℕ) where
  -- The loop of `run_once`; `none` stands for a batch without fuel.
  unfoldable pub each_tenant : (String → Failure ⊎ Surroundings) → List String → Run → Option Run
  each_tenant factory [] r = some r
  each_tenant factory (t ∷ rest) r =
      elim (tenant_outcome d now lease batch_size factory t (table_of t r.database)) [
        | none ↦ none
        | some o ↦ each_tenant factory rest (record_outcome t o r)
      ]

  -- `run_once`; without an index nothing is done.
  unfoldable pub run_once : Database → Option Run
  run_once db =
      let reset : Run = record {
        database = db;
        last_errors = [];
        processed_tenants = [];
        processed = 0;
      } in
      elim d.index_factory [
        | none ↦ some reset
        | some factory ↦ each_tenant factory (tenant_ids d db) reset
      ]
