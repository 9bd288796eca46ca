-- ===== src/Examples/Tenants.antt =====
-- Two tenants of the dispatcher (memory/tenant_dispatcher.py): the database refuses the first one.
use bridgesat_agent.Common.{
  ◌≡◌, refl, false, none, some, String, [], ◌∷◌, ◌⊎◌, inr, All, string_eq, contains, sort_by,
  insert_by, if◌then◌else◌, ◌==◌,
}
use bridgesat_agent.Sync.Batch.{text_leb}
use bridgesat_agent.Outbox.Rows.{status_beq}
use bridgesat_agent.Outbox.Batches.{Surroundings}
use bridgesat_agent.Outbox.Dispatcher.{
  Failure, Tenancy, Database, Run, tenant_ids, table_of, run_once,
}
use bridgesat_agent.Outbox.Records.{View}
use bridgesat_agent.Outbox.Tenants.{reset, IsServed, run_once-IsServed}
use bridgesat_agent.Examples.Worker.{stored, surroundings}

abbrev index_of : String → Failure ⊎ Surroundings
index_of t = inr surroundings

abbrev tenancy : Tenancy
tenancy = record {
  connect = λ t.
      if t == "east" then some (record { text = ""; class_name = "OperationalError" }) else none;
  index_factory = some index_of;
  breaks = λ t table. none;
  cleanup = λ t. none;
  precedes = text_leb;
  first_500 = λ t. t;
}

abbrev both : Database
both = ("east", stored) ∷ ("west", stored) ∷ ("idle", []) ∷ []

served_tenants : tenant_ids tenancy both ≡ "east" ∷ "west" ∷ []
unfolding tenant_ids sort_by insert_by status_beq
served_tenants = refl

run_once-IsServed_example :
    (r : Run) × (run_once tenancy 20 80 5 both ≡ some r)
    × All (IsServed tenancy 20 80 5 index_of (reset both) r) (tenant_ids tenancy both)
    × ((t : String)
        → contains (tenant_ids tenancy both) t ≡ false
        → View t r ≡ (table_of t both, none, false))
run_once-IsServed_example = run_once-IsServed tenancy 20 80 5 index_of both refl
