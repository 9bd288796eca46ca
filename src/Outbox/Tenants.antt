-- ===== src/Outbox/Tenants.antt =====
-- Tenants are independent of each other (memory/tenant_dispatcher.py).
use bridgesat_agent.Common.{
  ℕ, ◌≡◌, ◌⊎◌, refl, ◌∙◌, sym, ap, false, String, Option, none, some, List, [], ◌∷◌, ◌==◌,
  string_eq, lookup, distinct, contains, All, All-intro, All-map, All-and, arith, inl, inr,
}
use bridgesat_agent.Outbox.Rows.{Table}
use bridgesat_agent.Outbox.Batches.{Surroundings}
use bridgesat_agent.Outbox.Termination.{run_pending_total}
use bridgesat_agent.Outbox.Dispatcher.{
  Failure, Tenancy, Database, error_message, waiting_tenants, tenant_ids, Outcome, new_worker,
  tenant_batch, tenant_outcome, Run, table_of, record_outcome, each_tenant, run_once,
}
use bridgesat_agent.Outbox.Distinct.{NoRepeats, NoRepeats-distinct_from, NoRepeats-sort_by}
use bridgesat_agent.Outbox.Records.{succeeded, View, record-other, record_self}

abbrev Returns : {A : Type 0} → Option A → Type 0
Returns {A} o = (a : A) × (o ≡ some a)

option-Returns :
    {A B : Type 0} (o : Option B) (x : Option A) (f : B → Option A)
    → Returns x
    → ((b : B) → Returns (f b))
    → Returns (elim o [ none ↦ x | some b ↦ f b ])
option-Returns none x f h k = h
option-Returns (some b) x f h k = k b

tenant_batch-Returns :
    (d : Tenancy) (now lease batch : ℕ) (t : String) (env : Surroundings) (table : Table)
    → Returns (tenant_batch d now lease batch t env table)
unfolding tenant_batch
tenant_batch-Returns d now lease batch t env table =
    let (total, w, runs, most, sum) =
      run_pending_total env now lease batch (record { student = none; outbox_ids = none })
        (new_worker table) in
    option-Returns (d.breaks t table) _ _ (rw runs (_, refl)) (λ broken. (_, refl))

tenant_outcome-Returns :
    (d : Tenancy) (now lease batch : ℕ) (factory : String → Failure ⊎ Surroundings) (t : String)
    (table : Table)
    → Returns (tenant_outcome d now lease batch factory t table)
unfolding tenant_outcome
tenant_outcome-Returns d now lease batch factory t table =
    option-Returns (d.connect t) _ _ (indexed (factory t)) (λ f. (_, refl))
  where
    indexed :
        (x : Failure ⊎ Surroundings)
        → Returns {A = Outcome} (elim x [
          | inl f ↦ some (record { table = table; successes = 0; error = some (error_message d f) })
          | inr env ↦ tenant_batch d now lease batch t env table
        ])
    indexed (inl f) = (_, refl)
    indexed (inr env) = tenant_batch-Returns d now lease batch t env table

not_in : (ts : List String) (t : String) → contains ts t ≡ false → All (λ t'. (t == t') ≡ false) ts
not_in [] t h = tt
not_in (x ∷ ts) t h = (
  ground (arith, h, string_eq.decides x t, string_eq.decides t x),
  not_in ts t (ground (arith, h)),
)

absent_parts :
    (t t' : String) (rest : List String)
    → contains (t ∷ rest) t' ≡ false
    → ((t == t') ≡ false) × (contains rest t' ≡ false)
absent_parts t t' rest h = ground (arith, h)

abbrev pub reset : Database → Run
reset db = record { database = db; last_errors = []; processed_tenants = []; processed = 0 }

module _ (d : Tenancy) (now lease batch_size : ℕ) where
  -- The tenant's batch ran on the rows that it had before the run, and the run has its outcome.
  abbrev pub IsServed : (String → Failure ⊎ Surroundings) → Run → Run → String → Type 0
  IsServed factory r r' t =
      (o : Outcome) × (tenant_outcome d now lease batch_size factory t (table_of t r.database)
        ≡ some o)
      × (View t r' ≡ (o.table, o.error, succeeded o.error))

  abbrev IsFresh : Run → String → Type 0
  IsFresh r t = (lookup t r.last_errors ≡ none) × (contains r.processed_tenants t ≡ false)

  each-step :
      (factory : String → Failure ⊎ Surroundings) (t : String) (rest : List String) (r r' : Run)
      (o : Outcome)
      → tenant_outcome d now lease batch_size factory t (table_of t r.database) ≡ some o
      → each_tenant d now lease batch_size factory rest (record_outcome t o r) ≡ some r'
      → each_tenant d now lease batch_size factory (t ∷ rest) r ≡ some r'
  unfolding each_tenant
  each-step factory t rest r r' o out runs = rw (out, each_tenant) runs

  each-IsServed :
      (factory : String → Failure ⊎ Surroundings) (ts : List String) (r : Run)
      → NoRepeats ts
      → All (IsFresh r) ts
      → (r' : Run) × (each_tenant d now lease batch_size factory ts r ≡ some r')
        × All (IsServed factory r r') ts
        × ((t : String) → contains ts t ≡ false → View t r' ≡ View t r)
  unfolding each_tenant
  each-IsServed factory [] r once fresh = (r, refl, tt, λ t out. refl)
  each-IsServed factory (t ∷ rest) r once fresh =
      let (o, out) =
        tenant_outcome-Returns d now lease batch_size factory t (table_of t r.database) in
      let r1 : Run = record_outcome t o r in
      let same : All (λ t'. View t' r1 ≡ View t' r) rest =
        All-map (λ t'. (t == t') ≡ false) (λ t'. View t' r1 ≡ View t' r) rest
          (λ t' other. record-other t t' o r other) (not_in rest t once.0) in
      let (r', runs, served, frame) = each-IsServed factory rest r1 once.1 (
        All-map (λ t'. (View t' r1 ≡ View t' r) × IsFresh r t') (IsFresh r1) rest
          (λ t' (v, f). (ap (λ x. x.1) v ∙ f.0, ap (λ x. x.2) v ∙ f.1))
          (All-and (λ t'. View t' r1 ≡ View t' r) (IsFresh r) rest same fresh.1)) in
      (
        r',
        each-step factory t rest r r' o out runs,
        (
          (o, out, frame t once.0 ∙ record_self t o r fresh.0.0 fresh.0.1),
          All-map (λ t'. (View t' r1 ≡ View t' r) × IsServed factory r1 r' t')
              (IsServed factory r r') rest
              (λ t' (v, (o', out', view)). (
                o',
                ap (tenant_outcome d now lease batch_size factory t') (sym (ap (λ x. x.0) v))
                    ∙ out',
                view,
              ))
              (All-and (λ t'. View t' r1 ≡ View t' r) (IsServed factory r1 r') rest same served),
        ),
        λ t' absent.
            let (other, gone) = absent_parts t t' rest absent in
            frame t' gone ∙ record-other t t' o r other,
      )

  -- A run of the dispatcher ends. Each tenant that has rows to deliver is served on its own: its batch
  -- runs once, on the rows that it had, and gives its rows and its error whatever happened to the
  -- other tenants; it counts as processed exactly when it has no error. The rows of all other tenants
  -- stay as they are, and these have neither an error nor count as processed.
  pub run_once-IsServed :
      (factory : String → Failure ⊎ Surroundings) (db : Database)
      → d.index_factory ≡ some factory
      → (r : Run) × (run_once d now lease batch_size db ≡ some r)
        × All (IsServed factory (reset db) r) (tenant_ids d db)
        × ((t : String)
            → contains (tenant_ids d db) t ≡ false
            → View t r ≡ (table_of t db, none, false))
  unfolding run_once tenant_ids
  run_once-IsServed factory db given =
      let (r, runs, served, frame) =
        each-IsServed factory (tenant_ids d db) (reset db)
          (NoRepeats-sort_by d.precedes (distinct (waiting_tenants db))
            (NoRepeats-distinct_from [] (waiting_tenants db)))
          (All-intro (IsFresh (reset db)) _ (λ t. (refl, refl))) in
      (
        r,
        ap
              (λ f. elim f [
                | none ↦ some (reset db)
                | some g ↦ each_tenant d now lease batch_size g (tenant_ids d db) (reset db)
              ])
              given
            ∙ runs,
        served,
        frame,
      )
