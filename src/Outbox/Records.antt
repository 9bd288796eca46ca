-- ===== src/Outbox/Records.antt =====
-- What the dispatcher records of a tenant (memory/tenant_dispatcher.py `run_once`).
use bridgesat_agent.Common.{
  ◌≡◌, refl, ◌∙◌, ap, Bool, true, false, String, Option, none, some, List, [], ◌∷◌, ◌++◌, ◌==◌,
  string_eq, lookup, insert, lookup-insert, contains, contains-append, arith, beq_refl,
}
use bridgesat_agent.Outbox.Rows.{Table}
use bridgesat_agent.Outbox.Dispatcher.{Outcome, Run, table_of, with_error, record_outcome}

abbrev pub succeeded : Option String → Bool
succeeded none = true
succeeded (some e) = false

-- What a run has of a tenant: its rows, its error and whether it counts as processed.
abbrev pub View : String → Run → Table × Option String × Bool
View t r = (table_of t r.database, lookup t r.last_errors, contains r.processed_tenants t)

triple :
    {A B C : Type 0} {a a' : A} {b b' : B} {c c' : C}
    → a ≡ a'
    → b ≡ b'
    → c ≡ c'
    → ◌≡◌ {A = A × B × C} (a, b, c) (a', b', c')
triple h k l = rw (h, k, l) refl

other_lookup :
    {V : Type 0} (t t' : String) (v : V) (d : List (String × V))
    → (t == t') ≡ false
    → lookup t' (insert t v d) ≡ lookup t' d
other_lookup t t' v d other = lookup-insert t t' v d ∙ rw other refl

self_lookup :
    {V : Type 0} (t : String) (v : V) (d : List (String × V)) → lookup t (insert t v d) ≡ some v
self_lookup t v d = lookup-insert t t v d ∙ rw (beq_refl t) refl

errors-other :
    (t t' : String) (error : Option String) (errors : List (String × String))
    → (t == t') ≡ false
    → lookup t' (with_error t error errors) ≡ lookup t' errors
errors-other t t' none errors other = refl
errors-other t t' (some e) errors other = other_lookup t t' e errors other

errors_self :
    (t : String) (error : Option String) (errors : List (String × String))
    → lookup t errors ≡ none
    → lookup t (with_error t error errors) ≡ error
errors_self t none errors clean = clean
errors_self t (some e) errors clean = self_lookup t e errors

abbrev counted : Option String → String → List String → List String
counted error t processed = elim error [ none ↦ processed ++ t ∷ [] | some e ↦ processed ]

counted-other :
    (error : Option String) (t t' : String) (processed : List String)
    → (t == t') ≡ false
    → contains (counted error t processed) t' ≡ contains processed t'
counted-other none t t' processed other =
    ground (arith, contains-append processed (t ∷ []) t', other)
counted-other (some e) t t' processed other = refl

counted_self :
    (error : Option String) (t : String) (processed : List String)
    → contains processed t ≡ false
    → contains (counted error t processed) t ≡ succeeded error
counted_self none t processed unseen =
    ground (arith, contains-append processed (t ∷ []) t, beq_refl t, unseen)
counted_self (some e) t processed unseen = unseen

pub record-other :
    (t t' : String) (o : Outcome) (r : Run)
    → (t == t') ≡ false
    → View t' (record_outcome t o r) ≡ View t' r
unfolding record_outcome
record-other t t' o r other =
    triple
      (ap (λ x. elim x [ none ↦ [] | some table ↦ table ])
        (other_lookup t t' o.table r.database other))
      (errors-other t t' o.error r.last_errors other)
      (counted-other (lookup t (with_error t o.error r.last_errors)) t t' r.processed_tenants other)

pub record_self :
    (t : String) (o : Outcome) (r : Run)
    → lookup t r.last_errors ≡ none
    → contains r.processed_tenants t ≡ false
    → View t (record_outcome t o r) ≡ (o.table, o.error, succeeded o.error)
unfolding record_outcome
record_self t o r clean unseen =
    let error : lookup t (with_error t o.error r.last_errors) ≡ o.error =
      errors_self t o.error r.last_errors clean in
    triple (ap (λ x. elim x [ none ↦ [] | some table ↦ table ]) (self_lookup t o.table r.database))
      error
      (counted_self (lookup t (with_error t o.error r.last_errors)) t r.processed_tenants unseen
        ∙ ap succeeded error)
