-- ===== src/Memory/Facts.antt =====
-- `PGMemory.upsert_fact_for_episode` of memory/pg_memory.py: the facts that validated episodes
-- support, and their promotion.
use Prim.Native.String.{◌++◌ as ◌^◌}
use bridgesat_agent.Common.{
  ℕ, ◌+◌, ◌*◌, Bool, ◌&&◌, String, Option, none, some, List, [], ◌∷◌, ◌++◌, if◌then◌else◌, ◌==◌,
  string_eq, option_eq, leb, length, distinct, find_by, update_by,
}
use bridgesat_agent.Outbox.Repository.{Request, enqueue}
use bridgesat_agent.Policy.Types.{truthy}
use bridgesat_agent.Memory.Tables.{
  Episode, FactStatus, observation, inference, stable, MemoryFact, MemoryStore, duplicate_key,
  bad_key, Written, written, refused, guarded,
}
use bridgesat_agent.Memory.Recall.{ids_of, fact_key, list_episodes_for_fact}

abbrev pub sessions_of : List Episode → List String
sessions_of [] = []
sessions_of (e ∷ rest) = e.session_id ∷ sessions_of rest

abbrev pub items_of : List Episode → List (Option String)
items_of [] = []
items_of (e ∷ rest) = e.outcome.outcome_content_id ∷ items_of rest

abbrev pub lesser : ℕ → ℕ → ℕ
lesser a b = if leb a b then a else b

-- The status and the confidence that the supporting episodes give.
unfoldable pub promotion : List Episode → FactStatus × ℕ
promotion supporting =
    if leb 3 (length supporting) && leb 2 (length (distinct (sessions_of supporting)))
    then (stable, lesser 90 (50 + 10 * length supporting))
    else if leb 2 (length (distinct (items_of supporting)))
    then (inference, 60)
    else (observation, 50)

abbrev pub key_of : Episode → String
key_of e = fact_key e.skill e.misconception e.intervention

abbrev pub or_errors : Option String → String
or_errors none = "errors"
or_errors (some t) = if truthy (some t) then t else "errors"

abbrev pub fact_text_of : Episode → String
fact_text_of e =
    e.skill
    ^ (" " ^ (or_errors e.misconception ^ (" respond positively to " ^ (e.intervention ^ "."))))

abbrev pub new_fact : String → Episode → List Episode → ℕ → MemoryFact
new_fact fact_id e supporting now = record {
  fact_id = fact_id;
  student_id = e.student_id;
  normalized_key = key_of e;
  fact_text = fact_text_of e;
  confidence = (promotion supporting).1;
  supporting_episode_ids = ids_of supporting;
  contradicting_episode_ids = [];
  evidence_count = length supporting;
  contradiction_count = 0;
  status = (promotion supporting).0;
  first_observed_at = now;
  last_observed_at = now;
  version = 1;
}

abbrev pub renewed : MemoryFact → List Episode → ℕ → MemoryFact
renewed f supporting now = record f {
  confidence = (promotion supporting).1;
  supporting_episode_ids = ids_of supporting;
  evidence_count = length supporting;
  status = (promotion supporting).0;
  last_observed_at = now;
  version = f.version + 1;
}

abbrev pub is_fact_of : String → String → MemoryFact → Bool
is_fact_of student_id key f = f.student_id == student_id && f.normalized_key == key

abbrev pub fact_request : MemoryFact → Request
fact_request f = record {
  student_id = f.student_id;
  aggregate_type = "fact";
  aggregate_id = f.fact_id;
  operation = "upsert_fact";
  payload_student_id = some f.student_id;
  version = f.version;
}

-- The fact goes to the index by the outbox, in the same transaction.
unfoldable pub publish_fact : MemoryFact → String → ℕ → MemoryStore → Written MemoryFact
publish_fact f outbox_id now m = elim (enqueue outbox_id now (fact_request f) m.outbox) [
  | none ↦ refused duplicate_key
  | some (_, outbox) ↦ written f (record m { outbox = outbox })
]

-- `_upsert_fact_for_episode`, with the episodes that support the fact.
unfoldable pub upsert_supported :
    Episode → List Episode → String → String → ℕ → MemoryStore → Written MemoryFact
upsert_supported e supporting fact_id outbox_id now m =
    elim (find_by (is_fact_of e.student_id (key_of e)) m.facts) [
      | none ↦ elim (find_by (λ f. f.fact_id == fact_id) m.facts) [
        | some _ ↦ refused duplicate_key
        | none ↦
            publish_fact (new_fact fact_id e supporting now) outbox_id now
              (record m { facts = m.facts ++ new_fact fact_id e supporting now ∷ [] })
      ]
      | some f ↦ publish_fact (renewed f supporting now) outbox_id now (record m {
        facts =
            update_by (is_fact_of e.student_id (key_of e))
              (λ r. record r {
                confidence = (promotion supporting).1;
                supporting_episode_ids = ids_of supporting;
                evidence_count = length supporting;
                status = (promotion supporting).0;
                last_observed_at = now;
                version = f.version + 1;
              })
              m.facts;
      })
    ]

-- `upsert_fact_for_episode`
unfoldable pub upsert_fact_for_episode :
    Episode → String → String → ℕ → MemoryStore → Written MemoryFact
upsert_fact_for_episode e fact_id outbox_id now m =
    guarded e.student_id m (elim (list_episodes_for_fact e.student_id (key_of e) m.episodes) [
      | none ↦ refused bad_key
      | some supporting ↦ upsert_supported e supporting fact_id outbox_id now m
    ])
