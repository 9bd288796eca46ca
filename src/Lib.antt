-- ===== src/Lib.antt =====
-- The adaptive tutor BridgeSAT Agent: a model of its core with the theorems that make it correct.
--
-- A device practises offline and sends its events in batches. app/sync/service.py checks, stores and
-- applies them in one transaction per batch, with a savepoint per event; an answer is scored against the
-- pack version that it names (app/sync/versioned_scoring.py) and moves the learner model
-- (app/domain/learner.py) and the session (app/domain/sessions.py). The policy (app/agent/policy.py)
-- derives the allowed actions and the deterministic fallback, and a model's proposal for another allowed
-- action is only taken when the verifier of app/agent/hybrid.py accepts it. What the memory index must
-- learn is written to an outbox table in the same transaction (app/memory/outbox.py); workers claim its
-- rows under a lease and deliver them to the index (app/memory/worker.py), for one tenant after the other
-- (app/memory/tenant_dispatcher.py).
--
-- The parts:
--   Common      lists, dictionaries, tables and Python's `==`, with their laws.
--   Session     app/domain/sessions.py: the states and the transition table.
--   Learner     app/domain/learner.py: evidence weights, the skill state, thresholds.
--   Memory      app/domain/memory.py: the bounded actions, the outcome score, and Tables (the rows and
--               the guard of every write); app/memory/episode_builder.py: Builder (candidates, their
--               completion and validation); app/memory/pg_memory.py: Recall, Facts and Stats;
--               Actions, Keys, Promotion, Recalled, Guarded, Completion and Blending are proofs.
--   Deletion    app/memory/deletion.py: Store (the tables and the removal of personal rows), Steps (the
--               service); Moves, Consistency, Erasure and Protocol are proofs.
--   Policy      app/agent/policy.py: Types (data), Branches (one definition per branch), Rules (their
--               order and the recursion); Safety, Raise, Recursion and Difficulty are proofs.
--   Hybrid      app/agent/hybrid.py: Types, Gate (when a model is asked), Claims and Verifier (the
--               fail-closed verification of its proposal); Stages and Grounding are proofs.
--   Outbox      app/memory/outbox.py: Rows (rows, keys, schedule), Repository (operations), with
--               Selection, Claims, Fencing, Retries and Lifecycle as proofs; app/memory/worker.py:
--               Worker (delivery of claimed rows), Batches (a batch and the choice of its next
--               student), with Delivery, Diagnostics, Students and Termination as proofs;
--               app/memory/tenant_dispatcher.py: Dispatcher, with Distinct, Records and Tenants as
--               proofs.
--   Sync        app/sync: Types (messages and rows), Scoring (answer keys), Rows (single reads and
--               writes), Evidence (weights and skills), Apply, Answers and Handlers (one event), Batch
--               and Service (a batch, devices); Frame, Steps, Delivery, Guarantees, Redelivery,
--               Attempts, Weights, Packs and Handed (the agent's side of the state) are proofs.
--   Agent       app/sync/service.py: Lessons (the registry and the checks of a lesson), Inputs (what the
--               policy is told), Serve and Decide (what follows a scored answer), Payloads and Present
--               (a presented lesson), which fill the arguments of Sync; Teaching, Decisions, Offered,
--               Presentations, Refusals, Again, Bounds and Sound are proofs.
--   Examples    runs on concrete data.
--
-- A function keeps its name of the source. A store or table is passed and returned; an exception is a
-- value (`Result`, `Option` or a constructor), and a transaction that fails gives the state before it.
-- Rows of other tenants are invisible to a query, and show only as violated unique constraints, which
-- are an argument (`foreign`). Times are in seconds; drawn identifiers, SHA-256 and the clock are
-- arguments. A float is an exact number: fractions for mastery and confidence, ten-thousandths for
-- evidence, hundredths for thresholds. A number that the source keeps at 0 or above is natural.
--
-- The policy calls itself once without the recalled strategies; the model unrolls that call once more
-- than it can happen, and the unrolled policy satisfies the recursive equation. The decimal digits of a
-- number need at most as many rounds as the number. A batch of the outbox worker needs at most one
-- round more than the table has rows, since each round takes another student. All other recursion is
-- structural.
--
-- The handlers of Sync take the agent's side as two arguments and run them at their place, so the
-- theorems on batches hold for any agent; `world_of` of Agent/Present fills them. The memory has its own
-- copy of the students and deletions, which no event changes. JSON values are compared by their
-- canonical texts.
--
-- Not modelled: in app/sync/service.py the snapshot, the texts of conflicts and details, and the work
-- after a batch on explanations, rankings and summaries, with the material that a decision leaves for
-- it; in app/agent/hybrid.py the explanations, summaries and provider
-- calls, and of the verifier's log the entries before the rationale; a database
-- that fails inside a delivery; connections, HTTP, model and index clients, migrations, the content
-- pipeline, scripts and the browser.
pub mod Common
pub mod Session
pub mod Learner
pub mod Memory
pub mod Policy
pub mod Hybrid
pub mod Outbox
pub mod Sync
pub mod Agent
pub mod Deletion
pub mod Examples
