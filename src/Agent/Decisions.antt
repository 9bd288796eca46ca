-- ===== src/Agent/Decisions.antt =====
-- What the agent records after an answer (sync/service.py `_decide_and_record_agent_event`).
use bridgesat_agent.Common.{
  ◌≡◌, refl, Bool, true, false, if◌then◌else◌, String, Option, none, some, [], ◌∷◌, ◌++◌, ◌==◌,
  string_eq, arith, find_by, Bool-cases, Option-cases, inl, inr,
}
use bridgesat_agent.Session.{question_active, answer_evaluated, can_transition, state_beq}
use bridgesat_agent.Memory.Tables.{
  validated, episode_eq, Episode, MemoryStore, Written, written, refused,
}
use bridgesat_agent.Memory.Builder.{complete_runtime_candidate}
use bridgesat_agent.Memory.Stats.{record_intervention_outcome}
use bridgesat_agent.Memory.Facts.{upsert_fact_for_episode}
use bridgesat_agent.Policy.Types.{PolicyInput, PolicyResult}
use bridgesat_agent.Policy.Safety.Derive.{decide_next_action_total}
use bridgesat_agent.Sync.Types.{Envelope, Store, other_error}
use bridgesat_agent.Sync.Scoring.{PackAnswerKey, pack}
use bridgesat_agent.Sync.Rows.{Result, done, raised, ◌>>=◌}
use bridgesat_agent.Sync.Apply.{ScoredAnswer}
use bridgesat_agent.Agent.{AgentEvent, Registry, Rest}
use bridgesat_agent.Agent.Decide.{
  Setup, agent_event_of, append_agent_event, complete_episode, decide, decide_and_record, in_batch,
  remember,
}
use bridgesat_agent.Agent.Inputs.{policy_input}
use bridgesat_agent.Agent.Lessons.{lesson_type_of}
use bridgesat_agent.Agent.Serve.{as_decided, content_unavailable, serve, with_lesson}
use bridgesat_agent.Agent.Teaching.{Teaches, serve-Teaches}

-- The step gives what the predicate says, or ends the batch: it never has the event rejected.
abbrev pub Ends : {A : Type 0} → (A → Type 0) → Result A → Type 0
Ends P (done a) = P a
Ends P (raised f) = f ≡ other_error

abbrev pub Ended : {A : Type 0} → Result A → Type 0
Ended m = Ends (λ a. Unit {0}) m

Ends-then :
    {A B : Type 0} (P : B → Type 0) (Q : A → Type 0) (m : Result A) (f : A → Result B)
    → Ends Q m
    → ((a : A) → Q a → Ends P (f a))
    → Ends P (m >>= f)
Ends-then P Q (done a) f h k = k a h
Ends-then P Q (raised e) f h k = h

Ends-bind :
    {A B : Type 0} (P : B → Type 0) (m : Result A) (f : A → Result B)
    → Ended m
    → ((a : A) → Ends P (f a))
    → Ends P (m >>= f)
Ends-bind P m f h k = Ends-then P (λ a. Unit {0}) m f h (λ a tt. k a)

in_batch-Ended : {A : Type 0} (o : Written A) → Ended (in_batch o)
in_batch-Ended (written a m) = tt
in_batch-Ended (refused f) = refl

if-Ended : {A : Type 0} (b : Bool) (x y : Result A) → Ended x → Ended y → Ended (if b then x else y)
if-Ended true x y h k = h
if-Ended false x y h k = k

remember-Ended :
    (w : Setup) (e : Envelope) (a : ScoredAnswer) (episode : Episode) (m : MemoryStore)
    → Ended (remember w e a episode m)
unfolding remember
remember-Ended w e a episode m =
    Ends-bind _ (in_batch (record_intervention_outcome _ _ _ _ _ _ _)) _ (in_batch-Ended _)
      (λ (id, m1).
        if-Ended (episode.status == validated) _ _
          (Ends-bind _ (in_batch (upsert_fact_for_episode _ _ _ _ _)) _ (in_batch-Ended _)
            (λ r. tt))
          tt)

complete_episode-Ended :
    (w : Setup) (e : Envelope) (a : ScoredAnswer) (skill : String) (m : MemoryStore)
    → Ended (complete_episode w e a skill m)
unfolding complete_episode
complete_episode-Ended w e a skill m =
    Ends-bind _ (in_batch (complete_runtime_candidate _ _ _ _ _ _ _)) _ (in_batch-Ended _)
      (λ (completed, m1). by_completed completed m1)
  where
    by_completed :
        (completed : Option Episode) (m1 : MemoryStore)
        → Ended {A = Option Episode × MemoryStore} (elim completed [
          | none ↦ done (none, m1)
          | some episode ↦ remember w e a episode m1 >>= λ m2. done (some episode, m2)
        ])
    by_completed none m1 = tt
    by_completed (some episode) m1 =
        Ends-bind _ (remember w e a episode m1) _ (remember-Ended w e a episode m1) (λ m2. tt)

retry_legal : can_transition answer_evaluated question_active ≡ true
unfolding can_transition state_beq
retry_legal = refl

serve_legal :
    (registry : Registry) (key : PackAnswerKey) (misconception : Option String)
    (inputs : PolicyInput) (r : PolicyResult)
    → can_transition answer_evaluated r.next_state ≡ true
    → can_transition answer_evaluated (serve registry key misconception inputs r).next_state ≡ true
unfolding serve as_decided with_lesson content_unavailable
serve_legal registry key misconception inputs r h = ground (arith, h, retry_legal)

-- What is recorded: a legal move of the session, one new agent event and nothing else outside the
-- memory, and for a teaching action a lesson of the pack that the event names.
abbrev pub IsRecorded :
    Setup → Envelope → ScoredAnswer → String → Store Rest → Rest × AgentEvent → Type 0
IsRecorded w e a skill s (rest, event) =
    (can_transition answer_evaluated event.state_after ≡ true)
    × (rest.agent_events ≡ s.rest.agent_events ++ event ∷ [])
    × (rest.traces ≡ s.rest.traces)
    × (rest.registry ≡ s.rest.registry)
    × (event.source_event_id ≡ e.event_id)
    × ((kind : String)
        → lesson_type_of event.action ≡ some kind
        → (key : PackAnswerKey) × ((pack w.dirs [] e.content_pack_version).0 ≡ some key)
          × Teaches w.dirs s.rest.registry e.content_pack_version key a.misconception skill kind
              event.action_payload)

append-IsRecorded :
    (w : Setup) (e : Envelope) (a : ScoredAnswer) (skill : String) (s : Store Rest)
    (event : AgentEvent)
    → can_transition answer_evaluated event.state_after ≡ true
    → event.source_event_id ≡ e.event_id
    → ((kind : String)
        → lesson_type_of event.action ≡ some kind
        → (key : PackAnswerKey) × ((pack w.dirs [] e.content_pack_version).0 ≡ some key)
          × Teaches w.dirs s.rest.registry e.content_pack_version key a.misconception skill kind
              event.action_payload)
    → Ends
        (IsRecorded w e a skill s)
        (append_agent_event w event s.rest >>= λ rest. done (rest, event))
unfolding append_agent_event
append-IsRecorded w e a skill s event legal source teaches =
    elim (Bool-cases (w.foreign_agent_event event.event_id)) [
      | inl theirs ↦ rw (theirs, append_agent_event) refl
      | inr free ↦
          elim (Option-cases (find_by (λ x. x.event_id == event.event_id) s.rest.agent_events)) [
            | inr (x, taken) ↦ rw (free, taken, append_agent_event) refl
            | inl new ↦
                rw (free, new, append_agent_event) (legal, refl, refl, refl, source, teaches)
          ]
    ]

decide-IsRecorded :
    (w : Setup) (e : Envelope) (a : ScoredAnswer) (skill : String) (s : Store Rest)
    → Ends (IsRecorded w e a skill s) (decide w e a skill s)
unfolding decide agent_event_of policy_input
decide-IsRecorded w e a skill s = elim (Option-cases ((pack w.dirs [] e.content_pack_version).0)) [
  | inl absent ↦ rw (absent, decide) refl
  | inr (key, packed) ↦
      let inputs : PolicyInput = policy_input e a key skill s in
      let (r, decided, legal, allowed) = decide_next_action_total inputs in
      rw (packed, decided, decide)
        (append-IsRecorded w e a skill s
          (agent_event_of w e a (serve s.rest.registry key a.misconception inputs r))
          (serve_legal s.rest.registry key a.misconception inputs r legal) refl
          (λ kind t. (
            key,
            packed,
            serve-Teaches w.dirs s.rest.registry e.content_pack_version key a.misconception inputs r
                kind packed t,
          )))
]

-- After an answer with a skill the agent either ends the batch or records its decision: the session
-- moves legally from the evaluated answer, exactly one agent event is added, for this answer, the
-- traces and the registry stay, and an event for a teaching action carries an approved lesson of the
-- pack that the answer names. It never raises an error that would have the answer rejected.
pub decide_and_record-IsRecorded :
    (w : Setup) (e : Envelope) (a : ScoredAnswer) (skill : String) (s : Store Rest)
    → a.meta.skill ≡ some skill
    → Ends
        (λ (rest, d, next). (next ≡ d.event.state_after) × IsRecorded w e a skill s (rest, d.event))
        (decide_and_record w e a s)
unfolding decide_and_record
decide_and_record-IsRecorded w e a skill s has =
    rw (has, decide_and_record)
      (Ends-bind _ (complete_episode w e a skill s.rest.memory) _
        (complete_episode-Ended w e a skill s.rest.memory)
        (λ (completed, m).
          let s' : Store Rest = record s { rest = record s.rest { memory = m } } in
          Ends-then _ (IsRecorded w e a skill s') (decide w e a skill s') _
            (decide-IsRecorded w e a skill s') (λ x h. (refl, h))))
