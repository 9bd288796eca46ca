-- ===== src/Agent/Decide.antt =====
-- What follows a scored answer (sync/service.py `_apply_answer_submitted`, its call of the episodes and
-- the memory, and `_decide_and_record_agent_event`).
use Prim.Native.String.{◌++◌ as ◌^◌}
use bridgesat_agent.Common.{
  ℕ, Bool, String, Option, none, some, List, [], ◌∷◌, ◌++◌, if◌then◌else◌, ◌==◌, string_eq, find_by,
}
use bridgesat_agent.Session.{SessionState, answer_evaluated}
use bridgesat_agent.Memory.Tables.{
  validated, episode_eq, Episode, MemoryStore, Written, written, refused,
}
use bridgesat_agent.Memory.Builder.{complete_runtime_candidate}
use bridgesat_agent.Memory.Stats.{immediate, record_intervention_outcome}
use bridgesat_agent.Memory.Facts.{upsert_fact_for_episode}
use bridgesat_agent.Outbox.Rows.{decimal}
use bridgesat_agent.Policy.Rules.{decide_next_action}
use bridgesat_agent.Sync.Types.{Envelope, Constraint, Store, other_error}
use bridgesat_agent.Sync.Scoring.{PackDir, pack}
use bridgesat_agent.Sync.Rows.{Result, done, raised, ◌>>=◌}
use bridgesat_agent.Sync.Evidence.{difficulty_or_default, hint_level_of}
use bridgesat_agent.Sync.Apply.{ScoredAnswer, first_characters}
use bridgesat_agent.Agent.{AgentEvent, Rest}
use bridgesat_agent.Agent.Inputs.{policy_input}
use bridgesat_agent.Agent.Serve.{Served, serve}

-- The clock, the packs and SHA-256 of the batch; the ids that are drawn while an event is applied, by
-- the id of the event; and whether another tenant has an agent event with an id.
pub record Setup : Type 0 where
  pub now : ℕ
  pub dirs : List PackDir
  pub foreign : Constraint → String → Bool
  pub sha256 : String → String
  pub new_stat_id : String → String
  pub new_fact_id : String → String
  pub new_outbox_id : String → String → String
  pub foreign_agent_event : String → Bool

-- A write of the memory inside the batch; what it raises ends the batch.
abbrev pub in_batch {ℓ} : {A : Type ℓ} → Written A → Result (A × MemoryStore)
in_batch (written a m) = done (a, m)
in_batch (refused f) = raised other_error

-- What is kept of a completed episode: its statistic, and its fact once it is validated.
unfoldable pub remember :
    Setup → Envelope → ScoredAnswer → Episode → MemoryStore → Result MemoryStore
remember w e a episode m =
    in_batch (
      record_intervention_outcome
        (record {
          student_id = e.student_id;
          skill = episode.skill;
          misconception = episode.misconception;
          intervention = episode.intervention;
          difficulty_band = "d" ^ decimal (difficulty_or_default a.meta.difficulty);
        })
        immediate episode.effectiveness 100 (w.new_stat_id e.event_id) w.now m)
    >>= λ (id, m1).
        if episode.status == validated
        then (in_batch (
              upsert_fact_for_episode episode (w.new_fact_id e.event_id)
                (w.new_outbox_id e.event_id "fact") w.now m1)
            >>= λ (fact, m2). done m2)
        else done m1

-- The completion of a pending episode by the answer, and what is kept of it.
unfoldable pub complete_episode :
    Setup → Envelope → ScoredAnswer → String → MemoryStore → Result (Option Episode × MemoryStore)
complete_episode w e a skill m =
    in_batch (
      complete_runtime_candidate e.student_id e.session_id skill
        (record {
          event_id = e.event_id;
          content_id = a.question_id;
          correct = a.correct;
          hint_level = hint_level_of e;
        })
        (w.new_outbox_id e.event_id "episode") w.now m)
    >>= λ (completed, m1). elim completed [
      | none ↦ done (none, m1)
      | some episode ↦ remember w e a episode m1 >>= λ m2. done (some episode, m2)
    ]

abbrev pub optional : Option String → List String
optional none = []
optional (some t) = t ∷ []

unfoldable pub agent_event_of : Setup → Envelope → ScoredAnswer → Served → AgentEvent
agent_event_of w e a d = record {
  event_id = "agt_" ^ first_characters 16 (w.sha256 e.event_id);
  student_id = e.student_id;
  session_id = e.session_id;
  source_event_id = e.event_id;
  state_before = answer_evaluated;
  state_after = d.next_state;
  action = d.action;
  action_payload = d.action_payload;
  reason_code = d.reason_code;
  reason_text = d.reason_text;
  content_version = a.question_id ^ (".v" ^ decimal a.question_version);
  referenced_content = a.question_id ∷ optional d.lesson_id;
  episode_ids = d.episode_ids;
  created_at = w.now;
}

-- `EventStore.append_agent_event` inside the batch: a duplicate ends it.
unfoldable pub append_agent_event : Setup → AgentEvent → Rest → Result Rest
append_agent_event w event r =
    if w.foreign_agent_event event.event_id
    then raised other_error
    else elim (find_by (λ x. x.event_id == event.event_id) r.agent_events) [
      | some _ ↦ raised other_error
      | none ↦ done (record r { agent_events = r.agent_events ++ event ∷ [] })
    ]

-- The entry that the batch answers with: the event, and the episode that the answer validated.
pub record Decided : Type 0 where
  pub event : AgentEvent
  pub validated_episode_id : Option String

unfoldable pub validated_id : Option Episode → Option String
validated_id none = none
validated_id (some episode) = if episode.status == validated then some episode.episode_id else none

-- `_decide_and_record_agent_event`, up to the transition of the session, which its caller makes.
unfoldable pub decide :
    Setup → Envelope → ScoredAnswer → String → Store Rest → Result (Rest × AgentEvent)
decide w e a skill s = elim ((pack w.dirs [] e.content_pack_version).0) [
  | none ↦ raised other_error
  | some key ↦ elim (decide_next_action (policy_input e a key skill s)) [
    | none ↦ raised other_error
    | some r ↦
        let inputs = policy_input e a key skill s in
        let event = agent_event_of w e a (serve s.rest.registry key a.misconception inputs r) in
        append_agent_event w event s.rest >>= λ rest. done (rest, event)
  ]
]

-- The answer that is handed over has a skill; without one the source has no call.
unfoldable pub decide_and_record :
    Setup → Envelope → ScoredAnswer → Store Rest → Result (Rest × Decided × SessionState)
decide_and_record w e a s = elim a.meta.skill [
  | none ↦ raised other_error
  | some skill ↦ complete_episode w e a skill s.rest.memory >>= λ (completed, m).
      decide w e a skill (record s { rest = record s.rest { memory = m } }) >>= λ (rest, event).
      done (
        rest,
        (record { event = event; validated_episode_id = validated_id completed }),
        event.state_after,
      )
]
