-- ===== src/Agent/Sound.antt =====
-- The agent events that batches record (sync/service.py `process_batch` with the agent's side filled in).
use mathlib.Core.Path.{subst}
use bridgesat_agent.Common.{
  ◌≡◌, sym, ap, true, String, some, [], ◌∷◌, All, All-append, Option-cases, inl, inr,
}
use bridgesat_agent.Session.{answer_evaluated, can_transition}
use bridgesat_agent.Sync.Types.{Envelope, Store, Request}
use bridgesat_agent.Sync.Rows.{Result, done, raised}
use bridgesat_agent.Sync.Apply.{ScoredAnswer}
use bridgesat_agent.Sync.Service.{process_batch}
use bridgesat_agent.Sync.Frame.{Gives, Gives-weaken}
use bridgesat_agent.Sync.Handed.{IsKept}
use bridgesat_agent.Sync.Handed.Batches.{process_batch-Kept}
use bridgesat_agent.Agent.{LessonPayload, AgentEvent, Rest}
use bridgesat_agent.Agent.Lessons.{lesson_type_of}
use bridgesat_agent.Agent.Decide.{Setup, decide_and_record}
use bridgesat_agent.Agent.Present.{start_presented_intervention, world_of}
use bridgesat_agent.Agent.Decisions.{Ends, IsRecorded, decide_and_record-IsRecorded}
use bridgesat_agent.Agent.Presentations.{start-IsStarted}

-- The event moves the session legally, and a teaching action has an approved lesson.
abbrev pub IsSound : AgentEvent → Type 0
IsSound x =
    (can_transition answer_evaluated x.state_after ≡ true)
    × ((kind : String)
        → lesson_type_of x.action ≡ some kind
        → (p : LessonPayload) × (x.action_payload.lesson ≡ some p)
          × (p.review_status ≡ some "approved"))

abbrev pub AreSound : Rest → Type 0
AreSound r = All IsSound r.agent_events

Ends-Gives :
    {A : Type 0} (P Q : A → Type 0) (m : Result A) → Ends P m → ((a : A) → P a → Q a) → Gives Q m
Ends-Gives P Q (done a) h f = f a h
Ends-Gives P Q (raised e) h f = tt

recorded-IsSound :
    (w : Setup) (e : Envelope) (a : ScoredAnswer) (skill : String) (s : Store Rest) (rest : Rest)
    (event : AgentEvent)
    → IsRecorded w e a skill s (rest, event)
    → AreSound s.rest
    → AreSound rest
recorded-IsSound w e a skill s rest event (legal, added, traces, registry, source, teaches) sound =
    subst (All IsSound) (sym added) (
      All-append IsSound s.rest.agent_events (event ∷ []) sound (
        (
          legal,
          λ kind typed.
              let (key, packed, (l, merged, candidate, registered, durable, verified)) =
                teaches kind typed in
              (_, merged, ap some candidate.2),
        ),
        tt,
      ))

decide_and_record-AreSound :
    (w : Setup) (e : Envelope) (a : ScoredAnswer) (s : Store Rest)
    → AreSound s.rest
    → Gives (λ r. AreSound r.0) (decide_and_record w e a s)
unfolding decide_and_record
decide_and_record-AreSound w e a s sound = elim (Option-cases a.meta.skill) [
  | inl unskilled ↦ rw (unskilled, decide_and_record) tt
  | inr (skill, has) ↦
      Ends-Gives _ _ (decide_and_record w e a s) (decide_and_record-IsRecorded w e a skill s has)
        (λ (rest, d, next) (moved, recorded).
          recorded-IsSound w e a skill s rest d.event recorded sound)
]

agent-IsKept : (w : Setup) → IsKept AreSound (world_of w)
unfolding world_of
agent-IsKept w = record {
  decides = decide_and_record-AreSound w;
  starts = λ e s sound.
      Gives-weaken _ AreSound (start_presented_intervention w e s)
        (λ rest (p, said, (decided, offered, (m, episode, same, there))).
          subst AreSound (sym same) sound)
        (start-IsStarted w e s);
}

-- Batches keep the agent events sound: where every recorded agent event moves its session legally on
-- from an evaluated answer, and carries an approved lesson if it is for a teaching action, the same
-- holds after a batch of any events of any student, also when the batch fails.
pub process_batch-AreSound :
    (w : Setup) (q : Request) (s : Store Rest)
    → AreSound s.rest
    → AreSound (process_batch (world_of w) q s).1.rest
process_batch-AreSound w q s sound =
    process_batch-Kept AreSound (world_of w) (agent-IsKept w) q s sound
