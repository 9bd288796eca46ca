-- ===== src/Memory/Guarded.antt =====
-- No memory is written for a student whose deletion was requested (memory/outbox.py,
-- memory/deletion.py).
use bridgesat_agent.Common.{
  ℕ, ◌≡◌, refl, String, Option, none, some, List, ◌==◌, string_eq, find_by, Bool-cases,
  Option-cases, inl, inr,
}
use bridgesat_agent.Deletion.Store.{active, standing_eq, requested, Student, Deletion, Store}
use bridgesat_agent.Deletion.Steps.{returned, state_in, request_deletion}
use bridgesat_agent.Deletion.Protocol.{request-status}
use bridgesat_agent.Memory.Tables.{
  Episode, candidate, episode_eq, MemoryStore, WriteFault, unknown_student, not_active,
  has_deletion, ensure_active_student, guarded, episode_beq_iff, Written, refused,
}
use bridgesat_agent.Memory.Builder.{insert_episode, validate}
use bridgesat_agent.Memory.Facts.{upsert_fact_for_episode}
use bridgesat_agent.Memory.Stats.{Trial, WindowName, record_intervention_outcome}

ensure_refuses :
    (students : List Student) (deletions : List Deletion) (student_id : String) (d : Deletion)
    → find_by (λ d. d.student_id == student_id) deletions ≡ some d
    → (f : WriteFault) × (ensure_active_student students deletions student_id ≡ some f)
unfolding ensure_active_student
ensure_refuses students deletions student_id d there =
    elim (Option-cases (find_by (λ t. t.id == student_id) students)) [
      | inl unknown ↦ (unknown_student, rw (unknown, ensure_active_student) refl)
      | inr (t, known) ↦ elim (Bool-cases (t.status == active)) [
        | inr other ↦ (not_active t.status, rw (known, other, ensure_active_student) refl)
        | inl is_active ↦
            (has_deletion d.state, rw (known, is_active, there, ensure_active_student) refl)
      ]
    ]

-- The write raises.
abbrev pub IsRefused {ℓ} : {A : Type ℓ} → Written A → Type ℓ
IsRefused w = (f : WriteFault) × (w ≡ refused f)

guarded_refuses {ℓ} :
    {A : Type ℓ} (student_id : String) (m : MemoryStore) (body : Written A) (f : WriteFault)
    → ensure_active_student m.students m.deletions student_id ≡ some f
    → guarded student_id m body ≡ refused f
guarded_refuses student_id m body f e = rw (e, guarded) refl

has_row : (o : Option Deletion) → state_in o ≡ some requested → (d : Deletion) × (o ≡ some d)
has_row none h = cc h
has_row (some d) h = (d, refl)

-- After `request_deletion` returned, every write of the student's memory raises: a candidate, a
-- runtime candidate, the validation of a candidate, a fact and an intervention's outcome.
pub request_stops_writes :
    (student draw : String) (now : ℕ) (s s' : Store) (m : MemoryStore)
    → request_deletion student draw now s ≡ returned tt s'
    → m.deletions ≡ s'.deletions
    → ((e : Episode) → e.student_id ≡ student → IsRefused (insert_episode e m))
      × ((outbox_id : String) (later : ℕ) (e : Episode)
          → e.student_id ≡ student
          → e.status ≡ candidate
          → IsRefused (validate outbox_id later e m))
      × ((e : Episode) (fact_id outbox_id : String) (later : ℕ)
          → e.student_id ≡ student
          → IsRefused (upsert_fact_for_episode e fact_id outbox_id later m))
      × ((t : Trial) (name : WindowName) (score weight : ℕ) (stat_id : String) (later : ℕ)
          → t.student_id ≡ student
          → IsRefused (record_intervention_outcome t name score weight stat_id later m))
unfolding insert_episode validate upsert_fact_for_episode record_intervention_outcome
request_stops_writes student draw now s s' m h same = (
  (λ e mine. (fault.0, guarded_refuses e.student_id m _ fault.0 (raises e.student_id mine))),
  (λ outbox_id later e mine new. (
    fault.0,
    rw ((episode_beq_iff e.status candidate).1 new)
        (guarded_refuses e.student_id m _ fault.0 (raises e.student_id mine)),
  )),
  (λ e fact_id outbox_id later mine.
      (fault.0, guarded_refuses e.student_id m _ fault.0 (raises e.student_id mine))),
  (λ t name score weight stat_id later mine.
      (fault.0, guarded_refuses t.student_id m _ fault.0 (raises t.student_id mine))),
)
  where
    there : (d : Deletion) × (find_by (λ d. d.student_id == student) m.deletions ≡ some d)
    there = has_row _ (rw same (request-status student draw now s s' h))

    fault : (f : WriteFault) × (ensure_active_student m.students m.deletions student ≡ some f)
    fault = ensure_refuses m.students m.deletions student there.0 there.1

    raises :
        (id : String)
        → id ≡ student
        → ensure_active_student m.students m.deletions id ≡ some fault.0
    raises id mine = rw mine fault.1
