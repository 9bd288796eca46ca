-- ===== src/Sync/Handed.antt =====
-- What a batch does to the state that it hands over (sync/service.py): only the two operations that are
-- given to it change that state, so a property that both keep is kept by every batch.
pub mod Answers
pub mod Events
pub mod Batches
use mathlib.Core.Path.{subst}
use bridgesat_agent.Common.{
  ℕ, ◌≡◌, refl, ◌∙◌, sym, Bool, true, false, ◌&&◌, not, String, Option, none, some, List, [], ◌∷◌,
  ◌++◌, ltb, leb, ◌==◌, nat_eq, string_eq, option_eq, count_by, contains, arith, if◌then◌else◌,
  sort_by, find_by, length,
}
use bridgesat_agent.Session.{SessionState, new, question_active, answer_evaluated}
use bridgesat_agent.Learner.{SkillState}
use bridgesat_agent.Sync.Types.{
  Envelope, Store, Request, SessionRow, AttemptRow, Constraint, ConflictType, Fault, DeviceRow,
  event_validation_error, unique_violation, other_error, attempt_already_scored, payload_too_large,
  missing_dependency, invalid_schema,
}
use bridgesat_agent.Sync.Scoring.{Meta, score}
use bridgesat_agent.Sync.Rows.{
  Result, done, raised, ◌>>=◌, invalid, record_conflict, locked_session, insert_session,
  ensure_session, attempt_owner, transition_session, insert_learning_event_row, insert_attempt,
  learning_event_exists,
}
use bridgesat_agent.Sync.Evidence.{
  evidence_weight, hint_level_of, update_skill_state, record_misconception_evidence,
}
use bridgesat_agent.Sync.Apply.{Output, World, ScoredAnswer, attempt_id_of, submission}
use bridgesat_agent.Sync.Answers.{
  update_skill, record_evidence, report_parallel, advance_session, hand_over, hand_over_if_skilled,
  store_duplicate, is_foreign, store_valid, store_answer, is_completed, same_item, same_attempt,
  same_event, misconception_of, meta_at, apply_scored, apply_graded, apply_submission,
  apply_answer_submitted,
}
use bridgesat_agent.Sync.Handlers.{
  observational, presentations, apply_observational, complete_session, apply_session_completed,
  apply_event,
}
use bridgesat_agent.Sync.Batch.{
  max_payload_bytes, verify_integrity, authorise, sequence_increases, missing_dependency_of,
  global_id_collision, Progress, reject_in, settle, apply_checked, process_event, process_events,
  student_exists, advance_device_sequence, is_device, by_sequence,
}
use bridgesat_agent.Sync.Service.{
  Answer, start, finish_batch, run_batch, from_device, process_batch_locked, process_batch,
}
use bridgesat_agent.Sync.Frame.{Gives, Gives-if, Gives-bind, Gives-then, Gives-weaken}

module _ {ℓ} {R : Type ℓ} where
  -- The state that is handed over stays.
  abbrev pub RestStays : Store R → Store R → Type ℓ
  RestStays s s' = s'.rest ≡ s.rest

  pub insert_session-RestStays :
      (foreign : Constraint → String → Bool) (row : SessionRow) (s : Store R)
      → Gives (RestStays s) (insert_session foreign row s)
  unfolding insert_session
  insert_session-RestStays foreign row s = ground arith

  pub ensure_session-RestStays :
      (foreign : Constraint → String → Bool) (e : Envelope) (d : SessionState) (s : Store R)
      → Gives (RestStays s) (ensure_session foreign e d s)
  unfolding ensure_session
  ensure_session-RestStays foreign e d s =
      Gives-then (RestStays s) (locked_session e.session_id e.student_id s) _
        (λ row. ground (arith, insert_session-RestStays foreign (fresh e) s))
    where
      fresh : Envelope → SessionRow
      fresh e = record {
        session_id = e.session_id;
        student_id = e.student_id;
        session_state = d;
        completed_at = none;
      }

  pub transition_session-RestStays :
      (e : Envelope) (target : SessionState) (s : Store R)
      → Gives (RestStays s) (transition_session e target s)
  unfolding transition_session
  transition_session-RestStays e target s =
      Gives-then (RestStays s) (locked_session e.session_id e.student_id s) _ (λ row. ground arith)

  pub insert_learning_event_row-RestStays :
      (foreign : Constraint → String → Bool) (e : Envelope) (s : Store R)
      → Gives (RestStays s) (insert_learning_event_row foreign e s)
  unfolding insert_learning_event_row
  insert_learning_event_row-RestStays foreign e s = ground arith

  pub insert_attempt-RestStays :
      (foreign : Constraint → String → Bool) (row : AttemptRow) (s : Store R)
      → Gives (RestStays s) (insert_attempt foreign row s)
  unfolding insert_attempt
  insert_attempt-RestStays foreign row s = ground arith

  pub update_skill-RestStays :
      (e : Envelope) (meta : Meta) (correct : Bool) (weight now : ℕ) (s : Store R)
      → RestStays s (update_skill e meta correct weight now s).1
  unfolding update_skill update_skill_state
  update_skill-RestStays e meta correct weight now s = ground arith

  pub record_evidence-RestStays :
      (e : Envelope) (question_id : String) (version : ℕ) (meta : Meta) (m : Option String)
      (s : Store R)
      → Gives (RestStays s) (record_evidence e question_id version meta m s)
  unfolding record_evidence record_misconception_evidence
  record_evidence-RestStays e question_id version meta m s = ground arith

  pub advance_device_sequence-RestStays :
      (q : Request) (n : ℕ) (s : Store R) → Gives (RestStays s) (advance_device_sequence q n s)
  unfolding advance_device_sequence
  advance_device_sequence-RestStays q n s = ground arith

-- A property of that state, and its two laws: both operations keep it.
pub record IsKept {ℓ κ} {R D : Type ℓ} (P : R → Type κ) (w : World R D) : Type (ℓ ⊔ κ) where
  pub decides :
      (e : Envelope) (a : ScoredAnswer) (s : Store R)
      → P s.rest
      → Gives (λ r. P r.0) (w.decide_and_record e a s)
  pub starts :
      (e : Envelope) (s : Store R) → P s.rest → Gives P (w.start_presented_intervention e s)

module _ {ℓ κ} {R : Type ℓ} (P : R → Type κ) where
  abbrev pub Kept : {D : Type ℓ} → Store R × Output D → Type κ
  Kept p = P p.0.rest

  pub carry : (s s' : Store R) → RestStays s s' → P s.rest → P s'.rest
  carry s s' h p = subst P (sym h) p

  pub keeps :
      (s : Store R) (m : Result (Store R))
      → P s.rest
      → Gives (RestStays s) m
      → Gives (λ s'. P s'.rest) m
  keeps s m p h = Gives-weaken (RestStays s) (λ s'. P s'.rest) m (λ s' k. carry s s' k p) h
