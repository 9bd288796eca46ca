-- ===== src/Sync/Handed/Events.antt =====
-- The handlers keep what the agent's operations keep (`_apply_event` of sync/service.py).
use bridgesat_agent.Common.{
  ℕ, Bool, ◌&&◌, String, Option, none, some, [], ltb, ◌==◌, nat_eq, string_eq, option_eq, count_by,
  contains,
}
use bridgesat_agent.Session.{new, question_active}
use bridgesat_agent.Sync.Types.{Envelope, Store, SessionRow}
use bridgesat_agent.Sync.Scoring.{Meta, score}
use bridgesat_agent.Sync.Rows.{locked_session}
use bridgesat_agent.Sync.Apply.{Output, World, submission}
use bridgesat_agent.Sync.Answers.{
  is_completed, same_event, meta_at, apply_scored, apply_graded, apply_submission,
  apply_answer_submitted,
}
use bridgesat_agent.Sync.Handlers.{
  observational, presentations, apply_observational, complete_session, apply_session_completed,
  apply_event,
}
use bridgesat_agent.Sync.Frame.{Gives, Gives-if, Gives-bind, Gives-then}
use bridgesat_agent.Sync.Handed.{
  insert_session-RestStays, ensure_session-RestStays, IsKept, Kept, keeps,
}
use bridgesat_agent.Sync.Handed.Answers.{store_answer-Kept, insert_row-Kept}

module _ {ℓ κ} {R D : Type ℓ} (P : R → Type κ) (w : World R D) (laws : IsKept P w) where
  apply_scored-Kept :
      (b : Bool) (e : Envelope) (question_id : String) (version : ℕ) (selected : String)
      (correct : Bool) (meta : Meta) (p : Store R × Output D)
      → Kept P p
      → Gives (Kept P) (apply_scored w b e question_id version selected correct meta p)
  unfolding apply_scored
  apply_scored-Kept b e question_id version selected correct meta (s, out) h =
      Gives-bind (Kept P) (λ s'. P s'.rest) _ _ (insert_row-Kept P w laws b e s h)
        (λ s1 k1.
          Gives-bind (Kept P) (λ s'. P s'.rest) _ _
            (keeps P s1 _ k1 (ensure_session-RestStays w.foreign e question_active s1))
            (λ s2 k2. Gives-if (Kept P) (ltb 0 (count_by (same_event e) s2.attempts)) _ _ k2 (
              Gives-bind (Kept P) (Kept P) _ _
                (store_answer-Kept P w laws b e question_id version selected correct meta (s2, out)
                  k2)
                (λ r k. k))))

  apply_submission-Kept :
      (b : Bool) (e : Envelope) (o : Option (String × ℕ × String)) (p : Store R × Output D)
      → Kept P p
      → Gives (Kept P) (apply_submission w b e o p)
  unfolding apply_submission apply_graded
  apply_submission-Kept b e none p h = tt
  apply_submission-Kept b e (some (question_id, version, selected)) p h =
      graded (score w.dirs [] e.content_pack_version question_id version selected)
        (meta_at w.dirs e.content_pack_version question_id version) p h
    where
      graded :
          (o : Option Bool) (m : Option Meta) (p : Store R × Output D)
          → Kept P p
          → Gives (Kept P) (apply_graded w b e question_id version selected o m p)
      graded none m (s, out) h = h
      graded (some correct) none (s, out) h = h
      graded (some correct) (some meta) p h =
          apply_scored-Kept b e question_id version selected correct meta p h

  apply_observational-Kept :
      (b : Bool) (e : Envelope) (p : Store R × Output D)
      → Kept P p
      → Gives (Kept P) (apply_observational w b e p)
  unfolding apply_observational
  apply_observational-Kept b e (s, out) h =
      Gives-bind (Kept P) (λ s'. P s'.rest) _ _ (insert_row-Kept P w laws b e s h)
        (λ s1 k1.
          Gives-bind (Kept P) (λ s'. P s'.rest) _ _
            (keeps P s1 _ k1 (ensure_session-RestStays w.foreign e new s1))
            (λ s2 k2.
              Gives-if (Kept P) (b && contains presentations e.event_type) _ _
                (Gives-bind (Kept P) P _ _ (laws.starts e s2 k2) (λ rest k. k)) k2))

  complete_session-Kept :
      (e : Envelope) (row : Option SessionRow) (s : Store R)
      → P s.rest
      → Gives (λ s'. P s'.rest) (complete_session w e row s)
  unfolding complete_session
  complete_session-Kept e none s h = keeps P s _ h (insert_session-RestStays w.foreign _ s)
  complete_session-Kept e (some r) s h = Gives-if (λ s'. P s'.rest) (is_completed (some r)) _ _ h h

  apply_session_completed-Kept :
      (b : Bool) (e : Envelope) (p : Store R × Output D)
      → Kept P p
      → Gives (Kept P) (apply_session_completed w b e p)
  unfolding apply_session_completed
  apply_session_completed-Kept b e (s, out) h =
      Gives-bind (Kept P) (λ s'. P s'.rest) _ _ (insert_row-Kept P w laws b e s h)
        (λ s1 k1. Gives-then (Kept P) (locked_session e.session_id e.student_id s1) _ (λ row.
          Gives-bind (Kept P) (λ s'. P s'.rest) _ _ (complete_session-Kept e row s1 k1)
            (λ s2 k2. k2)))

  pub apply_event-Kept :
      (b : Bool) (e : Envelope) (p : Store R × Output D)
      → Kept P p
      → Gives (Kept P) (apply_event w b e p)
  unfolding apply_event apply_answer_submitted
  apply_event-Kept b e p h =
      Gives-if (Kept P) (e.event_type == "ANSWER_SUBMITTED") _ _
        (apply_submission-Kept b e (submission e) p h)
        (Gives-if (Kept P) (e.event_type == "SESSION_COMPLETED") _ _
          (apply_session_completed-Kept b e p h)
          (Gives-if (Kept P) (contains observational e.event_type) _ _
            (apply_observational-Kept b e p h) h))
