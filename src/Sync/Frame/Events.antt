-- ===== src/Sync/Frame/Events.antt =====
-- What one event does (`_apply_event` of sync/service.py): it is accepted and its row is added, or it
-- is rejected and the store stays.
use bridgesat_agent.Common.{
  ℕ, ◌≡◌, ◌⊎◌, refl, ap, ◌∙◌, Bool, true, false, inl, inr, String, Option, none, some, [], ◌∷◌,
  ◌++◌, ltb, ◌==◌, nat_eq, string_eq, count_by, contains, arith,
}
use bridgesat_agent.Session.{new, question_active}
use bridgesat_agent.Sync.Types.{
  Envelope, Rejected, ErrorCode, SessionRow, Store, Constraint, invalid_schema,
  question_version_unknown,
}
use bridgesat_agent.Sync.Scoring.{Meta}
use bridgesat_agent.Sync.Rows.{event_row, insert_learning_event_row, locked_session, insert_session}
use bridgesat_agent.Sync.Apply.{Output, World, submission, reject}
use bridgesat_agent.Sync.Answers.{
  apply_scored, apply_graded, apply_submission, apply_answer_submitted, same_event,
}
use bridgesat_agent.Sync.Handlers.{
  observational, presentations, apply_observational, complete_session, apply_session_completed,
  apply_event,
}
use bridgesat_agent.Sync.Frame.{
  Gives, Gives-if, Gives-bind, Gives-then, Gives-weaken, Keeps, same, Keeps-trans,
  ensure_session-Keeps,
}
use bridgesat_agent.Sync.Frame.Answers.{Stays, store_answer-Stays}

module _ {ℓ} {R : Type ℓ} where
  -- The row of the event is the only new one.
  abbrev pub Adds : Envelope → Store R → Store R → Type 0
  Adds e s s' =
      (s'.learning_events ≡ s.learning_events ++ event_row e ∷ [])
      × (s'.students ≡ s.students)
      × (s'.devices ≡ s.devices)

  insert_event-Adds :
      (foreign : Constraint → String → Bool) (e : Envelope) (s : Store R)
      → Gives (Adds e s) (insert_learning_event_row foreign e s)
  unfolding insert_learning_event_row
  insert_event-Adds foreign e s = ground arith

  Adds-Keeps : (e : Envelope) (s s' s'' : Store R) → Adds e s s' → Keeps s' s'' → Adds e s s''
  Adds-Keeps e s s' s'' a k = (k.2 ∙ a.0, k.0 ∙ a.1, k.1 ∙ a.2)

module _ {ℓ} {R D : Type ℓ} where
  abbrev pub IsAccepted : Envelope → Store R × Output D → Store R × Output D → Type 0
  IsAccepted e p p' =
      Adds e p.0 p'.0
      × (p'.1.accepted ≡ p.1.accepted ++ e.event_id ∷ [])
      × (p'.1.rejected ≡ p.1.rejected)

  abbrev pub IsRejected : Envelope → Store R × Output D → Store R × Output D → Type ℓ
  IsRejected e p p' =
      (p'.0 ≡ p.0)
      × (p'.1.accepted ≡ p.1.accepted)
      × ((r : Rejected) × (r.event_id ≡ e.event_id) × (p'.1.rejected ≡ p.1.rejected ++ r ∷ []))

  abbrev pub IsSettled : Envelope → Store R × Output D → Store R × Output D → Type ℓ
  IsSettled e p p' = IsAccepted e p p' ⊎ IsRejected e p p'

  apply_observational-IsAccepted :
      (w : World R D) (e : Envelope) (p : Store R × Output D)
      → Gives (IsAccepted e p) (apply_observational w true e p)
  unfolding apply_observational
  apply_observational-IsAccepted w e (s, out) =
      Gives-bind (IsAccepted e (s, out)) (Adds e s) _ _ (insert_event-Adds w.foreign e s) (λ s1 a.
        Gives-bind (IsAccepted e (s, out)) (Keeps s1) _ _ (ensure_session-Keeps w.foreign e new s1)
          (λ s2 k.
            Gives-if (IsAccepted e (s, out)) (contains presentations e.event_type) _ _
              (Gives-then (IsAccepted e (s, out)) (w.start_presented_intervention e s2) _
                (λ rest. (Adds-Keeps e s s1 s2 a k, refl, refl)))
              (Adds-Keeps e s s1 s2 a k, refl, refl)))

  complete_session-Keeps :
      (w : World R D) (e : Envelope) (row : Option SessionRow) (s : Store R)
      → Gives (Keeps s) (complete_session w e row s)
  unfolding complete_session insert_session
  complete_session-Keeps w e row s = ground (arith, same s)

  apply_session_completed-IsAccepted :
      (w : World R D) (e : Envelope) (p : Store R × Output D)
      → Gives (IsAccepted e p) (apply_session_completed w true e p)
  unfolding apply_session_completed
  apply_session_completed-IsAccepted w e (s, out) =
      Gives-bind (IsAccepted e (s, out)) (Adds e s) _ _ (insert_event-Adds w.foreign e s) (λ s1 a.
        Gives-then (IsAccepted e (s, out)) (locked_session e.session_id e.student_id s1) _ (λ row.
          Gives-bind (IsAccepted e (s, out)) (Keeps s1) _ _ (complete_session-Keeps w e row s1)
            (λ s2 k. (Adds-Keeps e s s1 s2 a k, refl, refl))))

  apply_scored-IsAccepted :
      (w : World R D) (e : Envelope) (question_id : String) (version : ℕ) (selected : String)
      (correct : Bool) (meta : Meta) (p : Store R × Output D)
      → Gives (IsAccepted e p) (apply_scored w true e question_id version selected correct meta p)
  unfolding apply_scored
  apply_scored-IsAccepted w e question_id version selected correct meta (s, out) =
      Gives-bind (IsAccepted e (s, out)) (Adds e s) _ _ (insert_event-Adds w.foreign e s) (λ s1 a.
        Gives-bind (IsAccepted e (s, out)) (Keeps s1) _ _
          (ensure_session-Keeps w.foreign e question_active s1)
          (λ s2 k.
            Gives-if (IsAccepted e (s, out)) (ltb 0 (count_by (same_event e) s2.attempts)) _ _
              (Adds-Keeps e s s1 s2 a k, refl, refl)
              (Gives-bind (IsAccepted e (s, out)) (Stays (s2, out)) _ _
                (store_answer-Stays w true e question_id version selected correct meta (s2, out))
                (λ q h. (
                  Adds-Keeps e s s1 q.0 a (Keeps-trans s1 s2 q.0 k h.0),
                  ap (λ l. l ++ e.event_id ∷ []) h.1,
                  h.2,
                )))))

  reject-IsSettled :
      (e : Envelope) (code : ErrorCode) (s : Store R) (out : Output D)
      → IsSettled e (s, out) (s, reject e code false out)
  reject-IsSettled e code s out = inr (refl, refl, (_, refl, refl))

  apply_graded-IsSettled :
      (w : World R D) (e : Envelope) (question_id : String) (version : ℕ) (selected : String)
      (correct : Option Bool) (meta : Option Meta) (p : Store R × Output D)
      → Gives (IsSettled e p) (apply_graded w true e question_id version selected correct meta p)
  unfolding apply_graded
  apply_graded-IsSettled w e question_id version selected none meta (s, out) =
      reject-IsSettled e question_version_unknown s out
  apply_graded-IsSettled w e question_id version selected (some correct) none (s, out) =
      reject-IsSettled e question_version_unknown s out
  apply_graded-IsSettled w e question_id version selected (some correct) (some meta) p =
      Gives-weaken (IsAccepted e p) (IsSettled e p) _ (λ q h. inl h)
        (apply_scored-IsAccepted w e question_id version selected correct meta p)

  apply_submission-IsSettled :
      (w : World R D) (e : Envelope) (o : Option (String × ℕ × String)) (p : Store R × Output D)
      → Gives (IsSettled e p) (apply_submission w true e o p)
  unfolding apply_submission
  apply_submission-IsSettled w e none p = tt
  apply_submission-IsSettled w e (some (question_id, version, selected)) p =
      apply_graded-IsSettled w e question_id version selected _ _ p

  -- A step that does not raise accepts the event and adds its row, or rejects it and keeps the store.
  pub apply_event-IsSettled :
      (w : World R D) (e : Envelope) (p : Store R × Output D)
      → Gives (IsSettled e p) (apply_event w true e p)
  unfolding apply_event apply_answer_submitted
  apply_event-IsSettled w e p =
      Gives-if (IsSettled e p) (e.event_type == "ANSWER_SUBMITTED") _ _
        (apply_submission-IsSettled w e (submission e) p)
        (Gives-if (IsSettled e p) (e.event_type == "SESSION_COMPLETED") _ _
          (Gives-weaken (IsAccepted e p) (IsSettled e p) _ (λ q h. inl h)
            (apply_session_completed-IsAccepted w e p))
          (Gives-if (IsSettled e p) (contains observational e.event_type) _ _
            (Gives-weaken (IsAccepted e p) (IsSettled e p) _ (λ q h. inl h)
              (apply_observational-IsAccepted w e p))
            (reject-IsSettled e invalid_schema p.0 p.1)))
