-- ===== src/Sync/Handlers.antt =====
-- The other handlers of sync/service.py, and the dispatch on the type of an event.
use bridgesat_agent.Common.{
  Bool, false, ◌&&◌, String, Option, none, some, List, [], ◌∷◌, if◌then◌else◌, ◌==◌, string_eq,
  contains, update_by,
}
use bridgesat_agent.Session.{new, session_completed, state_eq}
use bridgesat_agent.Sync.Types.{invalid_schema, Envelope, SessionRow, Store}
use bridgesat_agent.Sync.Rows.{
  Result, done, ◌>>=◌, locked_session, insert_session, ensure_session, is_session,
  insert_learning_event_row,
}
use bridgesat_agent.Sync.Apply.{Output, World, accept, reject}
use bridgesat_agent.Sync.Answers.{is_completed, apply_answer_submitted}

-- The event types of `_apply_observational`.
abbrev pub observational : List String
observational =
    "DIAGNOSTIC_STARTED" ∷ "HINT_REQUESTED" ∷ "CONTENT_PRESENTED" ∷ "WORKED_EXAMPLE_PRESENTED"
    ∷ "MICRO_LESSON_PRESENTED" ∷ "DIAGNOSTIC_COMPLETED" ∷ "PLAN_READY" ∷ []

abbrev pub presentations : List String
presentations = "WORKED_EXAMPLE_PRESENTED" ∷ "MICRO_LESSON_PRESENTED" ∷ []

module _ {ℓ} {R D : Type ℓ} where
  -- `_apply_observational`
  unfoldable pub apply_observational :
      World R D → Bool → Envelope → Store R × Output D → Result (Store R × Output D)
  apply_observational w insert_event_row e (s, out) =
      (if insert_event_row then insert_learning_event_row w.foreign e s else done s) >>= λ s1.
      ensure_session w.foreign e new s1 >>= λ s2.
      if insert_event_row && contains presentations e.event_type
      then (w.start_presented_intervention e s2 >>= λ rest.
          done (record s2 { rest = rest }, accept e out))
      else done (s2, accept e out)

  -- The session of a `SESSION_COMPLETED` event after it.
  unfoldable pub complete_session :
      World R D → Envelope → Option SessionRow → Store R → Result (Store R)
  complete_session w e row s = elim row [
    | none ↦
        insert_session w.foreign
          (record {
            session_id = e.session_id;
            student_id = e.student_id;
            session_state = session_completed;
            completed_at = none;
          })
          s
    | some r ↦
        if is_completed (some r)
        then done s
        else done (record s {
          sessions =
              update_by (is_session e)
                (λ q. record q { session_state = session_completed; completed_at = some w.now })
                s.sessions;
        })
  ]

  -- `_apply_session_completed`, without the facts that it collects for a summary
  unfoldable pub apply_session_completed :
      World R D → Bool → Envelope → Store R × Output D → Result (Store R × Output D)
  apply_session_completed w insert_event_row e (s, out) =
      (if insert_event_row then insert_learning_event_row w.foreign e s else done s) >>= λ s1.
      locked_session e.session_id e.student_id s1 >>= λ row.
      complete_session w e row s1 >>= λ s2. done (s2, accept e out)

  -- `_apply_event`
  unfoldable pub apply_event :
      World R D → Bool → Envelope → Store R × Output D → Result (Store R × Output D)
  apply_event w insert_event_row e state =
      if e.event_type == "ANSWER_SUBMITTED"
      then apply_answer_submitted w insert_event_row e state
      else if e.event_type == "SESSION_COMPLETED"
      then apply_session_completed w insert_event_row e state
      else if contains observational e.event_type
      then apply_observational w insert_event_row e state
      else done (state.0, reject e invalid_schema false state.1)
