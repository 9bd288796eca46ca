-- ===== src/Sync/Handed/Answers.antt =====
-- An answer keeps what the agent's operations keep (`_apply_answer_submitted` of sync/service.py).
use bridgesat_agent.Common.{
  ℕ, Bool, true, false, ◌&&◌, not, String, Option, none, some, ltb, nat_eq, string_eq, option_eq,
  count_by, if◌then◌else◌,
}
use bridgesat_agent.Session.{answer_evaluated}
use bridgesat_agent.Learner.{SkillState}
use bridgesat_agent.Sync.Types.{Envelope, Store, attempt_already_scored}
use bridgesat_agent.Sync.Scoring.{Meta}
use bridgesat_agent.Sync.Rows.{
  done, raised, invalid, record_conflict, locked_session, attempt_owner, transition_session,
  insert_learning_event_row,
}
use bridgesat_agent.Sync.Evidence.{evidence_weight, hint_level_of}
use bridgesat_agent.Sync.Apply.{Output, World, ScoredAnswer, attempt_id_of}
use bridgesat_agent.Sync.Answers.{
  update_skill, report_parallel, advance_session, hand_over, hand_over_if_skilled, store_duplicate,
  is_foreign, store_valid, store_answer, is_completed, same_item, same_attempt, misconception_of,
}
use bridgesat_agent.Sync.Frame.{Gives, Gives-if, Gives-bind, Gives-then}
use bridgesat_agent.Sync.Handed.{
  transition_session-RestStays, insert_learning_event_row-RestStays, insert_attempt-RestStays,
  update_skill-RestStays, record_evidence-RestStays, IsKept, Kept, carry, keeps,
}

module _ {ℓ κ} {R D : Type ℓ} (P : R → Type κ) (w : World R D) (laws : IsKept P w) where
  hand_over-Kept :
      (insert_event_row : Bool) (e : Envelope) (late : Bool) (answer : ScoredAnswer)
      (p : Store R × Output D)
      → Kept P p
      → Gives (Kept P) (hand_over w insert_event_row e late answer p)
  unfolding hand_over
  hand_over-Kept insert_event_row e late answer (s, out) h =
      Gives-if (Kept P) (insert_event_row && not late) _ _
        (Gives-bind (Kept P) (λ r. P r.0) (w.decide_and_record e answer s) _
          (laws.decides e answer s h)
          (λ (rest, decision, next) k.
            Gives-bind (Kept P) (λ s'. P s'.rest)
              (transition_session e next (record s { rest = rest })) _
              (keeps P (record s { rest = rest }) _ k
                (transition_session-RestStays e next (record s { rest = rest })))
              (λ s' k'. k')))
        h

  hand_over_if_skilled-Kept :
      (insert_event_row : Bool) (e : Envelope) (late : Bool) (meta : Meta) (question_id : String)
      (version : ℕ) (correct : Bool) (m : Option String) (skill : Option SkillState)
      (p : Store R × Output D)
      → Kept P p
      → Gives (Kept P) (
          hand_over_if_skilled w insert_event_row e late meta question_id version correct m skill p)
  unfolding hand_over_if_skilled
  hand_over_if_skilled-Kept insert_event_row e late meta question_id version correct m none p h = h
  hand_over_if_skilled-Kept insert_event_row e late meta question_id version correct m (some skill)
        p h =
      hand_over-Kept insert_event_row e late _ p h

  report_parallel-Kept :
      (e : Envelope) (repeated : Bool) (p : Store R × Output D)
      → Kept P p
      → Kept P (report_parallel e repeated p)
  unfolding report_parallel record_conflict
  report_parallel-Kept e true (s, out) h = h
  report_parallel-Kept e false (s, out) h = h

  advance_session-Kept :
      (e : Envelope) (late : Bool) (p : Store R × Output D)
      → Kept P p
      → Gives (Kept P) (advance_session e late p)
  unfolding advance_session record_conflict
  advance_session-Kept e true (s, out) h = h
  advance_session-Kept e false (s, out) h =
      Gives-bind (Kept P) (λ s'. P s'.rest) (transition_session e answer_evaluated s) _
        (keeps P s _ h (transition_session-RestStays e answer_evaluated s)) (λ s' k. k)

  store_valid-Kept :
      (insert_event_row : Bool) (e : Envelope) (question_id : String) (version : ℕ)
      (selected : String) (correct : Bool) (meta : Meta) (attempt_id : String) (late : Bool)
      (p : Store R × Output D)
      → Kept P p
      → Gives (Kept P) (
          store_valid w insert_event_row e question_id version selected correct meta attempt_id late
            p)
  unfolding store_valid
  store_valid-Kept insert_event_row e question_id version selected correct meta attempt_id late
        (s, out) h =
      let repeated : Bool = ltb 0 (count_by (same_item e question_id) s.attempts) in
      let weight : ℕ = evidence_weight meta.difficulty (hint_level_of e) repeated in
      let m : Option String = misconception_of meta selected correct in
      Gives-bind (Kept P) (λ s'. P s'.rest) _ _
        (keeps P s _ h (insert_attempt-RestStays w.foreign _ s))
        (λ s1 k1.
          let s2 : Store R = (update_skill e meta correct weight w.now s1).1 in
          let k2 = carry P s1 s2 (update_skill-RestStays e meta correct weight w.now s1) k1 in
          Gives-bind (Kept P) (λ s'. P s'.rest) _ _
            (keeps P s2 _ k2 (record_evidence-RestStays e question_id version meta m s2))
            (λ s3 k3.
              Gives-bind (Kept P) (Kept P) _ _
                (advance_session-Kept e late (report_parallel e repeated (s3, out))
                  (report_parallel-Kept e repeated (s3, out) k3))
                (λ r k.
                  hand_over_if_skilled-Kept insert_event_row e late meta question_id version correct
                    m _ r k)))

  pub store_answer-Kept :
      (insert_event_row : Bool) (e : Envelope) (question_id : String) (version : ℕ)
      (selected : String) (correct : Bool) (meta : Meta) (p : Store R × Output D)
      → Kept P p
      → Gives
          (Kept P)
          (store_answer w insert_event_row e question_id version selected correct meta p)
  unfolding store_answer store_duplicate record_conflict
  store_answer-Kept insert_event_row e question_id version selected correct meta (s, out) h =
      Gives-if (Kept P) (is_foreign (attempt_owner (attempt_id_of e) s) e.student_id)
        (raised invalid) _ tt
        (Gives-then (Kept P) (locked_session e.session_id e.student_id s) _ (λ row.
          Gives-if (Kept P) (ltb 0 (count_by (same_attempt e (attempt_id_of e)) s.attempts)) _ _
            (Gives-bind (Kept P) (λ s'. P s'.rest) _ _
              (keeps P (record_conflict e attempt_already_scored s) _ h
                (insert_attempt-RestStays w.foreign _ (record_conflict e attempt_already_scored s)))
              (λ s' k. k))
            (store_valid-Kept insert_event_row e question_id version selected correct meta
              (attempt_id_of e) (is_completed row) (s, out) h)))

  pub insert_row-Kept :
      (b : Bool) (e : Envelope) (s : Store R)
      → P s.rest
      → Gives (λ s'. P s'.rest) (if b then insert_learning_event_row w.foreign e s else done s)
  insert_row-Kept true e s h = keeps P s _ h (insert_learning_event_row-RestStays w.foreign e s)
  insert_row-Kept false e s h = h
