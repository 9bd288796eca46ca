-- ===== src/Sync/Frame/Answers.antt =====
-- What storing an answer keeps (`_apply_answer_submitted` of sync/service.py): besides the tables, the
-- lists of accepted and rejected events.
use bridgesat_agent.Common.{
  ℕ, ◌≡◌, refl, ◌∙◌, Bool, true, false, ◌&&◌, not, String, Option, none, some, ltb, nat_eq,
  string_eq, count_by, arith,
}
use bridgesat_agent.Session.{answer_evaluated}
use bridgesat_agent.Learner.{SkillState}
use bridgesat_agent.Sync.Types.{Envelope, Store, attempt_already_scored}
use bridgesat_agent.Sync.Scoring.{Meta}
use bridgesat_agent.Sync.Rows.{
  raised, invalid, record_conflict, locked_session, attempt_owner, transition_session,
}
use bridgesat_agent.Sync.Evidence.{
  evidence_weight, hint_level_of, update_skill_state, record_misconception_evidence,
}
use bridgesat_agent.Sync.Apply.{Output, World, ScoredAnswer, attempt_id_of}
use bridgesat_agent.Sync.Answers.{
  update_skill, record_evidence, report_parallel, advance_session, hand_over, hand_over_if_skilled,
  store_duplicate, is_foreign, store_valid, store_answer, is_completed, same_item, same_attempt,
  misconception_of,
}
use bridgesat_agent.Sync.Frame.{
  Gives, Gives-if, Gives-bind, Gives-then, Gives-weaken, Keeps, same, Keeps-trans,
  transition_session-Keeps, insert_attempt-Keeps,
}

module _ {ℓ} {R : Type ℓ} where
  update_skill-Keeps :
      (e : Envelope) (meta : Meta) (correct : Bool) (weight now : ℕ) (s : Store R)
      → Keeps s (update_skill e meta correct weight now s).1
  unfolding update_skill update_skill_state
  update_skill-Keeps e meta correct weight now s = ground (arith, same s)

  record_evidence-Keeps :
      (e : Envelope) (question_id : String) (version : ℕ) (meta : Meta) (m : Option String)
      (s : Store R)
      → Gives (Keeps s) (record_evidence e question_id version meta m s)
  unfolding record_evidence record_misconception_evidence
  record_evidence-Keeps e question_id version meta m s = ground (arith, same s)

module _ {ℓ} {R D : Type ℓ} where
  -- A step inside a handler neither accepts nor rejects.
  abbrev pub Stays : Store R × Output D → Store R × Output D → Type 0
  Stays p p' = Keeps p.0 p'.0 × (p'.1.accepted ≡ p.1.accepted) × (p'.1.rejected ≡ p.1.rejected)

  pub stay : (p : Store R × Output D) (s : Store R) → Keeps p.0 s → Stays p (s, p.1)
  stay p s k = (k, refl, refl)

  Stays-trans : (p q r : Store R × Output D) → Stays p q → Stays q r → Stays p r
  Stays-trans p q r h k = (Keeps-trans p.0 q.0 r.0 h.0 k.0, k.1 ∙ h.1, k.2 ∙ h.2)

  report_parallel-Stays :
      (e : Envelope) (repeated : Bool) (p : Store R × Output D)
      → Stays p (report_parallel e repeated p)
  unfolding report_parallel record_conflict
  report_parallel-Stays e true (s, out) = (same s, refl, refl)
  report_parallel-Stays e false (s, out) = (same s, refl, refl)

  advance_session-Stays :
      (e : Envelope) (late : Bool) (p : Store R × Output D)
      → Gives (Stays p) (advance_session e late p)
  unfolding advance_session record_conflict
  advance_session-Stays e true (s, out) = (same s, refl, refl)
  advance_session-Stays e false (s, out) =
      Gives-bind (Stays (s, out)) (Keeps s) (transition_session e answer_evaluated s) _
        (transition_session-Keeps e answer_evaluated s) (λ s' k. stay (s, out) s' k)

  hand_over-Stays :
      (w : World R D) (insert_event_row : Bool) (e : Envelope) (late : Bool) (answer : ScoredAnswer)
      (p : Store R × Output D)
      → Gives (Stays p) (hand_over w insert_event_row e late answer p)
  unfolding hand_over
  hand_over-Stays w insert_event_row e late answer (s, out) =
      Gives-if (Stays (s, out)) (insert_event_row && not late) _ _
        (Gives-then (Stays (s, out)) (w.decide_and_record e answer s) _ (λ (rest, decision, next).
          Gives-bind (Stays (s, out)) (Keeps s)
            (transition_session e next (record s { rest = rest })) _
            (transition_session-Keeps e next (record s { rest = rest })) (λ s' k. (k, refl, refl))))
        (stay (s, out) s (same s))

  hand_over_if_skilled-Stays :
      (w : World R D) (insert_event_row : Bool) (e : Envelope) (late : Bool) (meta : Meta)
      (question_id : String) (version : ℕ) (correct : Bool) (m : Option String)
      (skill : Option SkillState) (p : Store R × Output D)
      → Gives (Stays p) (
          hand_over_if_skilled w insert_event_row e late meta question_id version correct m skill p)
  unfolding hand_over_if_skilled
  hand_over_if_skilled-Stays w insert_event_row e late meta question_id version correct m none p =
      stay p p.0 (same p.0)
  hand_over_if_skilled-Stays w insert_event_row e late meta question_id version correct m
        (some skill) p =
      hand_over-Stays w insert_event_row e late _ p

  store_duplicate-Stays :
      (w : World R D) (e : Envelope) (question_id : String) (version : ℕ) (selected : String)
      (correct : Bool) (attempt_id : String) (prior : ℕ) (p : Store R × Output D)
      → Gives
          (Stays p)
          (store_duplicate w e question_id version selected correct attempt_id prior p)
  unfolding store_duplicate record_conflict
  store_duplicate-Stays w e question_id version selected correct attempt_id prior (s, out) =
      Gives-bind (Stays (s, out)) (Keeps (record_conflict e attempt_already_scored s)) _ _
        (insert_attempt-Keeps w.foreign _ (record_conflict e attempt_already_scored s))
        (λ s' k. (k, refl, refl))

  store_valid-Stays :
      (w : World R D) (insert_event_row : Bool) (e : Envelope) (question_id : String) (version : ℕ)
      (selected : String) (correct : Bool) (meta : Meta) (attempt_id : String) (late : Bool)
      (p : Store R × Output D)
      → Gives (Stays p) (
          store_valid w insert_event_row e question_id version selected correct meta attempt_id late
            p)
  unfolding store_valid
  store_valid-Stays w insert_event_row e question_id version selected correct meta attempt_id late
        (s, out) =
      let repeated : Bool = ltb 0 (count_by (same_item e question_id) s.attempts) in
      let weight : ℕ = evidence_weight meta.difficulty (hint_level_of e) repeated in
      let m : Option String = misconception_of meta selected correct in
      Gives-bind (Stays (s, out)) (Keeps s) _ _ (insert_attempt-Keeps w.foreign _ s) (λ s1 k1.
        let s2 : Store R = (update_skill e meta correct weight w.now s1).1 in
        Gives-bind (Stays (s, out)) (Keeps s2) _ _
          (record_evidence-Keeps e question_id version meta m s2)
          (λ s3 k3.
            let q : Store R × Output D = report_parallel e repeated (s3, out) in
            let before : Stays (s, out) q =
              Stays-trans (s, out) (s3, out) q
                (stay (s, out) s3
                  (Keeps-trans s s2 s3
                    (Keeps-trans s s1 s2 k1 (update_skill-Keeps e meta correct weight w.now s1))
                    k3))
                (report_parallel-Stays e repeated (s3, out)) in
            Gives-bind (Stays (s, out)) (Stays q) _ _ (advance_session-Stays e late q) (λ r h.
              Gives-weaken (Stays r) (Stays (s, out)) _
                (λ t g. Stays-trans (s, out) r t (Stays-trans (s, out) q r before h) g)
                (hand_over_if_skilled-Stays w insert_event_row e late meta question_id version
                  correct m _ r))))

  pub store_answer-Stays :
      (w : World R D) (insert_event_row : Bool) (e : Envelope) (question_id : String) (version : ℕ)
      (selected : String) (correct : Bool) (meta : Meta) (p : Store R × Output D)
      → Gives
          (Stays p)
          (store_answer w insert_event_row e question_id version selected correct meta p)
  unfolding store_answer
  store_answer-Stays w insert_event_row e question_id version selected correct meta (s, out) =
      Gives-if (Stays (s, out)) (is_foreign (attempt_owner (attempt_id_of e) s) e.student_id)
        (raised invalid) _ tt
        (Gives-then (Stays (s, out)) (locked_session e.session_id e.student_id s) _ (λ row.
          Gives-if (Stays (s, out)) (ltb 0 (count_by (same_attempt e (attempt_id_of e)) s.attempts))
            _ _
            (store_duplicate-Stays w e question_id version selected correct (attempt_id_of e)
              (count_by (same_attempt e (attempt_id_of e)) s.attempts) (s, out))
            (store_valid-Stays w insert_event_row e question_id version selected correct meta
              (attempt_id_of e) (is_completed row) (s, out))))
