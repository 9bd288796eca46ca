-- ===== src/Sync/Answers.antt =====
-- `_apply_answer_submitted` of sync/service.py.
mod Effects
unfoldable pub use Effects.*
use Prim.Native.String.{◌++◌ as ◌^◌}
use bridgesat_agent.Common.{
  ℕ, ltb, Bool, false, not, ◌&&◌, String, Option, none, some, List, [], ◌∷◌, ◌++◌, if◌then◌else◌,
  ◌==◌, nat_eq, string_eq, option_eq, lookup, count_by,
}
use bridgesat_agent.Session.{question_active, answer_evaluated, session_completed, state_eq}
use bridgesat_agent.Learner.{SkillState}
use bridgesat_agent.Policy.Types.{truthy}
use bridgesat_agent.Outbox.Rows.{decimal}
use bridgesat_agent.Sync.Types.{
  question_version_unknown, parallel_attempt_detected, summary_revised, attempt_already_scored,
  Envelope, SessionRow, AttemptRow, Validity, valid, non_scoring_duplicate, validity_eq, Store,
  other_error,
}
use bridgesat_agent.Sync.Scoring.{PackDir, Meta, pack, score, item_meta}
use bridgesat_agent.Sync.Rows.{
  Result, done, raised, ◌>>=◌, invalid, attempt_owner, locked_session, ensure_session,
  transition_session, insert_learning_event_row, record_conflict, insert_attempt,
}
use bridgesat_agent.Sync.Evidence.{
  hint_level_of, evidence_weight, update_skill_state, record_misconception_evidence,
}
use bridgesat_agent.Sync.Apply.{
  Output, ScoredAnswer, World, attempt_id_of, submission, accept, reject, add_conflict,
}

module _ {ℓ} {R D : Type ℓ} where
  -- An attempt that was scored before is stored under another id, and counts for nothing.
  unfoldable pub store_duplicate :
      World R D
      → Envelope
      → String
      → ℕ
      → String
      → Bool
      → String
      → ℕ
      → Store R × Output D
      → Result (Store R × Output D)
  store_duplicate w e question_id version selected correct attempt_id prior (s, out) =
      insert_attempt w.foreign
        (attempt_row e (attempt_id ^ "#dup" ^ decimal prior) question_id version selected correct 0
          non_scoring_duplicate w.now)
        (record_conflict e attempt_already_scored s)
      >>= λ s'. done (s', add_conflict e attempt_already_scored out)

  -- A valid attempt is stored and scored.
  unfoldable pub store_valid :
      World R D
      → Bool
      → Envelope
      → String
      → ℕ
      → String
      → Bool
      → Meta
      → String
      → Bool
      → Store R × Output D
      → Result (Store R × Output D)
  store_valid w insert_event_row e question_id version selected correct meta attempt_id late
        (s, out) =
      let repeated = ltb 0 (count_by (same_item e question_id) s.attempts) in
      let weight = evidence_weight meta.difficulty (hint_level_of e) repeated in
      let misconception = misconception_of meta selected correct in
      insert_attempt w.foreign
        (attempt_row e attempt_id question_id version selected correct weight valid w.now) s
      >>= λ s1.
          let (skill, s2) = update_skill e meta correct weight w.now s1 in
          record_evidence e question_id version meta misconception s2 >>= λ s3.
          advance_session e late (report_parallel e repeated (s3, out)) >>= λ state.
          hand_over_if_skilled w insert_event_row e late meta question_id version correct
            misconception skill state

  -- An answer that is not stored yet.
  unfoldable pub store_answer :
      World R D
      → Bool
      → Envelope
      → String
      → ℕ
      → String
      → Bool
      → Meta
      → Store R × Output D
      → Result (Store R × Output D)
  store_answer w insert_event_row e question_id version selected correct meta (s, out) =
      let attempt_id = attempt_id_of e in
      let prior = count_by (same_attempt e attempt_id) s.attempts in
      if is_foreign (attempt_owner attempt_id s) e.student_id
      then raised invalid
      else locked_session e.session_id e.student_id s >>= λ row.
          if ltb 0 prior
          then store_duplicate w e question_id version selected correct attempt_id prior (s, out)
          else store_valid w insert_event_row e question_id version selected correct meta attempt_id
              (is_completed row) (s, out)

  -- `_apply_answer_submitted`, from the scored answer on.
  unfoldable pub apply_scored :
      World R D
      → Bool
      → Envelope
      → String
      → ℕ
      → String
      → Bool
      → Meta
      → Store R × Output D
      → Result (Store R × Output D)
  apply_scored w insert_event_row e question_id version selected correct meta (s, out) =
      (if insert_event_row then insert_learning_event_row w.foreign e s else done s) >>= λ s1.
      ensure_session w.foreign e question_active s1 >>= λ s2.
      if ltb 0 (count_by (same_event e) s2.attempts)
      then done (s2, accept e out)
      else store_answer w insert_event_row e question_id version selected correct meta (s2, out)
        >>= λ (s3, out3). done (s3, accept e out3)

  -- The answer is scored against the pack that the event names, if that has the question.
  unfoldable pub apply_graded :
      World R D
      → Bool
      → Envelope
      → String
      → ℕ
      → String
      → Option Bool
      → Option Meta
      → Store R × Output D
      → Result (Store R × Output D)
  apply_graded w insert_event_row e question_id version selected none meta (s, out) =
      done (s, reject e question_version_unknown false out)
  apply_graded w insert_event_row e question_id version selected (some correct) none (s, out) =
      done (s, reject e question_version_unknown false out)
  apply_graded w insert_event_row e question_id version selected (some correct) (some meta) p =
      apply_scored w insert_event_row e question_id version selected correct meta p

  unfoldable pub apply_submission :
      World R D
      → Bool
      → Envelope
      → Option (String × ℕ × String)
      → Store R × Output D
      → Result (Store R × Output D)
  apply_submission w insert_event_row e none p = raised invalid
  apply_submission w insert_event_row e (some (question_id, version, selected)) p =
      apply_graded w insert_event_row e question_id version selected
        (score w.dirs [] e.content_pack_version question_id version selected)
        (meta_at w.dirs e.content_pack_version question_id version) p

  -- `_apply_answer_submitted`
  unfoldable pub apply_answer_submitted :
      World R D → Bool → Envelope → Store R × Output D → Result (Store R × Output D)
  apply_answer_submitted w insert_event_row e p =
      apply_submission w insert_event_row e (submission e) p
