-- ===== src/Sync/Attempts.antt =====
-- An attempt that is submitted again (sync/service.py `_apply_answer_submitted`).
use Prim.Native.String.{◌++◌ as ◌^◌}
use text.Mathlib.TextEquality.{eq_iff}
use bridgesat_agent.Common.{
  ℕ, ◌<◌, ◌≡◌, refl, ap, Bool, true, false, String, Option, none, some, [], ◌∷◌, ◌++◌,
  if◌then◌else◌, ◌==◌, nat_eq, string_eq, count_by, beq_refl, arith, lt→ltb,
}
use bridgesat_agent.Sync.Types.{
  Envelope, AttemptRow, SessionRow, Store, Constraint, answer_attempts_pkey,
  answer_attempts_event_id_key, unique_violation, non_scoring_duplicate, attempt_already_scored,
}
use bridgesat_agent.Outbox.Rows.{decimal}
use bridgesat_agent.Sync.Scoring.{Meta}
use bridgesat_agent.Sync.Rows.{
  done, raised, ◌>>=◌, attempt_owner, attempt_event_owner, insert_attempt, locked_session,
  record_conflict,
}
use bridgesat_agent.Sync.Apply.{Output, World, attempt_id_of, add_conflict}
use bridgesat_agent.Sync.Answers.{
  same_attempt, attempt_row, is_foreign, store_duplicate, store_answer,
}
use bridgesat_agent.Sync.Batch.{owned_by_another, global_id_collision}

module _ {ℓ} {R : Type ℓ} where
  -- Under which id the duplicate is stored.
  abbrev pub duplicate_id : Envelope → Store R → String
  duplicate_id e s =
      attempt_id_of e ^ "#dup" ^ decimal (count_by (same_attempt e (attempt_id_of e)) s.attempts)

  stores_row :
      (foreign : Constraint → String → Bool) (row : AttemptRow) (s : Store R)
      → attempt_owner row.attempt_id s ≡ none
      → attempt_event_owner row.event_id s ≡ none
      → foreign answer_attempts_pkey row.attempt_id ≡ false
      → foreign answer_attempts_event_id_key row.event_id ≡ false
      → insert_attempt foreign row s ≡ done (record s { attempts = s.attempts ++ row ∷ [] })
  unfolding insert_attempt
  stores_row foreign row s unowned unused free fresh = ground arith

  taken_id :
      (foreign : Constraint → String → Bool) (row : AttemptRow) (other : String) (s : Store R)
      → attempt_owner row.attempt_id s ≡ some other
      → insert_attempt foreign row s ≡ raised (unique_violation answer_attempts_pkey)
  unfolding insert_attempt
  taken_id foreign row other s h = ground (arith, h)

module _ {ℓ} {R D : Type ℓ} where
  -- The only new attempt counts for nothing, and what is known of the student stays.
  abbrev pub Unscored : String → String → Store R × Output D → Store R × Output D → Type ℓ
  Unscored attempt_id event_id (s, out) (s', out') =
      (s'.skills ≡ s.skills)
      × (s'.evidence ≡ s.evidence)
      × (s'.sessions ≡ s.sessions)
      × (s'.rest ≡ s.rest)
      × (out'.server_agent_events ≡ out.server_agent_events)
      × ((row : AttemptRow) × (row.attempt_id ≡ attempt_id)
          × (row.event_id ≡ event_id)
          × (row.weight ≡ 0)
          × (row.validity ≡ non_scoring_duplicate)
          × (s'.attempts ≡ s.attempts ++ row ∷ []))

  -- An answer whose attempt id was already stored for the student's session, under which no other
  -- student has an attempt, is stored as a non-scoring duplicate of weight 0, where the session is not
  -- another student's, and where no attempt, of this tenant or another one, has the id with `#dup` and the
  -- count of the earlier ones, nor the id of the event. Skills, misconception evidence, sessions and the
  -- agent's state stay, and the agent does not answer it, whether or not the choice is right.
  pub duplicate_scores_nothing :
      (w : World R D) (insert_event_row : Bool) (e : Envelope) (question_id : String) (version : ℕ)
      (selected : String) (correct : Bool) (meta : Meta) (s : Store R) (out : Output D)
      (session : Option SessionRow)
      → 0 < count_by (same_attempt e (attempt_id_of e)) s.attempts
      → is_foreign (attempt_owner (attempt_id_of e) s) e.student_id ≡ false
      → locked_session e.session_id e.student_id s ≡ done session
      → attempt_owner (duplicate_id e s) s ≡ none
      → attempt_event_owner e.event_id s ≡ none
      → w.foreign answer_attempts_pkey (duplicate_id e s) ≡ false
      → w.foreign answer_attempts_event_id_key e.event_id ≡ false
      → (p : Store R × Output D) × (store_answer w insert_event_row e question_id version selected
            correct meta
            (s, out)
          ≡ done p)
        × Unscored (duplicate_id e s) e.event_id (s, out) p
  unfolding store_answer store_duplicate record_conflict attempt_owner attempt_event_owner
  duplicate_scores_nothing w insert_event_row e question_id version selected correct meta s out
        session before own mine unowned unused free fresh =
      let row : AttemptRow =
        attempt_row e (duplicate_id e s) question_id version selected correct 0
          non_scoring_duplicate w.now in
      let kept : Store R = record_conflict e attempt_already_scored s in
      let stored : Store R = record kept { attempts = s.attempts ++ row ∷ [] } in
      (
        (stored, add_conflict e attempt_already_scored out),
        rw (own, mine, lt→ltb 0 (count_by (same_attempt e (attempt_id_of e)) s.attempts) before)
            (ap (λ r. r >>= λ s'. done (s', add_conflict e attempt_already_scored out))
              (stores_row w.foreign row kept unowned unused free fresh)),
        (refl, refl, refl, refl, refl, (row, refl, refl, refl, refl, refl)),
      )

  second_duplicate :
      (w : World R D) (e : Envelope) (question_id : String) (version : ℕ) (selected : String)
      (correct : Bool) (attempt_id other : String) (s : Store R) (out : Output D)
      → attempt_owner (attempt_id ^ "#dup1") s ≡ some other
      → store_duplicate w e question_id version selected correct attempt_id 1 (s, out)
        ≡ raised (unique_violation answer_attempts_pkey)
  unfolding store_duplicate decimal record_conflict attempt_owner
  second_duplicate w e question_id version selected correct attempt_id other s out h =
      ap (λ r. r >>= λ s'. done (s', add_conflict e attempt_already_scored out))
        (taken_id w.foreign
          (attempt_row e (attempt_id ^ "#dup1") question_id version selected correct 0
            non_scoring_duplicate w.now)
          other (record_conflict e attempt_already_scored s) h)

  -- The third submission of an attempt: the second one was stored under `#dup1`, and so would this one
  -- be. The violated primary key is no collision with another student, so the exception ends the batch.
  pub third_submission_fails :
      (w : World R D) (insert_event_row : Bool) (e : Envelope) (question_id : String) (version : ℕ)
      (selected : String) (correct : Bool) (meta : Meta) (p : Store R × Output D) (row : SessionRow)
      (other : String)
      → e.event_type ≡ "ANSWER_SUBMITTED"
      → attempt_owner (attempt_id_of e) p.0 ≡ some e.student_id
      → locked_session e.session_id e.student_id p.0 ≡ done (some row)
      → count_by (same_attempt e (attempt_id_of e)) p.0.attempts ≡ 1
      → attempt_owner (attempt_id_of e ^ "#dup1") p.0 ≡ some other
      → (store_answer w insert_event_row e question_id version selected correct meta p
          ≡ raised (unique_violation answer_attempts_pkey))
        × (global_id_collision answer_attempts_pkey e p.0 ≡ none)
  unfolding store_answer global_id_collision
  third_submission_fails w insert_event_row e question_id version selected correct meta (s, out) row
        other type own session once dup =
      (
        rw (not_foreign (attempt_owner (attempt_id_of e) s) own, session, once)
            (second_duplicate w e question_id version selected correct (attempt_id_of e) other s out
              dup),
        collision e.event_type ((eq_iff e.event_type "ANSWER_SUBMITTED").1 type),
      )
    where
      not_foreign : (o : Option String) → o ≡ some e.student_id → is_foreign o e.student_id ≡ false
      not_foreign o h = rw (h, beq_refl e.student_id) refl

      collision :
          (type : String)
          → (type == "ANSWER_SUBMITTED") ≡ true
          → (if type == "ANSWER_SUBMITTED"
              then owned_by_another (attempt_owner (attempt_id_of e) s) e.student_id
              else none)
            ≡ none
      collision type answer = rw (answer, own, beq_refl e.student_id) refl
