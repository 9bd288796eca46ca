-- ===== src/Sync/Frame.antt =====
-- What the steps of a handler keep: the tables of students, devices and events.
pub mod Answers
pub mod Events
use bridgesat_agent.Common.{
  ℕ, ◌≡◌, refl, ◌∙◌, Bool, true, false, ◌&&◌, ◌||◌, not, inl, inr, String, Option, none, some, List,
  [], ◌∷◌, ◌++◌, if◌then◌else◌, ltb, ◌==◌, nat_eq, string_eq, count_by, Bool-cases, contains, arith,
}
use bridgesat_agent.Session.{
  SessionState, session_completed, state_eq, new, question_active, answer_evaluated,
}
use bridgesat_agent.Learner.{SkillState}
use bridgesat_agent.Policy.Types.{truthy}
use bridgesat_agent.Sync.Types.{
  Envelope, EventRow, SessionRow, AttemptRow, Store, Constraint, Fault, unique_violation,
  study_sessions_pkey,
}
use bridgesat_agent.Sync.Scoring.{Meta}
use bridgesat_agent.Sync.Rows.{
  Result, done, raised, ◌>>=◌, locked_session, insert_session, ensure_session, transition_session,
  insert_learning_event_row, insert_attempt,
}

-- A predicate on what a step gives, if it does not raise.
abbrev pub Gives {ℓ κ} : {A : Type ℓ} → (A → Type κ) → Result A → Type κ
Gives P (done a) = P a
Gives P (raised e) = Unit

module _ {ℓ κ} {A : Type ℓ} (P : A → Type κ) where
  pub Gives-if : (b : Bool) (x y : Result A) → Gives P x → Gives P y → Gives P (if b then x else y)
  Gives-if true x y p q = p
  Gives-if false x y p q = q

  pub Gives-option {ℓ'} :
      {B : Type ℓ'} (o : Option B) (x : Result A) (f : B → Result A)
      → Gives P x
      → ((b : B) → Gives P (f b))
      → Gives P (elim o [ none ↦ x | some b ↦ f b ])
  Gives-option none x f p q = p
  Gives-option (some b) x f p q = q b

  pub Gives-bind {ℓ' κ'} :
      {B : Type ℓ'} (Q : B → Type κ') (m : Result B) (f : B → Result A)
      → Gives Q m
      → ((b : B) → Q b → Gives P (f b))
      → Gives P (m >>= f)
  Gives-bind Q (done b) f p q = q b p
  Gives-bind Q (raised e) f p q = tt

  pub Gives-then {ℓ'} :
      {B : Type ℓ'} (m : Result B) (f : B → Result A)
      → ((b : B) → Gives P (f b))
      → Gives P (m >>= f)
  Gives-then (done b) f q = q b
  Gives-then (raised e) f q = tt

  pub Gives-weaken {κ'} :
      (Q : A → Type κ') (m : Result A) → ((a : A) → P a → Q a) → Gives P m → Gives Q m
  Gives-weaken Q (done a) f p = f a p
  Gives-weaken Q (raised e) f p = tt

module _ {ℓ} {R : Type ℓ} where
  -- The tables that only the batch itself and the event row write.
  abbrev pub Keeps : Store R → Store R → Type 0
  Keeps s s' =
      (s'.students ≡ s.students)
      × (s'.devices ≡ s.devices)
      × (s'.learning_events ≡ s.learning_events)

  pub same : (s : Store R) → Keeps s s
  same s = (refl, refl, refl)

  pub Keeps-trans : (s s' s'' : Store R) → Keeps s s' → Keeps s' s'' → Keeps s s''
  Keeps-trans s s' s'' h k = (k.0 ∙ h.0, k.1 ∙ h.1, k.2 ∙ h.2)

  insert_session-Keeps :
      (foreign : Constraint → String → Bool) (row : SessionRow) (s : Store R)
      → Gives (Keeps s) (insert_session foreign row s)
  unfolding insert_session
  insert_session-Keeps foreign row s = ground (arith, same s)

  pub ensure_session-Keeps :
      (foreign : Constraint → String → Bool) (e : Envelope) (d : SessionState) (s : Store R)
      → Gives (Keeps s) (ensure_session foreign e d s)
  unfolding ensure_session
  ensure_session-Keeps foreign e d s =
      Gives-then (Keeps s) (locked_session e.session_id e.student_id s) _
        (λ row. ground (arith, same s, insert_session-Keeps foreign (fresh e) s))
    where
      fresh : Envelope → SessionRow
      fresh e = record {
        session_id = e.session_id;
        student_id = e.student_id;
        session_state = d;
        completed_at = none;
      }

  pub transition_session-Keeps :
      (e : Envelope) (target : SessionState) (s : Store R)
      → Gives (Keeps s) (transition_session e target s)
  unfolding transition_session
  transition_session-Keeps e target s =
      Gives-then (Keeps s) (locked_session e.session_id e.student_id s) _
        (λ row. ground (arith, same s))

  pub insert_attempt-Keeps :
      (foreign : Constraint → String → Bool) (row : AttemptRow) (s : Store R)
      → Gives (Keeps s) (insert_attempt foreign row s)
  unfolding insert_attempt
  insert_attempt-Keeps foreign row s = ground (arith, same s)
