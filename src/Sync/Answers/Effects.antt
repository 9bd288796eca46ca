-- ===== src/Sync/Answers/Effects.antt =====
-- The single effects of an answer (sync/service.py `_apply_answer_submitted`).
use bridgesat_agent.Common.{
  ℕ, Bool, false, not, ◌&&◌, String, Option, none, some, List, [], ◌∷◌, ◌++◌, if◌then◌else◌, ◌==◌,
  nat_eq, string_eq, option_eq, lookup,
}
use bridgesat_agent.Session.{answer_evaluated, session_completed, state_eq}
use bridgesat_agent.Learner.{SkillState}
use bridgesat_agent.Policy.Types.{truthy}
use bridgesat_agent.Sync.Types.{
  parallel_attempt_detected, summary_revised, Envelope, SessionRow, AttemptRow, Validity, valid,
  validity_eq, Store, other_error,
}
use bridgesat_agent.Sync.Scoring.{PackDir, Meta, pack, item_meta}
use bridgesat_agent.Sync.Rows.{Result, done, raised, ◌>>=◌, transition_session, record_conflict}
use bridgesat_agent.Sync.Evidence.{hint_level_of, update_skill_state, record_misconception_evidence}
use bridgesat_agent.Sync.Apply.{Output, ScoredAnswer, World, add_conflict}

-- The prior attempts with the same attempt id, and the valid ones on the same item.
abbrev pub same_attempt : Envelope → String → AttemptRow → Bool
same_attempt e attempt_id r =
    r.session_id == e.session_id && r.student_id == e.student_id && r.attempt_id == attempt_id

abbrev pub same_item : Envelope → String → AttemptRow → Bool
same_item e question_id r =
    r.session_id == e.session_id
    && r.student_id == e.student_id
    && r.content_id == question_id
    && r.validity == valid

-- The attempt was stored before for this event.
abbrev pub same_event : Envelope → AttemptRow → Bool
same_event e r = r.event_id == e.event_id && r.student_id == e.student_id

unfoldable pub is_completed : Option SessionRow → Bool
is_completed none = false
is_completed (some r) = r.session_state == session_completed

-- `device_occurred_at or received_at`
abbrev pub occurred_at_of : Envelope → ℕ → ℕ
occurred_at_of e now = elim e.device_occurred_at [ none ↦ now | some t ↦ t ]

abbrev pub attempt_row :
    Envelope → String → String → ℕ → String → Bool → ℕ → Validity → ℕ → AttemptRow
attempt_row e stored_attempt_id question_id version selected correct weight validity now = record {
  attempt_id = stored_attempt_id;
  event_id = e.event_id;
  student_id = e.student_id;
  session_id = e.session_id;
  content_id = question_id;
  version = version;
  selected_choice_id = selected;
  correct = correct;
  hint_level = hint_level_of e;
  weight = weight;
  validity = validity;
  occurred_at = occurred_at_of e now;
}

-- The misconception of a wrong choice.
unfoldable pub misconception_of : Meta → String → Bool → Option String
misconception_of meta selected correct =
    if correct then none else lookup selected meta.misconception_map

-- `pack(pack_version).item_meta(…)`
unfoldable pub meta_at : List PackDir → String → String → ℕ → Option Meta
meta_at dirs pack_version question_id version = elim ((pack dirs [] pack_version).0) [
  | none ↦ none
  | some key ↦ item_meta key question_id version
]

-- The attempt has another owner.
abbrev pub is_foreign : Option String → String → Bool
is_foreign none student_id = false
is_foreign (some owner) student_id = not (owner == student_id)

module _ {ℓ} {R : Type ℓ} where
  -- The skill of the item, when it has one, moves.
  unfoldable pub update_skill :
      Envelope → Meta → Bool → ℕ → ℕ → Store R → Option SkillState × Store R
  update_skill e meta correct weight now s = elim meta.skill [
    | none ↦ (none, s)
    | some skill ↦
        if truthy (some skill)
        then (let (state, s') = update_skill_state e.student_id skill correct weight now s in
            (some state, s'))
        else (none, s)
  ]

  -- The column `skill` of the evidence may not be null.
  unfoldable pub record_evidence :
      Envelope → String → ℕ → Meta → Option String → Store R → Result (Store R)
  record_evidence e question_id version meta misconception s = elim misconception [
    | none ↦ done s
    | some m ↦
        if truthy (some m)
        then elim meta.skill [
          | none ↦ raised other_error
          | some skill ↦ done (record_misconception_evidence e question_id version skill m s)
        ]
        else done s
  ]

module _ {ℓ} {R D : Type ℓ} where
  -- A repeated answer to an item is reported.
  unfoldable pub report_parallel : Envelope → Bool → Store R × Output D → Store R × Output D
  report_parallel e repeated (s, out) =
      if repeated
      then (
        record_conflict e parallel_attempt_detected s,
        add_conflict e parallel_attempt_detected out,
      )
      else (s, out)

  -- A late answer revises the summary; another one moves the session on.
  unfoldable pub advance_session :
      Envelope → Bool → Store R × Output D → Result (Store R × Output D)
  advance_session e late (s, out) =
      if late
      then done (record_conflict e summary_revised s, add_conflict e summary_revised out)
      else transition_session e answer_evaluated s >>= λ s'. done (s', out)

  -- The agent answers what is new and has a skill.
  unfoldable pub hand_over :
      World R D
      → Bool
      → Envelope
      → Bool
      → ScoredAnswer
      → Store R × Output D
      → Result (Store R × Output D)
  hand_over w insert_event_row e late answer (s, out) =
      if insert_event_row && not late
      then (w.decide_and_record e answer s >>= λ (rest, decision, next).
          transition_session e next (record s { rest = rest }) >>= λ s'. done (
            s',
            record out {
              server_agent_events =
                  out.server_agent_events
                  ++ record {
                    source_event_id = e.event_id;
                    question_id = answer.question_id;
                    correct = answer.correct;
                    misconception = answer.misconception;
                    decision = decision;
                  }
                    ∷ [];
            },
          ))
      else done (s, out)

  unfoldable pub hand_over_if_skilled :
      World R D
      → Bool
      → Envelope
      → Bool
      → Meta
      → String
      → ℕ
      → Bool
      → Option String
      → Option SkillState
      → Store R × Output D
      → Result (Store R × Output D)
  hand_over_if_skilled w insert_event_row e late meta question_id version correct misconception none
        state =
      done state
  hand_over_if_skilled w insert_event_row e late meta question_id version correct misconception
        (some skill) state =
      hand_over w insert_event_row e late
        (record {
          meta = meta;
          question_id = question_id;
          question_version = version;
          correct = correct;
          misconception = misconception;
          skill_state = skill;
        })
        state
