-- ===== src/Sync/Evidence.antt =====
-- What an answer counts for (sync/service.py `_evidence_weight`, `_update_skill_state`,
-- `_record_misconception_evidence`), in ten-thousandths.
use Prim.Native.Nat.{◌/◌, ◌%◌}
use bridgesat_agent.Common.{
  ℕ, ◌+◌, ◌*◌, ltb, Bool, ◌&&◌, String, Option, none, some, List, [], ◌∷◌, ◌++◌, if◌then◌else◌,
  ◌==◌, nat_eq, string_eq, find_by, update_by,
}
use bridgesat_agent.Learner.{SkillState, initial, record_attempt}
use bridgesat_agent.Sync.Types.{Envelope, SkillRow, Store}

-- `meta.get("difficulty") or 2`
abbrev pub difficulty_or_default : Option ℕ → ℕ
difficulty_or_default none = 2
difficulty_or_default (some d) = if d == 0 then 2 else d

-- `payload.get("hint_level", 0)`
abbrev pub hint_level_of : Envelope → ℕ
hint_level_of e = elim e.payload.hint_level [ none ↦ 0 | some h ↦ h ]

-- The factors, in hundredths.
unfoldable pub difficulty_weight : ℕ → ℕ
difficulty_weight d = if d == 1 then 100 else if d == 2 then 100 else if d == 3 then 125 else 100

unfoldable pub hint_multiplier : ℕ → ℕ
hint_multiplier h =
    if h == 0 then 100 else if h == 1 then 85 else if h == 2 then 60 else if h == 3 then 30 else 100

-- `round`: to the nearest, and a half to the even neighbour; in hundredths.
unfoldable pub round_half_even : ℕ → ℕ
round_half_even n =
    let q = n / 100 in
    let r = n % 100 in
    if ltb r 50 then q else if ltb 50 r then q + 1 else if q % 2 == 0 then q else q + 1

-- `_evidence_weight`
unfoldable pub evidence_weight : Option ℕ → ℕ → Bool → ℕ
evidence_weight difficulty hint_level repeated = round_half_even (
    difficulty_weight (difficulty_or_default difficulty)
    * hint_multiplier hint_level
    * (if repeated then 50 else 100))

abbrev pub is_skill : String → String → SkillRow → Bool
is_skill student_id skill r = r.student_id == student_id && r.skill == skill

abbrev pub with_skill : String → String → List SkillRow → List SkillRow
with_skill student_id skill rows = elim (find_by (is_skill student_id skill) rows) [
  | none ↦ rows ++ record { student_id = student_id; skill = skill; state = initial } ∷ []
  | some _ ↦ rows
]

module _ {ℓ} {R : Type ℓ} where
  -- The state of a skill, which `INSERT … ON CONFLICT DO NOTHING` starts when it is new.
  unfoldable pub skill_state : String → String → Store R → SkillState
  skill_state student_id skill s = elim (find_by (is_skill student_id skill) s.skills) [
    | none ↦ initial
    | some r ↦ r.state
  ]

  -- `_update_skill_state`
  unfoldable pub update_skill_state :
      String → String → Bool → ℕ → ℕ → Store R → SkillState × Store R
  update_skill_state student_id skill correct weight now s =
      let state = record_attempt correct weight now (skill_state student_id skill s) in
      (
        state,
        record s {
          skills =
              update_by (is_skill student_id skill) (λ r. record r { state = state })
                (with_skill student_id skill s.skills);
        },
      )

  -- `_record_misconception_evidence`
  unfoldable pub record_misconception_evidence :
      Envelope → String → ℕ → String → String → Store R → Store R
  record_misconception_evidence e question_id question_version skill misconception s = record s {
    evidence =
        s.evidence
        ++ record {
          student_id = e.student_id;
          session_id = e.session_id;
          event_id = e.event_id;
          skill = skill;
          misconception = misconception;
          item_id = question_id;
          item_version = question_version;
        }
          ∷ [];
  }
