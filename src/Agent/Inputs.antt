-- ===== src/Agent/Inputs.antt =====
-- What `_decide_and_record_agent_event` of sync/service.py tells the policy about an answer.
use Prim.Native.Nat.{min}
use bridgesat_agent.Common.{
  ℕ, suc, Bool, false, ◌&&◌, ◌||◌, String, Option, none, some, List, [], ◌∷◌, ◌++◌, leb, length,
  take, if◌then◌else◌, ◌==◌, string_eq, option_eq, lookup, insert, distinct, filter_by, count_by,
  sort_by,
}
use bridgesat_agent.Session.{answer_evaluated}
use bridgesat_agent.Learner.{mastery, confidence}
use bridgesat_agent.Memory.{show_worked_example, show_micro_lesson, value}
use bridgesat_agent.Memory.Tables.{Episode}
use bridgesat_agent.Memory.Recall.{ids_of, exactly, recall_episodes}
use bridgesat_agent.Policy.Types.{PolicyInput, truthy}
use bridgesat_agent.Sync.Types.{Envelope, AttemptRow, EvidenceRow, Store}
use bridgesat_agent.Sync.Scoring.{PackAnswerKey, item_meta}
use bridgesat_agent.Sync.Evidence.{difficulty_or_default, hint_level_of}
use bridgesat_agent.Sync.Apply.{ScoredAnswer}
use bridgesat_agent.Agent.{Rest}

-- The evidence of a misconception in the session.
abbrev pub is_evidence_of : Envelope → String → String → EvidenceRow → Bool
is_evidence_of e skill misconception r =
    r.student_id == e.student_id
    && r.session_id == e.session_id
    && r.skill == skill
    && r.misconception == misconception

abbrev pub item_ids : List EvidenceRow → List String
item_ids [] = []
item_ids (r ∷ rest) = r.item_id ∷ item_ids rest

-- `COUNT(*)` and `COUNT(DISTINCT item_id)` of the evidence
unfoldable pub observed : Envelope → String → Option String → List EvidenceRow → ℕ × ℕ
observed e skill misconception rows = elim misconception [
  | none ↦ (0, 0)
  | some m ↦
      if truthy (some m)
      then (
        count_by (is_evidence_of e skill m) rows,
        length (distinct (item_ids (filter_by (is_evidence_of e skill m) rows))),
      )
      else (0, 0)
]

-- The strategies that worked for the misconception before.
unfoldable pub recalled_for : Envelope → String → Option String → List Episode → List Episode
recalled_for e skill misconception episodes =
    if truthy misconception
    then recall_episodes e.student_id skill (exactly misconception) none 3 episodes
    else []

abbrev pub latest_first : AttemptRow → AttemptRow → Bool
latest_first a b = leb b.occurred_at a.occurred_at

-- The item of the attempt has the skill, in the pack of the event.
abbrev pub has_skill : PackAnswerKey → Option String → AttemptRow → Bool
has_skill key skill a = elim (item_meta key a.content_id a.version) [
  | none ↦ false
  | some meta ↦ meta.skill == skill
]

-- `skill_recent`: of the last 20 attempts of the session, those on the skill.
unfoldable pub skill_recent :
    Envelope → PackAnswerKey → Option String → List AttemptRow → List AttemptRow
skill_recent e key skill attempts = filter_by (has_skill key skill) (
    take 20 (
      sort_by latest_first
        (filter_by (λ a. a.student_id == e.student_id && a.session_id == e.session_id) attempts)))

-- The attempts before the first correct one, and before the first wrong one.
unfoldable pub consecutive_errors : List AttemptRow → ℕ
consecutive_errors [] = 0
consecutive_errors (a ∷ rest) =
    let before = consecutive_errors rest in if a.correct then 0 else suc before

unfoldable pub correct_streak : List AttemptRow → ℕ
correct_streak [] = 0
correct_streak (a ∷ rest) = let before = correct_streak rest in if a.correct then suc before else 0

-- `recalled_ids_by_intervention`, over the teaching actions only
abbrev pub is_teaching : String → Bool
is_teaching intervention =
    intervention == value show_worked_example || intervention == value show_micro_lesson

unfoldable pub add_recalled : List (String × List String) → Episode → List (String × List String)
add_recalled ids e =
    if is_teaching e.intervention
    then elim (lookup e.intervention ids) [
      | none ↦ insert e.intervention (e.episode_id ∷ []) ids
      | some before ↦ insert e.intervention (before ++ e.episode_id ∷ []) ids
    ]
    else ids

unfoldable pub ids_by_intervention :
    List (String × List String) → List Episode → List (String × List String)
ids_by_intervention ids [] = ids
ids_by_intervention ids (e ∷ rest) = ids_by_intervention (add_recalled ids e) rest

abbrev pub keys_of : List (String × List String) → List String
keys_of [] = []
keys_of ((k, v) ∷ rest) = k ∷ keys_of rest

-- `payload.get("minutes_remaining", 20)`
abbrev pub minutes_of : Envelope → ℕ
minutes_of e = elim e.payload.minutes_remaining [ none ↦ 20 | some m ↦ m ]

-- `inputs`; the fields that the call leaves out have their defaults.
unfoldable pub policy_input :
    Envelope → ScoredAnswer → PackAnswerKey → String → Store Rest → PolicyInput
policy_input e a key skill s =
    let (observations, distinct_items) = observed e skill a.misconception s.evidence in
    let recalled = recalled_for e skill a.misconception s.rest.memory.episodes in
    let recent = skill_recent e key (some skill) s.attempts in
    let by_intervention = ids_by_intervention [] recalled in
    record {
      student_id = e.student_id;
      session_id = e.session_id;
      skill = skill;
      subskill = a.meta.subskill;
      difficulty = difficulty_or_default a.meta.difficulty;
      mastery = mastery a.skill_state;
      confidence = confidence a.skill_state;
      consecutive_errors = consecutive_errors recent;
      correct_streak = correct_streak recent;
      repeated_misconception = leb 2 observations && leb 2 distinct_items;
      active_misconception = a.misconception;
      misconception_observation_count = observations;
      misconception_distinct_items = distinct_items;
      requires_unmastered_prerequisite = false;
      minutes_remaining = minutes_of e;
      hints_used_this_item = hint_level_of e;
      state = answer_evaluated;
      recalled_successful_episode = false;
      recalled_episode_ids = ids_of recalled;
      recalled_successful_interventions = keys_of by_intervention;
      recalled_episode_ids_by_intervention = by_intervention;
      recent_correct_without_high_hint =
          count_by (λ r. r.correct && leb r.hint_level 1) (take 3 recent);
      recent_total = min 3 (length recent);
    }
