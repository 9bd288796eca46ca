-- ===== src/Agent/Bounds.antt =====
-- What the policy can rely on in its inputs (sync/service.py `_decide_and_record_agent_event`).
use Prim.Native.Nat.{min}
use bridgesat_agent.Common.{
  ℕ, ◌≤◌, ◌+◌, ◌≡◌, ◌⊎◌, refl, Bool, true, ◌&&◌, String, Option, none, some, List, [], ◌∷◌, ◌==◌,
  leb, length, take, All, string_eq, distinct_from, lookup, insert, filter_by, count_by, sort_by,
  Bool-cases, Option-cases, inl, inr, arith, length-take_le,
}
use bridgesat_agent.Memory.Tables.{Episode}
use bridgesat_agent.Policy.Types.{PolicyInput}
use bridgesat_agent.Sync.Types.{Envelope, AttemptRow, EvidenceRow, Store}
use bridgesat_agent.Sync.Scoring.{PackAnswerKey}
use bridgesat_agent.Sync.Apply.{ScoredAnswer}
use bridgesat_agent.Agent.{Rest}
use bridgesat_agent.Agent.Inputs.{
  is_evidence_of, item_ids, observed, skill_recent, has_skill, latest_first, consecutive_errors,
  correct_streak, is_teaching, add_recalled, ids_by_intervention, keys_of, recalled_for,
  policy_input,
}

count_le_length {ℓ} : {A : Type ℓ} (test : A → Bool) (xs : List A) → count_by test xs ≤ length xs
unfolding count_by
count_le_length test [] = omega arith
count_le_length test (x ∷ xs) = ground (arith, count_le_length test xs)

filter_le_length {ℓ} :
    {A : Type ℓ} (test : A → Bool) (xs : List A) → length (filter_by test xs) ≤ length xs
unfolding filter_by
filter_le_length test [] = omega arith
filter_le_length test (x ∷ xs) = ground (arith, filter_le_length test xs)

length-take_three {ℓ} : {A : Type ℓ} (xs : List A) → length (take 3 xs) ≡ min 3 (length xs)
length-take_three [] = refl
length-take_three (x ∷ []) = refl
length-take_three (x ∷ y ∷ []) = refl
length-take_three (x ∷ y ∷ z ∷ xs) = omega arith

-- A run of errors and a run of correct answers cannot both be there.
streaks_exclude : (xs : List AttemptRow) → (consecutive_errors xs ≡ 0) ⊎ (correct_streak xs ≡ 0)
unfolding consecutive_errors correct_streak
streaks_exclude [] = inl refl
streaks_exclude (x ∷ xs) = elim (Bool-cases x.correct) [
  | inl right ↦ inl (rw right refl)
  | inr wrong ↦ inr (rw wrong refl)
]

errors_le_length : (xs : List AttemptRow) → consecutive_errors xs ≤ length xs
unfolding consecutive_errors
errors_le_length [] = omega arith
errors_le_length (x ∷ xs) = ground (arith, errors_le_length xs)

streak_le_length : (xs : List AttemptRow) → correct_streak xs ≤ length xs
unfolding correct_streak
streak_le_length [] = omega arith
streak_le_length (x ∷ xs) = ground (arith, streak_le_length xs)

abbrev pub session_of : Envelope → List AttemptRow → List AttemptRow
session_of e attempts =
    filter_by (λ a. a.student_id == e.student_id && a.session_id == e.session_id) attempts

abbrev pub recent_of : Envelope → List AttemptRow → List AttemptRow
recent_of e attempts = take 20 (sort_by latest_first (session_of e attempts))

skill_recent_le :
    (e : Envelope) (key : PackAnswerKey) (skill : Option String) (attempts : List AttemptRow)
    → length (skill_recent e key skill attempts) ≤ 20
unfolding skill_recent
skill_recent_le e key skill attempts = omega (
  arith,
  filter_le_length (has_skill key skill) (recent_of e attempts),
  length-take_le 20 (sort_by latest_first (session_of e attempts)),
)

distinct_from_le : (seen xs : List String) → length (distinct_from seen xs) ≤ length xs
distinct_from_le seen [] = omega arith
distinct_from_le seen (x ∷ xs) =
    ground (arith, distinct_from_le seen xs, distinct_from_le (x ∷ seen) xs)

items_count :
    (test : EvidenceRow → Bool) (rows : List EvidenceRow)
    → length (item_ids (filter_by test rows)) ≡ count_by test rows
unfolding filter_by count_by
items_count test [] = refl
items_count test (r ∷ rows) = ground (arith, items_count test rows)

-- The distinct items are no more than the observations.
observed_le :
    (e : Envelope) (skill : String) (misconception : Option String) (rows : List EvidenceRow)
    → (observed e skill misconception rows).1 ≤ (observed e skill misconception rows).0
unfolding observed
observed_le e skill none rows = omega arith
observed_le e skill (some m) rows = ground (
  arith,
  distinct_from_le [] (item_ids (filter_by (is_evidence_of e skill m) rows)),
  items_count (is_evidence_of e skill m) rows,
)

streaks_sum : (a b n : ℕ) → (a ≡ 0) ⊎ (b ≡ 0) → a ≤ n → b ≤ n → n ≤ 20 → a + b ≤ 20
streaks_sum a b n h i j k = ground arith

repeated_seen : (a b : ℕ) → (leb 2 a && leb 2 b) ≡ true → 2 ≤ a
repeated_seen a b h = ground arith

abbrev pub AreTeaching : List (String × List String) → Type 0
AreTeaching ids = All (λ k. is_teaching k ≡ true) (keys_of ids)

insert-AreTeaching :
    (k : String) (v : List String) (ids : List (String × List String))
    → is_teaching k ≡ true
    → AreTeaching ids
    → AreTeaching (insert k v ids)
insert-AreTeaching k v [] h all = (h, tt)
insert-AreTeaching k v ((j, x) ∷ ids) h all = elim (Bool-cases (j == k)) [
  | inl same ↦ rw same all
  | inr other ↦ rw other (all.0, insert-AreTeaching k v ids h all.1)
]

add_recalled-AreTeaching :
    (ids : List (String × List String)) (e : Episode)
    → AreTeaching ids
    → AreTeaching (add_recalled ids e)
unfolding add_recalled
add_recalled-AreTeaching ids e all = elim (Bool-cases (is_teaching e.intervention)) [
  | inr other ↦ rw (other, add_recalled) all
  | inl teaching ↦ elim (Option-cases (lookup e.intervention ids)) [
    | inl new ↦
        rw (teaching, new, add_recalled) (insert-AreTeaching e.intervention _ ids teaching all)
    | inr (before, there) ↦
        rw (teaching, there, add_recalled) (insert-AreTeaching e.intervention _ ids teaching all)
  ]
]

ids_by_intervention-AreTeaching :
    (ids : List (String × List String)) (episodes : List Episode)
    → AreTeaching ids
    → AreTeaching (ids_by_intervention ids episodes)
unfolding ids_by_intervention
ids_by_intervention-AreTeaching ids [] all = all
ids_by_intervention-AreTeaching ids (e ∷ rest) all =
    ids_by_intervention-AreTeaching (add_recalled ids e) rest (add_recalled-AreTeaching ids e all)

-- What the service tells the policy is consistent: of at most three recent attempts, no more are
-- correct than there are; at most one of the two streaks is positive, and none is longer than 20; the
-- misconception was seen on no more distinct items than times, and counts as repeated only if it was
-- seen twice; and every recalled strategy is a worked example or a micro lesson.
pub policy_input_bounds :
    (e : Envelope) (a : ScoredAnswer) (key : PackAnswerKey) (skill : String) (s : Store Rest)
    (i : PolicyInput)
    → policy_input e a key skill s ≡ i
    → (i.recent_correct_without_high_hint ≤ i.recent_total)
      × (i.recent_total ≤ 3)
      × ((i.consecutive_errors ≡ 0) ⊎ (i.correct_streak ≡ 0))
      × (i.consecutive_errors + i.correct_streak ≤ 20)
      × (i.misconception_distinct_items ≤ i.misconception_observation_count)
      × (i.repeated_misconception ≡ true → 2 ≤ i.misconception_observation_count)
      × All (λ k. is_teaching k ≡ true) i.recalled_successful_interventions
unfolding policy_input
policy_input_bounds e a key skill s i is =
    let recent = skill_recent e key (some skill) s.attempts in
    let counted = count_le_length (λ r. r.correct && leb r.hint_level 1) (take 3 recent) in
    let three = length-take_three recent in
    let bound = skill_recent_le e key (some skill) s.attempts in
    let exclude = streaks_exclude recent in
    let errors = errors_le_length recent in
    let streak = streak_le_length recent in
    let seen = observed_le e skill a.misconception s.evidence in
    rw (← is) (
      omega (arith, counted, three),
      omega arith,
      exclude,
      streaks_sum (consecutive_errors recent) (correct_streak recent) (length recent) exclude errors
          streak bound,
      seen,
      repeated_seen (observed e skill a.misconception s.evidence).0
          (observed e skill a.misconception s.evidence).1,
      ids_by_intervention-AreTeaching []
          (recalled_for e skill a.misconception s.rest.memory.episodes) tt,
    )
