-- ===== src/Learner/Mastery.antt =====
-- What attempts do to the skill state.
use bridgesat_agent.Common.{
  ℕ, ◌+◌, ◌*◌, ◌≤◌, ◌<◌, ◌≡◌, ◌⊎◌, Bool, true, false, List, [], ◌∷◌, length, some, arith, refl,
}
use bridgesat_agent.Learner.{
  SkillState, Ratio, one, initial, mastery, confidence, record_attempt, decay_confidence, staleness,
}

-- `a/b ≤ c/d`
infix 50 ◌≤ratio◌
abbrev pub ◌≤ratio◌ : Ratio → Ratio → Type 0
r ≤ratio s = r.num * s.den ≤ s.num * r.den

-- The evidence so far is at least the prior, and a streak is not longer than the evidence.
pub record IsValid (s : SkillState) : Type 0 where
  pub prior_alpha : 2 * one ≤ s.alpha
  pub prior_beta : 2 * one ≤ s.beta
  one_streak : (s.correct_streak ≡ 0) ⊎ (s.incorrect_streak ≡ 0)
  pub counted : s.correct_streak + s.incorrect_streak ≤ s.evidence_count

record_attempt-IsValid :
    (correct : Bool) (w now : ℕ) (s : SkillState)
    → IsValid s
    → IsValid (record_attempt correct w now s)
unfolding record_attempt
record_attempt-IsValid true w now s v = ground arith
record_attempt-IsValid false w now s v = ground arith

evidence_count-record_attempt :
    (correct : Bool) (w now : ℕ) (s : SkillState)
    → (record_attempt correct w now s).evidence_count ≡ s.evidence_count + 1
unfolding record_attempt
evidence_count-record_attempt true w now s = refl
evidence_count-record_attempt false w now s = refl

-- An attempt: correct or not, its weight and its time.
pub record Attempt : Type 0 where
  pub correct : Bool
  pub evidence : ℕ
  pub time : ℕ

pub record_attempts : List Attempt → SkillState → SkillState
record_attempts [] s = s
record_attempts (a ∷ rest) s = record_attempts rest (record_attempt a.correct a.evidence a.time s)

record_attempts-IsValid :
    (attempts : List Attempt) (s : SkillState) → IsValid s → IsValid (record_attempts attempts s)
unfolding record_attempts
record_attempts-IsValid [] s v = v
record_attempts-IsValid (a ∷ rest) s v =
    record_attempts-IsValid rest (record_attempt a.correct a.evidence a.time s)
      (record_attempt-IsValid a.correct a.evidence a.time s v)

evidence_count-record_attempts :
    (attempts : List Attempt) (s : SkillState)
    → (record_attempts attempts s).evidence_count ≡ s.evidence_count + length attempts
unfolding record_attempts
evidence_count-record_attempts [] s = omega arith
evidence_count-record_attempts (a ∷ rest) s = omega (
  arith,
  evidence_count-record_attempts rest (record_attempt a.correct a.evidence a.time s),
  evidence_count-record_attempt a.correct a.evidence a.time s,
)

-- From a new skill, after any attempts: mastery lies strictly between 0 and 1, confidence is at most
-- 1, every attempt is counted, and at most one of the two streaks is not zero.
pub attempts_bounds :
    (attempts : List Attempt)
    → let s = record_attempts attempts initial in
      (0 < (mastery s).num)
      × ((mastery s).num < (mastery s).den)
      × ((confidence s).num ≤ (confidence s).den)
      × (s.evidence_count ≡ length attempts)
      × ((s.correct_streak ≡ 0) ⊎ (s.incorrect_streak ≡ 0))
unfolding mastery confidence
attempts_bounds attempts =
    let s = record_attempts attempts initial in
    let v : IsValid s = record_attempts-IsValid attempts initial (ground arith) in
    (
      omega (arith, v.prior_alpha),
      omega (arith, v.prior_beta),
      omega arith,
      omega (arith, evidence_count-record_attempts attempts initial),
      v.one_streak,
    )

-- A correct answer does not lower mastery and a wrong one does not raise it, whatever the weight;
-- neither lowers confidence.
attempt_moves_mastery :
    (s : SkillState) (w now : ℕ)
    → (mastery s ≤ratio mastery (record_attempt true w now s))
      × (mastery (record_attempt false w now s) ≤ratio mastery s)
      × ((correct : Bool) → confidence s ≤ratio confidence (record_attempt correct w now s))
unfolding mastery confidence record_attempt
attempt_moves_mastery s w now = (omega arith, omega arith, grows)
  where
    grows : (correct : Bool) → confidence s ≤ratio confidence (record_attempt correct w now s)
    grows true = omega arith
    grows false = omega arith

-- Staleness only sets the review date, and only when the skill was practised and the gap is longer
-- than 14 days: mastery and confidence stay what they were, however long the learner was away.
decay_keeps_confidence :
    (s : SkillState) (now last : ℕ)
    → s.last_practiced_at ≡ some last
    → last + staleness < now
    → (confidence (decay_confidence now s) ≡ confidence s)
      × (mastery (decay_confidence now s) ≡ mastery s)
      × ((decay_confidence now s).review_due_at ≡ some (last + staleness))
unfolding mastery confidence decay_confidence
decay_keeps_confidence s now last e h = (ground arith, ground arith, ground arith)
