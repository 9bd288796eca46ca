-- ===== src/Learner.antt =====
-- domain/learner.py: evidence weights, the weighted-Beta skill state and the thresholds on it.
-- A float is an exact number here: `alpha`, `beta` and the weights that are added to them are in
-- ten-thousandths, mastery and confidence are fractions, and a threshold is in hundredths.
pub mod Weights
pub mod Mastery
pub mod Thresholds
use Prim.Native.Nat.{min}
use bridgesat_agent.Common.{
  ℕ, suc, ◌+◌, ◌-◌, ◌*◌, ◌≡◌, Bool, true, false, ◌&&◌, not, Option, none, some, ltb, leb,
  if◌then◌else◌, ◌==◌, nat_eq,
}

-- One unit of evidence, in ten-thousandths.
abbrev pub one : ℕ
one = 10000

-- A fraction, and the test `r < p/100`.
pub record Ratio : Type 0 where
  pub num : ℕ
  pub den : ℕ

abbrev pub below : Ratio → ℕ → Bool
below r p = ltb (r.num * 100) (p * r.den)

-- `EvidenceWeight`; the validity multiplier is in hundredths.
pub record EvidenceWeight : Type 0 where
  pub difficulty : ℕ
  pub hint_level : ℕ
  pub repeated_same_item : Bool
  pub immediate_transfer : Bool
  pub validity_multiplier : ℕ

-- `DIFFICULTY_WEIGHT.get(difficulty, 1.0)`, in hundredths
unfoldable pub difficulty_weight : ℕ → ℕ
difficulty_weight d = if d == 1 then 75 else if d == 2 then 100 else if d == 3 then 125 else 100

-- `HINT_MULTIPLIER.get(hint_level, 1.0)`, in hundredths
unfoldable pub hint_multiplier : ℕ → ℕ
hint_multiplier h =
    if h == 0 then 100 else if h == 1 then 80 else if h == 2 then 55 else if h == 3 then 30 else 100

-- `weight`: a product of five numbers in hundredths
unfoldable pub weight : EvidenceWeight → ℕ
weight e =
    difficulty_weight e.difficulty
    * hint_multiplier e.hint_level
    * (if e.repeated_same_item then 35 else 100)
    * (if e.immediate_transfer then 110 else 100)
    * e.validity_multiplier

-- `SkillState`; times are in seconds
pub record SkillState : Type 0 where
  pub alpha : ℕ
  pub beta : ℕ
  pub evidence_count : ℕ
  pub correct_streak : ℕ
  pub incorrect_streak : ℕ
  pub last_practiced_at : Option ℕ
  pub review_due_at : Option ℕ

-- a new skill: `DEFAULT_ALPHA` and `DEFAULT_BETA`
abbrev pub initial : SkillState
initial = record {
  alpha = 2 * one;
  beta = 2 * one;
  evidence_count = 0;
  correct_streak = 0;
  incorrect_streak = 0;
  last_practiced_at = none;
  review_due_at = none;
}

unfoldable pub mastery : SkillState → Ratio
mastery s = record { num = s.alpha; den = s.alpha + s.beta }

-- The subtraction stops at 0, which is the `max` with 0.0 of the source.
unfoldable pub confidence : SkillState → Ratio
confidence s = record { num = min (8 * one) (s.alpha + s.beta - 4 * one); den = 8 * one }

unfoldable pub record_attempt : Bool → ℕ → ℕ → SkillState → SkillState
record_attempt true weight now s = record s {
  alpha = s.alpha + weight;
  correct_streak = s.correct_streak + 1;
  incorrect_streak = 0;
  evidence_count = s.evidence_count + 1;
  last_practiced_at = some now;
}
record_attempt false weight now s = record s {
  beta = s.beta + weight;
  incorrect_streak = s.incorrect_streak + 1;
  correct_streak = 0;
  evidence_count = s.evidence_count + 1;
  last_practiced_at = some now;
}

-- `STALENESS_DAYS`, in seconds
abbrev pub staleness : ℕ
staleness = 14 * 86400

-- `decay_confidence`: the source computes a decayed confidence and then drops it, so the only
-- effect is on `review_due_at`.
unfoldable pub decay_confidence : ℕ → SkillState → SkillState
decay_confidence now s = elim s.last_practiced_at [
  | none ↦ s
  | some last ↦
      if leb (now - last) staleness then s else record s { review_due_at = some (last + staleness) }
]

unfoldable pub should_promote_difficulty : Ratio → Ratio → ℕ → ℕ → Bool → Bool
should_promote_difficulty mastery confidence recent_correct recent_total active_misconception =
    if below mastery 72
    then false
    else if below confidence 55
    then false
    else if active_misconception
    then false
    else if ltb recent_total 3
    then false
    else leb 2 recent_correct

unfoldable pub should_support : Ratio → Ratio → ℕ → Bool → Bool → Bool
should_support mastery confidence consecutive_errors repeated_misconception
      unmastered_prerequisite =
    if leb 2 consecutive_errors
    then true
    else if repeated_misconception
    then true
    else if below mastery 45 && not (below confidence 40)
    then true
    else unmastered_prerequisite

-- `MisconceptionState`
pub data MisconceptionState : Type 0 where
  observed suspected confirmed resolved archived : MisconceptionState

unfoldable pub next_misconception_state : ℕ → ℕ → MisconceptionState
next_misconception_state observation_count distinct_items =
    if leb 3 observation_count && leb 2 distinct_items
    then confirmed
    else if leb 2 observation_count
    then suspected
    else observed
