-- ===== src/Examples/Learner.antt =====
-- Skill states and evidence weights (domain/learner.py).
use bridgesat_agent.Common.{◌<◌, ◌≤◌, ◌≡◌, ◌⊎◌, true, false, some, List, [], ◌∷◌, length}
use bridgesat_agent.Learner.{EvidenceWeight, Ratio, SkillState, initial, mastery, confidence}
use bridgesat_agent.Learner.Mastery.{Attempt, record_attempts, attempts_bounds}

abbrev hard_item : EvidenceWeight
hard_item = record {
  difficulty = 3;
  hint_level = 1;
  repeated_same_item = false;
  immediate_transfer = true;
  validity_multiplier = 100;
}

abbrev right_then_wrong : List Attempt
right_then_wrong =
    record { correct = true; evidence = 10000; time = 5 }
    ∷ record { correct = false; evidence = 8000; time = 9 }
    ∷ []

attempts_bounds_example :
    let s = record_attempts right_then_wrong initial in
    (0 < (mastery s).num)
    × ((mastery s).num < (mastery s).den)
    × ((confidence s).num ≤ (confidence s).den)
    × (s.evidence_count ≡ length right_then_wrong)
    × ((s.correct_streak ≡ 0) ⊎ (s.incorrect_streak ≡ 0))
attempts_bounds_example = attempts_bounds right_then_wrong

abbrev practised : SkillState
practised = record initial { last_practiced_at = some 0 }

abbrev strong : Ratio
strong = record { num = 8; den = 10 }
