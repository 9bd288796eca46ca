-- ===== src/Learner/Weights.antt =====
-- Asking for more help never raises the evidence weight.
use bridgesat_agent.Common.{ℕ, ◌≤◌, arith}
use native.Mathlib.Nat.{mul-le-mul, le_refl}
use bridgesat_agent.Learner.{EvidenceWeight, difficulty_weight, hint_multiplier, weight}

hint_multiplier_anti : (h k : ℕ) → h ≤ k → k ≤ 3 → hint_multiplier k ≤ hint_multiplier h
unfolding hint_multiplier
hint_multiplier_anti h k le top = ground arith

-- With as many hints or more (up to level 3) an attempt weighs no more.
pub weight_hints :
    (e : EvidenceWeight) (k : ℕ)
    → e.hint_level ≤ k
    → k ≤ 3
    → weight (record e { hint_level = k }) ≤ weight e
unfolding weight
weight_hints e k le top =
    mul-le-mul
      (mul-le-mul
        (mul-le-mul
          (mul-le-mul (le_refl (difficulty_weight e.difficulty))
            (hint_multiplier_anti e.hint_level k le top))
          (le_refl _))
        (le_refl _))
      (le_refl e.validity_multiplier)
