-- ===== src/Sync/Weights.antt =====
-- The weight of an answer (sync/service.py `_evidence_weight`).
use native.Mathlib.Nat.{mul-le-mul, le_refl}
use bridgesat_agent.Common.{ℕ, ◌≤◌, ◌≡◌, Bool, true, false, Option, arith, if◌then◌else◌, nat_eq}
use bridgesat_agent.Sync.Evidence.{
  difficulty_or_default, difficulty_weight, hint_multiplier, round_half_even, evidence_weight,
}

round_mono : (n m : ℕ) → n ≤ m → round_half_even n ≤ round_half_even m
unfolding round_half_even
round_mono n m le = ground arith

difficulty_le : (d : ℕ) → difficulty_weight d ≤ 125
unfolding difficulty_weight
difficulty_le d = ground arith

hint_anti : (h k : ℕ) → h ≤ k → k ≤ 3 → hint_multiplier k ≤ hint_multiplier h
unfolding hint_multiplier
hint_anti h k le top = ground arith

hint_le : (h : ℕ) → hint_multiplier h ≤ 100
unfolding hint_multiplier
hint_le h = ground arith

repeat_le : (b c : Bool) → (c ≡ true → b ≡ true) → (if b then 50 else 100) ≤ (if c then 50 else 100)
repeat_le b c h = ground (arith, h)

-- An answer weighs at most 1.25, and no more with more hints (up to level 3) or on a repeated item, also
-- after the rounding to four digits.
evidence_weight_bounds :
    (difficulty : Option ℕ) (h k : ℕ) (b c : Bool)
    → h ≤ k
    → k ≤ 3
    → (c ≡ true → b ≡ true)
    → (evidence_weight difficulty k b ≤ evidence_weight difficulty h c)
      × (evidence_weight difficulty h c ≤ 12500)
unfolding evidence_weight round_half_even
evidence_weight_bounds difficulty h k b c le top more = (
  round_mono _ _ (
      mul-le-mul
        (mul-le-mul (le_refl (difficulty_weight (difficulty_or_default difficulty)))
          (hint_anti h k le top))
        (repeat_le b c more)),
  round_mono _ 1250000 (
      mul-le-mul (mul-le-mul (difficulty_le (difficulty_or_default difficulty)) (hint_le h))
        (repeat_le c false (λ e. cc))),
)
