-- ===== src/Memory/Blending.antt =====
-- The effectiveness of an intervention is a share (domain/memory.py, memory/pg_memory.py).
use native.Mathlib.Nat.{mul-le-mul, le_refl, add-mul, mul_assoc, mul_comm}
use bridgesat_agent.Common.{
  ℕ, ◌+◌, ◌*◌, ◌≤◌, ◌≡◌, ap, ◌||◌, String, Option, none, some, List, [], ◌∷◌, ◌==◌, nat_eq, All,
  All-append, All-map, find_by, string_eq, All-update_by, Bool-cases, Option-cases, arith, inl, inr,
}
use bridgesat_agent.Memory.Tables.{
  Window, InterventionStat, MemoryStore, written, ensure_active_student, guarded,
}
use bridgesat_agent.Memory.Completion.{refused_written, written_injective}
use bridgesat_agent.Memory.Stats.{
  WindowName, immediate, short_term, delayed, Trial, new_stat, tally, stat_for,
  record_intervention_outcome, Fraction, share, Blend, blend_of, blend_result, is_stat_of,
  add_window, blended_effectiveness,
}

-- The scores of a window do not exceed its weight.
abbrev pub IsShare : Window → Type 0
IsShare w = w.correct ≤ w.weight

abbrev pub AreShares : InterventionStat → Type 0
AreShares s = IsShare s.immediate × IsShare s.short_term × IsShare s.delayed

abbrev AtMostOne : Blend → Type 0
AtMostOne b = b.score.numerator ≤ b.total_weight * b.score.denominator

scaled : (p q d c w : ℕ) → p ≤ q * d → c ≤ w → (s : ℕ) → p * w + s * c * d ≤ (q + s) * (d * w)
scaled p q d c w h k s =
    let first : p * w ≤ q * d * w = mul-le-mul h (le_refl w) in
    let second : s * c * d ≤ s * w * d = mul-le-mul (mul-le-mul (le_refl s) k) (le_refl d) in
    omega (
      arith,
      first,
      second,
      add-mul q s (d * w),
      mul_assoc q d w,
      mul_assoc s w d,
      ap (λ (t : ℕ). s * t) (mul_comm w d),
    )

add_window-AtMostOne :
    (b : Blend) (name : WindowName) (w : Window)
    → AtMostOne b
    → IsShare w
    → AtMostOne (add_window b name w)
unfolding add_window
add_window-AtMostOne b name w h k = elim (Bool-cases (w.attempts == 0 || w.weight == 0)) [
  | inl skipped ↦ rw skipped h
  | inr counted ↦ rw counted (
      scaled b.score.numerator b.total_weight b.score.denominator w.correct w.weight h k
        (share name))
]

blend_of-AtMostOne : (s : InterventionStat) → AreShares s → AtMostOne (blend_of s)
unfolding blend_of
blend_of-AtMostOne s (first, second, third) =
    add_window-AtMostOne
      (add_window (add_window zero_blend immediate s.immediate) short_term s.short_term) delayed
      s.delayed
      (add_window-AtMostOne (add_window zero_blend immediate s.immediate) short_term s.short_term
        (add_window-AtMostOne zero_blend immediate s.immediate (omega arith) first) second)
      third
  where
    zero_blend : Blend
    zero_blend = record { total_weight = 0; score = record { numerator = 0; denominator = 1 } }

blend_result_bound :
    (b : Blend) (f : Fraction) → AtMostOne b → blend_result b ≡ some f → f.numerator ≤ f.denominator
unfolding blend_result
blend_result_bound b f h e = ground (arith, e, h, mul_comm b.total_weight b.score.denominator)

tally-AreShares :
    (name : WindowName) (score weight now : ℕ) (s : InterventionStat)
    → score ≤ weight
    → AreShares s
    → AreShares (tally name score weight now s)
tally-AreShares immediate score weight now s le (a, b, c) = (omega (arith, le, a), b, c)
tally-AreShares short_term score weight now s le (a, b, c) = (a, omega (arith, le, b), c)
tally-AreShares delayed score weight now s le (a, b, c) = (a, b, omega (arith, le, c))

new_stat-AreShares : (stat_id : String) (t : Trial) (now : ℕ) → AreShares (new_stat stat_id t now)
new_stat-AreShares stat_id t now = (omega arith, omega arith, omega arith)

stat_for-AreShares :
    (t : Trial) (stat_id id : String) (now : ℕ) (stats stats' : List InterventionStat)
    → stat_for t stat_id now stats ≡ some (id, stats')
    → All AreShares stats
    → All AreShares stats'
unfolding stat_for
stat_for-AreShares t stat_id id now stats stats' h all =
    elim (Option-cases (find_by (is_stat_of t) stats)) [
      | inr (s, there) ↦ rw (← second (rw (there, stat_for) at h)) all
      | inl absent ↦ elim (Option-cases (find_by (λ s. s.stat_id == stat_id) stats)) [
        | inr (s, taken) ↦ absurd (none_some (rw (absent, taken, stat_for) at h))
        | inl free ↦ rw (← second (rw (absent, free, stat_for) at h)) (
            All-append AreShares stats (new_stat stat_id t now ∷ []) all
              (new_stat-AreShares stat_id t now, tt))
      ]
    ]
  where
    none_some : {p : String × List InterventionStat} → none ≡ some p → ⊥
    none_some e = cc e

    second :
        {i j : String} {a b : List InterventionStat}
        → ◌≡◌ {A = Option (String × List InterventionStat)} (some (i, a)) (some (j, b))
        → a ≡ b
    second e = cc e

recorded_shares :
    (t : Trial) (name : WindowName) (score weight : ℕ) (stat_id id : String) (now : ℕ)
    (m m' : MemoryStore)
    → record_intervention_outcome t name score weight stat_id now m ≡ written id m'
    → score ≤ weight
    → All AreShares m.stats
    → All AreShares m'.stats
unfolding record_intervention_outcome
recorded_shares t name score weight stat_id id now m m' h le all =
    elim (Option-cases (ensure_active_student m.students m.deletions t.student_id)) [
      | inr (f, raises) ↦
          absurd (refused_written (rw (raises, record_intervention_outcome, guarded) at h))
      | inl may ↦ elim (Option-cases (stat_for t stat_id now m.stats)) [
        | inl taken ↦
            absurd (refused_written (rw (may, taken, record_intervention_outcome, guarded) at h))
        | inr ((found, stats), there) ↦
            rw
              (← (written_injective (rw (may, there, record_intervention_outcome, guarded) at h)).1)
              (All-update_by AreShares (λ s. s.stat_id == found) (tally name score weight now) stats
                (λ s shares hit. tally-AreShares name score weight now s le shares)
                (stat_for-AreShares t stat_id found now m.stats stats there all))
      ]
    ]

-- As long as no recorded score exceeds its weight, recording an outcome keeps every window's scores
-- within its weight, and then each blended effectiveness is at most 1: its numerator is at most its
-- denominator.
pub effectiveness_bound :
    (t : Trial) (name : WindowName) (score weight : ℕ) (stat_id id : String) (now : ℕ)
    (m m' : MemoryStore)
    → record_intervention_outcome t name score weight stat_id now m ≡ written id m'
    → score ≤ weight
    → All AreShares m.stats
    → All AreShares m'.stats
      × All
          (λ s. (f : Fraction) → blended_effectiveness s ≡ some f → f.numerator ≤ f.denominator)
          m'.stats
unfolding blended_effectiveness
effectiveness_bound t name score weight stat_id id now m m' h le all =
    let shares = recorded_shares t name score weight stat_id id now m m' h le all in
    (
      shares,
      All-map AreShares _ m'.stats
          (λ s k f e. blend_result_bound (blend_of s) f (blend_of-AtMostOne s k) e) shares,
    )
