-- ===== src/Learner/Thresholds.antt =====
-- The thresholds: no skill state is promoted and supported at once, and the misconception state
-- follows the evidence.
use bridgesat_agent.Common.{ℕ, ◌≤◌, ◌<◌, ◌*◌, ◌≡◌, ◌↔◌, Bool, true, false, arith}
use bridgesat_agent.Learner.{
  Ratio, should_promote_difficulty, should_support, MisconceptionState, observed, suspected,
  confirmed, next_misconception_state,
}

-- A promotion needs all of: mastery at least 0.72, confidence at least 0.55, no active
-- misconception, three recent attempts and two of them correct; and these are enough.
promote_iff :
    (m c : Ratio) (correct total : ℕ) (active : Bool)
    → (should_promote_difficulty m c correct total active ≡ true) ↔ (
        (72 * m.den ≤ m.num * 100)
        × (55 * c.den ≤ c.num * 100)
        × (active ≡ false)
        × (3 ≤ total)
        × (2 ≤ correct))
unfolding should_promote_difficulty
promote_iff m c correct total active = ground arith

-- A learner whose difficulty may be raised is not also due for support, if the last attempts show no
-- two errors in a row, no repeated misconception and no missing prerequisite.
promote_not_support :
    (m c : Ratio) (correct total errors : ℕ) (active : Bool)
    → errors < 2
    → should_promote_difficulty m c correct total active ≡ true
    → should_support m c errors false false ≡ false
unfolding should_promote_difficulty should_support
promote_not_support m c correct total errors active few h = ground arith

-- The order of the states that observations lead to.
abbrev pub rank : MisconceptionState → ℕ
rank observed = 0
rank suspected = 1
rank confirmed = 2
rank _ = 3

-- More observations on more items never move the misconception state back.
next_misconception_mono :
    (n k d e : ℕ)
    → n ≤ k
    → d ≤ e
    → rank (next_misconception_state n d) ≤ rank (next_misconception_state k e)
unfolding next_misconception_state
next_misconception_mono n k d e le le' = ground arith
