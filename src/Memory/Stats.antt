-- ===== src/Memory/Stats.antt =====
-- The statistics of interventions: `InterventionStat` (domain/memory.py) and
-- `PGMemory.record_intervention_outcome` (memory/pg_memory.py). A quotient is a fraction.
use bridgesat_agent.Common.{
  ℕ, ◌+◌, ◌*◌, Bool, ◌&&◌, ◌||◌, String, Option, none, some, List, [], ◌∷◌, ◌++◌, if◌then◌else◌,
  ◌==◌, string_eq, nat_eq, option_eq, find_by, update_by,
}
use bridgesat_agent.Memory.Tables.{
  Window, InterventionStat, MemoryStore, duplicate_key, Written, written, refused, guarded,
}

-- `INTERVENTION_WINDOWS`
pub data WindowName : Type 0 where
  immediate short_term delayed : WindowName

abbrev pub window_of : WindowName → InterventionStat → Window
window_of immediate s = s.immediate
window_of short_term s = s.short_term
window_of delayed s = s.delayed

abbrev pub with_window : WindowName → Window → InterventionStat → InterventionStat
with_window immediate w s = record s { immediate = w }
with_window short_term w s = record s { short_term = w }
with_window delayed w s = record s { delayed = w }

abbrev pub untried : Window
untried = record { correct = 0; attempts = 0; weight = 0 }

-- What an outcome is recorded for.
pub record Trial : Type 0 where
  pub student_id : String
  pub skill : String
  pub misconception : Option String
  pub intervention : String
  pub difficulty_band : String

abbrev pub is_stat_of : Trial → InterventionStat → Bool
is_stat_of t s =
    s.student_id == t.student_id
    && s.skill == t.skill
    && s.misconception == t.misconception
    && s.intervention == t.intervention
    && s.difficulty_band == t.difficulty_band

abbrev pub new_stat : String → Trial → ℕ → InterventionStat
new_stat stat_id t now = record {
  stat_id = stat_id;
  student_id = t.student_id;
  skill = t.skill;
  misconception = t.misconception;
  intervention = t.intervention;
  difficulty_band = t.difficulty_band;
  immediate = untried;
  short_term = untried;
  delayed = untried;
  updated_at = now;
}

-- `SET {window}_correct = …, {window}_attempts = …, {window}_weight = …`
abbrev pub tally : WindowName → ℕ → ℕ → ℕ → InterventionStat → InterventionStat
tally name score weight now s =
    with_window name
      (record {
        correct = (window_of name s).correct + score;
        attempts = (window_of name s).attempts + 1;
        weight = (window_of name s).weight + weight;
      })
      (record s { updated_at = now })

-- The rows with the statistic that the outcome goes to, and its id.
unfoldable pub stat_for :
    Trial → String → ℕ → List InterventionStat → Option (String × List InterventionStat)
stat_for t stat_id now stats = elim (find_by (is_stat_of t) stats) [
  | some s ↦ some (s.stat_id, stats)
  | none ↦ elim (find_by (λ s. s.stat_id == stat_id) stats) [
    | some _ ↦ none
    | none ↦ some (stat_id, stats ++ new_stat stat_id t now ∷ [])
  ]
]

-- `record_intervention_outcome`; `stat_id` is the id that a new row gets.
unfoldable pub record_intervention_outcome :
    Trial → WindowName → ℕ → ℕ → String → ℕ → MemoryStore → Written String
record_intervention_outcome t name score weight stat_id now m =
    guarded t.student_id m (elim (stat_for t stat_id now m.stats) [
      | none ↦ refused duplicate_key
      | some (id, stats) ↦ written id (record m {
        stats = update_by (λ s. s.stat_id == id) (tally name score weight now) stats;
      })
    ])

pub record Fraction : Type 0 where
  pub numerator : ℕ
  pub denominator : ℕ

-- `effectiveness(window)`
unfoldable pub effectiveness : Window → Option Fraction
effectiveness w =
    if w.attempts == 0
    then none
    else if w.weight == 0
    then none
    else some (record { numerator = w.correct; denominator = w.weight })

-- `weights`, in hundredths
abbrev pub share : WindowName → ℕ
share immediate = 50
share short_term = 30
share delayed = 20

-- `total_weight` and `total_score` of `blended_effectiveness`, the score as a fraction.
pub record Blend : Type 0 where
  pub total_weight : ℕ
  pub score : Fraction

-- One round of its loop: a window without attempts or weight is passed over.
unfoldable pub add_window : Blend → WindowName → Window → Blend
add_window b name w = if w.attempts == 0 || w.weight == 0 then b else record {
  total_weight = b.total_weight + share name;
  score = record {
    numerator = b.score.numerator * w.weight + share name * w.correct * b.score.denominator;
    denominator = b.score.denominator * w.weight;
  };
}

-- The loop over the three windows.
unfoldable pub blend_of : InterventionStat → Blend
blend_of s =
    add_window
      (add_window
        (add_window (record { total_weight = 0; score = record { numerator = 0; denominator = 1 } })
          immediate s.immediate)
        short_term s.short_term)
      delayed s.delayed

-- The score divided by the weight of the windows that counted.
unfoldable pub blend_result : Blend → Option Fraction
blend_result b =
    if b.total_weight == 0
    then none
    else some (record {
      numerator = b.score.numerator;
      denominator = b.score.denominator * b.total_weight;
    })

-- `blended_effectiveness`
unfoldable pub blended_effectiveness : InterventionStat → Option Fraction
blended_effectiveness s = blend_result (blend_of s)
