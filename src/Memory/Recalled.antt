-- ===== src/Memory/Recalled.antt =====
-- What a recall returns (memory/pg_memory.py).
use bridgesat_agent.Common.{
  none, some, ◌&&◌, ◌++◌, ◌⊎◌, [], count_by, ℕ, ◌≤◌, ◌≡◌, Bool, false, String, Option, List, length,
  All, IsSorted,
}
use bridgesat_agent.Memory.Tables.{validated, contradicted, Episode}
use bridgesat_agent.Memory.Builder.{newest_first}
use bridgesat_agent.Memory.Recall.{unset, exactly, Wanted}

-- The rows satisfy `P`, and are the newest of those that pass the test: with some rest they are all rows of the table that
-- pass, each as often as it stands there and the newest first, and without a rest unless there are
-- `limit` rows.
abbrev pub AreNewest :
    (Episode → Type 0) → (Episode → Bool) → ℕ → List Episode → List Episode → Type 0
AreNewest P test limit episodes rows =
    (rest : List Episode) × (length rows ≤ limit)
    × ((length rows ≡ limit) ⊎ (rest ≡ []))
    × All P rows
    × IsSorted newest_first (rows ++ rest)
    × ((kind : Episode → Bool)
        → count_by kind (rows ++ rest) ≡ count_by (λ e. test e && kind e) episodes)

-- What a recalled episode is.
abbrev pub Fits : String → String → Wanted → Option String → Episode → Type 0
Fits student_id skill wanted intervention e =
    (e.student_id ≡ student_id)
    × (e.status ≡ validated)
    × (60 ≤ e.effectiveness)
    × (e.skill ≡ skill)
    × ((wanted ≡ unset) ⊎ (wanted ≡ exactly e.misconception))
    × ((intervention ≡ none) ⊎ (intervention ≡ some e.intervention))

-- What a contradicting episode is.
abbrev pub Contradicts : String → String → Option String → Episode → Type 0
Contradicts student_id skill misconception e =
    (e.student_id ≡ student_id)
    × (e.skill ≡ skill)
    × (e.misconception ≡ misconception)
    × ((e.status ≡ contradicted) ⊎ (e.outcome.correct ≡ false))
