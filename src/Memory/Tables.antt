-- ===== src/Memory/Tables.antt =====
-- The rows of the episodic memory (domain/memory.py) and the guard that every write passes
-- (memory/outbox.py, `ensure_active_student`). Scores, confidences and weights are in hundredths.
use bridgesat_agent.Common.{
  ℕ, ◌≡◌, ◌↔◌, Bool, true, not, String, Option, none, some, List, if◌then◌else◌, Eq, ◌==◌,
  string_eq, test_of, test_of_iff, find_by,
}
use bridgesat_agent.Outbox.Rows.{Table}
use bridgesat_agent.Deletion.Store.{
  StudentStatus, active, standing_eq, DeletionState, Student, Deletion,
}

-- `EPISODE_STATUSES`
pub data EpisodeStatus : Type 0 where
  candidate validated insufficient_outcome contradicted archived deleted : EpisodeStatus

EpisodeStatus-discrete : Discrete EpisodeStatus
EpisodeStatus-discrete = hlevel

unfoldable pub episode_beq : EpisodeStatus → EpisodeStatus → Bool
unfolding EpisodeStatus-discrete
episode_beq a b = test_of EpisodeStatus-discrete a b

pub episode_beq_iff : (a b : EpisodeStatus) → (episode_beq a b ≡ true) ↔ (a ≡ b)
unfolding episode_beq
episode_beq_iff a b = test_of_iff EpisodeStatus-discrete a b

instance abbrev pub episode_eq : Eq EpisodeStatus
episode_eq = record { decides = episode_beq_iff; is_equal = episode_beq }

-- The dictionary `outcome`; a key that is missing and a `None` are `none`.
pub record EpisodeOutcome : Type 0 where
  pub correct : Bool
  pub hint_level : ℕ
  pub outcome_content_id : Option String
  pub teaching_content_id : Option String
  pub trigger_content_id : Option String
  pub different_item : Bool
  pub pending_transfer : Option Bool

-- `Episode`
pub record Episode : Type 0 where
  pub episode_id : String
  pub student_id : String
  pub session_id : String
  pub skill : String
  pub misconception : Option String
  pub intervention : String
  pub outcome : EpisodeOutcome
  pub effectiveness : ℕ
  pub evidence_event_ids : List String
  pub summary : String
  pub confidence : ℕ
  pub status : EpisodeStatus
  pub created_at : ℕ
  pub updated_at : ℕ

-- `FACT_STATUSES`
pub data FactStatus : Type 0 where
  observation inference stable uncertain archived : FactStatus

-- `MemoryFact`; the category is the same for all of them.
pub record MemoryFact : Type 0 where
  pub fact_id : String
  pub student_id : String
  pub normalized_key : String
  pub fact_text : String
  pub confidence : ℕ
  pub supporting_episode_ids : List String
  pub contradicting_episode_ids : List String
  pub evidence_count : ℕ
  pub contradiction_count : ℕ
  pub status : FactStatus
  pub first_observed_at : ℕ
  pub last_observed_at : ℕ
  pub version : ℕ

-- The three columns of a window of `InterventionStat`.
pub record Window : Type 0 where
  pub correct : ℕ
  pub attempts : ℕ
  pub weight : ℕ

-- `InterventionStat`
pub record InterventionStat : Type 0 where
  pub stat_id : String
  pub student_id : String
  pub skill : String
  pub misconception : Option String
  pub intervention : String
  pub difficulty_band : String
  pub immediate : Window
  pub short_term : Window
  pub delayed : Window
  pub updated_at : ℕ

-- The tables that the memory reads and writes.
pub record MemoryStore : Type 0 where
  pub students : List Student
  pub deletions : List Deletion
  pub episodes : List Episode
  pub facts : List MemoryFact
  pub stats : List InterventionStat
  pub outbox : Table

pub data WriteFault : Type 0 where
  unknown_student : WriteFault
  not_active : StudentStatus → WriteFault
  has_deletion : DeletionState → WriteFault
  duplicate_key : WriteFault
  -- `key.split` gave another number of parts than three
  bad_key : WriteFault

-- `ensure_active_student`: what it raises.
unfoldable pub ensure_active_student : List Student → List Deletion → String → Option WriteFault
ensure_active_student students deletions student_id =
    elim (find_by (λ t. t.id == student_id) students) [
      | none ↦ some unknown_student
      | some t ↦
          if not (t.status == active)
          then some (not_active t.status)
          else elim (find_by (λ d. d.student_id == student_id) deletions) [
            | none ↦ none
            | some d ↦ some (has_deletion d.state)
          ]
    ]

-- A write returns its result and the store, or raises and leaves the store as it was: its
-- transaction is rolled back.
pub data Written {ℓ} (A : Type ℓ) : Type ℓ where
  written : A → MemoryStore → Written A
  refused : WriteFault → Written A

-- `with student_advisory_lock(…): ensure_active_student(…)` before a write.
abbrev pub guarded {ℓ} : {A : Type ℓ} → String → MemoryStore → Written A → Written A
guarded student_id m body = elim (ensure_active_student m.students m.deletions student_id) [
  | some fault ↦ refused fault
  | none ↦ body
]

infixl 5 ◌>>=◌
abbrev pub ◌>>=◌ {ℓ κ} :
    {A : Type ℓ} {B : Type κ} → Written A → (A × MemoryStore → Written B) → Written B
written a m >>= f = f (a, m)
refused fault >>= f = refused fault
