-- ===== src/Sync/Apply.antt =====
-- Applying one event to the store (sync/service.py `_apply_event` and the handlers that it calls).
use Prim.Native.String.{◌++◌ as ◌^◌, [] as no_text, ◌∷◌ as ◌then◌}
use bridgesat_agent.Common.{
  ℕ, zero, suc, Bool, ◌&&◌, String, Option, none, some, List, [], ◌∷◌, ◌++◌, if◌then◌else◌, nat_eq,
  string_eq, option_eq,
}
use bridgesat_agent.Session.{SessionState, state_eq}
use bridgesat_agent.Learner.{SkillState}
use bridgesat_agent.Policy.Types.{truthy}
use bridgesat_agent.Sync.Types.{
  ErrorCode, ConflictType, Envelope, Rejected, Conflict, validity_eq, Store, Constraint,
}
use bridgesat_agent.Sync.Scoring.{PackDir, Meta}
use bridgesat_agent.Sync.Rows.{Result}

-- An entry of `server_agent_events`; `D` is what the agent decided.
pub record ServerEvent {ℓ} (D : Type ℓ) : Type ℓ where
  pub source_event_id : String
  pub question_id : String
  pub correct : Bool
  pub misconception : Option String
  pub decision : D

-- The lists that the handlers append to.
pub record Output {ℓ} (D : Type ℓ) : Type ℓ where
  pub accepted : List String
  pub rejected : List Rejected
  pub conflicts : List Conflict
  pub server_agent_events : List (ServerEvent D)

-- A scored answer, as it is handed over to the episodes, the memory and the agent.
pub record ScoredAnswer : Type 0 where
  pub meta : Meta
  pub question_id : String
  pub question_version : ℕ
  pub correct : Bool
  pub misconception : Option String
  pub skill_state : SkillState

-- What the handlers use: the clock, the packs, the identifiers of other tenants, SHA-256, and the
-- two parts that they hand over to: `_start_presented_intervention`, and the completion of an
-- episode with the decision of `_decide_and_record_agent_event`, which names the next session state.
pub record World {ℓ} (R D : Type ℓ) : Type ℓ where
  pub now : ℕ
  pub dirs : List PackDir
  pub foreign : Constraint → String → Bool
  pub sha256 : String → String
  pub start_presented_intervention : Envelope → Store R → Result R
  pub decide_and_record : Envelope → ScoredAnswer → Store R → Result (R × D × SessionState)

-- `a or b` on an optional text and an optional number
abbrev pub or_text : Option String → Option String → Option String
or_text a b = if truthy a then a else b

abbrev pub or_number : Option ℕ → Option ℕ → Option ℕ
or_number none b = b
or_number (some zero) b = b
or_number (some (suc n)) b = some (suc n)

-- `text[:n]`
abbrev pub first_characters : ℕ → String → String
first_characters zero t = no_text
first_characters (suc n) no_text = no_text
first_characters (suc n) (c then t) = c then (first_characters n t)

-- `payload.get("attempt_id") or f"att_{event_id[:16]}"`
unfoldable pub attempt_id_of : Envelope → String
attempt_id_of e = elim e.payload.attempt_id [
  | none ↦ "att_" ^ first_characters 16 e.event_id
  | some a ↦ if truthy (some a) then a else "att_" ^ first_characters 16 e.event_id
]

-- The question, its version and the choice of an answer, if it has them all.
unfoldable pub submission : Envelope → Option (String × ℕ × String)
submission e = elim (or_text e.question_id e.payload.question_id) [
  | none ↦ none
  | some question_id ↦ elim (or_number e.question_version e.payload.question_version) [
    | none ↦ none
    | some version ↦ elim e.payload.selected_choice_id [
      | none ↦ none
      | some selected ↦
          if truthy (some question_id) && truthy (some selected)
          then some (question_id, version, selected)
          else none
    ]
  ]
]

module _ {ℓ} {D : Type ℓ} where
  abbrev pub accept : Envelope → Output D → Output D
  accept e out = record out { accepted = out.accepted ++ e.event_id ∷ [] }

  abbrev pub reject : Envelope → ErrorCode → Bool → Output D → Output D
  reject e code retryable out = record out {
    rejected =
        out.rejected ++ record { event_id = e.event_id; code = code; retryable = retryable } ∷ [];
  }

  abbrev pub add_conflict : Envelope → ConflictType → Output D → Output D
  add_conflict e t out = record out {
    conflicts = out.conflicts ++ record { event_id = e.event_id; conflict_type = t } ∷ [];
  }
