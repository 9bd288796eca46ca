-- ===== src/Hybrid/Gate.antt =====
-- Whether a model is asked at all (agent/hybrid.py `semantic_reasoning_needed`, `choose_mode` and
-- `exactly_one_action_gate`).
use bridgesat_agent.Common.{
  ltb, Bool, true, false, not, ◌&&◌, ◌||◌, String, none, some, List, [], ◌∷◌, ◌++◌, if◌then◌else◌,
  ◌==◌, nat_eq, string_eq, contains, distinct, length,
}
use bridgesat_agent.Memory.{BoundedAction, value, action_eq}
use bridgesat_agent.Policy.Types.{PolicyConstraints}

-- `PolicyEvidence` and `HybridAvailability`
pub record PolicyEvidence : Type 0 where
  pub multiple_relevant_episodes : Bool
  pub conflicting_episodes : Bool
  pub supported_interventions : List BoundedAction

pub record Availability : Type 0 where
  pub configured : Bool
  pub circuit_open : Bool
  pub budget_exhausted : Bool

-- `GateDecision`
pub data GateDecision : Type 0 where
  deterministic : List String → GateDecision
  hybrid : List String → GateDecision

-- A supported intervention that is allowed and is not the fallback, whose action the source reads as
-- one of the bounded actions.
unfoldable pub disagrees : PolicyConstraints → List BoundedAction → Bool
disagrees constraints [] = false
disagrees constraints (intervention ∷ rest) =
    (contains constraints.allowed_actions intervention
      && not (value intervention == constraints.preferred_fallback.action))
    || disagrees constraints rest

abbrev pub when : Bool → String → List String
when test reason = if test then reason ∷ [] else []

-- `semantic_reasoning_needed`
unfoldable pub semantic_reasoning_needed : PolicyConstraints → PolicyEvidence → Bool × List String
semantic_reasoning_needed constraints evidence =
    if ltb (length constraints.allowed_actions) 2 then (false, []) else (
      true,
      distinct (
          "ambiguous_allowed_actions"
            ∷ when evidence.multiple_relevant_episodes "multiple_relevant_episodes"
          ++ when evidence.conflicting_episodes "conflicting_episodes"
          ++ when (disagrees constraints evidence.supported_interventions)
              "stat_disagrees_with_recent"),
    )

-- `choose_mode`; `enabled` is the setting of the task.
unfoldable pub choose_mode :
    PolicyConstraints → PolicyEvidence → Availability → Bool → Bool → GateDecision
choose_mode constraints evidence availability offline enabled = elim constraints.hard_action [
  | some _ ↦ deterministic ("hard_action" ∷ [])
  | none ↦
      if offline
      then deterministic ("offline" ∷ [])
      else if not availability.configured
      then deterministic ("not_configured" ∷ [])
      else if availability.circuit_open
      then deterministic ("circuit_open" ∷ [])
      else if availability.budget_exhausted
      then deterministic ("budget_exhausted" ∷ [])
      else if not enabled
      then deterministic ("task_disabled" ∷ [])
      else if (semantic_reasoning_needed constraints evidence).0
      then hybrid (semantic_reasoning_needed constraints evidence).1
      else if length constraints.allowed_actions == 1
      then deterministic ("single_allowed_action" ∷ [])
      else deterministic ("no_conflicting_evidence" ∷ [])
]

-- `exactly_one_action_gate`; `enabled` is `hybrid_enabled()`.
unfoldable pub exactly_one_action_gate : Availability → Bool → GateDecision
exactly_one_action_gate availability enabled =
    if not availability.configured || not enabled
    then deterministic ("not_configured" ∷ [])
    else if availability.circuit_open || availability.budget_exhausted
    then deterministic
        ((if availability.circuit_open then "circuit_open" else "budget_exhausted") ∷ [])
    else hybrid []

abbrev pub is_hybrid : GateDecision → Bool
is_hybrid (deterministic reasons) = false
is_hybrid (hybrid reasons) = true
