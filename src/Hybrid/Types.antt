-- ===== src/Hybrid/Types.antt =====
-- The data of the verifier (agent/hybrid.py and agent/hybrid_contracts.py), with the fields that it
-- reads. Effectiveness and confidence are fractions.
use bridgesat_agent.Common.{ℕ, Bool, String, Option, List}
use bridgesat_agent.Session.{SessionState}
use bridgesat_agent.Learner.{Ratio}
use bridgesat_agent.Memory.{BoundedAction}

-- `InterventionEvidence`
pub record InterventionStat : Type 0 where
  pub intervention : BoundedAction
  pub skill : Option String
  pub misconception : Option String
  pub difficulty_band : String
  pub support : String

-- `HybridDecisionContext`
pub record Context : Type 0 where
  pub skill : String
  pub active_misconception : Option String
  pub difficulty : ℕ
  pub current_state : SessionState
  pub hints_used : ℕ
  pub consecutive_errors : ℕ
  pub correct_streak : ℕ
  pub misconception_evidence_count : ℕ
  pub intervention_stats : List InterventionStat

-- A stored episode, with the two outcome entries that are read.
pub record Episode : Type 0 where
  pub student_id : String
  pub status : String
  pub skill : String
  pub misconception : Option String
  pub intervention : String
  pub outcome_correct : Bool
  pub different_item : Bool
  pub effectiveness : Ratio
  pub confidence : Ratio

-- `ContentRecord`
pub record ContentRecord : Type 0 where
  pub review_status : String
  pub content_type : String
  pub target_skill : String
  pub misconceptions : List String
  pub license_id : String
  pub source_id : String
  pub pack_version : String

-- `AuthoritativeEvidence`
pub record Evidence : Type 0 where
  pub episodes : List (String × Episode)
  pub content : List (String × ContentRecord)
  pub expected_student_id : Option String

pub record Claim : Type 0 where
  pub claim_code : String
  pub evidence_refs : List String

-- `HybridDecisionProposal`; the rationale is in lower case.
pub record Proposal : Type 0 where
  pub proposed_action : BoundedAction
  pub selected_episode_id : Option String
  pub selected_content_id : Option String
  pub lowered_rationale : String
  pub evidence_claims : List Claim

-- `VerificationOutcome`; of its log, the entries about the rationale
pub record Outcome : Type 0 where
  pub accepted : Bool
  pub rejected_reason : Option String
  pub rationale_accepted : Bool
  pub rationale_checks : List String
  pub selected_episode_id : Option String
  pub selected_content_id : Option String
