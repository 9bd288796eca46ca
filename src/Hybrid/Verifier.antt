-- ===== src/Hybrid/Verifier.antt =====
-- `verify_proposal` of agent/hybrid.py: action and state, the selected episode, the selected content,
-- then the rationale.
use bridgesat_agent.Common.{
  Bool, true, false, not, ◌&&◌, String, Option, none, some, List, [], ◌∷◌, ◌++◌, if◌then◌else◌,
  ◌==◌, string_eq, option_eq, contains, lookup,
}
use bridgesat_agent.Session.{SessionState, can_transition}
use bridgesat_agent.Memory.{BoundedAction, show_worked_example, show_micro_lesson, action_eq}
use bridgesat_agent.Policy.Types.{PolicyConstraints, truthy}
use bridgesat_agent.Hybrid.Types.{Context, Evidence, Proposal, Outcome, Claim}
use bridgesat_agent.Hybrid.Claims.{
  Grounded, grounded, refused, prohibited_claim_patterns, has_pattern, is_foreign, check_claims,
}

-- The reason why a stage of the verification fails, if it does.
abbrev pub first_of : Option String → Option String → Option String
first_of none b = b
first_of (some a) b = some a

-- 11.1: the action and the transition
abbrev pub state_fault : Context → Option SessionState → Option String
state_fault context none = some "action_missing_state_mapping"
state_fault context (some next) =
    if can_transition context.current_state next then none else some "illegal_state_transition"

abbrev pub violates_guard : Option BoundedAction → BoundedAction → Bool
violates_guard none action = false
violates_guard (some guard) action = not (action == guard)

unfoldable pub action_fault : Context → PolicyConstraints → Proposal → Bool → Option String
action_fault context constraints proposal source_event_current =
    if violates_guard constraints.hard_action proposal.proposed_action
    then some "action_violates_hard_guard"
    else if not (contains constraints.allowed_actions proposal.proposed_action)
    then some "action_not_allowed"
    else first_of (state_fault context (lookup proposal.proposed_action constraints.next_states))
        (if source_event_current then none else some "source_event_stale")

abbrev pub mismatches : Option String → Option String → Bool
mismatches none m = false
mismatches (some active) m = not (m == some active)

-- 11.2: the selected episode
unfoldable pub episode_fault : Context → Evidence → Option String → Option String
episode_fault context evidence none = none
episode_fault context evidence (some id) = elim (lookup id evidence.episodes) [
  | none ↦ some "ungrounded_episode"
  | some episode ↦
      if is_foreign evidence.expected_student_id episode
      then some "foreign_episode"
      else if not (episode.status == "validated")
      then some "episode_not_validated"
      else if not (episode.skill == context.skill)
      then some "episode_skill_mismatch"
      else if mismatches context.active_misconception episode.misconception
      then some "episode_misconception_mismatch"
      else none
]

-- `_action_to_content_type`
unfoldable pub action_to_content_type : BoundedAction → Option String
action_to_content_type show_worked_example = some "worked_example"
action_to_content_type show_micro_lesson = some "micro_lesson"
action_to_content_type _ = none

abbrev pub is_other_type : Option String → String → Bool
is_other_type none t = false
is_other_type (some wanted) t = not (t == wanted)

abbrev pub not_among : Option String → List String → Bool
not_among none ms = false
not_among (some active) [] = false
not_among (some active) (m ∷ ms) = not (contains (m ∷ ms) active)

-- 11.3: the selected content
unfoldable pub content_fault : Context → Evidence → BoundedAction → Option String → Option String
content_fault context evidence action none = none
content_fault context evidence action (some id) = elim (lookup id evidence.content) [
  | none ↦ some "ungrounded_content"
  | some r ↦
      if not (r.review_status == "approved")
      then some "content_not_approved"
      else if is_other_type (action_to_content_type action) r.content_type
      then some "content_type_mismatch"
      else if not (r.target_skill == context.skill)
      then some "content_skill_mismatch"
      else if not_among context.active_misconception r.misconceptions
      then some "content_misconception_mismatch"
      else if not
          (truthy (some r.license_id) && truthy (some r.source_id) && truthy (some r.pack_version))
      then some "content_lineage_incomplete"
      else none
]

-- The three stages that an action has to pass.
unfoldable pub grounding_fault :
    Context → PolicyConstraints → Proposal → Evidence → Bool → Option String
grounding_fault context constraints proposal evidence source_event_current =
    first_of (action_fault context constraints proposal source_event_current) (
      first_of (episode_fault context evidence proposal.selected_episode_id)
        (content_fault context evidence proposal.proposed_action proposal.selected_content_id))

abbrev pub reject : String → List String → Outcome
reject reason checks = record {
  accepted = false;
  rejected_reason = some reason;
  rationale_accepted = true;
  rationale_checks = checks;
  selected_episode_id = none;
  selected_content_id = none;
}

abbrev pub has_claims : List Claim → Bool
has_claims [] = false
has_claims (c ∷ cs) = true

abbrev pub accept : Proposal → Grounded → Outcome
accept proposal (grounded ok checks) = record {
  accepted = true;
  rejected_reason = none;
  rationale_accepted = ok;
  rationale_checks =
      if ok && has_claims proposal.evidence_claims
      then checks ++ "claims_grounded" ∷ []
      else checks;
  selected_episode_id = proposal.selected_episode_id;
  selected_content_id = proposal.selected_content_id;
}
accept proposal (refused reason checks) = reject reason checks

-- 11.4: the rationale
unfoldable pub check_rationale : Context → Evidence → Proposal → Grounded
check_rationale context evidence proposal =
    check_claims evidence context proposal proposal.evidence_claims
      (not (has_pattern proposal.lowered_rationale prohibited_claim_patterns))
      (if has_pattern proposal.lowered_rationale prohibited_claim_patterns
        then "prohibited_rationale_claim" ∷ []
        else [])

abbrev pub settle : Option String → Proposal → Grounded → Outcome
settle (some reason) proposal rationale = reject reason []
settle none proposal rationale = accept proposal rationale

unfoldable pub verify_proposal : Context → PolicyConstraints → Proposal → Evidence → Bool → Outcome
verify_proposal context constraints proposal evidence source_event_current =
    settle (grounding_fault context constraints proposal evidence source_event_current) proposal
      (check_rationale context evidence proposal)
