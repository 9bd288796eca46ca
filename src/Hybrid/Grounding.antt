-- ===== src/Hybrid/Grounding.antt =====
-- What an accepted proposal is known to satisfy, and that a rejected one leaves nothing behind
-- (agent/hybrid.py `verify_proposal`, `choose_mode`).
use bridgesat_agent.Common.{
  ◌≤◌, ◌≡◌, ◌↔◌, refl, Bool, true, false, String, Option, none, some, List, [], ◌∷◌, string_eq,
  option_eq, contains, lookup, length, arith,
}
use bridgesat_agent.Session.{SessionState, answer_evaluated}
use bridgesat_agent.Memory.{BoundedAction, action_eq, action_beq_iff}
use bridgesat_agent.Policy.Types.{PolicyConstraints, PolicyInput}
use bridgesat_agent.Policy.Rules.{derive_policy_constraints}
use bridgesat_agent.Policy.Safety.{IsSafe, leads_on}
use bridgesat_agent.Policy.Safety.Derive.{derive-IsSafe}
use bridgesat_agent.Hybrid.Types.{Context, Evidence, Proposal}
use bridgesat_agent.Hybrid.Gate.{
  PolicyEvidence, Availability, semantic_reasoning_needed, choose_mode, is_hybrid,
}
use bridgesat_agent.Hybrid.Claims.{Grounded, grounded, refused}
use bridgesat_agent.Hybrid.Verifier.{
  first_of, state_fault, violates_guard, action_fault, episode_fault, grounding_fault,
  check_rationale, settle, verify_proposal,
}
use bridgesat_agent.Hybrid.Stages.{
  IsPermitted, IsGroundedEpisode, IsGroundedContent, action_fault-none, episode_fault-none,
  content_fault-none,
}

first_of-none : (a b : Option String) → first_of a b ≡ none → (a ≡ none) × (b ≡ none)
first_of-none none b h = (refl, h)
first_of-none (some r) b h = cc

settle-accepted :
    (fault : Option String) (p : Proposal) (g : Grounded)
    → (settle fault p g).accepted ≡ true
    → fault ≡ none
settle-accepted none p g h = refl
settle-accepted (some r) p g h = cc

-- An accepted proposal's action is allowed, agrees with a hard guard, leads by a legal transition from
-- the current state, and answers a current event; a selected episode is a validated candidate of the
-- skill and not another student's, and a selected content item is a registered, approved one of the
-- skill.
pub accepted_sound :
    (context : Context) (constraints : PolicyConstraints) (p : Proposal) (evidence : Evidence)
    (current : Bool)
    → (verify_proposal context constraints p evidence current).accepted ≡ true
    → IsPermitted context constraints p.proposed_action current
      × IsGroundedEpisode context evidence p.selected_episode_id
      × IsGroundedContent context evidence p.selected_content_id
unfolding verify_proposal grounding_fault
accepted_sound context constraints p evidence current h =
    let fault : grounding_fault context constraints p evidence current ≡ none =
      settle-accepted (grounding_fault context constraints p evidence current) p
        (check_rationale context evidence p) h in
    let (act, rest) = first_of-none (action_fault context constraints p current) _ fault in
    let (ep, con) = first_of-none (episode_fault context evidence p.selected_episode_id) _ rest in
    (
      action_fault-none context constraints p current act,
      episode_fault-none context evidence p.selected_episode_id ep,
      content_fault-none context evidence p.proposed_action p.selected_content_id con,
    )

settle-rejected :
    (fault : Option String) (p : Proposal) (g : Grounded)
    → (settle fault p g).accepted ≡ false
    → ((settle fault p g).selected_episode_id ≡ none)
      × ((settle fault p g).selected_content_id ≡ none)
      × ((reason : String) × ((settle fault p g).rejected_reason ≡ some reason))
settle-rejected none p (grounded ok checks) h = cc
settle-rejected none p (refused reason checks) h = (refl, refl, (reason, refl))
settle-rejected (some reason) p g h = (refl, refl, (reason, refl))

-- A rejected proposal leaves no episode and no content behind, and always gives a reason.
rejected_empty :
    (context : Context) (constraints : PolicyConstraints) (p : Proposal) (evidence : Evidence)
    (current : Bool)
    → (verify_proposal context constraints p evidence current).accepted ≡ false
    → let o = verify_proposal context constraints p evidence current in
      (o.selected_episode_id ≡ none)
      × (o.selected_content_id ≡ none)
      × ((reason : String) × (o.rejected_reason ≡ some reason))
unfolding verify_proposal
rejected_empty context constraints p evidence current h =
    settle-rejected (grounding_fault context constraints p evidence current) p
      (check_rationale context evidence p) h

guard_holds :
    (hard : Option BoundedAction) (allowed : List BoundedAction) (a : BoundedAction)
    → ((g : BoundedAction) → hard ≡ some g → allowed ≡ g ∷ [])
    → contains allowed a ≡ true
    → violates_guard hard a ≡ false
guard_holds none allowed a only h = refl
guard_holds (some g) allowed a only h = same (rw (only g refl) at h)
  where
    same : contains (g ∷ []) a ≡ true → violates_guard (some g) a ≡ false
    same k = ground (arith, k, action_beq_iff g a, action_beq_iff a g)

legal_next :
    (context : Context) (o : Option SessionState)
    → context.current_state ≡ answer_evaluated
    → leads_on o ≡ true
    → state_fault context o ≡ none
legal_next context none now h = cc
legal_next context (some next) now h = check context.current_state now
  where
    check :
        (state : SessionState)
        → state ≡ answer_evaluated
        → state_fault (record context { current_state = state }) (some next) ≡ none
    check state e = rw (e, h) refl

-- The policy and the verifier agree: after an evaluated answer, every action that the policy allows
-- passes the first stage of the verification while its event is current.
pub allowed_passes :
    (i : PolicyInput) (context : Context) (p : Proposal)
    → context.current_state ≡ answer_evaluated
    → contains (derive_policy_constraints i).allowed_actions p.proposed_action ≡ true
    → action_fault context (derive_policy_constraints i) p true ≡ none
unfolding action_fault
allowed_passes i context p now allowed =
    let c : PolicyConstraints = derive_policy_constraints i in
    let safe : IsSafe c = derive-IsSafe i in
    rw
      (
        guard_holds c.hard_action c.allowed_actions p.proposed_action safe.hard allowed,
        allowed,
        legal_next context (lookup p.proposed_action c.next_states) now
            (safe.legal p.proposed_action allowed),
      )
      refl

-- A model is asked for an action exactly if no hard action holds, the device is online, the provider is
-- configured, its circuit closed and its budget left, the task enabled, and two or more actions
-- allowed, whatever the evidence is.
pub hybrid_iff :
    (c : PolicyConstraints) (evidence : PolicyEvidence) (a : Availability) (offline enabled : Bool)
    → (is_hybrid (choose_mode c evidence a offline enabled) ≡ true) ↔ (
        (c.hard_action ≡ none)
        × (offline ≡ false)
        × (a.configured ≡ true)
        × (a.circuit_open ≡ false)
        × (a.budget_exhausted ≡ false)
        × (enabled ≡ true)
        × (2 ≤ length c.allowed_actions))
unfolding choose_mode semantic_reasoning_needed
hybrid_iff c evidence a offline enabled = ground arith
