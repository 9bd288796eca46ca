-- ===== src/Hybrid/Stages.antt =====
-- What the stages of `verify_proposal` of agent/hybrid.py establish when they find no fault.
use text.Mathlib.TextEquality.{eq_iff}
use bridgesat_agent.Common.{
  ◌≡◌, refl, Bool, true, false, inl, inr, String, Option, none, some, string_eq, option_eq,
  contains, lookup, Option-cases, arith,
}
use bridgesat_agent.Session.{SessionState, can_transition}
use bridgesat_agent.Memory.{BoundedAction, action_eq, action_beq_iff}
use bridgesat_agent.Policy.Types.{PolicyConstraints}
use bridgesat_agent.Hybrid.Types.{Context, Episode, ContentRecord, Evidence, Proposal}
use bridgesat_agent.Hybrid.Claims.{is_foreign}
use bridgesat_agent.Hybrid.Verifier.{
  state_fault, violates_guard, action_fault, episode_fault, content_fault,
}

-- The action is allowed, respects a hard guard, and its next state is a legal transition now.
pub record IsPermitted (context : Context) (constraints : PolicyConstraints)
    (action : BoundedAction) (current : Bool) : Type 0 where
  pub allowed : contains constraints.allowed_actions action ≡ true
  pub guard : (g : BoundedAction) → constraints.hard_action ≡ some g → action ≡ g
  pub next : SessionState
  pub stored : lookup action constraints.next_states ≡ some next
  pub legal : can_transition context.current_state next ≡ true
  pub fresh : current ≡ true

-- A selected episode is one of the candidates: validated, of the skill, and of the student.
abbrev pub IsGroundedEpisode : Context → Evidence → Option String → Type 0
IsGroundedEpisode context evidence none = Unit
IsGroundedEpisode context evidence (some id) =
    (e : Episode) × (lookup id evidence.episodes ≡ some e)
    × (e.status ≡ "validated")
    × (e.skill ≡ context.skill)
    × (is_foreign evidence.expected_student_id e ≡ false)

-- A selected content item is registered, approved and of the skill.
abbrev pub IsGroundedContent : Context → Evidence → Option String → Type 0
IsGroundedContent context evidence none = Unit
IsGroundedContent context evidence (some id) =
    (r : ContentRecord) × (lookup id evidence.content ≡ some r)
    × (r.review_status ≡ "approved")
    × (r.target_skill ≡ context.skill)

guard_respected :
    (hard : Option BoundedAction) (a : BoundedAction)
    → violates_guard hard a ≡ false
    → (g : BoundedAction) → hard ≡ some g
    → a ≡ g
guard_respected none a h g e = cc
guard_respected (some guard) a h g e = ground (arith, action_beq_iff a guard)

state_fault-none :
    (context : Context) (o : Option SessionState)
    → state_fault context o ≡ none
    → (next : SessionState) × (o ≡ some next) × (can_transition context.current_state next ≡ true)
state_fault-none context none h = cc
state_fault-none context (some next) h = (next, refl, ground arith)

action_fault-tests :
    (context : Context) (constraints : PolicyConstraints) (p : Proposal) (current : Bool)
    → action_fault context constraints p current ≡ none
    → (violates_guard constraints.hard_action p.proposed_action ≡ false)
      × (contains constraints.allowed_actions p.proposed_action ≡ true)
      × (state_fault context (lookup p.proposed_action constraints.next_states) ≡ none)
      × (current ≡ true)
unfolding action_fault
action_fault-tests context constraints p current h = ground arith

pub action_fault-none :
    (context : Context) (constraints : PolicyConstraints) (p : Proposal) (current : Bool)
    → action_fault context constraints p current ≡ none
    → IsPermitted context constraints p.proposed_action current
action_fault-none context constraints p current h =
    let (guard, allowed, state, fresh) = action_fault-tests context constraints p current h in
    let (next, stored, legal) =
      state_fault-none context (lookup p.proposed_action constraints.next_states) state in
    record {
      allowed = allowed;
      guard = guard_respected constraints.hard_action p.proposed_action guard;
      next = next;
      stored = stored;
      legal = legal;
      fresh = fresh;
    }

pub episode_fault-none :
    (context : Context) (evidence : Evidence) (selected : Option String)
    → episode_fault context evidence selected ≡ none
    → IsGroundedEpisode context evidence selected
unfolding episode_fault
episode_fault-none context evidence none h = tt
episode_fault-none context evidence (some id) h =
    elim (Option-cases (lookup id evidence.episodes)) [
      | inl absent ↦ ground (arith, absent)
      | inr (e, there) ↦ (
        e,
        there,
        ground (arith, there, eq_iff e.status "validated"),
        ground (arith, there, eq_iff e.skill context.skill),
        ground (arith, there),
      )
    ]

pub content_fault-none :
    (context : Context) (evidence : Evidence) (action : BoundedAction) (selected : Option String)
    → content_fault context evidence action selected ≡ none
    → IsGroundedContent context evidence selected
unfolding content_fault
content_fault-none context evidence action none h = tt
content_fault-none context evidence action (some id) h =
    elim (Option-cases (lookup id evidence.content)) [
      | inl absent ↦ ground (arith, absent)
      | inr (r, there) ↦ (
        r,
        there,
        ground (arith, there, eq_iff r.review_status "approved"),
        ground (arith, there, eq_iff r.target_skill context.skill),
      )
    ]
