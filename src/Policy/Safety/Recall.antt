-- ===== src/Policy/Safety/Recall.antt =====
-- The branches on recalled strategies keep the promise (agent/policy.py).
use mathlib.Core.Path.{subst}
use bridgesat_agent.Common.{
  All, All-append, String, not, ◌&&◌, ◌≡◌, ◌⊎◌, inl, inr, refl, Bool, true, false, Option, none,
  some, List, [], ◌∷◌, ◌++◌, arith, if◌then◌else◌, contains, lookup, insert, lookup-insert,
  contains-append, contains-distinct, Bool-cases,
}
use bridgesat_agent.Session.{SessionState, answer_evaluated, can_transition, session_summary}
use bridgesat_agent.Memory.{
  BoundedAction, show_worked_example, show_micro_lesson, action_eq, action_beq, action_beq_iff,
  parse_action,
}
use bridgesat_agent.Policy.Types.{PolicyInput, PolicyConstraints, next_state_by_action}
use bridgesat_agent.Policy.Branches.{
  reuse_recalled, recall_conflict, widen_unless, add_next_states, get_or_default,
}
use bridgesat_agent.Policy.Rules.{
  recalled_actions, note_all, note_recalled, reusable_memory_actions,
}
use bridgesat_agent.Policy.Safety.{leads_on, IsSafe}

abbrev pub IsReusable : BoundedAction → Type 0
IsReusable a = contains reusable_memory_actions a ≡ true

pub reusable-cases :
    (a : BoundedAction) → IsReusable a → (show_worked_example ≡ a) ⊎ (show_micro_lesson ≡ a)
reusable-cases a h =
    ground (arith, action_beq_iff show_worked_example a, action_beq_iff show_micro_lesson a)

note_recalled-IsReusable :
    (recalled : List BoundedAction) (o : Option BoundedAction)
    → All IsReusable recalled
    → All IsReusable (note_recalled recalled o)
unfolding note_recalled
note_recalled-IsReusable recalled none h = h
note_recalled-IsReusable recalled (some a) h =
    elim (Bool-cases (contains reusable_memory_actions a && not (contains recalled a))) [
      | inl add ↦ rw add (All-append IsReusable recalled (a ∷ []) h (ground arith, tt))
      | inr skip ↦ rw skip h
    ]

note_all-IsReusable :
    (recalled : List BoundedAction) (raws : List String)
    → All IsReusable recalled
    → All IsReusable (note_all recalled raws)
unfolding note_all
note_all-IsReusable recalled [] h = h
note_all-IsReusable recalled (raw ∷ rest) h =
    note_all-IsReusable (note_recalled recalled (parse_action raw)) rest
      (note_recalled-IsReusable recalled (parse_action raw) h)

or_legacy-IsReusable :
    (legacy : Bool) (l : List BoundedAction)
    → All IsReusable l
    → All IsReusable
        (elim l [ [] ↦ if legacy then show_worked_example ∷ [] else [] | a ∷ rest ↦ a ∷ rest ])
unfolding action_beq
or_legacy-IsReusable true [] h = (refl, tt)
or_legacy-IsReusable false [] h = tt
or_legacy-IsReusable legacy (a ∷ rest) h = h

pub recalled_actions-IsReusable : (i : PolicyInput) → All IsReusable (recalled_actions i)
unfolding recalled_actions
recalled_actions-IsReusable i =
    or_legacy-IsReusable i.recalled_successful_episode
      (note_all [] i.recalled_successful_interventions)
      (note_all-IsReusable [] i.recalled_successful_interventions tt)

reuse_worked_example-IsSafe : (i : PolicyInput) → IsSafe (reuse_recalled i show_worked_example)
unfolding reuse_recalled can_transition action_beq
reuse_worked_example-IsSafe i = record {
  fallback = show_worked_example;
  fallback_value = refl;
  fallback_allowed = refl;
  legal = λ a h. ground arith;
  hard = λ a h. cc;
}

reuse_micro_lesson-IsSafe : (i : PolicyInput) → IsSafe (reuse_recalled i show_micro_lesson)
unfolding reuse_recalled can_transition action_beq
reuse_micro_lesson-IsSafe i = record {
  fallback = show_micro_lesson;
  fallback_value = refl;
  fallback_allowed = refl;
  legal = λ a h. ground arith;
  hard = λ a h. cc;
}

pub reuse_recalled-IsSafe :
    (i : PolicyInput) (a : BoundedAction) → IsReusable a → IsSafe (reuse_recalled i a)
reuse_recalled-IsSafe i a h = elim (reusable-cases a h) [
  | inl e ↦ subst (λ b. IsSafe (reuse_recalled i b)) e (reuse_worked_example-IsSafe i)
  | inr e ↦ subst (λ b. IsSafe (reuse_recalled i b)) e (reuse_micro_lesson-IsSafe i)
]

next_state_leads_on :
    (a : BoundedAction)
    → IsReusable a
    → can_transition answer_evaluated
        (get_or_default (lookup a next_state_by_action) session_summary)
      ≡ true
next_state_leads_on a h = elim (reusable-cases a h) [
  | inl e ↦ rw (← e) (unfold can_transition action_beq in refl)
  | inr e ↦ rw (← e) (unfold can_transition action_beq in refl)
]

add_next_states-legal :
    (recalled : List BoundedAction) (d : List (BoundedAction × SessionState)) (a : BoundedAction)
    → All IsReusable recalled
    → (contains recalled a ≡ true) ⊎ (leads_on (lookup a d) ≡ true)
    → leads_on (lookup a (add_next_states recalled d)) ≡ true
unfolding add_next_states
add_next_states-legal [] d a h k = ground arith
add_next_states-legal (x ∷ rest) d a h k = ground (
  arith,
  add_next_states-legal rest
      (insert x (get_or_default (lookup x next_state_by_action) session_summary) d) a h.1,
  lookup-insert x a (get_or_default (lookup x next_state_by_action) session_summary) d,
  next_state_leads_on x h.0,
)

widen_unless-IsSafe :
    (guard : Option BoundedAction) (base : PolicyConstraints) (recalled : List BoundedAction)
    → All IsReusable recalled
    → IsSafe base
    → IsSafe (widen_unless guard base recalled)
unfolding widen_unless
widen_unless-IsSafe (some guard) base recalled h safe = safe
widen_unless-IsSafe none base recalled h safe = record {
  fallback = safe.fallback;
  fallback_value = safe.fallback_value;
  fallback_allowed = ground (
    arith,
    contains-distinct (base.allowed_actions ++ recalled) safe.fallback,
    contains-append base.allowed_actions recalled safe.fallback,
    safe.fallback_allowed,
  );
  legal = λ a k. add_next_states-legal recalled base.next_states a h (
      ground (
        arith,
        contains-distinct (base.allowed_actions ++ recalled) a,
        contains-append base.allowed_actions recalled a,
        safe.legal a,
      ));
  hard = λ a k. cc;
}

pub recall_conflict-IsSafe :
    (base : PolicyConstraints) (recalled : List BoundedAction)
    → All IsReusable recalled
    → IsSafe base
    → IsSafe (recall_conflict base recalled)
unfolding recall_conflict
recall_conflict-IsSafe base = widen_unless-IsSafe base.hard_action base
