-- ===== src/Session/Progress.antt =====
-- `transition` of domain/sessions.py only leads forward through the phases of a session, and can always
-- lead to its end. The batches of sync/service.py write the states of sessions without it.
use bridgesat_agent.Common.{ℕ, ◌≤◌, ◌≡◌, refl, arith}
use bridgesat_agent.Session.{
  SessionState, new, profile_ready, diagnostic_active, diagnostic_complete, plan_ready,
  question_active, session_summary, session_completed, can_transition, transition, moved,
  illegal_transition, state_eq,
}

-- The states that `transition` calls lead to, one after another.
pub data Reach (s : SessionState) : SessionState → Type 0 where
  start : Reach s s
  step : {t u : SessionState} → Reach s t → transition t u ≡ moved u → Reach s u

-- The phase of a state: the set-up steps one by one, then practice, the summary and the end.
abbrev pub phase : SessionState → ℕ
phase new = 0
phase profile_ready = 1
phase diagnostic_active = 2
phase diagnostic_complete = 3
phase plan_ready = 4
phase session_summary = 6
phase session_completed = 7
phase _ = 5

transition-phase : (s t : SessionState) → transition s t ≡ moved t → phase s ≤ phase t
unfolding can_transition transition
transition-phase new t h = ground arith
transition-phase _ t h = ground arith

-- However many calls of `transition` succeed one after another, each on the state that the last one
-- returned, the phase of the last state is not before that of the first.
pub Reach-phase : (s t : SessionState) → Reach s t → phase s ≤ phase t
Reach-phase s t start = omega arith
Reach-phase s t (step {t = u} r h) = omega (arith, Reach-phase s u r, transition-phase u t h)

abbrev via :
    {s t : SessionState} (u : SessionState) → Reach s t → transition t u ≡ moved u → Reach s u
via u r h = step r h

from_summary : {s : SessionState} → Reach s session_summary → Reach s session_completed
unfolding can_transition transition
from_summary r = step r refl

from_question : {s : SessionState} → Reach s question_active → Reach s session_completed
unfolding can_transition transition
from_question r = from_summary (step r refl)

from_diagnostic : {s : SessionState} → Reach s diagnostic_complete → Reach s session_completed
unfolding can_transition transition
from_diagnostic r = from_question (step (step {u = plan_ready} r refl) refl)

-- From every state some transitions lead to the completed session.
pub can_finish : (s : SessionState) → Reach s session_completed
unfolding can_transition transition
can_finish new =
    from_diagnostic
      (step (step {u = diagnostic_active} (step {u = profile_ready} start refl) refl) refl)
can_finish profile_ready = from_diagnostic (step (step {u = diagnostic_active} start refl) refl)
can_finish diagnostic_active = from_diagnostic (step start refl)
can_finish diagnostic_complete = from_diagnostic start
can_finish plan_ready = from_question (step start refl)
can_finish session_summary = from_summary start
can_finish session_completed = start
can_finish question_active = from_question start
can_finish _ = from_summary (step start refl)

-- Only the summary state moves to the completed state, and a completed session refuses every
-- transition, with an error that names the two states.
end_is_final :
    (s t : SessionState)
    → (transition s session_completed ≡ moved session_completed → s ≡ session_summary)
      × (transition session_completed t ≡ illegal_transition session_completed t)
unfolding can_transition transition
end_is_final s t = (ends s, refl)
  where
    ends :
        (s : SessionState)
        → transition s session_completed ≡ moved session_completed
        → s ≡ session_summary
    ends new h = ground arith
    ends _ h = ground arith
