-- ===== src/Memory/Actions.antt =====
-- The strings of the actions are read back as the actions that they are.
use text.Mathlib.TextEquality.{eq_iff}
use bridgesat_agent.Common.{◌≡◌, ◌↔◌, refl, some, arith, String, List, [], ◌∷◌}
use bridgesat_agent.Memory.{BoundedAction, ask_question, value, find_value, members, parse_action}

pub parse_action-value : (a : BoundedAction) → parse_action (value a) ≡ some a
unfolding parse_action value
parse_action-value ask_question = refl
parse_action-value _ = refl

value_of_find_value :
    (raw : String) (a : BoundedAction) (candidates : List BoundedAction)
    → find_value raw candidates ≡ some a
    → raw ≡ value a
unfolding find_value
value_of_find_value raw a [] h = cc
value_of_find_value raw a (b ∷ rest) h =
    ground (arith, eq_iff raw (value b), value_of_find_value raw a rest)

-- A raw string is read as an action exactly when it is that action's string.
parse_action_iff :
    (raw : String) (a : BoundedAction) → (parse_action raw ≡ some a) ↔ (raw ≡ value a)
unfolding parse_action
parse_action_iff raw a = (value_of_find_value raw a members, λ e. rw e (parse_action-value a))
