-- ===== src/Memory.antt =====
-- domain/memory.py: the bounded teaching actions, episodes and intervention statistics.
-- Scores are in hundredths.
pub mod Actions
pub mod Tables
pub mod Builder
pub mod Recall
pub mod Facts
pub mod Stats
pub mod Keys
pub mod Promotion
pub mod Recalled
pub mod Guarded
pub mod Completion
pub mod Blending
use text.Mathlib.Text.{◌==◌ as str_eq}
use bridgesat_agent.Common.{
  ℕ, ◌+◌, ◌*◌, ◌≡◌, ◌↔◌, Bool, true, false, Option, none, some, String, List, [], ◌∷◌,
  if◌then◌else◌, Eq, ◌==◌, nat_eq, test_of, test_of_iff, refl,
}

-- `BoundedAction`
pub data BoundedAction : Type 0 where
  ask_question give_hint_1 give_hint_2 give_hint_3 : BoundedAction
  show_micro_lesson show_worked_example retry_same_skill : BoundedAction
  lower_difficulty raise_difficulty switch_to_prerequisite : BoundedAction
  schedule_review end_with_review end_session : BoundedAction

BoundedAction-discrete : Discrete BoundedAction
BoundedAction-discrete = hlevel

unfoldable pub action_beq : BoundedAction → BoundedAction → Bool
unfolding BoundedAction-discrete
action_beq a b = test_of BoundedAction-discrete a b

pub action_beq_iff : (a b : BoundedAction) → (action_beq a b ≡ true) ↔ (a ≡ b)
unfolding action_beq
action_beq_iff a b = test_of_iff BoundedAction-discrete a b

instance abbrev pub action_eq : Eq BoundedAction
action_eq = record { decides = action_beq_iff; is_equal = action_beq }

-- The string that an action is: `action.value`.
unfoldable pub value : BoundedAction → String
value ask_question = "ASK_QUESTION"
value give_hint_1 = "GIVE_HINT_1"
value give_hint_2 = "GIVE_HINT_2"
value give_hint_3 = "GIVE_HINT_3"
value show_micro_lesson = "SHOW_MICRO_LESSON"
value show_worked_example = "SHOW_WORKED_EXAMPLE"
value retry_same_skill = "RETRY_SAME_SKILL"
value lower_difficulty = "LOWER_DIFFICULTY"
value raise_difficulty = "RAISE_DIFFICULTY"
value switch_to_prerequisite = "SWITCH_TO_PREREQUISITE"
value schedule_review = "SCHEDULE_REVIEW"
value end_with_review = "END_WITH_REVIEW"
value end_session = "END_SESSION"

-- The members of the enumeration, in its order.
abbrev pub members : List BoundedAction
members =
    ask_question ∷ give_hint_1 ∷ give_hint_2 ∷ give_hint_3 ∷ show_micro_lesson ∷ show_worked_example
    ∷ retry_same_skill ∷ lower_difficulty ∷ raise_difficulty ∷ switch_to_prerequisite
    ∷ schedule_review ∷ end_with_review ∷ end_session ∷ []

find_value : String → List BoundedAction → Option BoundedAction
find_value raw [] = none
find_value raw (a ∷ rest) = if str_eq raw (value a) then some a else find_value raw rest

-- `BoundedAction(raw)`, the member with that value; `none` is its `ValueError`.
unfoldable pub parse_action : String → Option BoundedAction
unfolding find_value
parse_action raw = find_value raw members

-- `outcome_component_score`
unfoldable pub outcome_component_score : Bool → ℕ → ℕ
outcome_component_score false hint_level = 0
outcome_component_score true hint_level =
    if hint_level == 0
    then 100
    else if hint_level == 1
    then 80
    else if hint_level == 2
    then 50
    else 20
