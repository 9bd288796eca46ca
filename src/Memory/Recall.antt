-- ===== src/Memory/Recall.antt =====
-- The reads of `PGMemory` (memory/pg_memory.py): the recall of successful and of contradicting
-- episodes, and the keys of facts. Rows of one time may come in either order.
use Prim.Native.String.{◌++◌ as ◌^◌, [] as no_text, ◌∷◌ as ◌then◌}
use Prim.Native.Char.{Char, char, code}
use bridgesat_agent.Common.{
  ℕ, Bool, true, not, ◌&&◌, ◌||◌, String, Option, none, some, List, [], ◌∷◌, if◌then◌else◌, ◌==◌,
  string_eq, nat_eq, option_eq, leb, take, filter_by, sort_by,
}
use bridgesat_agent.Policy.Types.{truthy}
use bridgesat_agent.Memory.Tables.{validated, contradicted, episode_eq, Episode}
use bridgesat_agent.Memory.Builder.{newest_first, passes_filter}

-- `validated_episode_ids`, as a list
abbrev pub ids_of : List Episode → List String
ids_of [] = []
ids_of (e ∷ rest) = e.episode_id ∷ ids_of rest

unfoldable pub validated_episode_ids : String → List Episode → List String
validated_episode_ids student_id episodes =
    ids_of (filter_by (λ e. e.student_id == student_id && e.status == validated) episodes)

-- A misconception that is asked for, `none` among them, or `UNSET_MISCONCEPTION`.
pub data Wanted : Type 0 where
  unset : Wanted
  exactly : Option String → Wanted

abbrev pub passes_wanted : Wanted → Option String → Bool
passes_wanted unset m = true
passes_wanted (exactly wanted) m = m == wanted

abbrev pub is_recalled : String → String → Wanted → Option String → Episode → Bool
is_recalled student_id skill misconception intervention e =
    e.student_id == student_id
    && e.status == validated
    && leb 60 e.effectiveness
    && e.skill == skill
    && passes_wanted misconception e.misconception
    && passes_filter intervention (some e.intervention)

-- `recall_episodes`
unfoldable pub recall_episodes :
    String → String → Wanted → Option String → ℕ → List Episode → List Episode
recall_episodes student_id skill misconception intervention limit episodes = take limit (
    sort_by newest_first
      (filter_by (is_recalled student_id skill misconception intervention) episodes))

abbrev pub is_contradicting : String → String → Option String → Episode → Bool
is_contradicting student_id skill misconception e =
    e.student_id == student_id
    && e.skill == skill
    && e.misconception == misconception
    && (e.status == contradicted || not e.outcome.correct)

-- `recall_contradicting_episodes`
unfoldable pub recall_contradicting_episodes :
    String → String → Option String → ℕ → List Episode → List Episode
recall_contradicting_episodes student_id skill misconception limit episodes =
    take limit
      (sort_by newest_first (filter_by (is_contradicting student_id skill misconception) episodes))

-- `KEY_SEPARATOR`, the unit separator
abbrev pub key_separator : ℕ
key_separator = 31

abbrev pub separator : Char
separator = char 31 tt

abbrev pub text_of : Option String → String
text_of none = ""
text_of (some t) = t

-- `fact_key`
unfoldable pub fact_key : String → Option String → String → String
fact_key skill misconception intervention =
    skill ^ (separator then (text_of misconception ^ (separator then intervention)))

abbrev pub prepend : Char → List String → List String
prepend c [] = []
prepend c (t ∷ ts) = (c then t) ∷ ts

-- `key.split(KEY_SEPARATOR)`
unfoldable pub split_key : String → List String
split_key no_text = no_text ∷ []
split_key (c then t) =
    let rest = split_key t in if code c == key_separator then no_text ∷ rest else prepend c rest

-- `text or None`
abbrev pub or_none : String → Option String
or_none t = if truthy (some t) then some t else none

-- `list_episodes_for_fact`; `none` is the `ValueError` of a key that has not three parts.
unfoldable pub list_episodes_for_fact : String → String → List Episode → Option (List Episode)
list_episodes_for_fact student_id key episodes = elim (split_key key) [
  | [] ↦ none
  | skill ∷ rest ↦ elim rest [
    | [] ↦ none
    | misconception ∷ rest' ↦ elim rest' [
      | [] ↦ none
      | intervention ∷ rest'' ↦ elim rest'' [
        | [] ↦ some (
            recall_episodes student_id skill (exactly (or_none misconception))
              (or_none intervention) 50 episodes)
        | _ ∷ _ ↦ none
      ]
    ]
  ]
]
