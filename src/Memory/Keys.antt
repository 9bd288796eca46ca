-- ===== src/Memory/Keys.antt =====
-- The key of a fact is taken apart again into its three parts (memory/pg_memory.py).
use Prim.Native.String.{◌++◌ as ◌^◌, [] as no_text, ◌∷◌ as ◌then◌}
use Prim.Native.Char.{code}
use text.Mathlib.TextLemmas.{nil-append, cons-append}
use bridgesat_agent.Common.{
  ◌≡◌, refl, true, false, String, some, List, [], ◌∷◌, if◌then◌else◌, ◌==◌, nat_eq,
}
use bridgesat_agent.Policy.Types.{truthy}
use bridgesat_agent.Memory.Tables.{Episode}
use bridgesat_agent.Memory.Recall.{
  separator, key_separator, fact_key, split_key, exactly, recall_episodes, list_episodes_for_fact,
}

-- The text has no unit separator.
abbrev pub IsPlain : String → Type 0
IsPlain no_text = Unit
IsPlain (c then t) = ((code c == key_separator) ≡ false) × IsPlain t

split-plain : (t : String) → IsPlain t → split_key t ≡ t ∷ []
unfolding split_key
split-plain no_text h = refl
split-plain (c then t) h = rw (h.0, split-plain t h.1) refl

split-join :
    (t rest : String) → IsPlain t → split_key (t ^ (separator then rest)) ≡ t ∷ split_key rest
unfolding split_key
split-join no_text rest h = rw nil-append refl
split-join (c then t) rest h = rw (cons-append, h.0, split-join t rest h.1) refl

split-fact_key :
    (skill misconception intervention : String)
    → IsPlain skill
    → IsPlain misconception
    → IsPlain intervention
    → split_key (skill ^ (separator then (misconception ^ (separator then intervention))))
      ≡ skill ∷ misconception ∷ intervention ∷ []
split-fact_key skill misconception intervention s m i =
    rw
      (
        split-join skill (misconception ^ (separator then intervention)) s,
        split-join misconception intervention m,
        split-plain intervention i,
      )
      refl

-- The key of an episode leads back to its three parts: for a skill, a misconception and an
-- intervention without the separator, of which the last two are not empty, the episodes that
-- support the fact are the recalled ones with just these three.
pub list_episodes-fact_key :
    (student_id skill misconception intervention : String) (episodes : List Episode)
    → IsPlain skill
    → IsPlain misconception
    → IsPlain intervention
    → truthy (some misconception) ≡ true
    → truthy (some intervention) ≡ true
    → list_episodes_for_fact student_id (fact_key skill (some misconception) intervention) episodes
      ≡ some (
          recall_episodes student_id skill
            (exactly (some misconception))
            (some intervention)
            50
            episodes)
unfolding list_episodes_for_fact fact_key
list_episodes-fact_key student_id skill misconception intervention episodes s m i tm ti =
    rw (split-fact_key skill misconception intervention s m i, list_episodes_for_fact, tm, ti) refl
