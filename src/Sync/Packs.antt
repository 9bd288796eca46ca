-- ===== src/Sync/Packs.antt =====
-- The answer keys (sync/versioned_scoring.py): keeping loaded packs changes no answer, and an answer is
-- scored by the very version that the event names.
use text.Mathlib.TextEquality.{eq_iff}
use mathlib.Core.Path.{subst}
use bridgesat_agent.Common.{
  Bool-cases, ◌≡◌, refl, sym, ◌∙◌, inl, inr, String, some, List, [], if◌then◌else◌, ◌==◌, nat_eq,
  string_eq, lookup, insert, lookup-insert, Option-cases, arith,
}
use bridgesat_agent.Sync.Scoring.{PackDir, PackAnswerKey, load, available_versions, pack}

-- Every kept key is the one that a fresh registry loads.
abbrev pub IsFresh : List PackDir → List (String × PackAnswerKey) → Type 0
IsFresh dirs packs =
    (v : String) (key : PackAnswerKey) → lookup v packs ≡ some key → (pack dirs [] v).0 ≡ some key

fresh_load :
    (dirs : List PackDir) (v : String) (dir : PackDir) (key : PackAnswerKey)
    → lookup v (available_versions dirs []) ≡ some dir
    → load v dir ≡ some key
    → (pack dirs [] v).0 ≡ some key
unfolding pack
fresh_load dirs v dir key a l = ground (arith, a, l)

insert-IsFresh :
    (dirs : List PackDir) (packs : List (String × PackAnswerKey)) (v : String) (key : PackAnswerKey)
    → (pack dirs [] v).0 ≡ some key
    → IsFresh dirs packs
    → IsFresh dirs (insert v key packs)
insert-IsFresh dirs packs v key loaded h v' key' found =
    let at : lookup v' (insert v key packs) ≡ (if v == v' then some key else lookup v' packs) =
      lookup-insert v v' key packs in
    elim (Bool-cases (v == v')) [
      | inl same ↦
          let kept : some key ≡ some key' = rw same at (sym at ∙ found) in
          subst (λ u. (pack dirs [] u).0 ≡ some key') ((eq_iff v v').0 same) (loaded ∙ kept)
      | inr other ↦ h v' key' (rw other at (sym at ∙ found))
    ]

-- Keeping loaded packs changes no answer: a lookup gives what a fresh registry gives, and what it
-- keeps is fresh again.
pub cache_transparent :
    (dirs : List PackDir) (packs : List (String × PackAnswerKey)) (v : String)
    → IsFresh dirs packs
    → ((pack dirs packs v).0 ≡ (pack dirs [] v).0) × IsFresh dirs (pack dirs packs v).1
unfolding pack
cache_transparent dirs packs v h = elim (Option-cases (lookup v packs)) [
  | inr (key, kept) ↦ rw (kept, pack) (sym (h v key kept), h)
  | inl new ↦ elim (Option-cases (lookup v (available_versions dirs []))) [
    | inl absent ↦ rw (new, absent, pack) (refl, h)
    | inr (dir, there) ↦ elim (Option-cases (load v dir)) [
      | inl broken ↦ rw (new, there, broken, pack) (refl, h)
      | inr (key, loaded) ↦
          rw (new, there, loaded, pack)
            (refl, insert-IsFresh dirs packs v key (fresh_load dirs v dir key there loaded) h)
    ]
  ]
]
