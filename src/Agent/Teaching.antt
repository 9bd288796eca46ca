-- ===== src/Agent/Teaching.antt =====
-- A teaching decision and the check of its presentation (sync/service.py `serve` and
-- `_lesson_matches_durable_payload`).
use bridgesat_agent.Common.{
  ◌≡◌, refl, sym, true, ◌&&◌, String, Option, none, some, List, [], ◌∷◌, ◌==◌, nat_eq, string_eq,
  option_eq, beq_refl, arith, All, All-sort_by, All-filtered, found-All, All-map, some_injective,
  none-some, ◌∙◌, find_by, Bool-cases, Option-cases, inl, inr,
}
use bridgesat_agent.Memory.{value}
use bridgesat_agent.Policy.Types.{PolicyInput, PolicyResult}
use bridgesat_agent.Sync.Scoring.{
  PackDir, Lesson, PackAnswerKey, pack, teaching_asset_meta, lesson_candidates, by_id, targets,
  first,
}
use bridgesat_agent.Agent.{ActionPayload, Registry}
use bridgesat_agent.Agent.Lessons.{
  lesson_matches_durable_payload, lesson_matches_verified_payload, lesson_type_of, matches_durable,
  matches_verified, offered, registry_matches_lesson, suits,
}
use bridgesat_agent.Agent.Serve.{
  as_decided, content_unavailable, payload_of_lesson, serve, with_lesson,
}

-- What every candidate is.
abbrev pub IsCandidate : String → String → Lesson → Type 0
IsCandidate skill kind l =
    (l.content_type ≡ kind) × (l.target_skill ≡ skill) × (l.review_status ≡ "approved")

candidates-IsCandidate :
    (key : PackAnswerKey) (skill kind : String)
    → All (IsCandidate skill kind) (lesson_candidates key skill kind)
unfolding lesson_candidates
candidates-IsCandidate key skill kind = All-sort_by (IsCandidate skill kind) by_id _ (
    All-map _ (IsCandidate skill kind) _
      (λ l e. ground (
        arith,
        e,
        string_eq.decides l.content_type kind,
        string_eq.decides l.target_skill skill,
        string_eq.decides l.review_status "approved",
      ))
      (All-filtered
        (λ l. l.content_type == kind && l.target_skill == skill && l.review_status == "approved")
        key.lessons))

first-All :
    (P : Lesson → Type 0) (ls : List Lesson) (l : Lesson) → All P ls → first ls ≡ some l → P l
first-All P [] l h e = absurd (none-some e)
first-All P (x ∷ ls) l h e = rw (← some_injective e) h.0

pub teaching-IsCandidate :
    (key : PackAnswerKey) (skill kind : String) (misconception : Option String) (l : Lesson)
    → teaching_asset_meta key skill kind misconception ≡ some l
    → IsCandidate skill kind l
unfolding teaching_asset_meta
teaching-IsCandidate key skill kind misconception l h =
    elim (Option-cases (find_by (targets misconception) (lesson_candidates key skill kind))) [
      | inl nobody ↦
          first-All (IsCandidate skill kind) (lesson_candidates key skill kind) l
            (candidates-IsCandidate key skill kind) (rw (nobody, teaching_asset_meta) at h)
      | inr (x, there) ↦
          found-All (IsCandidate skill kind) (targets misconception)
            (lesson_candidates key skill kind) l (candidates-IsCandidate key skill kind)
            (there ∙ rw (there, teaching_asset_meta) at h)
    ]

-- The lesson that the check looks up for a served one is that lesson.
offered_again :
    (dirs : List PackDir) (v : String) (key : PackAnswerKey) (skill kind : String)
    (misconception : Option String) (l : Lesson)
    → (pack dirs [] v).0 ≡ some key
    → teaching_asset_meta key skill kind misconception ≡ some l
    → offered dirs v kind misconception (some l.target_skill) ≡ some (key, l)
unfolding offered
offered_again dirs v key skill kind misconception l packed there =
    ground (arith, packed, there, (teaching-IsCandidate key skill kind misconception l there).1)

durable_again :
    (registry : Registry) (misconception : Option String) (key : PackAnswerKey) (l : Lesson)
    → l.review_status ≡ "approved"
    → registry_matches_lesson registry key l ≡ true
    → matches_durable registry misconception (payload_of_lesson key l misconception) key l
      ≡ suits misconception l.target_misconceptions
unfolding matches_durable
durable_again registry misconception key l approved registered =
    rw
      (
        (string_eq.decides l.review_status "approved").1 approved,
        registered,
        beq_refl l.id,
        beq_refl l.version,
        beq_refl l.target_skill,
        beq_refl misconception,
      )
      refl

verified_again :
    (misconception : Option String) (key : PackAnswerKey) (l : Lesson)
    → l.review_status ≡ "approved"
    → matches_verified (payload_of_lesson key l misconception) key l ≡ true
unfolding matches_verified
verified_again misconception key l approved =
    rw
      (
        (string_eq.decides l.review_status "approved").1 approved,
        beq_refl key.pack_version,
        beq_refl l.content_hash,
        beq_refl l.source_lineage,
      )
      refl

-- The payload has an approved lesson of the skill and the kind that the registry has as it is, and
-- both checks of a presentation pass it exactly when it suits the misconception.
abbrev pub Teaches :
    List PackDir
    → Registry
    → String
    → PackAnswerKey
    → Option String
    → String
    → String
    → ActionPayload
    → Type 0
Teaches dirs registry v key misconception skill kind payload =
    (l : Lesson) × (payload.lesson ≡ some (payload_of_lesson key l misconception))
    × IsCandidate skill kind l
    × (registry_matches_lesson registry key l ≡ true)
    × (lesson_matches_durable_payload dirs registry v kind misconception
          (payload_of_lesson key l misconception)
        ≡ suits misconception l.target_misconceptions)
    × (lesson_matches_verified_payload dirs registry v kind misconception
          (payload_of_lesson key l misconception)
        ≡ suits misconception l.target_misconceptions)

lesson-Teaches :
    (dirs : List PackDir) (registry : Registry) (v : String) (key : PackAnswerKey)
    (misconception : Option String) (skill kind : String) (l : Lesson) (payload : ActionPayload)
    → (pack dirs [] v).0 ≡ some key
    → teaching_asset_meta key skill kind misconception ≡ some l
    → registry_matches_lesson registry key l ≡ true
    → payload.lesson ≡ some (payload_of_lesson key l misconception)
    → Teaches dirs registry v key misconception skill kind payload
unfolding lesson_matches_durable_payload lesson_matches_verified_payload
lesson-Teaches dirs registry v key misconception skill kind l payload packed there registered
      merged =
    let good = teaching-IsCandidate key skill kind misconception l there in
    let again = offered_again dirs v key skill kind misconception l packed there in
    let durable = durable_again registry misconception key l good.2 registered in
    (
      l,
      merged,
      good,
      registered,
      ground (arith, again, durable),
      ground (arith, again, durable, verified_again misconception key l good.2),
    )

-- The fallback teaches nothing.
fallback_type :
    (inputs : PolicyInput) (r : PolicyResult)
    → lesson_type_of (content_unavailable inputs r).action ≡ none
unfolding content_unavailable lesson_type_of value
fallback_type inputs r = refl

-- A recorded decision for a teaching action carries a lesson: an approved one of the pack, of the
-- skill and the kind of the action, that the registry of published content has unchanged. The checks
-- that its presentation must pass later, for a durable decision and for a ranked one, accept it
-- exactly when the lesson targets no misconception in particular or the one of the answer.
pub serve-Teaches :
    (dirs : List PackDir) (registry : Registry) (v : String) (key : PackAnswerKey)
    (misconception : Option String) (inputs : PolicyInput) (r : PolicyResult) (kind : String)
    → (pack dirs [] v).0 ≡ some key
    → lesson_type_of (serve registry key misconception inputs r).action ≡ some kind
    → Teaches dirs registry v key misconception inputs.skill kind
        (serve registry key misconception inputs r).action_payload
unfolding serve as_decided with_lesson content_unavailable
serve-Teaches dirs registry v key misconception inputs r kind packed teaches =
    elim (Option-cases (lesson_type_of r.decision.action)) [
      | inl other ↦ absurd (none-some (sym other ∙ rw (other, serve) at teaches))
      | inr (k, typed) ↦
          elim (Option-cases (teaching_asset_meta key inputs.skill k misconception)) [
            | inl absent ↦
                absurd
                  (none-some (sym (fallback_type inputs r) ∙ rw (typed, absent, serve) at teaches))
            | inr (l, there) ↦ elim (Bool-cases (registry_matches_lesson registry key l)) [
              | inr stale ↦ absurd (
                  none-some
                    (sym (fallback_type inputs r) ∙ rw (typed, there, stale, serve) at teaches))
              | inl registered ↦
                  let same : k ≡ kind =
                    some_injective (sym typed ∙ rw (typed, there, registered, serve) at teaches) in
                  lesson-Teaches dirs registry v key misconception inputs.skill kind l
                    (serve registry key misconception inputs r).action_payload packed
                    (rw same at there) registered (rw (typed, there, registered, serve) refl)
            ]
          ]
    ]
