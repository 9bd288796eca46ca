-- ===== src/Agent/Offered.antt =====
-- What the checks of a presented lesson mean (sync/service.py `_lesson_matches_durable_payload`).
use bridgesat_agent.Common.{
  ◌≡◌, refl, ◌∙◌, sym, ap, Bool, true, false, String, Option, none, some, List, [], ℕ,
  if◌then◌else◌, nat_eq, string_eq, option_eq, arith, some_injective, none-some, Option-cases, inl,
  inr,
}
use bridgesat_agent.Sync.Types.{Envelope, Store}
use bridgesat_agent.Sync.Scoring.{PackDir, Lesson, PackAnswerKey, pack, teaching_asset_meta}
use bridgesat_agent.Sync.Rows.{done, raised, invalid}
use bridgesat_agent.Sync.Frame.{Gives}
use bridgesat_agent.Agent.{LessonPayload, Registry, Rest}
use bridgesat_agent.Agent.Decide.{Setup}
use bridgesat_agent.Agent.Lessons.{
  lesson_matches_durable_payload, lesson_matches_verified_payload, matches_durable, offered,
  registry_matches_lesson, suits,
}
use bridgesat_agent.Agent.Payloads.{Presentation, Row}
use bridgesat_agent.Agent.Present.{
  durable_payload, expected_payload, verified_action_of, verified_payload_of,
}
use bridgesat_agent.Agent.Teaching.{IsCandidate, teaching-IsCandidate}

offered_means :
    (dirs : List PackDir) (v kind skill : String) (misconception : Option String)
    (key : PackAnswerKey) (l : Lesson)
    → offered dirs v kind misconception (some skill) ≡ some (key, l)
    → ((pack dirs [] v).0 ≡ some key) × IsCandidate skill kind l
unfolding offered
offered_means dirs v kind skill misconception key l h = elim (Option-cases ((pack dirs [] v).0)) [
  | inl absent ↦ absurd (none-some (rw (absent, offered) at h))
  | inr (k, packed) ↦ elim (Option-cases (teaching_asset_meta k skill kind misconception)) [
    | inl nothing ↦ absurd (none-some (rw (packed, nothing, offered) at h))
    | inr (x, there) ↦
        let same : (k, x) ≡ (key, l) = some_injective (rw (packed, there, offered) at h) in
        (
          packed ∙ ap (λ q. some q.0) same,
          teaching-IsCandidate key skill kind misconception l
              (rw (ap (λ q. q.0) same, ap (λ q. q.1) same) at there),
        )
  ]
]

-- The lesson of this id and version is what the pack offers for the skill, approved and registered.
abbrev pub IsOffered :
    List PackDir → Registry → String → String → Option String → String → String → ℕ → Type 0
IsOffered dirs registry v kind misconception skill content_id version =
    (key : PackAnswerKey) × (l : Lesson) × ((pack dirs [] v).0 ≡ some key)
    × IsCandidate skill kind l
    × (l.id ≡ content_id)
    × (l.version ≡ version)
    × (registry_matches_lesson registry key l ≡ true)
    × (suits misconception l.target_misconceptions ≡ true)

false-true : false ≡ true → ⊥
false-true h = cc h

matches_means :
    (registry : Registry) (misconception : Option String) (payload : LessonPayload)
    (key : PackAnswerKey) (l : Lesson) (content_id : String) (version : ℕ)
    → payload.content_id ≡ some content_id
    → payload.content_version ≡ some version
    → matches_durable registry misconception payload key l ≡ true
    → (l.id ≡ content_id)
      × (l.version ≡ version)
      × (registry_matches_lesson registry key l ≡ true)
      × (suits misconception l.target_misconceptions ≡ true)
unfolding matches_durable
matches_means registry misconception payload key l content_id version b c h =
    let same_id = option_eq.decides payload.content_id (some l.id) in
    let same_version = option_eq.decides payload.content_version (some l.version) in
    ground (arith, h, same_id, same_version, b, c)

pub durable_means :
    (dirs : List PackDir) (registry : Registry) (v kind : String) (misconception : Option String)
    (payload : LessonPayload) (skill content_id : String) (version : ℕ)
    → payload.skill ≡ some skill
    → payload.content_id ≡ some content_id
    → payload.content_version ≡ some version
    → lesson_matches_durable_payload dirs registry v kind misconception payload ≡ true
    → IsOffered dirs registry v kind misconception skill content_id version
unfolding lesson_matches_durable_payload
durable_means dirs registry v kind misconception payload skill content_id version a b c h =
    elim (Option-cases (offered dirs v kind misconception (some skill))) [
      | inl nothing ↦ absurd (
          false-true (
            ap (matched payload) (sym nothing)
            ∙ ap (λ x. matched payload (offered dirs v kind misconception x)) (sym a)
            ∙ h))
      | inr ((key, l), there) ↦
          let (packed, good) = offered_means dirs v kind skill misconception key l there in
          let passes : matches_durable registry misconception payload key l ≡ true =
            ap (matched payload) (sym there)
            ∙ ap (λ x. matched payload (offered dirs v kind misconception x)) (sym a)
            ∙ h in
          let means =
            matches_means registry misconception payload key l content_id version b c passes in
          (key, l, packed, good, means.0, means.1, means.2, means.3)
    ]
  where
    matched : LessonPayload → Option (PackAnswerKey × Lesson) → Bool
    matched payload o = elim o [
      | none ↦ false
      | some (key, l) ↦ matches_durable registry misconception payload key l
    ]

verified_durable :
    (dirs : List PackDir) (registry : Registry) (v kind : String) (misconception : Option String)
    (payload : LessonPayload)
    → lesson_matches_verified_payload dirs registry v kind misconception payload ≡ true
    → lesson_matches_durable_payload dirs registry v kind misconception payload ≡ true
unfolding lesson_matches_verified_payload
verified_durable dirs registry v kind misconception payload h = ground (arith, h)

Gives-test :
    {A : Type 0} (P : A → Type 0) (b : Bool) (a : A)
    → (b ≡ true → P a)
    → Gives P (if b then done a else raised invalid)
Gives-test P true a h = h refl
Gives-test P false a h = tt

-- The check that both kinds of payload pass.
abbrev pub Matches : Setup → Envelope → Presentation → String → Store Rest → LessonPayload → Type 0
Matches w e p kind s payload =
    lesson_matches_durable_payload w.dirs s.rest.registry e.content_pack_version kind
      p.misconception payload
    ≡ true

pub expected_payload-Matches :
    (w : Setup) (e : Envelope) (p : Presentation) (kind : String) (row : Row) (s : Store Rest)
    → Gives (Matches w e p kind s) (expected_payload w e p kind row s)
unfolding expected_payload
expected_payload-Matches w e p kind row s = elim (Option-cases (verified_action_of row)) [
  | inl durable ↦
      rw (durable, expected_payload)
        (Gives-test (Matches w e p kind s) _ (durable_payload row.event.action_payload) (λ h. h))
  | inr (action, ranked) ↦ elim (Option-cases (verified_payload_of row)) [
    | inl missing ↦ rw (ranked, missing, expected_payload) tt
    | inr (payload, there) ↦
        rw (ranked, there, expected_payload)
          (Gives-test (Matches w e p kind s) _ payload (
            verified_durable w.dirs s.rest.registry e.content_pack_version kind p.misconception
              payload))
  ]
]
