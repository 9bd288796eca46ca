-- ===== src/Agent/Refusals.antt =====
-- How a presentation fails (sync/service.py `_start_presented_intervention`).
use bridgesat_agent.Common.{
  ◌≡◌, ◌⊎◌, refl, ◌∙◌, Bool, true, false, String, Option, none, some, List, [], ◌==◌, ℕ, nat_eq,
  string_eq, option_eq, arith, lookup, beq_refl, none-some, find_by, Option-cases, inl, inr,
  if◌then◌else◌,
}
use bridgesat_agent.Memory.Tables.{Written, written, refused}
use bridgesat_agent.Memory.Builder.{start_runtime_candidate}
use bridgesat_agent.Policy.Types.{truthy}
use bridgesat_agent.Sync.Types.{Envelope, Store, other_error}
use bridgesat_agent.Sync.Scoring.{PackDir, PackAnswerKey, load, available_versions, pack}
use bridgesat_agent.Sync.Rows.{Result, done, raised, ◌>>=◌, invalid}
use bridgesat_agent.Agent.{Rest}
use bridgesat_agent.Agent.Decide.{Setup, in_batch}
use bridgesat_agent.Agent.Lessons.{lesson_type_of}
use bridgesat_agent.Agent.Payloads.{
  Presentation, Row, decision_row, expected_action, presentation_of, required, required_number,
  unless,
}
use bridgesat_agent.Agent.Present.{
  expected_payload, presented_episode_id, start_episode, start_for, start_presented_intervention,
}

load-version :
    (v : String) (dir : PackDir) (key : PackAnswerKey)
    → load v dir ≡ some key
    → key.pack_version ≡ v
unfolding load
load-version v dir key h = ground (arith, h)

-- The key that a registry gives for a version is of that version.
pack-version :
    (dirs : List PackDir) (v : String) (key : PackAnswerKey)
    → (pack dirs [] v).0 ≡ some key
    → key.pack_version ≡ v
unfolding pack
pack-version dirs v key h = elim (Option-cases (lookup v (available_versions dirs []))) [
  | inl absent ↦ absurd (none-some (rw (absent, pack) at h))
  | inr (dir, there) ↦ elim (Option-cases (load v dir)) [
    | inl broken ↦ absurd (none-some (rw (there, broken, pack) at h))
    | inr (k, loaded) ↦ load-version v dir key (loaded ∙ rw (there, loaded, pack) at h)
  ]
]

-- A failure is a rejection as `INVALID_SCHEMA`, or ends the batch.
abbrev pub Refuses : {A : Type 0} → Result A → Type 0
Refuses (done a) = Unit
Refuses (raised f) = (f ≡ invalid) ⊎ (f ≡ other_error)

Refuses-bind :
    {A B : Type 0} (m : Result A) (f : A → Result B)
    → Refuses m
    → ((a : A) → Refuses (f a))
    → Refuses (m >>= f)
Refuses-bind (done a) f h k = k a
Refuses-bind (raised e) f h k = h

Refuses-unless : {A : Type 0} (b : Bool) (next : Result A) → Refuses next → Refuses (unless b next)
Refuses-unless true next h = inl refl
Refuses-unless false next h = h

Refuses-if :
    {A : Type 0} (b : Bool) (x y : Result A) → Refuses x → Refuses y → Refuses (if b then x else y)
Refuses-if true x y h k = h
Refuses-if false x y h k = k

Refuses-option :
    {A B : Type 0} (o : Option B) (x : Result A) (f : B → Result A)
    → Refuses x
    → ((b : B) → Refuses (f b))
    → Refuses (elim o [ none ↦ x | some b ↦ f b ])
Refuses-option none x f h k = h
Refuses-option (some b) x f h k = k b

required-Refuses : (t : Option String) → Refuses (required t)
required-Refuses none = inl refl
required-Refuses (some t) = Refuses-if (truthy (some t)) _ _ tt (inl refl)

required_number-Refuses : (n : Option ℕ) → Refuses (required_number n)
required_number-Refuses none = inl refl
required_number-Refuses (some n) = Refuses-if (n == 0) _ _ (inl refl) tt

in_batch-Refuses : {A : Type 0} (o : Written A) → Refuses (in_batch o)
in_batch-Refuses (written a m) = tt
in_batch-Refuses (refused f) = inr refl

presentation_of-Refuses : (e : Envelope) → Refuses (presentation_of e)
unfolding presentation_of
presentation_of-Refuses e =
    Refuses-option (expected_action e.event_type) (raised invalid) _ (inl refl) (λ action.
      Refuses-bind (required e.payload.source_answer_event_id) _ (required-Refuses _) (λ source.
        Refuses-bind (required e.payload.content_id) _ (required-Refuses _) (λ content.
          Refuses-bind (required_number e.payload.content_version) _
            (required_number-Refuses e.payload.content_version)
            (λ version. Refuses-bind (required e.payload.skill) _ (required-Refuses _) (λ skill.
              Refuses-bind (required e.payload.intervention) _ (required-Refuses _)
                (λ intervention. ground arith))))))

expected_payload-Refuses :
    (w : Setup) (e : Envelope) (p : Presentation) (kind : String) (row : Row) (s : Store Rest)
    → Refuses (expected_payload w e p kind row s)
unfolding expected_payload
expected_payload-Refuses w e p kind row s = ground arith

start_episode-Refuses :
    (w : Setup) (e : Envelope) (p : Presentation) (trigger : String) (s : Store Rest)
    → Refuses (start_episode w e p trigger s)
unfolding start_episode
start_episode-Refuses w e p trigger s =
    Refuses-option (find_by (λ r. r.episode_id == presented_episode_id w p) s.rest.memory.episodes)
      _ (λ episode. done s.rest)
      (Refuses-bind (in_batch (start_runtime_candidate _ _ _ _ _ _ _)) _ (in_batch-Refuses _)
        (λ r. tt))
      (λ episode. tt)

start_for-Refuses :
    (w : Setup) (e : Envelope) (p : Presentation) (row : Row) (s : Store Rest)
    → Refuses (start_for w e p row s)
unfolding start_for
start_for-Refuses w e p row s = elim (Option-cases ((pack w.dirs [] e.content_pack_version).0)) [
  | inl absent ↦ rw (absent, start_for) (inr refl)
  | inr (key, packed) ↦
      rw
        (
          packed,
          start_for,
          pack-version w.dirs e.content_pack_version key packed,
          beq_refl e.content_pack_version,
        )
        (Refuses-unless _ _ (
          Refuses-option (lesson_type_of p.intervention) (raised invalid) _ (inl refl) (λ kind.
            Refuses-bind (expected_payload w e p kind row s) _
              (expected_payload-Refuses w e p kind row s)
              (λ expected.
                Refuses-option row.source_question_id (raised invalid) _ (inl refl)
                  (λ trigger. Refuses-unless _ _ (start_episode-Refuses w e p trigger s))))))
]

-- A presentation fails in two ways only: it is rejected as `INVALID_SCHEMA`, or it ends the batch. The
-- rejection as `QUESTION_VERSION_UNKNOWN` that the code has for an unknown pack never happens.
pub start-Refuses :
    (w : Setup) (e : Envelope) (s : Store Rest) → Refuses (start_presented_intervention w e s)
unfolding start_presented_intervention
start-Refuses w e s = Refuses-bind (presentation_of e) _ (presentation_of-Refuses e) (λ p.
    Refuses-option (decision_row e p.source_answer_event_id s) (raised invalid) _ (inl refl)
      (λ row. start_for-Refuses w e p row s))

-- A presentation of a recorded decision that names a pack which is not published ends the batch.
unknown_pack_aborts :
    (w : Setup) (e : Envelope) (s : Store Rest) (p : Presentation) (row : Row)
    → presentation_of e ≡ done p
    → decision_row e p.source_answer_event_id s ≡ some row
    → (pack w.dirs [] e.content_pack_version).0 ≡ none
    → start_presented_intervention w e s ≡ raised other_error
unfolding start_presented_intervention start_for
unknown_pack_aborts w e s p row said decided absent =
    rw (said, ◌>>=◌, decided, absent, start_for) refl
