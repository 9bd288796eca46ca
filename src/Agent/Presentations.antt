-- ===== src/Agent/Presentations.antt =====
-- What a presented lesson starts (sync/service.py `_start_presented_intervention`).
use bridgesat_agent.Common.{
  ◌≡◌, ◌⊎◌, refl, sym, Bool, true, false, not, String, Option, none, some, List, [], ◌∷◌, ◌++◌,
  ◌==◌, nat_eq, beq_refl, string_eq, option_eq, arith, find_by, none-some, Bool-cases, Option-cases,
  inl, inr,
}
use bridgesat_agent.Memory.Tables.{Episode, MemoryStore, ensure_active_student, guarded}
use bridgesat_agent.Memory.Builder.{candidate_of, insert_episode, start_runtime_candidate}
use bridgesat_agent.Sync.Types.{Envelope, Store, Fault}
use bridgesat_agent.Sync.Scoring.{pack}
use bridgesat_agent.Sync.Rows.{Result, done, raised, ◌>>=◌, invalid}
use bridgesat_agent.Sync.Frame.{Gives, Gives-if, Gives-weaken, Gives-bind}
use bridgesat_agent.Agent.{LessonPayload, Rest}
use bridgesat_agent.Agent.Decide.{Setup, in_batch}
use bridgesat_agent.Agent.Lessons.{lesson_type_of}
use bridgesat_agent.Agent.Offered.{IsOffered, Matches, durable_means, expected_payload-Matches}
use bridgesat_agent.Agent.Payloads.{Presentation, Row, decision_row, presentation_of, unless}
use bridgesat_agent.Agent.Present.{
  agrees, expected_payload, presented_episode_id, served_action, start_episode, start_for,
  start_presented_intervention,
}

-- The row that is added at the end is found, if none was before.
find-append {ℓ} :
    {A : Type ℓ} (test : A → Bool) (xs : List A) (x : A)
    → find_by test xs ≡ none
    → test x ≡ true
    → find_by test (xs ++ x ∷ []) ≡ some x
unfolding find_by
find-append test [] x h t = rw t refl
find-append test (y ∷ xs) x h t = elim (Bool-cases (test y)) [
  | inl e ↦ absurd (none-some (rw e at (sym h)))
  | inr e ↦ rw e (find-append test xs x (rw e at h) t)
]

-- The memory after a step holds an episode with this id, and nothing else of the rest has changed.
abbrev pub Holds : String → Rest → Rest → Type 0
Holds id r r' =
    (m : MemoryStore) × (episode : Episode) × (r' ≡ record r { memory = m })
    × (find_by (λ x. x.episode_id == id) m.episodes ≡ some episode)

insert-Holds :
    (episode : Episode) (r : Rest)
    → find_by (λ x. x.episode_id == episode.episode_id) r.memory.episodes ≡ none
    → Gives
        (Holds episode.episode_id r)
        (in_batch (insert_episode episode r.memory) >>= λ (v, m). done (record r { memory = m }))
unfolding insert_episode
insert-Holds episode r new =
    elim (Option-cases
      (ensure_active_student r.memory.students r.memory.deletions episode.student_id)) [
        | inr (fault, raises) ↦ rw (raises, insert_episode, guarded) tt
        | inl may ↦
            rw (may, new, insert_episode, guarded)
              (
                record r.memory { episodes = r.memory.episodes ++ episode ∷ [] },
                episode,
                refl,
                find-append (λ x. x.episode_id == episode.episode_id) r.memory.episodes episode new
                    (beq_refl episode.episode_id),
              )
      ]

pub start_episode-Holds :
    (w : Setup) (e : Envelope) (p : Presentation) (trigger : String) (s : Store Rest)
    → Gives (Holds (presented_episode_id w p) s.rest) (start_episode w e p trigger s)
unfolding start_episode start_runtime_candidate
start_episode-Holds w e p trigger s =
    elim (Option-cases
      (find_by (λ r. r.episode_id == presented_episode_id w p) s.rest.memory.episodes)) [
        | inr (episode, there) ↦ rw (there, start_episode) (s.rest.memory, episode, refl, there)
        | inl new ↦
            rw (new, start_episode)
              (insert-Holds (candidate_of _ (presented_episode_id w p) _ _ _ _ _) s.rest new)
      ]

-- What a presentation starts: the decision is that of the session and served this action; the
-- lesson is the approved and registered one of the pack; and its episode is there.
abbrev pub IsStarted : Setup → Envelope → Presentation → Store Rest → Rest → Type 0
IsStarted w e p s rest =
    ((row : Row) × (decision_row e p.source_answer_event_id s ≡ some row)
      × (served_action row ≡ p.intervention))
    × ((kind : String) × (lesson_type_of p.intervention ≡ some kind)
        × IsOffered w.dirs s.rest.registry e.content_pack_version kind p.misconception p.skill
            p.content_id p.content_version)
    × Holds (presented_episode_id w p) s.rest rest

agrees_means :
    (e : Envelope) (p : Presentation) (expected : LessonPayload) (source : Option String)
    → agrees e p expected source ≡ true
    → (expected.skill ≡ some p.skill)
      × (expected.content_id ≡ some p.content_id)
      × (expected.content_version ≡ some p.content_version)
unfolding agrees
agrees_means e p expected source h =
    let skill = option_eq.decides expected.skill (some p.skill) in
    let content = option_eq.decides expected.content_id (some p.content_id) in
    let version = option_eq.decides expected.content_version (some p.content_version) in
    ground (arith, h, skill, content, version)

Gives-unless :
    {A : Type 0} (P : A → Type 0) (b : Bool) (next : Result A)
    → (b ≡ true → Gives P next)
    → Gives P (unless (not b) next)
Gives-unless P true next h = h refl
Gives-unless P false next h = tt

-- The last steps: the payload agrees, and the episode starts.
agreed-IsStarted :
    (w : Setup) (e : Envelope) (p : Presentation) (kind : String) (row : Row) (s : Store Rest)
    (expected : LessonPayload) (source : Option String)
    → decision_row e p.source_answer_event_id s ≡ some row
    → served_action row ≡ p.intervention
    → lesson_type_of p.intervention ≡ some kind
    → Matches w e p kind s expected
    → Gives (IsStarted w e p s) (elim source [
      | none ↦ raised invalid
      | some trigger ↦
          unless (not (agrees e p expected (some trigger))) (start_episode w e p trigger s)
    ])
agreed-IsStarted w e p kind row s expected none decided served typed matches = tt
agreed-IsStarted w e p kind row s expected (some trigger) decided served typed matches =
    Gives-unless (IsStarted w e p s) (agrees e p expected (some trigger)) _ (λ agreed.
      let (skill, content, version) = agrees_means e p expected (some trigger) agreed in
      Gives-weaken (Holds (presented_episode_id w p) s.rest) (IsStarted w e p s)
        (start_episode w e p trigger s)
        (λ rest holds. (
          (row, decided, served),
          (
            kind,
            typed,
            durable_means w.dirs s.rest.registry e.content_pack_version kind p.misconception
                expected p.skill p.content_id p.content_version skill content version matches,
          ),
          holds,
        ))
        (start_episode-Holds w e p trigger s))

start_for-IsStarted :
    (w : Setup) (e : Envelope) (p : Presentation) (row : Row) (s : Store Rest)
    → decision_row e p.source_answer_event_id s ≡ some row
    → Gives (IsStarted w e p s) (start_for w e p row s)
unfolding start_for
start_for-IsStarted w e p row s decided =
    elim (Option-cases ((pack w.dirs [] e.content_pack_version).0)) [
      | inl absent ↦ rw (absent, start_for) tt
      | inr (key, packed) ↦
          rw (packed, start_for)
            (Gives-if (IsStarted w e p s) (not (e.content_pack_version == key.pack_version)) _ _ tt
              (Gives-unless (IsStarted w e p s) (served_action row == p.intervention) _ (λ served.
                elim (Option-cases (lesson_type_of p.intervention)) [
                  | inl other ↦ rw other tt
                  | inr (kind, typed) ↦ rw typed (
                      Gives-bind (IsStarted w e p s) (Matches w e p kind s)
                        (expected_payload w e p kind row s) _
                        (expected_payload-Matches w e p kind row s)
                        (λ expected matches.
                          agreed-IsStarted w e p kind row s expected row.source_question_id decided
                            ((string_eq.decides (served_action row) p.intervention).0 served) typed
                            matches))
                ])))
    ]

Result-cases :
    {A : Type 0} (m : Result A) → ((a : A) × (m ≡ done a)) ⊎ ((f : Fault) × (m ≡ raised f))
Result-cases (done a) = inl (a, refl)
Result-cases (raised f) = inr (f, refl)

-- A presentation is accepted only when all that it needs is there: the event names a lesson, its
-- content and its answer; the server decided on this answer, in this session, for the same kind of
-- lesson, or a ranked decision did; the lesson is the approved one of the pack that the event names,
-- the registry of published content has it unchanged, and it suits the misconception. The episode of
-- the presentation then exists, and only the memory has changed.
pub start-IsStarted :
    (w : Setup) (e : Envelope) (s : Store Rest)
    → Gives
        (λ rest. (p : Presentation) × (presentation_of e ≡ done p) × IsStarted w e p s rest)
        (start_presented_intervention w e s)
unfolding start_presented_intervention
start-IsStarted w e s = elim (Result-cases (presentation_of e)) [
  | inr (f, bad) ↦ rw (bad, start_presented_intervention) tt
  | inl (p, said) ↦ elim (Option-cases (decision_row e p.source_answer_event_id s)) [
    | inl nobody ↦ rw (said, ◌>>=◌, nobody) tt
    | inr (row, decided) ↦
        rw (said, ◌>>=◌, decided)
          (Gives-weaken (IsStarted w e p s) _ (start_for w e p row s) (λ rest h. (p, refl, h))
            (start_for-IsStarted w e p row s decided))
  ]
]
