-- ===== src/Agent/Again.antt =====
-- A lesson that is presented twice (sync/service.py `_start_presented_intervention`).
use mathlib.Core.Path.{subst}
use bridgesat_agent.Common.{
  ◌≡◌, refl, ◌∙◌, sym, ap, Bool, true, false, not, String, Option, none, some, [], ◌==◌, string_eq,
  find_by, if◌then◌else◌,
}
use bridgesat_agent.Memory.Tables.{Episode, MemoryStore}
use bridgesat_agent.Sync.Types.{Envelope, Store, other_error}
use bridgesat_agent.Sync.Scoring.{pack}
use bridgesat_agent.Sync.Rows.{Result, done, raised, ◌>>=◌, invalid}
use bridgesat_agent.Sync.Frame.{Gives, Gives-weaken}
use bridgesat_agent.Agent.{Rest}
use bridgesat_agent.Agent.Decide.{Setup}
use bridgesat_agent.Agent.Lessons.{lesson_type_of}
use bridgesat_agent.Agent.Payloads.{Presentation, Row, decision_row, presentation_of, unless}
use bridgesat_agent.Agent.Present.{
  agrees, expected_payload, presented_episode_id, served_action, start_episode, start_for,
  start_presented_intervention,
}
use bridgesat_agent.Agent.Presentations.{Holds, start_episode-Holds}

-- Only the memory has changed, and the same step over the changed memory gives the same again.
abbrev pub IsAgain : Rest → (MemoryStore → Result Rest) → Rest → Type 0
IsAgain r f r' = (m : MemoryStore) × (r' ≡ record r { memory = m }) × (f m ≡ done r')

module _ (r : Rest) where
  bind-IsAgain :
      {A : Type 0} (m0 : Result A) (f : A → Result Rest) (f' : MemoryStore → A → Result Rest)
      → ((a : A) → Gives (IsAgain r (λ m. f' m a)) (f a))
      → Gives (IsAgain r (λ m. m0 >>= f' m)) (m0 >>= f)
  bind-IsAgain (done a) f f' h = h a
  bind-IsAgain (raised e) f f' h = tt

  option-IsAgain :
      {A : Type 0} (o : Option A) (x : Result Rest) (f : A → Result Rest)
      (f' : MemoryStore → A → Result Rest)
      → Gives (IsAgain r (λ m. x)) x
      → ((a : A) → Gives (IsAgain r (λ m. f' m a)) (f a))
      → Gives
          (IsAgain r (λ m. elim o [ none ↦ x | some a ↦ f' m a ]))
          (elim o [ none ↦ x | some a ↦ f a ])
  option-IsAgain none x f f' k h = k
  option-IsAgain (some a) x f f' k h = h a

  if-IsAgain :
      (b : Bool) (x y : Result Rest) (f : MemoryStore → Result Rest)
      → Gives (IsAgain r (λ m. x)) x
      → Gives (IsAgain r f) y
      → Gives (IsAgain r (λ m. if b then x else f m)) (if b then x else y)
  if-IsAgain true x y f k h = k
  if-IsAgain false x y f k h = h

  unless-IsAgain :
      (b : Bool) (x : Result Rest) (f : MemoryStore → Result Rest)
      → Gives (IsAgain r f) x
      → Gives (IsAgain r (λ m. unless b (f m))) (unless b x)
  unless-IsAgain true x f h = tt
  unless-IsAgain false x f h = h

-- The store with another memory, and a presentation with another id.
abbrev pub with_memory : Store Rest → MemoryStore → Store Rest
with_memory s m = record s { rest = record s.rest { memory = m } }

abbrev pub renamed : Envelope → String → Envelope
renamed e id = record e { event_id = id }

-- An episode that is there is not started.
start-known :
    (w : Setup) (e : Envelope) (p : Presentation) (trigger : String) (s : Store Rest)
    (episode : Episode)
    → find_by (λ x. x.episode_id == presented_episode_id w p) s.rest.memory.episodes ≡ some episode
    → start_episode w e p trigger s ≡ done s.rest
unfolding start_episode
start-known w e p trigger s episode there = rw (there, start_episode) refl

start_episode-IsAgain :
    (w : Setup) (e : Envelope) (id : String) (p : Presentation) (trigger : String) (s : Store Rest)
    → Gives
        (IsAgain s.rest (λ m. start_episode w (renamed e id) p trigger (with_memory s m)))
        (start_episode w e p trigger s)
start_episode-IsAgain w e id p trigger s =
    Gives-weaken (Holds (presented_episode_id w p) s.rest) _ (start_episode w e p trigger s)
      (λ rest (m, episode, same, there). (
        m,
        same,
        start-known w (renamed e id) p trigger (with_memory s m) episode there ∙ ap done (sym same),
      ))
      (start_episode-Holds w e p trigger s)

start_for-IsAgain :
    (w : Setup) (e : Envelope) (id : String) (p : Presentation) (row : Row) (s : Store Rest)
    → Gives
        (IsAgain s.rest (λ m. start_for w (renamed e id) p row (with_memory s m)))
        (start_for w e p row s)
unfolding start_for expected_payload agrees
start_for-IsAgain w e id p row s =
    option-IsAgain s.rest ((pack w.dirs [] e.content_pack_version).0) (raised other_error) _ _ tt
      (λ key. if-IsAgain s.rest (not (e.content_pack_version == key.pack_version)) _ _ _ tt (
        unless-IsAgain s.rest (not (served_action row == p.intervention)) _ _ (
          option-IsAgain s.rest (lesson_type_of p.intervention) (raised invalid) _ _ tt (λ kind.
            bind-IsAgain s.rest (expected_payload w e p kind row s) _ _ (λ expected.
              option-IsAgain s.rest row.source_question_id (raised invalid) _ _ tt (λ trigger.
                unless-IsAgain s.rest (not (agrees e p expected (some trigger))) _ _
                  (start_episode-IsAgain w e id p trigger s)))))))

-- A presentation that was accepted is accepted again under any other event id, and then it changes
-- nothing: no second episode is started for one decision and one lesson.
pub start_again :
    (w : Setup) (e : Envelope) (id : String) (s : Store Rest)
    → Gives
        (λ rest.
          start_presented_intervention w (renamed e id) (record s { rest = rest }) ≡ done rest)
        (start_presented_intervention w e s)
unfolding start_presented_intervention presentation_of decision_row
start_again w e id s =
    Gives-weaken
      (IsAgain s.rest (λ m. start_presented_intervention w (renamed e id) (with_memory s m))) _
      (start_presented_intervention w e s)
      (λ rest (m, same, again).
        subst (λ r. start_presented_intervention w (renamed e id) (record s { rest = r }) ≡ done r)
          (sym same) (again ∙ ap done same))
      (bind-IsAgain s.rest (presentation_of e) _ _ (λ p.
        option-IsAgain s.rest (decision_row e p.source_answer_event_id s) (raised invalid) _ _ tt
          (λ row. start_for-IsAgain w e id p row s)))
