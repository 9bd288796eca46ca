-- ===== src/Memory/Completion.antt =====
-- What the completion of a runtime candidate stores (memory/episode_builder.py).
use bridgesat_agent.Common.{
  ℕ, ◌≤◌, ◌≡◌, ◌↔◌, ◌⊎◌, refl, Bool, true, false, not, ◌&&◌, String, some, List, [], ◌∷◌, ◌++◌, leb,
  All, All-sort_by, All-filtered, All-update_to, All-intro, ◌==◌, string_eq, option_eq, filter_by,
  sort_by, update_by, found_passes, found-All, Bool-cases, Option-cases, arith, inl, inr,
}
use bridgesat_agent.Policy.Types.{truthy}
use bridgesat_agent.Outbox.Repository.{enqueue}
use bridgesat_agent.Memory.{outcome_component_score}
use bridgesat_agent.Memory.Tables.{
  candidate, validated, insufficient_outcome, episode_eq, episode_beq_iff, Episode, MemoryStore,
  WriteFault, ensure_active_student, guarded, Written, written, refused, ◌>>=◌,
}
use bridgesat_agent.Memory.Builder.{
  is_valid_outcome, has_items, judged, validate, newest_first, pending_candidate, Transfer,
  completed, complete_runtime_candidate, episode_request,
}

pub written_injective {ℓ} :
    {A : Type ℓ} {a b : A} {m m' : MemoryStore} → written a m ≡ written b m' → (a ≡ b) × (m ≡ m')
written_injective e = (cc e, cc e)

pub refused_written {ℓ} :
    {A : Type ℓ} {f : WriteFault} {a : A} {m : MemoryStore} → refused f ≡ written a m → ⊥
refused_written e = cc e

-- The row of the episode has the status of the episode.
abbrev pub IsStored : Episode → List Episode → Type 0
IsStored v episodes =
    All
      (λ r.
        (r.episode_id == v.episode_id && r.student_id == v.student_id) ≡ true → r.status ≡ v.status)
      episodes

judged-IsStored :
    (e : Episode) (now : ℕ) (episodes : List Episode)
    → IsStored (judged e now) (
        update_by
          (λ r. r.episode_id == e.episode_id && r.student_id == e.student_id)
          (λ r. record r { status = (judged e now).status; updated_at = now })
          episodes)
judged-IsStored e now episodes =
    All-update_to (λ r. Unit {0})
      (λ r.
        (r.episode_id == e.episode_id && r.student_id == e.student_id) ≡ true
        → r.status ≡ (judged e now).status)
      (λ r. r.episode_id == e.episode_id && r.student_id == e.student_id) _ episodes
      (λ r p hit k. refl) (λ r p miss k. cc (miss, k))
      (All-intro (λ r. Unit {0}) episodes (λ r. tt))

-- A candidate that is validated gets the status of the rules, also in the table.
validate-written :
    (outbox_id : String) (now : ℕ) (e v : Episode) (m m' : MemoryStore)
    → e.status ≡ candidate
    → validate outbox_id now e m ≡ written v m'
    → (v ≡ judged e now) × IsStored v m'.episodes
unfolding validate
validate-written outbox_id now e v m m' new h =
    elim (Option-cases (ensure_active_student m.students m.deletions e.student_id)) [
      | inr (f, raises) ↦
          absurd (refused_written (rw (is_candidate, raises, validate, guarded) at h))
      | inl may ↦ elim (Bool-cases (is_valid_outcome e)) [
        | inr bad ↦
            finish (record e { status = insufficient_outcome; updated_at = now }) _
              (rw (is_candidate, may, bad, validate, guarded) at h) (rw bad refl)
              (rw bad at (judged-IsStored e now m.episodes))
        | inl good ↦ elim (Option-cases (enqueue outbox_id now (episode_request e) m.outbox)) [
          | inl taken ↦
              absurd (refused_written (rw (is_candidate, may, good, taken, validate, guarded) at h))
          | inr ((id, outbox), added) ↦
              finish (judged e now) _ (rw (is_candidate, may, good, added, validate, guarded) at h)
                refl (judged-IsStored e now m.episodes)
        ]
      ]
    ]
  where
    is_candidate : (e.status == candidate) ≡ true
    is_candidate = (episode_beq_iff e.status candidate).1 new

    finish :
        (v' : Episode) (t : MemoryStore)
        → written v' t ≡ written v m'
        → v' ≡ judged e now
        → IsStored v' t.episodes
        → (v ≡ judged e now) × IsStored v m'.episodes
    finish v' t w is_judged stored =
        let (same, store) = written_injective w in
        (rw (← same) is_judged, rw (← same, ← store) stored)

candidate_found :
    (student_id session_id skill content_id : String) (episodes : List Episode) (e : Episode)
    → pending_candidate student_id session_id skill content_id episodes ≡ some e
    → (e.student_id ≡ student_id)
      × (e.session_id ≡ session_id)
      × (e.skill ≡ skill)
      × (e.status ≡ candidate)
      × ((e.outcome.trigger_content_id == some content_id) ≡ false)
unfolding pending_candidate
candidate_found student_id session_id skill content_id episodes e h =
    let rows : List Episode =
      filter_by
        (λ e.
          e.student_id == student_id
          && e.session_id == session_id
          && e.skill == skill
          && e.status == candidate)
        episodes in
    let fits =
      found-All
        (λ e.
          (e.student_id == student_id
            && e.session_id == session_id
            && e.skill == skill
            && e.status == candidate)
          ≡ true)
        (λ e. not (e.outcome.trigger_content_id == some content_id)) (sort_by newest_first rows) e
        (All-sort_by _ newest_first rows (All-filtered _ episodes)) h in
    let triggered =
      found_passes (λ e. not (e.outcome.trigger_content_id == some content_id))
        (sort_by newest_first rows) e h in
    ground (
      arith,
      fits,
      triggered,
      string_eq.decides e.student_id student_id,
      string_eq.decides e.session_id session_id,
      string_eq.decides e.skill skill,
      episode_beq_iff e.status candidate,
    )

has_items-append : (xs : List String) (x : String) → has_items (xs ++ x ∷ []) ≡ true
has_items-append [] x = refl
has_items-append (y ∷ xs) x = refl

valid_completed :
    (e : Episode) (a : Transfer) (now : ℕ)
    → (is_valid_outcome (completed e a now) ≡ true)
      ↔ ((a.correct ≡ true) × (a.hint_level ≤ 2) × (truthy (some e.intervention) ≡ true))
unfolding is_valid_outcome outcome_component_score
valid_completed e a now =
    rw (has_items-append e.evidence_event_ids a.event_id)
      (by_outcome a.correct a.hint_level (truthy (some e.intervention)))
  where
    by_outcome :
        (correct : Bool) (hints : ℕ) (named : Bool)
        → ((named && true && leb 50 (outcome_component_score correct hints)) ≡ true)
          ↔ ((correct ≡ true) × (hints ≤ 2) × (named ≡ true))
    by_outcome false hints named = ground arith
    by_outcome true hints named = ground arith

judged_status :
    (e : Episode) (now : ℕ) → ((judged e now).status ≡ validated) ↔ (is_valid_outcome e ≡ true)
judged_status e now = ground arith

either_status :
    (e : Episode) (now : ℕ)
    → ((judged e now).status ≡ validated) ⊎ ((judged e now).status ≡ insufficient_outcome)
either_status e now = elim (Bool-cases (is_valid_outcome e)) [
  | inl good ↦ inl (rw good refl)
  | inr bad ↦ inr (rw bad refl)
]

bind-written :
    {v : Episode} {m' : MemoryStore} (o : Written Episode)
    → (o >>= λ (x, t). written (some x) t) ≡ written (some v) m'
    → o ≡ written v m'
bind-written (written x t) h = ground (arith, h)
bind-written (refused f) h = absurd (refused_written h)

-- An episode that `complete_runtime_candidate` completes is a candidate of the student, the session
-- and the skill that another item triggered; it is validated exactly when the answer was correct
-- with at most two hints and the intervention has a name, else it becomes `insufficient_outcome`;
-- and the rows of the episode get its status.
pub complete_sound :
    (student_id session_id skill : String) (a : Transfer) (outbox_id : String) (now : ℕ)
    (v : Episode) (m m' : MemoryStore)
    → complete_runtime_candidate student_id session_id skill a outbox_id now m ≡ written (some v) m'
    → (v.student_id ≡ student_id)
      × (v.session_id ≡ session_id)
      × (v.skill ≡ skill)
      × ((v.outcome.trigger_content_id == some a.content_id) ≡ false)
      × ((v.status ≡ validated)
          ↔ ((a.correct ≡ true) × (a.hint_level ≤ 2) × (truthy (some v.intervention) ≡ true)))
      × ((v.status ≡ validated) ⊎ (v.status ≡ insufficient_outcome))
      × IsStored v m'.episodes
unfolding complete_runtime_candidate
complete_sound student_id session_id skill a outbox_id now v m m' h =
    elim (Option-cases (pending_candidate student_id session_id skill a.content_id m.episodes)) [
      | inl nobody ↦ cc ((written_injective (rw (nobody, complete_runtime_candidate) at h)).0)
      | inr (e, there) ↦
          let (mine, here, same, new, other) =
            candidate_found student_id session_id skill a.content_id m.episodes e there in
          let (is_judged, stored) =
            validate-written outbox_id now (completed e a now) v _ m' new
              (bind-written _ (rw (there, complete_runtime_candidate) at h)) in
          let valid = judged_status (completed e a now) now in
          let named = valid_completed e a now in
          rw is_judged (
            mine,
            here,
            same,
            other,
            ((λ k. named.0 (valid.0 k)), (λ k. valid.1 (named.1 k))),
            either_status (completed e a now) now,
            rw is_judged at stored,
          )
    ]
