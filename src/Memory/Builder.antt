-- ===== src/Memory/Builder.antt =====
-- `EpisodeBuilder` of memory/episode_builder.py: candidates, their completion and their validation.
use Prim.Native.String.{◌++◌ as ◌^◌}
use bridgesat_agent.Common.{
  ℕ, Bool, true, false, not, ◌&&◌, ◌||◌, String, Option, none, some, List, [], ◌∷◌, ◌++◌,
  if◌then◌else◌, ◌==◌, string_eq, option_eq, leb, take, filter_by, find_by, update_by, sort_by,
}
use bridgesat_agent.Policy.Types.{truthy}
use bridgesat_agent.Outbox.Repository.{Request, enqueue}
use bridgesat_agent.Memory.{outcome_component_score}
use bridgesat_agent.Memory.Tables.{
  candidate, validated, insufficient_outcome, episode_eq, EpisodeOutcome, Episode, MemoryStore,
  duplicate_key, Written, written, refused, guarded, ◌>>=◌,
}

-- `EPISODE_MIN_CONFIDENCE`
abbrev pub episode_min_confidence : ℕ
episode_min_confidence = 50

-- `_insert_episode`
unfoldable pub insert_episode : Episode → MemoryStore → Written Episode
insert_episode e m =
    guarded e.student_id m (elim (find_by (λ r. r.episode_id == e.episode_id) m.episodes) [
      | some _ ↦ refused duplicate_key
      | none ↦ written e (record m { episodes = m.episodes ++ e ∷ [] })
    ])

-- What the callers of the builder say of an intervention.
pub record Setting : Type 0 where
  pub student_id : String
  pub session_id : String
  pub skill : String
  pub misconception : Option String
  pub intervention : String

abbrev pub candidate_of : Setting → String → EpisodeOutcome → ℕ → List String → String → ℕ → Episode
candidate_of c episode_id outcome score evidence summary now = record {
  episode_id = episode_id;
  student_id = c.student_id;
  session_id = c.session_id;
  skill = c.skill;
  misconception = c.misconception;
  intervention = c.intervention;
  outcome = outcome;
  effectiveness = score;
  evidence_event_ids = evidence;
  summary = summary;
  confidence = score;
  status = candidate;
  created_at = now;
  updated_at = now;
}

-- `build_candidate`; `evidence` are the ids of the evidence events.
unfoldable pub build_candidate :
    Setting
    → String
    → List String
    → Bool
    → ℕ
    → String
    → String
    → String
    → ℕ
    → MemoryStore
    → Written Episode
build_candidate c episode_id evidence correct hints outcome_content teaching_content summary now m =
    insert_episode
      (candidate_of c episode_id
        (record {
          correct = correct;
          hint_level = hints;
          outcome_content_id = some outcome_content;
          teaching_content_id = some teaching_content;
          trigger_content_id = none;
          different_item = not (outcome_content == teaching_content);
          pending_transfer = none;
        })
        (outcome_component_score correct hints) evidence summary now)
      m

-- A Python f-string writes `None` for a misconception that is not there.
abbrev pub shown : Option String → String
shown none = "None"
shown (some t) = t

-- `start_runtime_candidate`
unfoldable pub start_runtime_candidate :
    Setting → String → String → String → String → ℕ → MemoryStore → Written Episode
start_runtime_candidate c episode_id teaching_content trigger_content evidence_event now m =
    insert_episode
      (candidate_of c episode_id
        (record {
          correct = false;
          hint_level = 0;
          outcome_content_id = none;
          teaching_content_id = some teaching_content;
          trigger_content_id = some trigger_content;
          different_item = false;
          pending_transfer = some true;
        })
        0 (evidence_event ∷ [])
        (c.intervention
          ^ (" selected for " ^ (shown c.misconception ^ "; awaiting a distinct transfer item.")))
        now)
      m

abbrev pub has_items : List String → Bool
has_items [] = false
has_items (x ∷ xs) = true

-- The rules of the contract that `validate` checks.
unfoldable pub is_valid_outcome : Episode → Bool
is_valid_outcome e =
    e.outcome.different_item
    && truthy (some e.intervention)
    && has_items e.evidence_event_ids
    && leb episode_min_confidence e.confidence

abbrev pub episode_request : Episode → Request
episode_request e = record {
  student_id = e.student_id;
  aggregate_type = "episode";
  aggregate_id = e.episode_id;
  operation = "upsert_episode";
  payload_student_id = some e.student_id;
  version = 1;
}

abbrev pub judged : Episode → ℕ → Episode
judged e now = record e {
  status = if is_valid_outcome e then validated else insufficient_outcome;
  updated_at = now;
}

-- `validate`; `outbox_id` is the id that a new row of the outbox gets.
unfoldable pub validate : String → ℕ → Episode → MemoryStore → Written Episode
validate outbox_id now e m =
    if not (e.status == candidate)
    then written e m
    else guarded e.student_id m (
        let m' : MemoryStore = record m {
          episodes =
              update_by (λ r. r.episode_id == e.episode_id && r.student_id == e.student_id)
                (λ r. record r { status = (judged e now).status; updated_at = now }) m.episodes;
        } in
        if not (is_valid_outcome e)
        then written (judged e now) m'
        else elim (enqueue outbox_id now (episode_request e) m'.outbox) [
          | none ↦ refused duplicate_key
          | some (_, outbox) ↦ written (judged e now) (record m' { outbox = outbox })
        ])

abbrev pub newest_first : Episode → Episode → Bool
newest_first a b = leb b.created_at a.created_at

-- The pending candidate that a transfer answer completes: the newest one that another item triggered.
unfoldable pub pending_candidate : String → String → String → String → List Episode → Option Episode
pending_candidate student_id session_id skill outcome_content episodes =
    find_by (λ e. not (e.outcome.trigger_content_id == some outcome_content))
      (sort_by newest_first (
        filter_by
          (λ e.
            e.student_id == student_id
            && e.session_id == session_id
            && e.skill == skill
            && e.status == candidate)
          episodes))

-- A transfer answer.
pub record Transfer : Type 0 where
  pub event_id : String
  pub content_id : String
  pub correct : Bool
  pub hint_level : ℕ

abbrev pub or_the_error : Option String → String
or_the_error none = "the error"
or_the_error (some t) = if truthy (some t) then t else "the error"

abbrev pub completed : Episode → Transfer → ℕ → Episode
completed e a now = record e {
  outcome = record {
    correct = a.correct;
    hint_level = a.hint_level;
    outcome_content_id = some a.content_id;
    teaching_content_id = e.outcome.teaching_content_id;
    trigger_content_id = e.outcome.trigger_content_id;
    different_item = true;
    pending_transfer = some false;
  };
  effectiveness = outcome_component_score a.correct a.hint_level;
  evidence_event_ids = e.evidence_event_ids ++ a.event_id ∷ [];
  summary =
      e.intervention
      ^ (" for "
          ^ (or_the_error e.misconception
              ^ (" was followed by a "
                  ^ ((if a.correct then "successful" else "failed")
                      ^ " distinct transfer item."))));
  confidence = outcome_component_score a.correct a.hint_level;
  updated_at = now;
}

-- `complete_runtime_candidate`
unfoldable pub complete_runtime_candidate :
    String → String → String → Transfer → String → ℕ → MemoryStore → Written (Option Episode)
complete_runtime_candidate student_id session_id skill a outbox_id now m =
    elim (pending_candidate student_id session_id skill a.content_id m.episodes) [
      | none ↦ written none m
      | some e ↦
          validate outbox_id now (completed e a now) (record m {
            episodes =
                update_by (λ r. r.episode_id == e.episode_id && r.student_id == e.student_id)
                  (λ r. record r {
                    outcome = (completed e a now).outcome;
                    effectiveness = (completed e a now).effectiveness;
                    evidence_event_ids = (completed e a now).evidence_event_ids;
                    summary = (completed e a now).summary;
                    confidence = (completed e a now).confidence;
                    updated_at = now;
                  })
                  m.episodes;
          })
          >>= λ (v, m'). written (some v) m'
    ]

-- `list_validated_episodes`; a filter that is left out passes.
abbrev pub passes_filter : Option String → Option String → Bool
passes_filter none field = true
passes_filter (some wanted) field = field == some wanted

unfoldable pub list_validated_episodes :
    String → Option String → Option String → ℕ → List Episode → List Episode
list_validated_episodes student_id skill misconception limit episodes = take limit (
    sort_by newest_first (
      filter_by
        (λ e.
          e.student_id == student_id
          && e.status == validated
          && passes_filter skill (some e.skill)
          && passes_filter misconception e.misconception)
        episodes))

-- `effectiveness_successful`
abbrev pub effectiveness_successful : Episode → Bool
effectiveness_successful e = leb 60 e.effectiveness

abbrev pub any_successful : List Episode → Bool
any_successful [] = false
any_successful (e ∷ rest) = effectiveness_successful e || any_successful rest

-- `has_successful_episode`
unfoldable pub has_successful_episode : String → String → Option String → List Episode → Bool
has_successful_episode student_id skill misconception episodes =
    any_successful (list_validated_episodes student_id (some skill) misconception 20 episodes)
