-- ===== src/Examples/Memory.antt =====
-- A lesson, the answer that it leads to, and what the memory keeps of them (memory/episode_builder.py,
-- memory/pg_memory.py).
use bridgesat_agent.Common.{
  ℕ, ◌≤◌, ◌≡◌, ◌↔◌, ◌⊎◌, refl, true, false, ◌==◌, String, none, some, [], ◌∷◌, All, arith,
  string_eq, option_eq, find_by, update_by, filter_by, sort_by, insert_by,
}
use bridgesat_agent.Policy.Types.{truthy}
use bridgesat_agent.Outbox.Repository.{enqueue}
use bridgesat_agent.Deletion.Store.{active, standing_beq}
use bridgesat_agent.Deletion.Steps.{
  returned, start_state, move_student, revoke_tokens, request_deletion, may_follow,
}
use bridgesat_agent.Memory.{outcome_component_score}
use bridgesat_agent.Memory.Tables.{
  candidate, validated, insufficient_outcome, episode_beq, Episode, MemoryStore, Written, written,
  ensure_active_student,
}
use bridgesat_agent.Memory.Builder.{
  Setting, Transfer, candidate_of, completed, judged, pending_candidate, is_valid_outcome,
  insert_episode, validate, complete_runtime_candidate,
}
use bridgesat_agent.Memory.Recall.{exactly, recall_episodes, fact_key, list_episodes_for_fact}
use bridgesat_agent.Memory.Facts.{upsert_fact_for_episode}
use bridgesat_agent.Memory.Stats.{
  Trial, WindowName, immediate, Fraction, stat_for, record_intervention_outcome,
  blended_effectiveness,
}
use bridgesat_agent.Memory.Keys.{list_episodes-fact_key}
use bridgesat_agent.Memory.Guarded.{IsRefused, request_stops_writes}
use bridgesat_agent.Memory.Completion.{IsStored, complete_sound}
use bridgesat_agent.Memory.Blending.{AreShares, effectiveness_bound}
use bridgesat_agent.Examples.Deletion.{school, after_request}

abbrev lesson : Setting
lesson = record {
  student_id = "ann";
  session_id = "s1";
  skill = "algebra";
  misconception = some "sign";
  intervention = "SHOW_MICRO_LESSON";
}

abbrev pending : Episode
pending =
    candidate_of lesson "ep_1"
      (record {
        correct = false;
        hint_level = 0;
        outcome_content_id = none;
        teaching_content_id = some "lesson_1";
        trigger_content_id = some "q1";
        different_item = false;
        pending_transfer = some true;
      })
      0 ("e1" ∷ []) "waits" 3

abbrev pub notes : MemoryStore
notes = record {
  students = record { id = "ann"; status = active; updated_at = 0 } ∷ [];
  deletions = [];
  episodes = pending ∷ [];
  facts = [];
  stats = [];
  outbox = [];
}

abbrev answer : Transfer
answer = record { event_id = "e2"; content_id = "q2"; correct = true; hint_level = 1 }

abbrev store_of {ℓ} : {A : Type ℓ} → Written A → MemoryStore
store_of (written a m) = m
store_of _ = notes

abbrev later_notes : MemoryStore
later_notes = store_of (complete_runtime_candidate "ann" "s1" "algebra" answer "out_1" 9 notes)

abbrev done : Episode
done = judged (completed pending answer 9) 9

completion :
    complete_runtime_candidate "ann" "s1" "algebra" answer "out_1" 9 notes
    ≡ written (some done) later_notes
unfolding complete_runtime_candidate pending_candidate find_by sort_by insert_by filter_by
    episode_beq validate ensure_active_student standing_beq is_valid_outcome truthy
    outcome_component_score enqueue update_by
completion = refl

complete_sound_example :
    (done.student_id ≡ "ann")
    × (done.session_id ≡ "s1")
    × (done.skill ≡ "algebra")
    × ((done.outcome.trigger_content_id == some "q2") ≡ false)
    × ((done.status ≡ validated)
        ↔ ((true ≡ true) × (1 ≤ 2) × (truthy (some done.intervention) ≡ true)))
    × ((done.status ≡ validated) ⊎ (done.status ≡ insufficient_outcome))
    × IsStored done later_notes.episodes
complete_sound_example =
    complete_sound "ann" "s1" "algebra" answer "out_1" 9 done notes later_notes completion

list_episodes-fact_key_example :
    list_episodes_for_fact "ann"
      (fact_key "algebra" (some "sign") "SHOW_MICRO_LESSON")
      later_notes.episodes
    ≡ some (
        recall_episodes "ann" "algebra"
          (exactly (some "sign"))
          (some "SHOW_MICRO_LESSON")
          50
          later_notes.episodes)
unfolding truthy
list_episodes-fact_key_example =
    list_episodes-fact_key "ann" "algebra" "sign" "SHOW_MICRO_LESSON" later_notes.episodes
      (ground arith) (ground arith) (ground arith) refl refl

abbrev trial : Trial
trial = record {
  student_id = "ann";
  skill = "algebra";
  misconception = some "sign";
  intervention = "SHOW_MICRO_LESSON";
  difficulty_band = "d2";
}

abbrev counted_notes : MemoryStore
counted_notes = store_of (record_intervention_outcome trial immediate 80 100 "is_1" 9 notes)

recording :
    record_intervention_outcome trial immediate 80 100 "is_1" 9 notes ≡ written "is_1" counted_notes
unfolding record_intervention_outcome ensure_active_student standing_beq stat_for find_by update_by
recording = refl

effectiveness_bound_example :
    All AreShares counted_notes.stats
    × All
        (λ s. (f : Fraction) → blended_effectiveness s ≡ some f → f.numerator ≤ f.denominator)
        counted_notes.stats
effectiveness_bound_example =
    effectiveness_bound trial immediate 80 100 "is_1" "is_1" 9 notes counted_notes recording
      (omega arith) tt

abbrev closed_notes : MemoryStore
closed_notes = record notes { deletions = after_request.deletions }

request_made : request_deletion "ann" "del_1" 5 school ≡ returned tt after_request
unfolding request_deletion find_by start_state move_student revoke_tokens may_follow standing_beq
    update_by
request_made = refl

request_stops_writes_example :
    ((e : Episode) → e.student_id ≡ "ann" → IsRefused (insert_episode e closed_notes))
    × ((outbox_id : String) (later : ℕ) (e : Episode)
        → e.student_id ≡ "ann"
        → e.status ≡ candidate
        → IsRefused (validate outbox_id later e closed_notes))
    × ((e : Episode) (fact_id outbox_id : String) (later : ℕ)
        → e.student_id ≡ "ann"
        → IsRefused (upsert_fact_for_episode e fact_id outbox_id later closed_notes))
    × ((t : Trial) (name : WindowName) (score weight : ℕ) (stat_id : String) (later : ℕ)
        → t.student_id ≡ "ann"
        → IsRefused (record_intervention_outcome t name score weight stat_id later closed_notes))
request_stops_writes_example =
    request_stops_writes "ann" "del_1" 5 school after_request closed_notes request_made refl
