-- ===== src/Examples/Agent.antt =====
-- A wrong answer, the lesson that the agent decides on, and its presentation (app/sync/service.py).
use bridgesat_agent.Common.{
  ◌≡◌, ◌≤◌, ◌+◌, ◌⊎◌, refl, true, false, some, [], ◌∷◌, All, find_by, filter_by, sort_by, insert_by,
  count_by, string_eq, option_eq,
}
use bridgesat_agent.Memory.{value}
use bridgesat_agent.Policy.Types.{truthy}
use bridgesat_agent.Sync.Service.{process_batch}
use bridgesat_agent.Agent.Present.{world_of}
use bridgesat_agent.Agent.Sound.{AreSound, process_batch-AreSound}
use bridgesat_agent.Sync.Scoring.{
  pack, load, available_versions, published_as, pack_id_of, teaching_asset_meta, lesson_candidates,
}
use bridgesat_agent.Sync.Rows.{done}
use bridgesat_agent.Sync.Frame.{Gives}
use bridgesat_agent.Agent.Lessons.{
  suits, lesson_type_of, registry_row, registry_matches_lesson, offered, matches_durable,
  lesson_matches_durable_payload,
}
use bridgesat_agent.Agent.Inputs.{is_teaching, policy_input}
use bridgesat_agent.Agent.Serve.{as_decided, with_lesson, serve}
use bridgesat_agent.Agent.Decide.{decide_and_record}
use bridgesat_agent.Agent.Payloads.{Presentation, presentation_of, decision_row}
use bridgesat_agent.Agent.Present.{start_presented_intervention}
use bridgesat_agent.Agent.Teaching.{Teaches, serve-Teaches}
use bridgesat_agent.Agent.Decisions.{Ends, IsRecorded, decide_and_record-IsRecorded}
use bridgesat_agent.Agent.Presentations.{IsStarted, start-IsStarted}
use bridgesat_agent.Agent.Refusals.{Refuses, start-Refuses}
use bridgesat_agent.Agent.Again.{renamed, start_again}
use bridgesat_agent.Agent.Bounds.{policy_input_bounds}
use bridgesat_agent.Agent.Present.{
  start_for, expected_payload, served_action, verified_payload_of, agrees, start_episode,
  presented_episode_id,
}
use bridgesat_agent.Agent.Payloads.{expected_action}
use bridgesat_agent.Agent.Decide.{complete_episode, decide, agent_event_of, append_agent_event}
use bridgesat_agent.Memory.Builder.{
  complete_runtime_candidate, pending_candidate, start_runtime_candidate, insert_episode,
}
use bridgesat_agent.Agent.Inputs.{
  observed, recalled_for, skill_recent, consecutive_errors, correct_streak, ids_by_intervention,
  add_recalled,
}
use bridgesat_agent.Memory.Recall.{recall_episodes}
use bridgesat_agent.Policy.Rules.{
  decide_next_action, derive_policy_constraints, derive_body, by_recalled, recalled_actions,
  note_all, note_recalled, ladder, repeated_errors,
}
use bridgesat_agent.Policy.Branches.{after_repeated_errors}
use bridgesat_agent.Policy.Types.{preferred_fallback_as_result}
use bridgesat_agent.Memory.{parse_action, action_beq}
use bridgesat_agent.Learner.{mastery, confidence}
use bridgesat_agent.Memory.Tables.{ensure_active_student, episode_beq}
use bridgesat_agent.Deletion.Store.{standing_beq}
use bridgesat_agent.Outbox.Rows.{decimal}
use bridgesat_agent.Examples.Lessons.{
  algebra_dir, published_key, content, setup, wrong_answer, scored, answered, teach, inputs, shown,
  after_decision, lesson_started, class, one_answer,
}

packed : (pack (algebra_dir ∷ []) [] "1").0 ≡ some published_key
unfolding pack load available_versions published_as pack_id_of truthy
packed = refl

-- The decision's lesson starts an episode when it is shown.
decided_lesson_starts : lesson_started ≡ true
unfolding start_presented_intervention start_for presentation_of expected_action truthy value
    decision_row find_by decide_and_record complete_episode complete_runtime_candidate
    pending_candidate sort_by insert_by filter_by decide pack load available_versions published_as
    pack_id_of policy_input observed recalled_for recall_episodes skill_recent consecutive_errors
    correct_streak ids_by_intervention add_recalled count_by decide_next_action
    derive_policy_constraints derive_body by_recalled recalled_actions note_all note_recalled ladder
    repeated_errors after_repeated_errors preferred_fallback_as_result parse_action action_beq
    mastery confidence lesson_type_of teaching_asset_meta lesson_candidates registry_matches_lesson
    registry_row with_lesson serve agent_event_of append_agent_event expected_payload served_action
    verified_payload_of lesson_matches_durable_payload matches_durable offered agrees start_episode
    presented_episode_id start_runtime_candidate insert_episode ensure_active_student standing_beq
    episode_beq decimal as_decided
decided_lesson_starts = refl

-- A lesson on another misconception is served all the same, and its presentation would be rejected.
other_lesson : suits (some "sign") ("order" ∷ []) ≡ false
other_lesson = refl

serve-Teaches_example :
    Teaches
      (algebra_dir ∷ [])
      content
      "1"
      published_key
      (some "sign")
      "algebra"
      "worked_example"
      (serve content published_key (some "sign") inputs teach).action_payload
unfolding serve teaching_asset_meta lesson_candidates registry_matches_lesson registry_row
    lesson_type_of value with_lesson find_by filter_by sort_by insert_by truthy policy_input
serve-Teaches_example =
    serve-Teaches (algebra_dir ∷ []) content "1" published_key (some "sign") inputs teach
      "worked_example" packed refl

decide_and_record-IsRecorded_example :
    Ends
      (λ (rest, d, next).
        (next ≡ d.event.state_after)
        × IsRecorded setup wrong_answer scored "algebra" answered (rest, d.event))
      (decide_and_record setup wrong_answer scored answered)
decide_and_record-IsRecorded_example =
    decide_and_record-IsRecorded setup wrong_answer scored "algebra" answered refl

start-IsStarted_example :
    Gives
      (λ rest.
        (p : Presentation) × (presentation_of shown ≡ done p)
        × IsStarted setup shown p after_decision rest)
      (start_presented_intervention setup shown after_decision)
start-IsStarted_example = start-IsStarted setup shown after_decision

start_again_example :
    Gives
      (λ rest.
        start_presented_intervention setup
          (renamed shown "e3")
          (record after_decision { rest = rest })
        ≡ done rest)
      (start_presented_intervention setup shown after_decision)
start_again_example = start_again setup shown "e3" after_decision

-- The same presentation after its pack was withdrawn.
start-Refuses_example :
    Refuses (start_presented_intervention (record setup { dirs = [] }) shown after_decision)
start-Refuses_example = start-Refuses (record setup { dirs = [] }) shown after_decision

policy_input_bounds_example :
    (inputs.recent_correct_without_high_hint ≤ inputs.recent_total)
    × (inputs.recent_total ≤ 3)
    × ((inputs.consecutive_errors ≡ 0) ⊎ (inputs.correct_streak ≡ 0))
    × (inputs.consecutive_errors + inputs.correct_streak ≤ 20)
    × (inputs.misconception_distinct_items ≤ inputs.misconception_observation_count)
    × (inputs.repeated_misconception ≡ true → 2 ≤ inputs.misconception_observation_count)
    × All (λ k. is_teaching k ≡ true) inputs.recalled_successful_interventions
policy_input_bounds_example =
    policy_input_bounds wrong_answer scored published_key "algebra" answered inputs refl

process_batch-AreSound_example : AreSound (process_batch (world_of setup) one_answer class).1.rest
process_batch-AreSound_example = process_batch-AreSound setup one_answer class tt
