-- ===== src/Agent.antt =====
-- The agent's side of a sync batch (sync/service.py, `AgentEvent` of domain/events.py): the rows that
-- it reads and writes beside the tables of the batch. A JSON value is kept as its canonical text.
pub mod Lessons
pub mod Inputs
pub mod Bounds
pub mod Serve
pub mod Decide
pub mod Payloads
pub mod Present
pub mod Teaching
pub mod Decisions
pub mod Offered
pub mod Presentations
pub mod Refusals
pub mod Again
pub mod Sound
use bridgesat_agent.Common.{ℕ, String, Option, List}
use bridgesat_agent.Session.{SessionState}
use bridgesat_agent.Policy.Types.{Payload}
use bridgesat_agent.Memory.Tables.{MemoryStore}

-- The entries of a payload that name a lesson; `none` is a key that is missing.
pub record LessonPayload : Type 0 where
  pub content_id : Option String
  pub content_version : Option ℕ
  pub review_status : Option String
  pub content_hash : Option String
  pub pack_version : Option String
  pub skill : Option String
  pub misconception : Option String
  pub license : Option String
  pub source_lineage : Option String

-- `action_payload`: what the policy wrote, and the lesson that was merged into it.
pub record ActionPayload : Type 0 where
  pub by_policy : Payload
  pub lesson : Option LessonPayload

-- `AgentEvent`, without the constants that every event has.
pub record AgentEvent : Type 0 where
  pub event_id : String
  pub student_id : String
  pub session_id : String
  pub source_event_id : String
  pub state_before : SessionState
  pub state_after : SessionState
  pub action : String
  pub action_payload : ActionPayload
  pub reason_code : String
  pub reason_text : String
  pub content_version : String
  pub referenced_content : List String
  pub episode_ids : List String
  pub created_at : ℕ

-- A row of `hybrid_decision_trace`; the payload is `none` when the token is no JSON object or has no
-- object under `verified_action_payload`.
pub record TraceRow : Type 0 where
  pub student_id : String
  pub source_event_id : String
  pub verified_action : String
  pub verified_action_payload : Option LessonPayload

-- The registry of content: `content_items`, `content_item_versions`, `content_packs` and
-- `content_pack_items`. A JSON column that does not parse is `none`.
pub record ContentItem : Type 0 where
  pub content_id : String
  pub version : ℕ
  pub content_type : String
  pub target_skill : String
  pub license_id : String
  pub license_name : String
  pub source_id : String
  pub review_status : String
  pub status : String
  pub withdrawn_at : Option ℕ
  pub canonical_body_hash : String
  pub license_snapshot : Option String
  pub source_lineage : Option String

pub record ContentVersion : Type 0 where
  pub content_id : String
  pub version : ℕ
  pub content_hash : String

pub record ContentPack : Type 0 where
  pub pack_id : String
  pub pack_version : String
  pub status : String

pub record ContentPackItem : Type 0 where
  pub pack_id : String
  pub content_id : String
  pub version : ℕ

pub record Registry : Type 0 where
  pub items : List ContentItem
  pub versions : List ContentVersion
  pub packs : List ContentPack
  pub pack_items : List ContentPackItem

-- The part of the store that an applied event hands over to.
pub record Rest : Type 0 where
  pub memory : MemoryStore
  pub agent_events : List AgentEvent
  pub traces : List TraceRow
  pub registry : Registry
