-- ===== src/Agent/Lessons.antt =====
-- Which lessons may be shown (sync/service.py `_registry_matches_lesson`,
-- `_lesson_matches_durable_payload` and `_lesson_matches_verified_payload`).
use bridgesat_agent.Common.{
  Bool, true, false, ◌&&◌, String, Option, none, some, List, [], ◌∷◌, if◌then◌else◌, ◌==◌, nat_eq,
  string_eq, option_eq, contains, find_by,
}
use bridgesat_agent.Memory.{show_worked_example, show_micro_lesson, value}
use bridgesat_agent.Sync.Scoring.{PackDir, Lesson, PackAnswerKey, pack, teaching_asset_meta}
use bridgesat_agent.Agent.{
  LessonPayload, ContentItem, ContentVersion, ContentPack, ContentPackItem, Registry,
}

-- `{SHOW_WORKED_EXAMPLE: "worked_example", SHOW_MICRO_LESSON: "micro_lesson"}.get(action)`
unfoldable pub lesson_type_of : String → Option String
lesson_type_of action =
    if action == value show_worked_example
    then some "worked_example"
    else if action == value show_micro_lesson
    then some "micro_lesson"
    else none

-- The conditions of the query on each of its tables.
abbrev pub is_approved_item : Lesson → ContentItem → Bool
is_approved_item l i =
    i.content_id == l.id
    && i.version == l.version
    && i.review_status == "approved"
    && i.status == "approved"
    && i.withdrawn_at == none

abbrev pub is_version_of : Lesson → ContentVersion → Bool
is_version_of l v = v.content_id == l.id && v.version == l.version

abbrev pub is_published : PackAnswerKey → ContentPack → Bool
is_published key p =
    p.pack_version == key.pack_version && p.pack_id == key.pack_id && p.status == "published"

abbrev pub is_packed : PackAnswerKey → Lesson → ContentPackItem → Bool
is_packed key l p = p.pack_id == key.pack_id && p.content_id == l.id && p.version == l.version

-- The joined row: the item, the hash of its version and the version of its pack.
unfoldable pub registry_row :
    Registry → PackAnswerKey → Lesson → Option (ContentItem × String × String)
registry_row r key l = elim (find_by (is_approved_item l) r.items) [
  | none ↦ none
  | some item ↦ elim (find_by (is_version_of l) r.versions) [
    | none ↦ none
    | some version ↦ elim (find_by (is_packed key l) r.pack_items) [
      | none ↦ none
      | some _ ↦ elim (find_by (is_published key) r.packs) [
        | none ↦ none
        | some p ↦ some (item, version.content_hash, p.pack_version)
      ]
    ]
  ]
]

-- `_registry_matches_lesson`; the lesson's pack is that of the key it comes from.
unfoldable pub registry_matches_lesson : Registry → PackAnswerKey → Lesson → Bool
registry_matches_lesson r key l = elim (registry_row r key l) [
  | none ↦ false
  | some (item, version_hash, pack_version) ↦
      item.content_id == l.id
      && item.version == l.version
      && item.content_type == l.content_type
      && item.target_skill == l.target_skill
      && l.license_id == some item.license_id
      && l.license_name == some item.license_name
      && l.source_id == some item.source_id
      && version_hash == l.content_hash
      && item.canonical_body_hash == l.content_hash
      && item.license_snapshot == some l.license
      && item.source_lineage == some l.source_lineage
      && pack_version == key.pack_version
]

-- `misconception is None or not target_misconceptions or misconception in target_misconceptions`
abbrev pub suits : Option String → List String → Bool
suits none targets = true
suits (some m) [] = true
suits (some m) (t ∷ ts) = contains (t ∷ ts) m

-- The lesson that the pack offers for a skill; a skill that is missing has none.
unfoldable pub offered :
    List PackDir → String → String → Option String → Option String → Option (PackAnswerKey × Lesson)
offered dirs pack_version lesson_type misconception skill = elim ((pack dirs [] pack_version).0) [
  | none ↦ none
  | some key ↦ elim skill [
    | none ↦ none
    | some s ↦ elim (teaching_asset_meta key s lesson_type misconception) [
      | none ↦ none
      | some l ↦ some (key, l)
    ]
  ]
]

-- What both checks ask of the offered lesson.
unfoldable pub matches_durable :
    Registry → Option String → LessonPayload → PackAnswerKey → Lesson → Bool
matches_durable r misconception p key l =
    p.content_id == some l.id
    && p.content_version == some l.version
    && l.review_status == "approved"
    && registry_matches_lesson r key l
    && p.skill == some l.target_skill
    && p.misconception == misconception
    && suits misconception l.target_misconceptions

unfoldable pub matches_verified : LessonPayload → PackAnswerKey → Lesson → Bool
matches_verified p key l =
    p.content_hash == some l.content_hash
    && p.pack_version == some key.pack_version
    && p.source_lineage == some l.source_lineage
    && p.review_status == some "approved"

-- `_lesson_matches_durable_payload`
unfoldable pub lesson_matches_durable_payload :
    List PackDir → Registry → String → String → Option String → LessonPayload → Bool
lesson_matches_durable_payload dirs r pack_version lesson_type misconception p =
    elim (offered dirs pack_version lesson_type misconception p.skill) [
      | none ↦ false
      | some (key, l) ↦ matches_durable r misconception p key l
    ]

-- `_lesson_matches_verified_payload`
unfoldable pub lesson_matches_verified_payload :
    List PackDir → Registry → String → String → Option String → LessonPayload → Bool
lesson_matches_verified_payload dirs r pack_version lesson_type misconception p =
    if lesson_matches_durable_payload dirs r pack_version lesson_type misconception p
    then elim (offered dirs pack_version lesson_type misconception p.skill) [
      | none ↦ false
      | some (key, l) ↦ matches_verified p key l
    ]
    else false
