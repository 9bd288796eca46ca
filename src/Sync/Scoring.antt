-- ===== src/Sync/Scoring.antt =====
-- sync/versioned_scoring.py: answers are scored against the key of the pack version that the event
-- names. A pack directory is as its files read; `none` is `QuestionVersionError`.
use Prim.Native.Nat.{Ordering}
use Prim.Native.String.{compare, [] as no_text, ◌∷◌ as ◌then◌}
use Prim.Native.Char.{code}
use bridgesat_agent.Common.{
  ℕ, Bool, true, false, ◌&&◌, String, Option, none, some, List, [], ◌∷◌, if◌then◌else◌, ◌==◌,
  nat_eq, string_eq, option_eq, lookup, insert, contains, filter_by, find_by, sort_by,
}
use bridgesat_agent.Policy.Types.{truthy}

-- A line of items.jsonl, and of lessons.jsonl.
pub record Item : Type 0 where
  pub id : String
  pub version : ℕ
  pub answer_choice_id : String
  pub target_skill : Option String
  pub target_subskill : Option String
  pub difficulty : Option ℕ
  pub misconception_map : List (String × String)

pub record Lesson : Type 0 where
  pub id : String
  pub version : ℕ
  pub content_type : String
  pub target_skill : String
  pub review_status : String
  pub target_misconceptions : List String
  pub content_hash : String
  pub license : String
  pub license_id : Option String
  pub license_name : Option String
  pub source_lineage : String
  pub source_id : Option String

pub record Manifest : Type 0 where
  pub status : String
  pub pack_version : Option String
  pub pack_id : Option String

-- A directory under the root; the files that may be missing are optional.
pub record PackDir : Type 0 where
  pub name : String
  pub manifest : Option Manifest
  pub items : Option (List Item)
  pub lessons : List Lesson

-- `PackAnswerKey`
pub record PackAnswerKey : Type 0 where
  pub pack_version : String
  pub pack_id : String
  pub items : List (String × Item)
  pub lessons : List Lesson

-- The loop over the lines of items.jsonl: a later line replaces an earlier one with its id.
abbrev pub index_items : List Item → List (String × Item) → List (String × Item)
index_items [] index = index
index_items (item ∷ items) index = index_items items (insert item.id item index)

-- The text before the last dash, if there is one.
abbrev pub before_last_dash : String → Option String
before_last_dash no_text = none
before_last_dash (c then t) = elim (before_last_dash t) [
  | some start ↦ some (c then start)
  | none ↦ if code c == 45 then some no_text else none
]

-- `manifest.get("pack_id") or pack_dir.name.rsplit("-", 1)[0]`
unfoldable pub pack_id_of : String → Manifest → String
pack_id_of name manifest =
    let stem : String = elim (before_last_dash name) [ none ↦ name | some start ↦ start ] in
    elim manifest.pack_id [ none ↦ stem | some id ↦ if truthy (some id) then id else stem ]

-- `PackAnswerKey._load`
unfoldable pub load : String → PackDir → Option PackAnswerKey
load pack_version dir = elim dir.manifest [
  | none ↦ none
  | some manifest ↦ elim dir.items [
    | none ↦ none
    | some items ↦
        if manifest.pack_version == some pack_version
        then some (record {
          pack_version = pack_version;
          pack_id = pack_id_of dir.name manifest;
          items = index_items items [];
          lessons = dir.lessons;
        })
        else none
  ]
]

-- The version that a directory is published as: the manifest's, else the directory's name.
unfoldable pub published_as : PackDir → Option String
published_as dir = elim dir.manifest [
  | none ↦ none
  | some manifest ↦
      if manifest.status == "published"
      then elim manifest.pack_version [
        | none ↦ some dir.name
        | some v ↦ if truthy (some v) then some v else some dir.name
      ]
      else none
]

-- `_available_versions`, over the directories in the order of their names
unfoldable pub available_versions : List PackDir → List (String × PackDir) → List (String × PackDir)
available_versions [] versions = versions
available_versions (dir ∷ dirs) versions = elim (published_as dir) [
  | none ↦ available_versions dirs versions
  | some v ↦ available_versions dirs (insert v dir versions)
]

-- `VersionedAnswerKey.pack`: the loaded key of a published version, which is kept for later calls.
unfoldable pub pack :
    List PackDir
    → List (String × PackAnswerKey)
    → String
    → Option PackAnswerKey × List (String × PackAnswerKey)
pack dirs packs pack_version = elim (lookup pack_version packs) [
  | some key ↦ (some key, packs)
  | none ↦ elim (lookup pack_version (available_versions dirs [])) [
    | none ↦ (none, packs)
    | some dir ↦ elim (load pack_version dir) [
      | none ↦ (none, packs)
      | some key ↦ (some key, insert pack_version key packs)
    ]
  ]
]

-- The item of a question, if its version is the one that is asked for.
unfoldable pub item_at : PackAnswerKey → String → ℕ → Option Item
item_at key question_id question_version = elim (lookup question_id key.items) [
  | none ↦ none
  | some item ↦ if item.version == question_version then some item else none
]

-- `answer_choice_id`
unfoldable pub answer_choice_id : PackAnswerKey → String → ℕ → Option String
answer_choice_id key question_id question_version =
    elim (item_at key question_id question_version) [
      | none ↦ none
      | some item ↦ some item.answer_choice_id
    ]

-- `item_meta`, with the entries that the service reads
pub record Meta : Type 0 where
  pub skill : Option String
  pub subskill : Option String
  pub difficulty : Option ℕ
  pub misconception_map : List (String × String)

unfoldable pub item_meta : PackAnswerKey → String → ℕ → Option Meta
item_meta key question_id question_version = elim (item_at key question_id question_version) [
  | none ↦ none
  | some item ↦ some (record {
    skill = item.target_skill;
    subskill = item.target_subskill;
    difficulty = item.difficulty;
    misconception_map = item.misconception_map;
  })
]

abbrev pub by_id : Lesson → Lesson → Bool
by_id a b = elim (compare a.id b.id) [ Ordering.gt ↦ false | _ ↦ true ]

abbrev pub first : List Lesson → Option Lesson
first [] = none
first (l ∷ ls) = some l

-- The approved lessons of a skill and kind, in the order of their ids.
unfoldable pub lesson_candidates : PackAnswerKey → String → String → List Lesson
lesson_candidates key skill content_type = sort_by by_id (
    filter_by
      (λ l.
        l.content_type == content_type && l.target_skill == skill && l.review_status == "approved")
      key.lessons)

abbrev pub targets : Option String → Lesson → Bool
targets none l = false
targets (some misconception) l =
    truthy (some misconception) && contains l.target_misconceptions misconception

-- `teaching_asset_meta`: a lesson for the misconception, else the first approved one.
unfoldable pub teaching_asset_meta : PackAnswerKey → String → String → Option String → Option Lesson
teaching_asset_meta key skill content_type misconception =
    let candidates = lesson_candidates key skill content_type in
    elim (find_by (targets misconception) candidates) [
      | some lesson ↦ some lesson
      | none ↦ first candidates
    ]

-- `score`
unfoldable pub score :
    List PackDir → List (String × PackAnswerKey) → String → String → ℕ → String → Option Bool
score dirs packs pack_version question_id question_version selected_choice_id =
    elim ((pack dirs packs pack_version).0) [
      | none ↦ none
      | some key ↦ elim (answer_choice_id key question_id question_version) [
        | none ↦ none
        | some answer ↦ some (selected_choice_id == answer)
      ]
    ]
