-- ===== src/Sync/Batch.antt =====
-- A batch of events (sync/service.py `process_batch` and `_process_batch_locked`): the checks before an
-- event is applied, its savepoint, and the device's sequence number.
use Prim.Native.Nat.{max}
use Prim.Native.String.{◌++◌ as ◌^◌, compare}
use Prim.Native.Nat.{Ordering}
use bridgesat_agent.Common.{
  ℕ, ◌*◌, ltb, leb, Bool, true, false, not, ◌&&◌, ◌||◌, String, Option, none, some, List, [], ◌∷◌,
  ◌++◌, if◌then◌else◌, ◌==◌, nat_eq, string_eq, option_eq, contains, find_by, update_by, count_by,
}
use bridgesat_agent.Sync.Types.{
  ErrorCode, invalid_schema, missing_dependency, payload_too_large, Envelope, Request, DeviceRow,
  Store, Constraint, learning_events_pkey, answer_attempts_pkey, answer_attempts_event_id_key,
  study_sessions_pkey, Fault, event_validation_error, unique_violation, other_error,
}
use bridgesat_agent.Sync.Rows.{
  Result, done, raised, ◌>>=◌, invalid, learning_event_exists, learning_event_owner, attempt_owner,
  attempt_event_owner, session_owner,
}
use bridgesat_agent.Sync.Apply.{Output, World, attempt_id_of, reject}
use bridgesat_agent.Sync.Handlers.{apply_event}

-- `MAX_EVENTS_PER_BATCH` and `MAX_PAYLOAD_BYTES`
abbrev pub max_events_per_batch : ℕ
max_events_per_batch = 100

abbrev pub max_payload_bytes : ℕ
max_payload_bytes = 64 * 1024

-- `_verify_integrity`; the separator is the character 0.
unfoldable pub verify_integrity : (String → String) → Envelope → Bool
verify_integrity sha256 e = elim e.integrity_hash [
  | none ↦ false
  | some hash ↦ hash == "sha256:" ^ sha256 (e.event_type ^ "\0" ^ e.payload.canonical)
]

-- The order of a batch: by the sequence number, then by the event id.
abbrev pub text_leb : String → String → Bool
text_leb a b = elim (compare a b) [ Ordering.gt ↦ false | _ ↦ true ]

abbrev pub by_sequence : Envelope → Envelope → Bool
by_sequence a b =
    ltb a.device_sequence b.device_sequence
    || (a.device_sequence == b.device_sequence && text_leb a.event_id b.event_id)

-- The envelope with the student and the device that the request was authorised for.
abbrev pub authorise : Request → Envelope → Envelope
authorise q e = record e { student_id = q.student_id; device_id = q.device_id }

abbrev pub is_device : String → String → DeviceRow → Bool
is_device device_id student_id r = r.device_id == device_id && r.student_id == student_id

abbrev pub owned_by_another : Option String → String → Option Fault
owned_by_another none student_id = some invalid
owned_by_another (some owner) student_id = if owner == student_id then none else some invalid

module _ {ℓ} {R : Type ℓ} where
  -- `_student_exists`: the student is active, and no deletion of it has begun.
  unfoldable pub student_exists : String → Store R → Bool
  student_exists student_id s = elim (find_by (λ r. r.id == student_id) s.students) [
    | none ↦ false
    | some r ↦ r.is_active && not r.has_deletion
  ]

  -- `_sequence_increases`
  unfoldable pub sequence_increases : Request → Envelope → Store R → Bool
  sequence_increases q e s = elim (find_by (is_device q.device_id q.student_id) s.devices) [
    | none ↦ false
    | some r ↦ ltb r.last_device_sequence e.device_sequence
  ]

  -- `_advance_device_sequence`
  unfoldable pub advance_device_sequence : Request → ℕ → Store R → Result (Store R)
  advance_device_sequence q batch_max s =
      if count_by (is_device q.device_id q.student_id) s.devices == 1
      then done (record s {
        devices =
            update_by (is_device q.device_id q.student_id)
              (λ r. record r { last_device_sequence = batch_max }) s.devices;
      })
      else raised other_error

  -- `_missing_dependency`: whether the first dependency that is not met is not stored at all.
  unfoldable pub missing_dependency_of : String → List String → Store R → Result Bool
  missing_dependency_of student_id [] s = done false
  missing_dependency_of student_id (dep ∷ deps) s =
      let rest = missing_dependency_of student_id deps s in
      if learning_event_exists dep student_id s then rest else elim (learning_event_owner dep s) [
        | none ↦ done true
        | some owner ↦ if owner == student_id then rest else raised invalid
      ]

  -- `_global_id_collision`: the rejection that a violated unique constraint becomes; `none` where the
  -- student owns the identifier, and the violation is raised again.
  unfoldable pub global_id_collision : Constraint → Envelope → Store R → Option Fault
  global_id_collision learning_events_pkey e s =
      owned_by_another (learning_event_owner e.event_id s) e.student_id
  global_id_collision answer_attempts_event_id_key e s = elim (learning_event_owner e.event_id s) [
    | none ↦ owned_by_another (attempt_event_owner e.event_id s) e.student_id
    | some owner ↦ owned_by_another (some owner) e.student_id
  ]
  global_id_collision answer_attempts_pkey e s =
      if e.event_type == "ANSWER_SUBMITTED"
      then owned_by_another (attempt_owner (attempt_id_of e) s) e.student_id
      else none
  global_id_collision study_sessions_pkey e s =
      owned_by_another (session_owner e.session_id s) e.student_id

-- What the loop over the events carries: the store, the lists, the duplicates, and the highest
-- accepted sequence number.
pub record Progress {ℓ} (R D : Type ℓ) : Type ℓ where
  pub store : Store R
  pub out : Output D
  pub duplicates : List String
  pub accepted_max_sequence : ℕ

module _ {ℓ} {R D : Type ℓ} where
  abbrev pub reject_in : Envelope → ErrorCode → Bool → Progress R D → Progress R D
  reject_in e code retryable p = record p { out = reject e code retryable p.out }

  -- After the savepoint of an event: its effects, or its rejection on the state before it, or the
  -- exception that ends the batch.
  unfoldable pub settle :
      Envelope → Progress R D → Result (Store R × Output D) → Result (Progress R D)
  settle e p (done (s, out)) = done (record p {
    store = s;
    out = out;
    accepted_max_sequence =
        if contains out.accepted e.event_id
        then max p.accepted_max_sequence e.device_sequence
        else p.accepted_max_sequence;
  })
  settle e p (raised (event_validation_error code retryable)) = done (reject_in e code retryable p)
  settle e p (raised (unique_violation c)) = elim (global_id_collision c e p.store) [
    | some (event_validation_error code retryable) ↦ done (reject_in e code retryable p)
    | _ ↦ raised (unique_violation c)
  ]
  settle e p (raised other_error) = raised other_error

  -- The dependencies, then the application.
  unfoldable pub apply_checked : World R D → Envelope → Progress R D → Result (Progress R D)
  apply_checked w e p = elim (missing_dependency_of e.student_id e.depends_on_event_ids p.store) [
    | done true ↦ done (reject_in e missing_dependency true p)
    | done false ↦ settle e p (apply_event w true e (p.store, p.out))
    | raised fault ↦ settle e p (raised fault)
  ]

  -- The body of the loop of `_process_batch_locked`
  unfoldable pub process_event :
      World R D → Request → Envelope → Progress R D → Result (Progress R D)
  process_event w q envelope p =
      let e = authorise q envelope in
      if not (verify_integrity w.sha256 e)
      then done (reject_in e invalid_schema false p)
      else if ltb max_payload_bytes e.payload.dumped_bytes
      then done (reject_in e payload_too_large false p)
      else if learning_event_exists e.event_id q.student_id p.store
      then done (record p { duplicates = p.duplicates ++ e.event_id ∷ [] })
      else if ltb 0 p.accepted_max_sequence && leb e.device_sequence p.accepted_max_sequence
      then done (reject_in e invalid_schema false p)
      else if not (sequence_increases q e p.store)
      then done (reject_in e invalid_schema false p)
      else apply_checked w e p

  unfoldable pub process_events :
      World R D → Request → List Envelope → Progress R D → Result (Progress R D)
  process_events w q [] p = done p
  process_events w q (e ∷ es) p = process_event w q e p >>= λ p'. process_events w q es p'
