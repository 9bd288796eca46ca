-- ===== src/Sync/Service.antt =====
-- The entry points of sync/service.py: `process_batch`, and the device operations. The student's
-- advisory lock makes a batch one step.
use bridgesat_agent.Common.{
  ltb, Bool, true, false, not, ◌&&◌, ◌||◌, String, Option, none, some, List, [], ◌∷◌, ◌++◌,
  if◌then◌else◌, ◌==◌, nat_eq, string_eq, length, find_by, update_by, count_by, sort_by,
}
use bridgesat_agent.Sync.Types.{
  unauthorized_student, payload_too_large, Rejected, Request, DeviceRow, Store, Fault,
}
use bridgesat_agent.Sync.Rows.{Result, done, raised, ◌>>=◌}
use bridgesat_agent.Sync.Apply.{Output, World}
use bridgesat_agent.Sync.Batch.{
  max_events_per_batch, by_sequence, is_device, student_exists, advance_device_sequence, Progress,
  process_events,
}

-- `SyncResponse`, without the snapshot that it carries; or the exception that reaches the caller.
pub data Answer {ℓ} (D : Type ℓ) : Type ℓ where
  response : Output D → List String → Answer D
  device_not_found device_revoked : Answer D
  failed : Fault → Answer D

abbrev pub is_empty : List String → Bool
is_empty [] = true
is_empty (x ∷ xs) = false

module _ {ℓ} {D : Type ℓ} where
  abbrev pub nothing : Output D
  nothing = record { accepted = []; rejected = []; conflicts = []; server_agent_events = [] }

  -- The response that rejects the whole batch.
  abbrev pub rejected_batch : Rejected → Answer D
  rejected_batch r = response (record nothing { rejected = r ∷ [] }) []

module _ {ℓ} {R D : Type ℓ} where
  abbrev pub start : Store R → Progress R D
  start s = record { store = s; out = nothing; duplicates = []; accepted_max_sequence = 0 }

  -- The device's sequence number moves when an event was accepted.
  unfoldable pub finish_batch : Request → Progress R D → Result (Progress R D)
  finish_batch q p =
      if is_empty p.out.accepted
      then done p
      else (advance_device_sequence q p.accepted_max_sequence p.store >>= λ s.
          done (record p { store = s }))

  -- The events of a batch in the order of the device.
  unfoldable pub run_batch : World R D → Request → Store R → Result (Progress R D)
  run_batch w q s =
      process_events w q (sort_by by_sequence q.events) (start s) >>= λ p. finish_batch q p

  -- The transaction around a batch, which an exception rolls back.
  abbrev pub commit : Store R → Result (Progress R D) → Answer D × Store R
  commit s (done p) = (response p.out p.duplicates, p.store)
  commit s (raised fault) = (failed fault, s)

  -- `_verify_device`, then the batch
  unfoldable pub from_device : World R D → Request → Store R → Option DeviceRow → Answer D × Store R
  from_device w q s none = (device_not_found, s)
  from_device w q s (some device) =
      if device.is_active then commit s (run_batch w q s) else (device_revoked, s)

  -- `_process_batch_locked` in its transaction
  unfoldable pub process_batch_locked : World R D → Request → Store R → Answer D × Store R
  process_batch_locked w q s =
      if student_exists q.student_id s
      then from_device w q s (find_by (is_device q.device_id q.student_id) s.devices)
      else (
        rejected_batch (record { event_id = ""; code = unauthorized_student; retryable = false }),
        s,
      )

  -- `process_batch`
  unfoldable pub process_batch : World R D → Request → Store R → Answer D × Store R
  process_batch w q s =
      if ltb max_events_per_batch (length q.events)
      then (
        rejected_batch (record { event_id = ""; code = payload_too_large; retryable = false }),
        s,
      )
      else process_batch_locked w q s

-- `_require_active_student`: the exception, if any.
pub data Standing : Type 0 where
  active unknown_student student_inactive : Standing

-- What the device operations give.
pub data DeviceReply : Type 0 where
  registered : String → DeviceReply
  revoked unknown_student student_inactive device_not_found device_taken : DeviceReply

module _ {ℓ} {R : Type ℓ} where
  unfoldable pub standing : String → Store R → Standing
  standing student_id s = elim (find_by (λ r. r.id == student_id) s.students) [
    | none ↦ unknown_student
    | some r ↦ if r.is_active && not r.has_deletion then active else student_inactive
  ]

  -- `register_device`; `taken_elsewhere` says that a device of another tenant has the id.
  unfoldable pub register_device :
      (String → Bool) → String → String → Store R → DeviceReply × Store R
  register_device taken_elsewhere student_id device_id s = elim (standing student_id s) [
    | unknown_student ↦ (unknown_student, s)
    | student_inactive ↦ (student_inactive, s)
    | active ↦
        if taken_elsewhere device_id || ltb 0 (count_by (λ r. r.device_id == device_id) s.devices)
        then (device_taken, s)
        else (
          registered device_id,
          record s {
            devices =
                s.devices
                ++ record {
                  device_id = device_id;
                  student_id = student_id;
                  is_active = true;
                  last_device_sequence = 0;
                }
                  ∷ [];
          },
        )
  ]

  -- `revoke_device`
  unfoldable pub revoke_device : String → String → Store R → DeviceReply × Store R
  revoke_device device_id student_id s = elim (standing student_id s) [
    | unknown_student ↦ (device_not_found, s)
    | student_inactive ↦ (student_inactive, s)
    | active ↦
        if count_by (is_device device_id student_id) s.devices == 0
        then (device_not_found, s)
        else (
          revoked,
          record s {
            devices =
                update_by (is_device device_id student_id) (λ r. record r { is_active = false })
                  s.devices;
          },
        )
  ]
