-- ===== src/Sync/Handed/Batches.antt =====
-- A batch keeps what the agent's operations keep (`process_batch` of sync/service.py).
use bridgesat_agent.Common.{
  Bool, true, false, ◌&&◌, not, Option, none, some, List, [], ◌∷◌, ◌++◌, ltb, leb, nat_eq,
  string_eq, option_eq, if◌then◌else◌, sort_by, find_by, length,
}
use bridgesat_agent.Sync.Types.{
  Envelope, Store, Request, Fault, DeviceRow, event_validation_error, unique_violation, other_error,
  payload_too_large, missing_dependency, invalid_schema,
}
use bridgesat_agent.Sync.Rows.{Result, done, raised, learning_event_exists}
use bridgesat_agent.Sync.Apply.{Output, World}
use bridgesat_agent.Sync.Handlers.{apply_event}
use bridgesat_agent.Sync.Batch.{
  max_payload_bytes, max_events_per_batch, verify_integrity, authorise, sequence_increases,
  missing_dependency_of, global_id_collision, Progress, reject_in, settle, apply_checked,
  process_event, process_events, student_exists, is_device, by_sequence,
}
use bridgesat_agent.Sync.Service.{
  Answer, is_empty, commit, start, finish_batch, run_batch, from_device, process_batch_locked,
  process_batch,
}
use bridgesat_agent.Sync.Frame.{Gives, Gives-if, Gives-bind}
use bridgesat_agent.Sync.Handed.{advance_device_sequence-RestStays, IsKept, Kept, keeps}
use bridgesat_agent.Sync.Handed.Events.{apply_event-Kept}

module _ {ℓ κ} {R D : Type ℓ} (P : R → Type κ) (w : World R D) (laws : IsKept P w) where
  settle-Kept :
      (e : Envelope) (p : Progress R D) (r : Result (Store R × Output D))
      → P p.store.rest
      → Gives (Kept P) r
      → Gives (λ p'. P p'.store.rest) (settle e p r)
  unfolding settle
  settle-Kept e p (done (s, out)) h k = k
  settle-Kept e p (raised (event_validation_error code retryable)) h k = h
  settle-Kept e p (raised (unique_violation c)) h k = collide (global_id_collision c e p.store)
    where
      collide :
          (o : Option Fault)
          → Gives
              (λ p'. P p'.store.rest)
              (elim o [
                | some (event_validation_error code retryable) ↦ done (reject_in e code retryable p)
                | _ ↦ raised (unique_violation c)
              ])
      collide none = tt
      collide (some (event_validation_error code retryable)) = h
      collide (some (unique_violation c')) = tt
      collide (some other_error) = tt
  settle-Kept e p (raised other_error) h k = tt

  apply_checked-Kept :
      (e : Envelope) (p : Progress R D)
      → P p.store.rest
      → Gives (λ p'. P p'.store.rest) (apply_checked w e p)
  unfolding apply_checked
  apply_checked-Kept e p h =
      checked (missing_dependency_of e.student_id e.depends_on_event_ids p.store)
    where
      checked :
          (d : Result Bool)
          → Gives
              (λ p'. P p'.store.rest)
              (elim d [
                | done true ↦ done (reject_in e missing_dependency true p)
                | done false ↦ settle e p (apply_event w true e (p.store, p.out))
                | raised fault ↦ settle e p (raised fault)
              ])
      checked (done true) = h
      checked (done false) =
          settle-Kept e p _ h (apply_event-Kept P w laws true e (p.store, p.out) h)
      checked (raised fault) = settle-Kept e p (raised fault) h tt

  process_events-Kept :
      (q : Request) (es : List Envelope) (p : Progress R D)
      → P p.store.rest
      → Gives (λ p'. P p'.store.rest) (process_events w q es p)
  unfolding process_events process_event
  process_events-Kept q [] p h = h
  process_events-Kept q (envelope ∷ es) p h =
      Gives-bind (λ p'. P p'.store.rest) (λ p'. P p'.store.rest) (process_event w q envelope p) _
        (one (authorise q envelope)) (λ p' k. process_events-Kept q es p' k)
    where
      Q : Progress R D → Type κ
      Q p' = P p'.store.rest

      one :
          (e : Envelope)
          → Gives Q (
              if not (verify_integrity w.sha256 e)
              then done (reject_in e invalid_schema false p)
              else if ltb max_payload_bytes e.payload.dumped_bytes
              then done (reject_in e payload_too_large false p)
              else if learning_event_exists e.event_id q.student_id p.store
              then done (record p { duplicates = p.duplicates ++ e.event_id ∷ [] })
              else if ltb 0 p.accepted_max_sequence && leb e.device_sequence p.accepted_max_sequence
              then done (reject_in e invalid_schema false p)
              else if not (sequence_increases q e p.store)
              then done (reject_in e invalid_schema false p)
              else apply_checked w e p)
      one e = Gives-if Q (not (verify_integrity w.sha256 e)) _ _ h (
          Gives-if Q (ltb max_payload_bytes e.payload.dumped_bytes) _ _ h (
            Gives-if Q (learning_event_exists e.event_id q.student_id p.store) _ _ h (
              Gives-if Q
                (ltb 0 p.accepted_max_sequence && leb e.device_sequence p.accepted_max_sequence) _ _
                h
                (Gives-if Q (not (sequence_increases q e p.store)) _ _ h
                  (apply_checked-Kept e p h)))))

  finish_batch-Kept :
      (q : Request) (p : Progress R D)
      → P p.store.rest
      → Gives (λ p'. P p'.store.rest) (finish_batch q p)
  unfolding finish_batch
  finish_batch-Kept q p h =
      Gives-if (λ p'. P p'.store.rest) (is_empty p.out.accepted) _ _ h
        (Gives-bind (λ p'. P p'.store.rest) (λ s'. P s'.rest) _ _
          (keeps P p.store _ h
            (advance_device_sequence-RestStays q p.accepted_max_sequence p.store))
          (λ s' k. k))

  commit-Kept :
      (s : Store R) (r : Result (Progress R D))
      → P s.rest
      → Gives (λ p'. P p'.store.rest) r
      → P (commit s r).1.rest
  commit-Kept s (done p) h k = k
  commit-Kept s (raised fault) h k = h

  if-Kept :
      (b : Bool) (x y : Answer D × Store R)
      → P x.1.rest
      → P y.1.rest
      → P (if b then x else y).1.rest
  if-Kept true x y h k = h
  if-Kept false x y h k = k

  device-Kept :
      (q : Request) (s : Store R) (device : Option DeviceRow)
      → P s.rest
      → P (from_device w q s device).1.rest
  unfolding from_device run_batch
  device-Kept q s none h = h
  device-Kept q s (some device) h =
      if-Kept device.is_active _ _
        (commit-Kept s _ h (
          Gives-bind (λ p'. P p'.store.rest) (λ p'. P p'.store.rest) _ _
            (process_events-Kept q (sort_by by_sequence q.events) (start s) h)
            (λ p k. finish_batch-Kept q p k)))
        h

  -- Every batch keeps a property of the handed-over state that both operations keep, however it ends.
  pub process_batch-Kept : (q : Request) (s : Store R) → P s.rest → P (process_batch w q s).1.rest
  unfolding process_batch process_batch_locked
  process_batch-Kept q s h = if-Kept (ltb max_events_per_batch (length q.events)) _ _ h (
      if-Kept (student_exists q.student_id s) _ _
        (device-Kept q s (find_by (is_device q.device_id q.student_id) s.devices) h) h)
