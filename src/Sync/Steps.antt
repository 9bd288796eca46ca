-- ===== src/Sync/Steps.antt =====
-- One event of a batch (sync/service.py, the loop of `_process_batch_locked`).
use Prim.Native.Nat.{max}
use bridgesat_agent.Common.{
  ℕ, ◌≤◌, ◌≡◌, ◌⊎◌, refl, Bool, true, false, ◌&&◌, not, inl, inr, String, Option, none, some, List,
  [], ◌∷◌, ◌++◌, if◌then◌else◌, ltb, leb, nat_eq, string_eq, Bool-cases, contains, contains-append,
  beq_refl, arith,
}
use bridgesat_agent.Sync.Types.{
  Envelope, ErrorCode, Rejected, Request, Store, invalid_schema, payload_too_large,
  missing_dependency, Fault, unique_violation, event_validation_error, other_error,
}
use bridgesat_agent.Sync.Rows.{Result, done, raised, learning_event_exists}
use bridgesat_agent.Sync.Apply.{Output, World}
use bridgesat_agent.Sync.Handlers.{apply_event}
use bridgesat_agent.Sync.Batch.{
  max_payload_bytes, verify_integrity, authorise, sequence_increases, missing_dependency_of,
  global_id_collision, Progress, reject_in, settle, apply_checked, process_event,
}
use bridgesat_agent.Sync.Frame.{Gives, Gives-if}
use bridgesat_agent.Sync.Frame.Events.{IsAccepted, IsSettled, apply_event-IsSettled}

raised_max : (b : Bool) (m n : ℕ) → m ≤ (if b then max m n else m)
raised_max true m n = omega arith
raised_max false m n = omega arith

-- An accepted event is found in the list.
accepted_max :
    (xs ys : List String) (id : String) (m n : ℕ)
    → ys ≡ xs ++ id ∷ []
    → (if contains ys id then max m n else m) ≡ max m n
accepted_max xs ys id m n e = rw (e, contains-append xs (id ∷ []) id, beq_refl id) (ground arith)

module _ {ℓ} {R D : Type ℓ} where
  -- The event is accepted, with a number above the device's last one.
  abbrev pub Takes : Request → Envelope → Progress R D → Progress R D → Type 0
  Takes q e p p' =
      IsAccepted e (p.store, p.out) (p'.store, p'.out)
      × (p'.duplicates ≡ p.duplicates)
      × (sequence_increases q e p.store ≡ true)
      × (p'.accepted_max_sequence ≡ max p.accepted_max_sequence e.device_sequence)

  -- The event is listed as rejected.
  abbrev pub Rejects : Envelope → Progress R D → Progress R D → Type 0
  Rejects e p p' =
      ((r : Rejected) × (r.event_id ≡ e.event_id) × (p'.out.rejected ≡ p.out.rejected ++ r ∷ []))
      × (p'.duplicates ≡ p.duplicates)

  -- The event is listed as a duplicate.
  abbrev pub Repeats : Envelope → Progress R D → Progress R D → Type 0
  Repeats e p p' =
      (p'.out.rejected ≡ p.out.rejected) × (p'.duplicates ≡ p.duplicates ++ e.event_id ∷ [])

  -- The event is rejected or a duplicate, and the store stays.
  abbrev pub Refuses : Envelope → Progress R D → Progress R D → Type ℓ
  Refuses e p p' =
      (p'.store ≡ p.store)
      × (p'.out.accepted ≡ p.out.accepted)
      × (Rejects e p p' ⊎ Repeats e p p')
      × (p.accepted_max_sequence ≤ p'.accepted_max_sequence)

  abbrev pub Steps : Request → Envelope → Progress R D → Progress R D → Type ℓ
  Steps q e p p' = Takes q e p p' ⊎ Refuses e p p'

  reject-Refuses :
      (e : Envelope) (code : ErrorCode) (retryable : Bool) (p : Progress R D)
      → Refuses e p (reject_in e code retryable p)
  reject-Refuses e code retryable p = (
    refl,
    refl,
    inl ((record { event_id = e.event_id; code = code; retryable = retryable }, refl, refl), refl),
    omega arith,
  )

  settle-Steps :
      (q : Request) (e : Envelope) (p : Progress R D) (r : Result (Store R × Output D))
      → Gives (IsSettled e (p.store, p.out)) r
      → sequence_increases q e p.store ≡ true
      → Gives (Steps q e p) (settle e p r)
  unfolding settle
  settle-Steps q e p (done (s, out)) (inl a) up =
      inl (a, refl, up, accepted_max p.out.accepted out.accepted e.event_id _ _ a.1)
  settle-Steps q e p (done (s, out)) (inr (kept, same, (r, own, rejected))) up = inr (
    kept,
    same,
    inl ((r, own, rejected), refl),
    raised_max (contains out.accepted e.event_id) p.accepted_max_sequence e.device_sequence,
  )
  settle-Steps q e p (raised (event_validation_error code retryable)) h up =
      inr (reject-Refuses e code retryable p)
  settle-Steps q e p (raised (unique_violation c)) h up = collide (global_id_collision c e p.store)
    where
      collide :
          (o : Option Fault)
          → Gives (Steps q e p) (elim o [
            | some (event_validation_error code retryable) ↦ done (reject_in e code retryable p)
            | _ ↦ raised (unique_violation c)
          ])
      collide none = tt
      collide (some (event_validation_error code retryable)) =
          inr (reject-Refuses e code retryable p)
      collide (some (unique_violation c')) = tt
      collide (some other_error) = tt
  settle-Steps q e p (raised other_error) h up = tt

  apply_checked-Steps :
      (w : World R D) (q : Request) (e : Envelope) (p : Progress R D)
      → sequence_increases q e p.store ≡ true
      → Gives (Steps q e p) (apply_checked w e p)
  unfolding apply_checked
  apply_checked-Steps w q e p up =
      checked (missing_dependency_of e.student_id e.depends_on_event_ids p.store)
    where
      checked :
          (d : Result Bool)
          → Gives (Steps q e p) (elim d [
            | done true ↦ done (reject_in e missing_dependency true p)
            | done false ↦ settle e p (apply_event w true e (p.store, p.out))
            | raised fault ↦ settle e p (raised fault)
          ])
      checked (done true) = inr (reject-Refuses e missing_dependency true p)
      checked (done false) = settle-Steps q e p _ (apply_event-IsSettled w e (p.store, p.out)) up
      checked (raised fault) = settle-Steps q e p (raised fault) tt up

  pub process_event-Steps :
      (w : World R D) (q : Request) (e : Envelope) (p : Progress R D)
      → Gives (Steps q (authorise q e) p) (process_event w q e p)
  unfolding process_event
  process_event-Steps w q envelope p =
      let e : Envelope = authorise q envelope in
      let S : Progress R D → Type ℓ = Steps q e p in
      Gives-if S (not (verify_integrity w.sha256 e)) _ _
        (inr (reject-Refuses e invalid_schema false p))
        (Gives-if S (ltb max_payload_bytes e.payload.dumped_bytes) _ _
          (inr (reject-Refuses e payload_too_large false p))
          (Gives-if S (learning_event_exists e.event_id q.student_id p.store) _ _
            (inr (refl, refl, inr (refl, refl), omega arith))
            (Gives-if S
              (ltb 0 p.accepted_max_sequence && leb e.device_sequence p.accepted_max_sequence) _ _
              (inr (reject-Refuses e invalid_schema false p))
              (elim (Bool-cases (sequence_increases q e p.store)) [
                | inl up ↦ rw up (apply_checked-Steps w q e p up)
                | inr down ↦ rw down (inr (reject-Refuses e invalid_schema false p))
              ]))))
