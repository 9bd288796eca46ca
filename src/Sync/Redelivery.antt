-- ===== src/Sync/Redelivery.antt =====
-- A batch that is sent again (sync/service.py): stored events are duplicates and change nothing.
use bridgesat_agent.Common.{
  ◌≡◌, refl, sym, ap, ◌∙◌, Bool, true, false, ◌&&◌, not, String, Option, none, some, List, [], ◌∷◌,
  ◌++◌, if◌then◌else◌, ltb, ◌==◌, nat_eq, string_eq, find_by, contains, All, All-map, All-sort_by,
  arith, sort_by,
}
use text.Mathlib.TextEquality.{eq_iff}
use mathlib.Core.Path.{subst}
use bridgesat_agent.Sync.Types.{Envelope, EventRow, DeviceRow, Request, Store}
use bridgesat_agent.Sync.Rows.{Result, done, raised, ◌>>=◌, learning_event_exists}
use bridgesat_agent.Sync.Apply.{Output, World}
use bridgesat_agent.Sync.Batch.{
  max_payload_bytes, by_sequence, is_device, verify_integrity, authorise, Progress, process_event,
  process_events,
}
use bridgesat_agent.Sync.Service.{
  Answer, response, device_not_found, device_revoked, failed, start, is_empty, commit, from_device,
  finish_batch, run_batch, process_batch_locked, process_batch,
}
use bridgesat_agent.Sync.Delivery.{ids}
use bridgesat_agent.Sync.Guarantees.{Stores, process_batch-Delivers, Delivers}

-- The event is stored for the student.
abbrev pub IsStored {ℓ} : {R : Type ℓ} → String → Store R → Envelope → Type 0
IsStored student_id s e = learning_event_exists e.event_id student_id s ≡ true

abbrev found {ℓ} : {A : Type ℓ} → Option A → Bool
found o = elim o [ none ↦ false | some _ ↦ true ]

found-append {ℓ} :
    {A : Type ℓ} (test : A → Bool) (xs ys : List A)
    → found (find_by test ys) ≡ true
    → found (find_by test (xs ++ ys)) ≡ true
unfolding find_by
found-append test [] ys h = h
found-append test (x ∷ xs) ys h = ground (arith, found-append test xs ys h)

found_row :
    (student_id id : String) (rows : List EventRow)
    → All (λ r. r.student_id ≡ student_id) rows
    → contains (ids rows) id ≡ true
    → found (find_by (λ r. r.event_id == id && r.student_id == student_id) rows) ≡ true
unfolding find_by
found_row student_id id [] own h = cc
found_row student_id id (r ∷ rows) own h =
    ground (arith, found_row student_id id rows own.1, eq_iff r.student_id student_id, own.0)

module _ {ℓ} {R D : Type ℓ} where
  -- The rows that a batch stored are found.
  accepted-IsStored :
      (q : Request) (s s' : Store R) (out : Output D) (e : Envelope)
      → Stores q s out s'
      → contains out.accepted e.event_id ≡ true
      → IsStored q.student_id s' e
  unfolding learning_event_exists
  accepted-IsStored q s s' out e ((rows, stored, accepted, own), devices) h =
      subst
        (λ l.
          found (find_by (λ r. r.event_id == e.event_id && r.student_id == q.student_id) l) ≡ true)
        (sym stored)
        (found-append (λ r. r.event_id == e.event_id && r.student_id == q.student_id)
          s.learning_events rows (found_row q.student_id e.event_id rows own (rw accepted at h)))

abbrev pub accepted_of {ℓ} : {D : Type ℓ} → Answer D → List String
accepted_of (response out duplicates) = out.accepted
accepted_of device_not_found = []
accepted_of device_revoked = []
accepted_of (failed fault) = []

module _ {R D : Type 0} where
  -- What a batch of stored events leaves alone.
  abbrev Unchanged : Progress R D → Result (Progress R D) → Type 0
  Unchanged p (done p') = (p'.store ≡ p.store) × (p'.out.accepted ≡ p.out.accepted)
  Unchanged p (raised fault) = ⊥

  Unchanged-if :
      (p : Progress R D) (b : Bool) (x y : Result (Progress R D))
      → Unchanged p x
      → Unchanged p y
      → Unchanged p (if b then x else y)
  Unchanged-if p true x y h k = h
  Unchanged-if p false x y h k = k

  event-Unchanged :
      (w : World R D) (q : Request) (e : Envelope) (p : Progress R D)
      → IsStored q.student_id p.store e
      → Unchanged p (process_event w q e p)
  unfolding process_event
  event-Unchanged w q e p h =
      Unchanged-if p (not (verify_integrity w.sha256 (authorise q e))) _ _ (refl, refl)
        (Unchanged-if p (ltb max_payload_bytes e.payload.dumped_bytes) _ _ (refl, refl)
          (rw h (refl, refl)))

  bind-Unchanged :
      (p : Progress R D) (m : Result (Progress R D)) (f : Progress R D → Result (Progress R D))
      → Unchanged p m
      → ((p' : Progress R D) → Unchanged p (done p') → Unchanged p' (f p'))
      → Unchanged p (m >>= f)
  bind-Unchanged p (raised fault) f h k = absurd h
  bind-Unchanged p (done p') f h k = after (f p') (k p' h)
    where
      after : (r : Result (Progress R D)) → Unchanged p' r → Unchanged p r
      after (done p'') g = (g.0 ∙ h.0, g.1 ∙ h.1)
      after (raised fault) g = g

  events-Unchanged :
      (w : World R D) (q : Request) (es : List Envelope) (p : Progress R D)
      → All (IsStored q.student_id p.store) es
      → Unchanged p (process_events w q es p)
  unfolding process_events
  events-Unchanged w q [] p h = (refl, refl)
  events-Unchanged w q (e ∷ es) p h =
      bind-Unchanged p (process_event w q e p) _ (event-Unchanged w q e p h.0) (λ p' kept.
        events-Unchanged w q es p' (subst (λ s. All (IsStored q.student_id s) es) (sym kept.0) h.1))

  finish-Unchanged :
      (q : Request) (p : Progress R D) → p.out.accepted ≡ [] → Unchanged p (finish_batch q p)
  unfolding finish_batch
  finish-Unchanged q p h = rw (ap is_empty h) (refl, refl)

  run-Unchanged :
      (w : World R D) (q : Request) (s : Store R)
      → All (IsStored q.student_id s) q.events
      → Unchanged (start s) (run_batch w q s)
  unfolding run_batch
  run-Unchanged w q s h =
      bind-Unchanged (start s) (process_events w q (sort_by by_sequence q.events) (start s))
        (finish_batch q)
        (events-Unchanged w q (sort_by by_sequence q.events) (start s)
          (All-sort_by (IsStored q.student_id s) by_sequence q.events h))
        (λ p kept. finish-Unchanged q p kept.1)

  commit-same :
      (s : Store R) (r : Result (Progress R D)) → Unchanged (start s) r → (commit s r).1 ≡ s
  commit-same s (done p) h = h.0
  commit-same s (raised fault) h = refl

  device-same :
      (w : World R D) (q : Request) (s : Store R) (device : Option DeviceRow)
      → All (IsStored q.student_id s) q.events
      → (from_device w q s device).1 ≡ s
  unfolding from_device
  device-same w q s none h = refl
  device-same w q s (some device) h = pick device.is_active
    where
      pick :
          (live : Bool) → (if live then commit s (run_batch w q s) else (device_revoked, s)).1 ≡ s
      pick true = commit-same s (run_batch w q s) (run-Unchanged w q s h)
      pick false = refl

  stored_again :
      (w : World R D) (q : Request) (s : Store R)
      → All (IsStored q.student_id s) q.events
      → (process_batch w q s).1 ≡ s
  unfolding process_batch process_batch_locked
  stored_again w q s h =
      let device : Option DeviceRow = find_by (is_device q.device_id q.student_id) s.devices in
      ground (arith, device-same w q s device h)

  delivered-IsStored :
      (q : Request) (s : Store R) (a : Answer D × Store R) (e : Envelope)
      → Delivers q s a
      → contains (accepted_of a.0) e.event_id ≡ true
      → IsStored q.student_id a.1 e
  delivered-IsStored q s (response out duplicates, s') e d h = accepted-IsStored q s s' out e d h
  delivered-IsStored q s (device_not_found, s') e d h = cc
  delivered-IsStored q s (device_revoked, s') e d h = cc
  delivered-IsStored q s (failed fault, s') e d h = cc

  -- A batch, of any device of the student, whose events were all accepted in an earlier batch changes
  -- nothing.
  pub redelivery :
      (w w' : World R D) (q q' : Request) (s : Store R)
      → q'.student_id ≡ q.student_id
      → All (λ e. contains (accepted_of (process_batch w q s).0) e.event_id ≡ true) q'.events
      → (process_batch w' q' (process_batch w q s).1).1 ≡ (process_batch w q s).1
  redelivery w w' q q' s same again = stored_again w' q' (process_batch w q s).1 (
      All-map (λ e. contains (accepted_of (process_batch w q s).0) e.event_id ≡ true)
        (IsStored q'.student_id (process_batch w q s).1) q'.events
        (λ e h.
          subst (λ student_id. IsStored student_id (process_batch w q s).1 e) (sym same)
            (delivered-IsStored q s (process_batch w q s) e (process_batch-Delivers w q s) h))
        again)
