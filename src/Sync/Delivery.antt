-- ===== src/Sync/Delivery.antt =====
-- What a batch delivers (sync/service.py): each event is answered once, the accepted ones are stored,
-- and the device's sequence number grows.
use bridgesat_agent.Common.{
  count_by, count_by-append, ◌==◌, ℕ, ◌+◌, ◌≤◌, ◌<◌, ◌≡◌, ◌⊎◌, refl, sym, ap, ◌∙◌, true, inl, inr,
  String, some, List, [], ◌∷◌, ◌++◌, ltb→lt, nat_eq, string_eq, find_by, append_assoc, append_nil,
  All, arith,
}
use bridgesat_agent.Sync.Types.{Envelope, EventRow, DeviceRow, Request, Store}
use bridgesat_agent.Sync.Rows.{event_row}
use bridgesat_agent.Sync.Apply.{Output, World}
use bridgesat_agent.Sync.Batch.{authorise, is_device, sequence_increases, Progress, process_events}
use bridgesat_agent.Sync.Frame.{Gives, Gives-bind, Gives-weaken}
use bridgesat_agent.Sync.Steps.{Takes, Refuses, Steps, process_event-Steps}

abbrev pub ids : List EventRow → List String
ids [] = []
ids (r ∷ rows) = r.event_id ∷ ids rows

-- The number of the requesting device lies below `n`.
abbrev pub IsAbove : Request → List DeviceRow → ℕ → Type 0
IsAbove q devices n =
    (r : DeviceRow)
    → find_by (is_device q.device_id q.student_id) devices ≡ some r
    → r.last_device_sequence < n

increases-IsAbove {ℓ} :
    {R : Type ℓ} (q : Request) (e : Envelope) (s : Store R)
    → sequence_increases q e s ≡ true
    → IsAbove q s.devices e.device_sequence
unfolding sequence_increases
increases-IsAbove q e s up r found = ltb→lt _ _ (rw (found, sequence_increases) at up)

-- A higher bound on the same devices.
IsAbove-more :
    (q : Request) (d d' : List DeviceRow) (m n : ℕ)
    → d' ≡ d
    → m ≤ n
    → IsAbove q d' m
    → IsAbove q d n
IsAbove-more q d d' m n e le h r found = omega (arith, h r (rw e found))

some-IsAbove :
    (q : Request) (d d' : List DeviceRow) (n : ℕ) (rows : List EventRow)
    → d' ≡ d
    → (rows ≡ []) ⊎ IsAbove q d' n
    → (rows ≡ []) ⊎ IsAbove q d n
some-IsAbove q d d' n rows e (inl empty) = inl empty
some-IsAbove q d d' n rows e (inr h) = inr (IsAbove-more q d d' n n e (omega arith) h)

-- How often an id stands in the three lists of a response.
abbrev pub answers {ℓ} : {D : Type ℓ} → String → Output D → List String → ℕ
answers id out duplicates =
    count_by (λ x. x == id) out.accepted
    + count_by (λ r. r.event_id == id) out.rejected
    + count_by (λ x. x == id) duplicates

module _ {ℓ} {R D : Type ℓ} where
  abbrev pub answered : String → Progress R D → ℕ
  answered id p = answers id p.out p.duplicates

  -- The rows that the events of a batch added, and what else they kept.
  abbrev pub Ran : Request → Progress R D → Progress R D → Type 0
  Ran q p p' =
      ((rows : List EventRow) × (p'.store.learning_events ≡ p.store.learning_events ++ rows)
        × (p'.out.accepted ≡ p.out.accepted ++ ids rows)
        × All (λ r. r.student_id ≡ q.student_id) rows
        × ((rows ≡ []) ⊎ IsAbove q p.store.devices p'.accepted_max_sequence))
      × (p'.store.devices ≡ p.store.devices)
      × (p'.store.students ≡ p.store.students)
      × (p.accepted_max_sequence ≤ p'.accepted_max_sequence)

  run_nothing : (q : Request) (p : Progress R D) → Ran q p p
  run_nothing q p = (
    ([], sym (append_nil p.store.learning_events), sym (append_nil p.out.accepted), tt, inl refl),
    refl,
    refl,
    omega arith,
  )

  run_refused :
      (q : Request) (e : Envelope) (p p' p'' : Progress R D)
      → Refuses e p p'
      → Ran q p' p''
      → Ran q p p''
  run_refused q e p p' p'' h ((rows, stored, accepted, own, above), devices, students, le) = (
    (
      rows,
      stored ∙ ap (λ s. s.learning_events ++ rows) h.0,
      accepted ∙ ap (λ l. l ++ ids rows) h.1,
      own,
      some-IsAbove q p.store.devices p'.store.devices p''.accepted_max_sequence rows
          (ap (λ s. s.devices) h.0) above,
    ),
    devices ∙ ap (λ s. s.devices) h.0,
    students ∙ ap (λ s. s.students) h.0,
    omega (arith, le, h.3),
  )

  run_taken :
      (q : Request) (e : Envelope) (p p' p'' : Progress R D)
      → Takes q (authorise q e) p p'
      → Ran q p' p''
      → Ran q p p''
  run_taken q e p p' p'' ((adds, took, _), _, up, top)
        ((rows, stored, accepted, own, above), devices, students, le) =
      let row : EventRow = event_row (authorise q e) in
      (
        (
          row ∷ rows,
          (stored ∙ ap (λ l. l ++ rows) adds.0)
              ∙ append_assoc p.store.learning_events (row ∷ []) rows,
          (accepted ∙ ap (λ l. l ++ ids rows) took)
              ∙ append_assoc p.out.accepted (e.event_id ∷ []) (ids rows),
          (refl, own),
          inr (
              IsAbove-more q p.store.devices p.store.devices e.device_sequence
                p''.accepted_max_sequence refl (omega (arith, le, top))
                (increases-IsAbove q (authorise q e) p.store up)),
        ),
        devices ∙ adds.2,
        students ∙ adds.1,
        omega (arith, le, top),
      )

  pub process_events-Ran :
      (w : World R D) (q : Request) (es : List Envelope) (p : Progress R D)
      → Gives (Ran q p) (process_events w q es p)
  unfolding process_events
  process_events-Ran w q [] p = run_nothing q p
  process_events-Ran w q (e ∷ es) p =
      Gives-bind (Ran q p) (Steps q (authorise q e) p) _ _ (process_event-Steps w q e p) (λ p' step.
        Gives-weaken (Ran q p') (Ran q p) _
          (λ p'' ran. elim step [
            | inl t ↦ run_taken q e p p' p'' t ran
            | inr r ↦ run_refused q (authorise q e) p p' p'' r ran
          ])
          (process_events-Ran w q es p'))

  step_answers :
      (q : Request) (e : Envelope) (id : String) (p p' : Progress R D)
      → Steps q (authorise q e) p p'
      → answered id p' ≡ answered id p + count_by (λ e. e.event_id == id) (e ∷ [])
  unfolding count_by
  step_answers q e id p p' (inl ((adds, took, rejected), duplicates, up, top)) =
      rw (took, rejected, duplicates)
        (ground (arith, count_by-append (λ x. x == id) p.out.accepted (e.event_id ∷ [])))
  step_answers q e id p p' (inr (store, accepted, inl ((r, own, rejected), duplicates), le)) =
      rw (accepted, rejected, duplicates, ← own)
        (ground (arith, count_by-append (λ x. x.event_id == id) p.out.rejected (r ∷ [])))
  step_answers q e id p p' (inr (store, accepted, inr (rejected, duplicates), le)) =
      rw (accepted, rejected, duplicates)
        (ground (arith, count_by-append (λ x. x == id) p.duplicates (e.event_id ∷ [])))

  -- Each event adds its id to the answers once.
  pub process_events-answered :
      (w : World R D) (q : Request) (id : String) (es : List Envelope) (p : Progress R D)
      → Gives
          (λ p'. answered id p' ≡ answered id p + count_by (λ e. e.event_id == id) es)
          (process_events w q es p)
  unfolding process_events count_by
  process_events-answered w q id [] p = omega arith
  process_events-answered w q id (e ∷ es) p =
      Gives-bind (λ p'. answered id p' ≡ answered id p + count_by (λ e. e.event_id == id) (e ∷ es))
        (Steps q (authorise q e) p) _ _ (process_event-Steps w q e p)
        (λ p' step.
          Gives-weaken
            (λ p''. answered id p'' ≡ answered id p' + count_by (λ e. e.event_id == id) es)
            (λ p''. answered id p'' ≡ answered id p + count_by (λ e. e.event_id == id) (e ∷ es)) _
            (λ p'' h. ground (arith, h, step_answers q e id p p' step))
            (process_events-answered w q id es p'))
