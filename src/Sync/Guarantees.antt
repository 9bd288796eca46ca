-- ===== src/Sync/Guarantees.antt =====
-- What `process_batch` of sync/service.py guarantees to a device.
use bridgesat_agent.Common.{
  ◌+◌, ◌≢◌, count_by-sort_by, ℕ, ◌≤◌, ◌≡◌, ◌⊎◌, refl, sym, ap, Bool, true, false, inl, inr, String,
  Option, none, some, List, [], ◌∷◌, ◌++◌, if◌then◌else◌, ltb, ◌==◌, nat_eq, string_eq, count_by,
  find_by, update_by, Bool-cases, length, append_nil, All, arith, sort_by,
}
use bridgesat_agent.Sync.Types.{Envelope, EventRow, DeviceRow, Request, Store}
use bridgesat_agent.Sync.Rows.{Result, done, raised}
use bridgesat_agent.Sync.Apply.{Output, World}
use bridgesat_agent.Sync.Batch.{
  max_events_per_batch, by_sequence, is_device, student_exists, advance_device_sequence, Progress,
}
use bridgesat_agent.Sync.Service.{
  Answer, response, device_not_found, device_revoked, failed, start, is_empty, commit, from_device,
  finish_batch, run_batch, process_batch_locked, process_batch,
}
use bridgesat_agent.Sync.Frame.{Gives, Gives-if, Gives-bind, Gives-then}
use bridgesat_agent.Sync.Delivery.{
  ids, answers, answered, IsAbove, Ran, process_events-Ran, process_events-answered,
}

no_items : (xs : List String) → is_empty xs ≡ true → xs ≡ []
no_items [] e = refl
no_items (x ∷ xs) e = cc

not_empty :
    (rows : List EventRow) (xs : List String) (A : Type 0)
    → xs ≡ ids rows
    → is_empty xs ≡ false
    → (rows ≡ []) ⊎ A
    → A
not_empty rows xs A e any (inr a) = a
not_empty [] [] A e any (inl nil) = cc
not_empty [] (x ∷ xs) A e any (inl nil) = cc
not_empty (r ∷ rows) xs A e any (inl nil) = cc

some_items : (xs : List String) → is_empty xs ≡ false → xs ≢ []
some_items [] e nil = cc
some_items (x ∷ xs) e nil = cc

-- How many of the events have the id.
abbrev pub asked : String → List Envelope → ℕ
asked id es = count_by (λ e. e.event_id == id) es

module _ {ℓ} {D : Type ℓ} where
  -- An id stands in the three lists of a response together as often as it does in the request.
  abbrev pub AnswersAll : Request → Answer D → Type 0
  AnswersAll q (response out duplicates) =
      (id : String) → answers id out duplicates ≡ asked id q.events
  AnswersAll q device_not_found = Unit
  AnswersAll q device_revoked = Unit
  AnswersAll q (failed fault) = Unit

module _ {ℓ} {R D : Type ℓ} where
  -- The accepted events are stored, in order, as the student's; the number of the device rises when
  -- there are any.
  abbrev pub Stores : Request → Store R → Output D → Store R → Type 0
  Stores q s out s' =
      ((rows : List EventRow) × (s'.learning_events ≡ s.learning_events ++ rows)
        × (out.accepted ≡ ids rows)
        × All (λ r. r.student_id ≡ q.student_id) rows)
      × (((out.accepted ≡ []) × (s'.devices ≡ s.devices))
          ⊎ ((m : ℕ) × (out.accepted ≢ [])
              × (s'.devices
                  ≡ update_by (is_device q.device_id q.student_id)
                      (λ r. record r { last_device_sequence = m }) s.devices)
              × IsAbove q s.devices m))

  abbrev Finished : Request → Store R → Progress R D → Type 0
  Finished q s p = Stores q s p.out p.store

  finish_batch-Finished :
      (q : Request) (s : Store R) (p : Progress R D)
      → Ran q (start s) p
      → Gives (Finished q s) (finish_batch q p)
  unfolding finish_batch advance_device_sequence
  finish_batch-Finished q s p ((rows, stored, accepted, own, above), devices, students, le) =
      elim (Bool-cases (is_empty p.out.accepted)) [
        | inl nil ↦
            rw nil ((rows, stored, accepted, own), inl (no_items p.out.accepted nil, devices))
        | inr any ↦
            rw any
              (elim (Bool-cases
                (count_by (is_device q.device_id q.student_id) p.store.devices == 1)) [
                  | inl one ↦ rw one (
                    (rows, stored, accepted, own),
                    inr (
                      p.accepted_max_sequence,
                      some_items p.out.accepted any,
                      ap
                          (update_by (is_device q.device_id q.student_id)
                            (λ r. record r { last_device_sequence = p.accepted_max_sequence }))
                          devices,
                      not_empty rows p.out.accepted (IsAbove q s.devices p.accepted_max_sequence)
                          accepted any above,
                    ),
                  )
                  | inr other ↦ rw other tt
                ])
      ]

  finish_batch-answered :
      (q : Request) (id : String) (n : ℕ) (p : Progress R D)
      → answered id p ≡ n
      → Gives (λ p'. answered id p' ≡ n) (finish_batch q p)
  unfolding finish_batch
  finish_batch-answered q id n p h =
      Gives-if (λ p'. answered id p' ≡ n) (is_empty p.out.accepted) _ _ h
        (Gives-then (λ p'. answered id p' ≡ n)
          (advance_device_sequence q p.accepted_max_sequence p.store) _ (λ s. h))

  run_batch-answered :
      (w : World R D) (q : Request) (id : String) (s : Store R)
      → Gives (λ p. answered id p ≡ asked id q.events) (run_batch w q s)
  unfolding run_batch count_by
  run_batch-answered w q id s =
      Gives-bind (λ p. answered id p ≡ asked id q.events)
        (λ p.
          answered id p ≡ answered id (start {D = D} s) + asked id (sort_by by_sequence q.events))
        _ _ (process_events-answered w q id (sort_by by_sequence q.events) (start s))
        (λ p h.
          finish_batch-answered q id (asked id q.events) p
            (omega (arith, h, count_by-sort_by (λ e. e.event_id == id) by_sequence q.events)))

  run_batch-Finished :
      (w : World R D) (q : Request) (s : Store R) → Gives (Finished q s) (run_batch w q s)
  unfolding run_batch
  run_batch-Finished w q s =
      Gives-bind (Finished q s) (Ran q (start s)) _ _
        (process_events-Ran w q (sort_by by_sequence q.events) (start s))
        (λ p ran. finish_batch-Finished q s p ran)

module _ {R D : Type 0} where
  -- Without a response nothing is changed.
  abbrev pub Delivers : Request → Store R → Answer D × Store R → Type 0
  Delivers q s (response out duplicates, s') = Stores q s out s'
  Delivers q s (device_not_found, s') = s' ≡ s
  Delivers q s (device_revoked, s') = s' ≡ s
  Delivers q s (failed fault, s') = s' ≡ s

  commit-Delivers :
      (q : Request) (s : Store R) (r : Result (Progress R D))
      → Gives (Finished q s) r
      → Delivers q s (commit s r)
  commit-Delivers q s (done p) h = h
  commit-Delivers q s (raised fault) h = refl

  device-Delivers :
      (w : World R D) (q : Request) (s : Store R) (device : Option DeviceRow)
      → Delivers q s (from_device w q s device)
  unfolding from_device
  device-Delivers w q s none = refl
  device-Delivers w q s (some device) = answer device.is_active
    where
      answer :
          (live : Bool)
          → Delivers q s (if live then commit s (run_batch w q s) else (device_revoked, s))
      answer true = commit-Delivers q s (run_batch w q s) (run_batch-Finished w q s)
      answer false = refl

  locked-Delivers :
      (w : World R D) (q : Request) (s : Store R) → Delivers q s (process_batch_locked w q s)
  unfolding process_batch_locked
  locked-Delivers w q s = elim (Bool-cases (student_exists q.student_id s)) [
    | inl known ↦ rw known (device-Delivers w q s _)
    | inr unknown ↦
        rw unknown (([], sym (append_nil s.learning_events), refl, tt), inl (refl, refl))
  ]

  device-AnswersAll :
      (w : World R D) (q : Request) (s : Store R) (device : Option DeviceRow)
      → AnswersAll q (from_device w q s device).0
  unfolding from_device
  device-AnswersAll w q s none = tt
  device-AnswersAll w q s (some device) =
      answer (run_batch w q s) device.is_active (λ id. run_batch-answered w q id s)
    where
      answer :
          (r : Result (Progress R D)) (live : Bool)
          → ((id : String) → Gives (λ p. answered id p ≡ asked id q.events) r)
          → AnswersAll q (if live then commit s r else (device_revoked, s)).0
      answer (done p) true h = h
      answer (raised fault) true h = tt
      answer r false h = tt

  -- However a batch ends: with a response, the learning events are those before it followed by one
  -- row of the student for each accepted event, in that order, and either no event was accepted and
  -- the devices stay, or some was and the device's last sequence number is replaced by a higher one;
  -- without a response, nothing is changed.
  pub process_batch-Delivers :
      (w : World R D) (q : Request) (s : Store R) → Delivers q s (process_batch w q s)
  unfolding process_batch
  process_batch-Delivers w q s = elim (Bool-cases (ltb max_events_per_batch (length q.events))) [
    | inl many ↦ rw many (([], sym (append_nil s.learning_events), refl, tt), inl (refl, refl))
    | inr few ↦ rw few (locked-Delivers w q s)
  ]

  -- In the response to a batch of at most 100 events of an active student, each id stands in the lists
  -- of accepted, rejected and duplicate events together as often as among the events of the batch: an
  -- event whose id no other one has is in exactly one of the lists, and no other id is in any.
  pub answered_once :
      (w : World R D) (q : Request) (s : Store R)
      → length q.events ≤ 100
      → student_exists q.student_id s ≡ true
      → AnswersAll q (process_batch w q s).0
  unfolding process_batch process_batch_locked
  answered_once w q s few known =
      rw (few_events, known)
        (device-AnswersAll w q s (find_by (is_device q.device_id q.student_id) s.devices))
    where
      few_events : ltb 100 (length q.events) ≡ false
      few_events = ground (arith, few)
