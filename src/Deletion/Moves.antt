-- ===== src/Deletion/Moves.antt =====
-- What the two tables of states become in each step of a deletion (memory/deletion.py).
use mathlib.Core.Option
use bridgesat_agent.Common.{
  ℕ, ◌≡◌, refl, ap, Bool, true, false, ◌&&◌, String, Option, none, some, List, [], ◌∷◌, ◌++◌, ◌==◌,
  string_eq, find_by, update_by, find-update, found_passes, Bool-cases, Option-cases, arith, inl,
  inr, if◌then◌else◌,
}
use bridgesat_agent.Deletion.Store.{
  StudentStatus, standing_eq, DeletionState, requested, Student, Deletion, Store,
}
use bridgesat_agent.Deletion.Steps.{
  Fault, invalid_transition, Outcome, returned, raised, rollback, may_follow, state_in, deletion_of,
  deletion_status, stamp, new_deletion, start_state, set_state, move_student,
}

abbrev pub status_of : String → Store → Option StudentStatus
status_of student s = Option.map (λ t. t.status) (find_by (λ t. t.id == student) s.students)

pub raised_returned {ℓ} :
    {A : Type ℓ} {a : A} {f : Fault} {s t : Store} → raised f s ≡ returned a t → ⊥
raised_returned e = cc e

pub store_of {ℓ} : {A : Type ℓ} {a b : A} {s t : Store} → returned a s ≡ returned b t → s ≡ t
store_of e = cc e

pub rollback-returned {ℓ} :
    {A : Type ℓ} (s : Store) {t : Store} {a : A} (o : Outcome A)
    → rollback s o ≡ returned a t
    → o ≡ returned a t
rollback-returned s (raised f u) e = absurd (raised_returned e)
rollback-returned s (returned b u) e = e

pub set_state-returned :
    (student : String) (state : DeletionState) (error : Option String) (now : ℕ) (s s' : Store)
    (u : Unit {0})
    → set_state student state error now s ≡ returned u s'
    → (may_follow (deletion_status student s) state ≡ true)
      × (record s {
        deletions = update_by (λ d. d.student_id == student) (stamp state now error) s.deletions;
      }
          ≡ s')
unfolding set_state
set_state-returned student state error now s s' u h =
    elim (Bool-cases (may_follow (deletion_status student s) state)) [
      | inl e ↦ (e, store_of (rw (e, set_state) at h))
      | inr e ↦ absurd (raised_returned (rw (e, set_state) at h))
    ]

abbrev pub stamped : String → DeletionState → Option String → ℕ → Store → Store
stamped student state error now s = record s {
  deletions = update_by (λ d. d.student_id == student) (stamp state now error) s.deletions;
}

pub set_state-returns :
    (student : String) (state : DeletionState) (error : Option String) (now : ℕ) (s : Store)
    → may_follow (deletion_status student s) state ≡ true
    → set_state student state error now s ≡ returned tt (stamped student state error now s)
unfolding set_state
set_state-returns student state error now s e = rw (e, set_state) refl

pub set_state-refuses :
    (student : String) (state : DeletionState) (error : Option String) (now : ℕ) (s : Store)
    → may_follow (deletion_status student s) state ≡ false
    → set_state student state error now s
      ≡ raised (invalid_transition (deletion_status student s) state) s
unfolding set_state
set_state-refuses student state error now s e = rw (e, set_state) refl

stamp-student :
    (state : DeletionState) (now : ℕ) (error : Option String) (d : Deletion)
    → (stamp state now error d).student_id ≡ d.student_id
stamp-student requested now error d = refl
stamp-student _ now error d = refl

stamp-state :
    (state : DeletionState) (now : ℕ) (error : Option String) (d : Deletion)
    → (stamp state now error d).state ≡ state
stamp-state requested now error d = refl
stamp-state _ now error d = refl

picked_state :
    (student k : String) (f : Deletion → Deletion) (state : DeletionState) (d : Deletion)
    → (f d).state ≡ state
    → (d.student_id == k) ≡ true
    → state_in (some (if d.student_id == student then f d else d))
      ≡ (if student == k then some state else some d.state)
picked_state student k f state d e same = ground (
  arith,
  string_eq.decides d.student_id k,
  string_eq.decides d.student_id student,
  string_eq.decides student k,
)

-- An update of a student's deletion changes the state of that student, if it has a row.
update-status :
    (student k : String) (f : Deletion → Deletion) (state : DeletionState) (table : List Deletion)
    → ((d : Deletion) → (f d).student_id ≡ d.student_id)
    → ((d : Deletion) → (f d).state ≡ state)
    → (state_in (find_by (λ d. d.student_id == student) table) ≡ none → ⊥)
    → state_in (find_by (λ d. d.student_id == k) (update_by (λ d. d.student_id == student) f table))
      ≡ (if student == k then some state else state_in (find_by (λ d. d.student_id == k) table))
update-status student k f state table same becomes there =
    rw
      (find-update (λ d. d.student_id == k) (λ d. d.student_id == student) f table
        (λ d. ap (λ i. i == k) (same d)))
      (elim (Option-cases (find_by (λ d. d.student_id == k) table)) [
        | inr (d, e) ↦ rw e (
            picked_state student k f state d (becomes d)
              (found_passes (λ d. d.student_id == k) table d e))
        | inl e ↦ elim (Bool-cases (student == k)) [
          | inr other ↦ rw (e, other) refl
          | inl same_student ↦
              absurd (there (rw ((string_eq.decides student k).0 same_student) (rw e refl)))
        ]
      ])

pub set_state-status :
    (student : String) (state : DeletionState) (error : Option String) (now : ℕ) (s s' : Store)
    (u : Unit {0}) (k : String)
    → may_follow none state ≡ false
    → set_state student state error now s ≡ returned u s'
    → deletion_status k s' ≡ (if student == k then some state else deletion_status k s)
set_state-status student state error now s s' u k start h =
    let (may, same) = set_state-returned student state error now s s' u h in
    rw (← same) (
      update-status student k (stamp state now error) state s.deletions
        (stamp-student state now error) (stamp-state state now error) (λ e. cc (start, may, e)))

start-append :
    (student k : String) (d : Deletion) (table : List Deletion)
    → d.student_id ≡ student
    → find_by (λ d. d.student_id == student) table ≡ none
    → state_in (find_by (λ d. d.student_id == k) (table ++ d ∷ []))
      ≡ (if student == k then some d.state else state_in (find_by (λ d. d.student_id == k) table))
unfolding find_by
start-append student k d [] same none_yet =
    ground (arith, same, string_eq.decides d.student_id k, string_eq.decides student k)
start-append student k d (x ∷ table) same none_yet = ground (
  arith,
  start-append student k d table same,
  same,
  string_eq.decides x.student_id student,
  string_eq.decides x.student_id k,
  string_eq.decides student k,
)

pub start_state-status :
    (student draw : String) (state : DeletionState) (now : ℕ) (s s' : Store) (u : Unit {0})
    (k : String)
    → start_state student draw state now s ≡ returned u s'
    → (may_follow (deletion_status student s) state ≡ true)
      × (s'.students ≡ s.students)
      × (deletion_status k s' ≡ (if student == k then some state else deletion_status k s))
unfolding start_state
start_state-status student draw state now s s' u k h =
    elim (Bool-cases (may_follow (deletion_status student s) state)) [
      | inr e ↦ absurd (raised_returned (rw (e, start_state) at h))
      | inl may ↦ elim (Option-cases (deletion_of student s)) [
        | inl absent ↦ elim (Option-cases (find_by (λ d. d.deletion_id == draw) s.deletions)) [
          | inr (d, taken) ↦ absurd (raised_returned (rw (may, absent, taken, start_state) at h))
          | inl free ↦
              let made : _ ≡ s' = store_of (rw (may, absent, free, start_state) at h) in
              (
                may,
                rw (← made) refl,
                rw (← made) (
                    start-append student k (new_deletion draw student state now) s.deletions refl
                      absent),
              )
        ]
        | inr (d, there) ↦
            let made : _ ≡ s' = store_of (rw (may, there, start_state) at h) in
            (
              may,
              rw (← made) refl,
              rw (← made) (
                  update-status student k (λ d. record d { state = state; last_error = none }) state
                    s.deletions (λ d. refl) (λ d. refl) (λ e. cc (there, e))),
            )
      ]
    ]

-- The state of a student after a move of one whose standing was `from`.
abbrev pub moved_standing :
    Bool → StudentStatus → StudentStatus → Option StudentStatus → Option StudentStatus
moved_standing false from new_status o = o
moved_standing true from new_status none = none
moved_standing true from new_status (some st) = some (if st == from then new_status else st)

picked_standing :
    (student k : String) (from new_status : StudentStatus) (now : ℕ) (t : Student)
    → (t.id == k) ≡ true
    → some
        (if t.id == student && t.status == from
          then record t { status = new_status; updated_at = now }
          else t).status
      ≡ moved_standing (student == k) from new_status (some t.status)
picked_standing student k from new_status now t e =
    ground
      (arith, string_eq.decides t.id k, string_eq.decides t.id student, string_eq.decides student k)

pub move_student-status :
    (student : String) (from new_status : StudentStatus) (now : ℕ) (s s' : Store) (k : String)
    → move_student student from new_status now s ≡ some s'
    → (s'.deletions ≡ s.deletions)
      × (status_of k s' ≡ moved_standing (student == k) from new_status (status_of k s))
unfolding move_student
move_student-status student from new_status now s s' k h =
    elim (Option-cases (find_by (λ t. t.id == student && t.status == from) s.students)) [
      | inl nobody ↦ absurd (none_some (rw (nobody, move_student) at h))
      | inr (t, there) ↦
          let made : _ ≡ s' = value_of (rw (there, move_student) at h) in
          (rw (← made) refl, rw (← made) after)
    ]
  where
    none_some : ◌≡◌ {A = Option Store} none (some s') → ⊥
    none_some e = cc e

    value_of : {a b : Store} → some a ≡ some b → a ≡ b
    value_of e = cc e

    after :
        Option.map
          (λ t. t.status)
          (find_by
            (λ t. t.id == k)
            (update_by
              (λ t. t.id == student && t.status == from)
              (λ t. record t { status = new_status; updated_at = now })
              s.students))
        ≡ moved_standing (student == k) from new_status (status_of k s)
    after =
        rw
          (find-update (λ t. t.id == k) (λ t. t.id == student && t.status == from)
            (λ t. record t { status = new_status; updated_at = now }) s.students (λ t. refl))
          (elim (Option-cases (find_by (λ t. t.id == k) s.students)) [
            | inl e ↦
                rw e (elim (Bool-cases (student == k)) [ inl b ↦ rw b refl | inr b ↦ rw b refl ])
            | inr (t, e) ↦ rw e (
                picked_standing student k from new_status now t
                  (found_passes (λ t. t.id == k) s.students t e))
          ])
