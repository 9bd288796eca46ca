-- ===== src/Outbox/Distinct.antt =====
-- A list of tenants without repetitions stays one when it is sorted (memory/tenant_dispatcher.py
-- `tenant_ids`).
use bridgesat_agent.Common.{
  ◌≡◌, refl, ◌∙◌, ap, Bool, true, false, ◌||◌, String, List, [], ◌∷◌, ◌==◌, string_eq,
  distinct_from, contains, insert_by, sort_by, arith, Bool-cases, inl, inr, beq_refl,
}

abbrev pub NoRepeats : List String → Type 0
NoRepeats [] = Unit
NoRepeats (x ∷ xs) = (contains xs x ≡ false) × NoRepeats xs

-- Of the items that were passed none comes again.
not_again :
    (seen xs : List String) (a : String)
    → contains seen a ≡ true
    → contains (distinct_from seen xs) a ≡ false
not_again seen [] a h = refl
not_again seen (x ∷ xs) a h =
    ground (arith, h, not_again seen xs a, not_again (x ∷ seen) xs a, string_eq.decides x a)

pub NoRepeats-distinct_from : (seen xs : List String) → NoRepeats (distinct_from seen xs)
NoRepeats-distinct_from seen [] = tt
NoRepeats-distinct_from seen (x ∷ xs) = elim (Bool-cases (contains seen x)) [
  | inl old ↦ rw old (NoRepeats-distinct_from seen xs)
  | inr new ↦
      rw new
        (not_again (x ∷ seen) xs x (rw (beq_refl x) refl), NoRepeats-distinct_from (x ∷ seen) xs)
]

module _ (before : String → String → Bool) where
  contains-insert_by :
      (x a : String) (xs : List String)
      → contains (insert_by before x xs) a ≡ (x == a || contains xs a)
  unfolding insert_by
  contains-insert_by x a [] = refl
  contains-insert_by x a (y ∷ ys) = ground (arith, contains-insert_by x a ys)

  NoRepeats-insert_by :
      (x : String) (xs : List String)
      → contains xs x ≡ false
      → NoRepeats xs
      → NoRepeats (insert_by before x xs)
  unfolding insert_by
  NoRepeats-insert_by x [] new h = (refl, tt)
  NoRepeats-insert_by x (y ∷ ys) new h = elim (Bool-cases (before x y)) [
    | inl first ↦ rw first (new, h)
    | inr later ↦ rw later (
      ground (
        arith,
        contains-insert_by x y ys,
        h.0,
        new,
        string_eq.decides x y,
        string_eq.decides y x,
      ),
      NoRepeats-insert_by x ys (ground (arith, new)) h.1,
    )
  ]

  contains-sort_by :
      (a : String) (xs : List String) → contains (sort_by before xs) a ≡ contains xs a
  unfolding sort_by
  contains-sort_by a [] = refl
  contains-sort_by a (x ∷ xs) =
      contains-insert_by x a (sort_by before xs) ∙ ap (λ b. x == a || b) (contains-sort_by a xs)

  pub NoRepeats-sort_by : (xs : List String) → NoRepeats xs → NoRepeats (sort_by before xs)
  unfolding sort_by
  NoRepeats-sort_by [] h = tt
  NoRepeats-sort_by (x ∷ xs) h =
      NoRepeats-insert_by x (sort_by before xs) (contains-sort_by x xs ∙ h.0)
        (NoRepeats-sort_by xs h.1)
