-- ===== src/Common/Tables.antt =====
-- Tables as lists of rows: `WHERE`, `UPDATE … WHERE`, `COUNT(*)` and `ORDER BY`, with their laws.
use Prim.Native.Nat.{ℕ, zero, suc, ◌+◌}
use mathlib.Core.Path.{◌≡◌, refl, ap}
use mathlib.Core.Logic.{inl, inr}
use mathlib.Core.Bool.{Bool, true, false, ◌&&◌}
use mathlib.Core.List.{List, [], ◌∷◌, ◌++◌}
use mathlib.Core.Option
use mathlib.Core.Option.{Option, none, some}
use native.Mathlib.Omega.{arith}
use bridgesat_agent.Common.Tests.{if◌then◌else◌, Bool-cases}
use bridgesat_agent.Common.Lists.{All, length, take}

module _ {ℓ} {A : Type ℓ} where
  -- The rows that pass the test.
  unfoldable pub filter_by : (A → Bool) → List A → List A
  filter_by test [] = []
  filter_by test (x ∷ xs) = if test x then x ∷ filter_by test xs else filter_by test xs

  unfoldable pub count_by : (A → Bool) → List A → ℕ
  count_by test [] = 0
  count_by test (x ∷ xs) = if test x then suc (count_by test xs) else count_by test xs

  -- Rows that pass the test are changed by `f`.
  unfoldable pub update_by : (A → Bool) → (A → A) → List A → List A
  update_by test f [] = []
  update_by test f (x ∷ xs) = (if test x then f x else x) ∷ update_by test f xs

  -- The first row that passes the test.
  unfoldable pub find_by : (A → Bool) → List A → Option A
  find_by test [] = none
  find_by test (x ∷ xs) = if test x then some x else find_by test xs

  unfoldable pub insert_by : (A → A → Bool) → A → List A → List A
  insert_by before x [] = x ∷ []
  insert_by before x (y ∷ ys) = if before x y then x ∷ y ∷ ys else y ∷ insert_by before x ys

  -- A stable sort; `before x y` says that `x` may stand before `y`, as an equal row may.
  unfoldable pub sort_by : (A → A → Bool) → List A → List A
  sort_by before [] = []
  sort_by before (x ∷ xs) = insert_by before x (sort_by before xs)

module _ {ℓ κ} {A : Type ℓ} (P : A → Type κ) where
  pub All-filter_by :
      (test : A → Bool) (xs : List A)
      → All P xs
      → All (λ x. P x × (test x ≡ true)) (filter_by test xs)
  unfolding filter_by
  All-filter_by test [] h = tt
  All-filter_by test (x ∷ xs) h = elim (Bool-cases (test x)) [
    | inl e ↦ rw e ((h.0, e), All-filter_by test xs h.1)
    | inr e ↦ rw e (All-filter_by test xs h.1)
  ]

  pub All-update_by :
      (test : A → Bool) (f : A → A) (xs : List A)
      → ((x : A) → P x → test x ≡ true → P (f x))
      → All P xs
      → All P (update_by test f xs)
  unfolding update_by
  All-update_by test f [] keep h = tt
  All-update_by test f (x ∷ xs) keep h = (at x h.0, All-update_by test f xs keep h.1)
    where
      at : (x : A) → P x → P (if test x then f x else x)
      at x p = elim (Bool-cases (test x)) [ inl e ↦ rw e (keep x p e) | inr e ↦ rw e p ]

  -- The same where the update establishes another predicate.
  pub All-update_to {κ'} :
      (Q : A → Type κ') (test : A → Bool) (f : A → A) (xs : List A)
      → ((x : A) → P x → test x ≡ true → Q (f x))
      → ((x : A) → P x → test x ≡ false → Q x)
      → All P xs
      → All Q (update_by test f xs)
  unfolding update_by
  All-update_to Q test f [] hit miss h = tt
  All-update_to Q test f (x ∷ xs) hit miss h = (at x h.0, All-update_to Q test f xs hit miss h.1)
    where
      at : (x : A) → P x → Q (if test x then f x else x)
      at x p = elim (Bool-cases (test x)) [ inl e ↦ rw e (hit x p e) | inr e ↦ rw e (miss x p e) ]

  pub All-take : (n : ℕ) (xs : List A) → All P xs → All P (take n xs)
  All-take zero xs h = tt
  All-take (suc n) [] h = tt
  All-take (suc n) (x ∷ xs) h = (h.0, All-take n xs h.1)

  All-insert_by :
      (before : A → A → Bool) (x : A) (ys : List A) → P x → All P ys → All P (insert_by before x ys)
  unfolding insert_by
  All-insert_by before x [] p h = (p, tt)
  All-insert_by before x (y ∷ ys) p h = elim (Bool-cases (before x y)) [
    | inl e ↦ rw e (p, h)
    | inr e ↦ rw e (h.0, All-insert_by before x ys p h.1)
  ]

  pub All-sort_by : (before : A → A → Bool) (xs : List A) → All P xs → All P (sort_by before xs)
  unfolding sort_by
  All-sort_by before [] h = tt
  All-sort_by before (x ∷ xs) h =
      All-insert_by before x (sort_by before xs) h.0 (All-sort_by before xs h.1)

module _ {ℓ} {A : Type ℓ} where
  length-update_by :
      (test : A → Bool) (f : A → A) (xs : List A) → length (update_by test f xs) ≡ length xs
  unfolding update_by
  length-update_by test f [] = refl
  length-update_by test f (x ∷ xs) = ap suc (length-update_by test f xs)

  length-insert_by :
      (before : A → A → Bool) (x : A) (ys : List A)
      → length (insert_by before x ys) ≡ suc (length ys)
  unfolding insert_by
  length-insert_by before x [] = refl
  length-insert_by before x (y ∷ ys) = ground (arith, length-insert_by before x ys)

  pub length-sort_by :
      (before : A → A → Bool) (xs : List A) → length (sort_by before xs) ≡ length xs
  unfolding sort_by
  length-sort_by before [] = refl
  length-sort_by before (x ∷ xs) =
      omega (arith, length-insert_by before x (sort_by before xs), length-sort_by before xs)

  count_by-insert_by :
      (test : A → Bool) (before : A → A → Bool) (x : A) (ys : List A)
      → count_by test (insert_by before x ys) ≡ count_by test (x ∷ ys)
  unfolding insert_by count_by
  count_by-insert_by test before x [] = refl
  count_by-insert_by test before x (y ∷ ys) = ground (arith, count_by-insert_by test before x ys)

  -- Sorting keeps the rows, each as often as it stood there.
  pub count_by-sort_by :
      (test : A → Bool) (before : A → A → Bool) (xs : List A)
      → count_by test (sort_by before xs) ≡ count_by test xs
  unfolding sort_by count_by
  count_by-sort_by test before [] = refl
  count_by-sort_by test before (x ∷ xs) =
      ground (
        arith,
        count_by-insert_by test before x (sort_by before xs),
        count_by-sort_by test before xs,
      )

  pub count_by-append :
      (test : A → Bool) (xs ys : List A)
      → count_by test (xs ++ ys) ≡ count_by test xs + count_by test ys
  unfolding count_by
  count_by-append test [] ys = omega arith
  count_by-append test (x ∷ xs) ys = ground (arith, count_by-append test xs ys)

  pub count_by-filter_by :
      (test inner : A → Bool) (xs : List A)
      → count_by test (filter_by inner xs) ≡ count_by (λ x. inner x && test x) xs
  unfolding count_by filter_by
  count_by-filter_by test inner [] = refl
  count_by-filter_by test inner (x ∷ xs) = ground (arith, count_by-filter_by test inner xs)

  -- An update that matches no row changes nothing.
  pub update_by_none :
      (test : A → Bool) (f : A → A) (xs : List A) → count_by test xs ≡ 0 → update_by test f xs ≡ xs
  unfolding update_by count_by
  update_by_none test f [] h = refl
  update_by_none test f (x ∷ xs) h = ground (arith, update_by_none test f xs)

pub some_injective {ℓ} : {A : Type ℓ} {a b : A} → some a ≡ some b → a ≡ b
some_injective h = cc h

pub none-some {ℓ} : {A : Type ℓ} {a : A} → none ≡ some a → ⊥
none-some h = cc h

-- A row that was found passes the test.
pub found_passes {ℓ} :
    {A : Type ℓ} (test : A → Bool) (xs : List A) (x : A) → find_by test xs ≡ some x → test x ≡ true
unfolding find_by
found_passes test [] x h = ground (arith, h)
found_passes test (y ∷ xs) x h = elim (Bool-cases (test y)) [
  | inl e ↦ rw (← some_injective (rw e at h)) e
  | inr e ↦ found_passes test xs x (rw e at h)
]

-- A row that was found is one of the rows.
pub found-All {ℓ κ} :
    {A : Type ℓ} (P : A → Type κ) (test : A → Bool) (xs : List A) (x : A)
    → All P xs
    → find_by test xs ≡ some x
    → P x
unfolding find_by
found-All P test [] x all h = absurd (none-some h)
found-All P test (y ∷ xs) x all h = elim (Bool-cases (test y)) [
  | inl e ↦ rw (← some_injective (rw e at h)) all.0
  | inr e ↦ found-All P test xs x all.1 (rw e at h)
]

-- The first row with some key after an update that keeps the keys.
pub find-update {ℓ} :
    {A : Type ℓ} (wanted test : A → Bool) (f : A → A) (xs : List A)
    → ((x : A) → wanted (f x) ≡ wanted x)
    → find_by wanted (update_by test f xs)
      ≡ Option.map (λ x. if test x then f x else x) (find_by wanted xs)
unfolding find_by update_by
find-update wanted test f [] keep = refl
find-update wanted test f (x ∷ xs) keep = ground (arith, keep x, find-update wanted test f xs keep)

-- Two filters are the inner one's items that pass the outer one's test.
pub filter-filter_by {ℓ} :
    {A : Type ℓ} (outer inner : A → Bool) (xs : List A)
    → ((x : A) → outer x ≡ true → inner x ≡ true)
    → filter_by outer (filter_by inner xs) ≡ filter_by outer xs
unfolding filter_by
filter-filter_by outer inner [] h = refl
filter-filter_by outer inner (x ∷ xs) h = ground (arith, h x, filter-filter_by outer inner xs h)

-- What a filter leaves passes its test.
pub All-filtered {ℓ} :
    {A : Type ℓ} (test : A → Bool) (xs : List A) → All (λ x. test x ≡ true) (filter_by test xs)
unfolding filter_by
All-filtered test [] = tt
All-filtered test (x ∷ xs) = elim (Bool-cases (test x)) [
  | inl e ↦ rw e (e, All-filtered test xs)
  | inr e ↦ rw e (All-filtered test xs)
]

-- Each item may stand before all that follow it.
abbrev pub IsSorted {ℓ} : {A : Type ℓ} → (A → A → Bool) → List A → Type 0
IsSorted before [] = Unit
IsSorted before (x ∷ xs) = All (λ y. before x y ≡ true) xs × IsSorted before xs

-- Sorting by a total and transitive test sorts.
module _ {ℓ} {A : Type ℓ} (before : A → A → Bool)
    (total : (a b : A) → before a b ≡ false → before b a ≡ true)
    (trans : (a b c : A) → before a b ≡ true → before b c ≡ true → before a c ≡ true) where
  IsSorted-insert_by :
      (x : A) (xs : List A) → IsSorted before xs → IsSorted before (insert_by before x xs)
  unfolding insert_by
  IsSorted-insert_by x [] h = (tt, tt)
  IsSorted-insert_by x (y ∷ ys) h = elim (Bool-cases (before x y)) [
    | inl e ↦ rw e ((e, later x y ys e h.0), h)
    | inr e ↦ rw e (
      All-insert_by (λ z. before y z ≡ true) before x ys (total x y e) h.0,
      IsSorted-insert_by x ys h.1,
    )
  ]
    where
      later :
          (x y : A) (ys : List A)
          → before x y ≡ true
          → All (λ z. before y z ≡ true) ys
          → All (λ z. before x z ≡ true) ys
      later x y [] e h = tt
      later x y (z ∷ zs) e h = (trans x y z e h.0, later x y zs e h.1)

  pub IsSorted-sort_by : (xs : List A) → IsSorted before (sort_by before xs)
  unfolding sort_by
  IsSorted-sort_by [] = tt
  IsSorted-sort_by (x ∷ xs) = IsSorted-insert_by x (sort_by before xs) (IsSorted-sort_by xs)

pub IsSorted-take {ℓ} :
    {A : Type ℓ} (before : A → A → Bool) (n : ℕ) (xs : List A)
    → IsSorted before xs
    → IsSorted before (take n xs)
IsSorted-take before zero xs h = tt
IsSorted-take before (suc n) [] h = tt
IsSorted-take before (suc n) (x ∷ xs) h =
    (All-take (λ y. before x y ≡ true) n xs h.0, IsSorted-take before n xs h.1)
