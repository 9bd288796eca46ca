-- ===== src/Common/Equality.antt =====
-- Python's `==` and `in` as an interface: a Boolean test that decides equality.
use Prim.Native.Nat.{ℕ}
use Prim.Native.String.{String}
use text.Mathlib.Text.{◌==◌ as str_eq}
use text.Mathlib.TextEquality.{eq_iff}
use mathlib.Core.Path.{◌≡◌, refl}
use mathlib.Core.Logic.{◌↔◌}
use mathlib.Core.Bool.{Bool, true, false, ◌||◌}
use mathlib.Core.Option.{Option, none, some}
use mathlib.Core.List.{List, [], ◌∷◌, ◌++◌}
use native.Mathlib.Omega.{arith}
use bridgesat_agent.Common.Tests.{◌==◌ as nat_beq, ==_iff, if◌then◌else◌}

pub record Eq {ℓ} (A : Type ℓ) : Type ℓ where
  pub is_equal : A → A → Bool
  pub decides : (a b : A) → (is_equal a b ≡ true) ↔ (a ≡ b)

infix 50 ◌==◌
abbrev pub ◌==◌ {ℓ} : {A : Type ℓ} ⦃e : Eq A⦄ → A → A → Bool
◌==◌ ⦃e⦄ = e.is_equal

instance abbrev pub string_eq : Eq String
string_eq = record { decides = eq_iff; is_equal = str_eq }

instance abbrev pub nat_eq : Eq ℕ
nat_eq = record { decides = ==_iff; is_equal = nat_beq }

-- A decision procedure gives the test.
abbrev pub test_of {ℓ} : {A : Type ℓ} → Discrete A → A → A → Bool
test_of d a b = elim (d a b) [ yes _ ↦ true | no _ ↦ false ]

pub test_of_iff {ℓ} : {A : Type ℓ} (d : Discrete A) (a b : A) → (test_of d a b ≡ true) ↔ (a ≡ b)
test_of_iff d a b = ground arith

abbrev pub optional_beq {ℓ} : {A : Type ℓ} ⦃e : Eq A⦄ → Option A → Option A → Bool
optional_beq none none = true
optional_beq none (some b) = false
optional_beq (some a) none = false
optional_beq (some a) (some b) = a == b

pub optional_beq_iff {ℓ} :
    {A : Type ℓ} ⦃e : Eq A⦄ (a b : Option A) → (optional_beq a b ≡ true) ↔ (a ≡ b)
optional_beq_iff none none = ground arith
optional_beq_iff none (some b) = ground arith
optional_beq_iff (some a) none = ground arith
optional_beq_iff ⦃e⦄ (some a) (some b) = ground (arith, e.decides a b)

instance abbrev pub option_eq {ℓ} : {A : Type ℓ} ⦃e : Eq A⦄ → Eq (Option A)
option_eq ⦃e⦄ = record { decides = optional_beq_iff; is_equal = optional_beq }

module _ {ℓ} {A : Type ℓ} ⦃e : Eq A⦄ where
  -- `a in xs`
  abbrev pub contains : List A → A → Bool
  contains [] a = false
  contains (x ∷ xs) a = x == a || contains xs a

  -- `dict.fromkeys(xs)`: the first of each item, in order; `seen` holds the items passed.
  abbrev pub distinct_from : List A → List A → List A
  distinct_from seen [] = []
  distinct_from seen (x ∷ xs) =
      if contains seen x then distinct_from seen xs else x ∷ distinct_from (x ∷ seen) xs

  abbrev pub distinct : List A → List A
  distinct xs = distinct_from [] xs

  pub beq_refl : (a : A) → (a == a) ≡ true
  beq_refl a = (e.decides a a).1 refl

  pub contains-append :
      (xs ys : List A) (a : A) → contains (xs ++ ys) a ≡ (contains xs a || contains ys a)
  contains-append [] ys a = refl
  contains-append (x ∷ xs) ys a = ground (arith, contains-append xs ys a)

  contains-distinct_from :
      (seen xs : List A) (a : A)
      → (contains seen a || contains (distinct_from seen xs) a) ≡ (contains seen a || contains xs a)
  contains-distinct_from seen [] a = refl
  contains-distinct_from seen (x ∷ xs) a = ground (
    arith,
    contains-distinct_from seen xs a,
    contains-distinct_from (x ∷ seen) xs a,
    e.decides x a,
  )

  -- Deduplication keeps exactly the members.
  pub contains-distinct : (xs : List A) (a : A) → contains (distinct xs) a ≡ contains xs a
  contains-distinct xs a = contains-distinct_from [] xs a
