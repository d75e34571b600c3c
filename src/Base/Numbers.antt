-- ===== src/Base/Numbers.antt =====
-- Python's floating-point numbers. What the interpreter does with them is a parameter.
use mathlib.Core.Path.{◌≡◌, refl, subst}
use mathlib.Core.Bool.{Bool, true, false, ◌||◌, not}
use mathlib.Core.List.{List, [], ◌∷◌}
use native.Mathlib.Omega.{arith}
use mathlib.Core.Logic.{◌⊎◌, inl, inr}
use greenfield.Base.Tests.{if◌then◌else◌, Bool-cases}
use greenfield.Base.Lists.{All}

pub record Floats (A : Type 0) : Type 0 where
  -- `0.0` and `1.0`
  pub nil : A
  pub unit : A
  -- `a + b`, `a - b`, `a * b`, `a / b` with `b` not zero, `-a`, `abs(a)`
  pub add : A → A → A
  pub subtract : A → A → A
  pub times : A → A → A
  pub divide : A → A → A
  pub negative : A → A
  pub magnitude : A → A
  -- `sum`
  pub total : List A → A
  -- `a < b`, `a <= b`, `a == b`
  pub less : A → A → Bool
  pub at_most : A → A → Bool
  pub equals : A → A → Bool
  -- `math.isfinite`, and `math.isclose` with both tolerances 1e-12
  pub is_finite : A → Bool
  pub is_close : A → A → Bool

-- What IEEE 754 says of `<`, also of values that are not numbers.
pub record Ieee {A : Type 0} (F : Floats A) : Type 0 where
  pub less_irrefl : (a : A) → F.less a a ≡ false
  pub less_trans : (a b c : A) → F.less a b ≡ true → F.less b c ≡ true → F.less a c ≡ true

-- What IEEE 754 says of values that are numbers: one that is below something else is above the lower
-- or below the upper of any two in order.
pub record IeeeNumbers {A : Type 0} (F : Floats A) : Type 0 where
  pub less_split :
      (a b lower upper : A)
      → F.less a b ≡ true
      → F.less lower upper ≡ true
      → (F.less lower a ≡ true) ⊎ (F.less a upper ≡ true)

module _ {A : Type 0} ⦃F : Floats A⦄ where
  -- `max(a, b)`
  unfoldable pub max_of : A → A → A
  max_of a b = if F.less a b then b else a

  -- `min(a, *rest)`
  unfoldable pub min_of : A → List A → A
  min_of a [] = a
  min_of a (b ∷ rest) = min_of (if F.less b a then b else a) rest

  -- `not math.isfinite(value) or value <= 0`
  abbrev pub not_positive_float : A → Bool
  not_positive_float a = not (F.is_finite a) || F.at_most a F.nil

  module _ (ieee : Ieee F) where
    -- The least is the first or below it.
    pub min_of-below :
        (a : A) (rest : List A) → (min_of a rest ≡ a) ⊎ (F.less (min_of a rest) a ≡ true)
    unfolding min_of
    min_of-below a [] = inl refl
    min_of-below a (b ∷ rest) = elim (Bool-cases (F.less b a)) [
      | inr keep ↦ rw keep (min_of-below a rest)
      | inl drop ↦ rw drop (elim (min_of-below b rest) [
        | inl same ↦ inr (rw same drop)
        | inr under ↦ inr (ieee.less_trans (min_of b rest) b a under drop)
      ])
    ]

    pub min_of-first : (a : A) (rest : List A) → F.less a (min_of a rest) ≡ false
    min_of-first a rest = elim (min_of-below a rest) [
      | inl same ↦ rw same (ieee.less_irrefl a)
      | inr under ↦ ground (arith, ieee.less_trans a (min_of a rest) a, ieee.less_irrefl a)
    ]

    -- A value that is not below the first is not below the least.
    min_of-above : (x a : A) (rest : List A) → F.less x a ≡ false → F.less x (min_of a rest) ≡ false
    min_of-above x a rest h = elim (min_of-below a rest) [
      | inl same ↦ rw same h
      | inr under ↦ ground (arith, ieee.less_trans x (min_of a rest) a)
    ]

    pub min_of-rest : (a : A) (rest : List A) → All (λ b. F.less b (min_of a rest) ≡ false) rest
    unfolding min_of
    min_of-rest a [] = tt
    min_of-rest a (b ∷ rest) =
        let Above : A → Type 0 = λ c. All (λ x. F.less x (min_of c rest) ≡ false) (b ∷ rest) in
        elim (Bool-cases (F.less b a)) [
          | inl drop ↦ subst Above (rw drop refl) (min_of-first b rest, min_of-rest b rest)
          | inr keep ↦ subst Above (rw keep refl) (min_of-above b a rest keep, min_of-rest a rest)
        ]
