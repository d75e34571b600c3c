-- ===== src/Base/Decimals.antt =====
-- Python's `decimal.Decimal`. A finite decimal is its value, an integer count of 10^-18, and the
-- number of digits behind its point, which `str` shows and comparisons ignore. Sums and products
-- are exact in Python while they have at most 28 digits, and here while they have at most 18
-- places; of a value that is not finite (NaN, an infinity) only `finite` is read.
use Prim.Native.Nat.{ℕ, ◌+◌, ◌*◌, ◌/◌, ◌-◌, ◌^◌, max}
use mathlib.Core.Bool.{Bool, true, false, not, ◌&&◌, ◌||◌}
use mathlib.Core.Option.{Option, none, some}
use mathlib.Core.Path.{◌≡◌, refl}
use native.Mathlib.Omega.{arith}
use greenfield.Base.Tests.{ltb, ◌==◌, bool_eq}
use greenfield.Base.Int.{
  ℤ, pos, pos_part, neg_part, sub_ℕ, ◌+ℤ◌, ◌*ℤ◌, neg, ltb_ℤ, leb_ℤ, eqb_ℤ, eq_of_parts,
}

pub record Decimal : Type 0 where
  pub finite : Bool
  pub units : ℤ
  pub places : ℕ

unfoldable pub scale : ℕ
scale = 10 ^ 18

-- `a == b`, `a <= 0`, `a <= b` and `a < b` of finite values
abbrev pub dec_eq : Decimal → Decimal → Bool
dec_eq a b = eqb_ℤ a.units b.units

abbrev pub dec_leb : Decimal → Decimal → Bool
dec_leb a b = leb_ℤ a.units b.units

abbrev pub dec_ltb : Decimal → Decimal → Bool
dec_ltb a b = ltb_ℤ a.units b.units

-- `str(a) == str(b)`
abbrev pub dec_text_eq : Decimal → Decimal → Bool
dec_text_eq a b = bool_eq a.finite b.finite && dec_eq a b && a.places == b.places

pub dec_text_eq→eq : (a b : Decimal) → dec_text_eq a b ≡ true → a ≡ b
dec_text_eq→eq a b h = ground (arith, eq_of_parts a.units b.units)

pub dec_text_eq_refl : (a : Decimal) → dec_text_eq a a ≡ true
dec_text_eq_refl a = ground arith

abbrev pub dec_zero : Decimal
dec_zero = record { finite = true; units = pos 0; places = 0 }

unfoldable pub dec_add : Decimal → Decimal → Decimal
dec_add a b = record {
  finite = a.finite && b.finite;
  units = a.units +ℤ b.units;
  places = max a.places b.places;
}

unfoldable pub dec_mul : Decimal → Decimal → Decimal
unfolding scale
dec_mul a b =
    let p = a.units *ℤ b.units in
    record {
      finite = a.finite && b.finite;
      units = sub_ℕ (pos_part p / scale) (neg_part p / scale);
      places = a.places + b.places;
    }

unfoldable pub dec_neg : Decimal → Decimal
dec_neg a = record a { units = neg a.units }

-- `math.isfinite(float(a))` of a finite value: it is not rounded to an infinity.
unfoldable pub float_is_finite : Decimal → Bool
unfolding scale
float_is_finite a =
    ltb (pos_part a.units) ((2 ^ 1024 - 2 ^ 970) * scale)
    && ltb (neg_part a.units) ((2 ^ 1024 - 2 ^ 970) * scale)

-- `not value.is_finite() or value <= 0`
abbrev pub not_positive : Decimal → Bool
not_positive a = not a.finite || leb_ℤ a.units (pos 0)

abbrev pub opt_dec_eq : Option Decimal → Option Decimal → Bool
opt_dec_eq none none = true
opt_dec_eq none (some b) = false
opt_dec_eq (some a) none = false
opt_dec_eq (some a) (some b) = dec_eq a b

pub opt_dec_refl : (a : Option Decimal) → opt_dec_eq a a ≡ true
opt_dec_refl none = refl
opt_dec_refl (some a) = ground arith
