-- ===== src/Portfolio/Sample.antt =====
-- Whole numbers in place of floating-point ones, and values in place of their JSON texts, for tests.
use Prim.Native.Char.{nul}
use Prim.Native.String.count.{cons}
use greenfield.Portfolio.Records.{PortfolioRiskConfig}
use greenfield.Base.{
  ℕ, zero, suc, ◌/◌, ◌-◌, true, false, some, String, ◌≡◌, refl, ap, ◌∙◌, List, [], ◌∷◌, arith,
  Floats, Ieee, IeeeNumbers, ◌⊎◌, ℤ, pos, pos_part, neg_part, sub_ℕ, ◌+ℤ◌, ◌-ℤ◌, ◌*ℤ◌, neg, ltb_ℤ,
  leb_ℤ, eqb_ℤ, Value, Codec, Readable, ◌=$◌, =$_iff, Bool-cases, inl, inr, if◌then◌else◌,
  string_length,
}

abbrev pub sum_of : List ℤ → ℤ
sum_of [] = pos 0
sum_of (x ∷ xs) = x +ℤ sum_of xs

instance abbrev pub whole_numbers : Floats ℤ
whole_numbers = record {
  nil = pos 0;
  unit = pos 1;
  add = ◌+ℤ◌;
  subtract = ◌-ℤ◌;
  times = ◌*ℤ◌;
  divide = λ a b. sub_ℕ (pos_part a / pos_part b) (neg_part a / pos_part b);
  negative = neg;
  magnitude = λ a. if leb_ℤ (pos 0) a then a else neg a;
  total = sum_of;
  less = ltb_ℤ;
  at_most = leb_ℤ;
  equals = eqb_ℤ;
  is_finite = λ a. true;
  is_close = eqb_ℤ;
}

pub whole_numbers-Ieee : Ieee whole_numbers
whole_numbers-Ieee = record {
  less_irrefl = λ a. ground arith;
  less_trans = λ a b c h k. ground arith;
}

pub whole_numbers-IeeeNumbers : IeeeNumbers whole_numbers
whole_numbers-IeeeNumbers = record { less_split = λ a b lower upper h k. split a b lower upper k }
  where
    split :
        (a b lower upper : ℤ)
        → ltb_ℤ lower upper ≡ true
        → (ltb_ℤ lower a ≡ true) ⊎ (ltb_ℤ a upper ≡ true)
    split a b lower upper k = elim (Bool-cases (ltb_ℤ lower a)) [
      | inl above ↦ inl above
      | inr other ↦ inr (ground arith)
    ]

abbrev pub limits : PortfolioRiskConfig ℤ
limits = record {
  maximum_gross_exposure_multiple = pos 2;
  maximum_net_exposure_multiple = pos 1;
  maximum_symbol_exposure_multiple = pos 1;
  maximum_venue_exposure_multiple = pos 1;
  maximum_strategy_exposure_multiple = pos 1;
  maximum_engine_exposure_multiple = pos 1;
  maximum_correlated_exposure_multiple = pos 1;
  maximum_committed_risk_fraction = pos 1;
  maximum_daily_loss_fraction = pos 1;
  maximum_drawdown_fraction = pos 1;
  maximum_open_positions = 1;
  minimum_order_notional = pos 10;
}

-- A number as a text of that many characters after the first.
abbrev pub strokes : ℕ → String
strokes zero = String.◌∷◌ nul String.[]
strokes (suc n) = String.◌∷◌ nul (strokes n)

abbrev pub as_values : Codec ℤ (Value ℤ)
as_values = record {
  dumps = λ v. v;
  loads = λ v. some v;
  sha256 = λ v. "0123456789012345678901234567890123456789012345678901234567890123";
  isoformat = strokes;
  fromisoformat = λ t. some (record { aware = true; micros = string_length t - 1 });
  day_isoformat = strokes;
  day_fromisoformat = λ t. some (string_length t - 1);
  to_float = λ n. n;
}

pub length-strokes : (n : ℕ) → string_length (strokes n) ≡ suc n
length-strokes zero = λ i. cons nul String.[] i
length-strokes (suc n) = (λ i. cons nul (strokes n) i) ∙ ap suc (length-strokes n)

strokes-some : (n : ℕ) → (strokes n =$ "") ≡ false
strokes-some n = elim (Bool-cases (strokes n =$ "")) [
  | inr other ↦ other
  | inl same ↦
      absurd (omega (arith, length-strokes n, ap string_length ((=$_iff (strokes n) "").0 same)))
]

pub as_values-Readable : Readable as_values
as_values-Readable = record {
  loads-dumps = λ v. refl;
  time_read = λ t early.
      ap (λ n. some (record { aware = true; micros = n })) (omega (arith, length-strokes t));
  day_read = λ d early. ap some (omega (arith, length-strokes d));
  day_text = strokes-some;
}
