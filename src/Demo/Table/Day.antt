-- ===== src/Demo/Table/Day.antt =====
-- Reads of the days after a write.
use greenfield.Base.{
  ℕ, true, false, ◌≡◌, refl, ◌≢◌, some, none, [], ◌∷◌, ◌++◌, arith, Bool-cases, some_eq, ap, inl,
  inr, ◌==◌, if◌then◌else◌,
}
use greenfield.Demo.Trade.{AutonomousDailyRiskRecord}
use greenfield.Demo.Table.{Days, fetch_day, update_day}

pub fetch_day-append :
    (j : ℕ) (rs : Days) (r : AutonomousDailyRiskRecord)
    → fetch_day j (rs ++ r ∷ []) ≡ elim (fetch_day j rs) [
      | some x ↦ some x
      | none ↦ (if r.utc_date == j then some r else none)
    ]
unfolding fetch_day
fetch_day-append j [] r = ground arith
fetch_day-append j (x ∷ rs) r = ground (arith, fetch_day-append j rs r)

module _ (d : ℕ) (f : AutonomousDailyRiskRecord → AutonomousDailyRiskRecord)
    (keep : (r : AutonomousDailyRiskRecord) → (f r).utc_date ≡ r.utc_date) where
  pub fetch_day-update_day :
      (rs : Days) (r : AutonomousDailyRiskRecord)
      → fetch_day d rs ≡ some r
      → fetch_day d (update_day d f rs) ≡ some (f r)
  unfolding fetch_day update_day
  fetch_day-update_day [] r h = ground arith
  fetch_day-update_day (x ∷ rs) r h = elim (Bool-cases (x.utc_date == d)) [
    | inl same ↦
        let e : ((f x).utc_date == d) ≡ true = rw (keep x) same in
        rw (same, e) (ap (λ y. some (f y)) (some_eq x r (rw same at h)))
    | inr other ↦ rw (other, other) (fetch_day-update_day rs r (rw other at h))
  ]

  pub fetch_day-update_day_ne :
      (j : ℕ) (rs : Days) → j ≢ d → fetch_day j (update_day d f rs) ≡ fetch_day j rs
  unfolding fetch_day update_day
  fetch_day-update_day_ne j [] h = refl
  fetch_day-update_day_ne j (x ∷ rs) h = elim (Bool-cases (x.utc_date == d)) [
    | inl same ↦
        let apart : (x.utc_date == j) ≡ false = ground arith in
        let moved : ((f x).utc_date == j) ≡ false = rw (keep x) apart in
        rw (same, moved, apart) (fetch_day-update_day_ne j rs h)
    | inr other ↦
        rw other (ap (λ r. if x.utc_date == j then some x else r) (fetch_day-update_day_ne j rs h))
  ]
