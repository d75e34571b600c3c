-- ===== src/RiskEngine/Days.antt =====
-- The day and the realized loss of a `RiskEngine` (src/risk/engine.py) over any sequence of calls.
use greenfield.Base.{
  subst, sym, ℕ, ◌≤◌, ltb, Bool, true, false, Option, some, String, ◌≡◌, refl, ◌∙◌, ap, List, [],
  ◌∷◌, arith, Floats, date_of, Bool-cases, inl, inr,
}
use greenfield.RiskEngine.{
  RiskEngine, Instrument, roll_ledger, roll_risk_day, evaluate, evaluate_rolled, open_risk,
  close_risk,
}

-- a call on the engine
pub data RiskCall (A Q : Type 0) : Type 0 where
  ask : Instrument A Q → (price equity : A) → (now : ℕ) → (realized_vol : Option A) → RiskCall A Q
  open_at : String → (risk_fraction : A) → RiskCall A Q
  close_at : String → (realized_pnl : A) → (now : ℕ) → RiskCall A Q

module _ {A : Type 0} ⦃F : Floats A⦄ where
  -- After a call the day is `day` or a later one, and on the same day the loss is `x`.
  abbrev pub OnDay : ℕ → A → RiskEngine A → Type 0
  OnDay day x e =
      (day' : ℕ) × (e.current_day ≡ some day') × (day ≤ day') × (day' ≡ day → e.daily_pnl ≡ x)

  roll_ledger-OnDay :
      (today : ℕ) (e : RiskEngine A) (day : ℕ)
      → e.current_day ≡ some day
      → OnDay day e.daily_pnl (roll_ledger today e (some day)).1
  unfolding roll_ledger
  roll_ledger-OnDay today e day h = elim (Bool-cases (ltb day today)) [
    | inl later ↦ rw later (today, refl, ground arith, λ s. absurd (ground arith))
    | inr same ↦ rw same (day, h, omega arith, λ s. refl)
  ]

  roll_risk_day-OnDay :
      (now : ℕ) (e : RiskEngine A) (day : ℕ)
      → e.current_day ≡ some day
      → OnDay day e.daily_pnl (roll_risk_day now e).1
  unfolding roll_risk_day
  roll_risk_day-OnDay now e day h =
      subst (λ c. OnDay day e.daily_pnl (roll_ledger (date_of now) e c).1) (sym h)
        (roll_ledger-OnDay (date_of now) e day h)

module _ {A : Type 0} ⦃F : Floats A⦄ {Q : Type 0} where
  unfoldable pub run_call : RiskCall A Q → RiskEngine A → RiskEngine A
  run_call (ask i price equity now vol) e = (evaluate i price equity now vol e).1
  run_call (open_at key fraction) e = open_risk key fraction e
  run_call (close_at key pnl now) e = close_risk key pnl now e

  unfoldable pub run_all : List (RiskCall A Q) → RiskEngine A → RiskEngine A
  run_all [] e = e
  run_all (c ∷ cs) e = run_all cs (run_call c e)

  -- A balance after the closes of a sequence of calls, stale ones included.
  unfoldable pub charged : RiskCall A Q → A → A
  charged (close_at key pnl now) x = F.add x pnl
  charged (ask i price equity now vol) x = x
  charged (open_at key fraction) x = x

  unfoldable pub charged_all : List (RiskCall A Q) → A → A
  charged_all [] x = x
  charged_all (c ∷ cs) x = charged_all cs (charged c x)

  evaluate_rolled-OnDay :
      (i : Instrument A Q) (price equity : A) (vol : Option A) (fresh : Bool) (e : RiskEngine A)
      (day : ℕ) (x : A)
      → OnDay day x e
      → OnDay day x (evaluate_rolled i price equity vol fresh e).1
  unfolding evaluate_rolled
  evaluate_rolled-OnDay i price equity vol false e day x on = on
  evaluate_rolled-OnDay i price equity vol true e day x on = on

  run_call-OnDay :
      (c : RiskCall A Q) (e : RiskEngine A) (day : ℕ)
      → e.current_day ≡ some day
      → OnDay day (charged c e.daily_pnl) (run_call c e)
  unfolding run_call charged evaluate open_risk close_risk
  run_call-OnDay (ask i price equity now vol) e day h =
      evaluate_rolled-OnDay i price equity vol _ _ day _ (roll_risk_day-OnDay now e day h)
  run_call-OnDay (open_at key fraction) e day h = (day, h, omega arith, λ s. refl)
  run_call-OnDay (close_at key pnl now) e day h =
      let (day', at_day, before, loss) = roll_risk_day-OnDay now e day h in
      (day', at_day, before, λ s. ap (λ x. F.add x pnl) (loss s))

  -- When a risk engine has a day, then after any sequence of `evaluate`, `open_position` and
  -- `close_position` it has that day or a later one, and when it is the same day the realized loss
  -- is the one before with that of each close added in turn, also of closes whose time is on an
  -- earlier day.
  pub run_all-day :
      (cs : List (RiskCall A Q)) (e : RiskEngine A) (day : ℕ)
      → e.current_day ≡ some day
      → OnDay day (charged_all cs e.daily_pnl) (run_all cs e)
  unfolding run_all charged_all
  run_all-day [] e day h = (day, h, omega arith, λ s. refl)
  run_all-day (c ∷ cs) e day h =
      let (mid, at_mid, before, loss) = run_call-OnDay c e day h in
      let (day', at_end, after, total) = run_all-day cs (run_call c e) mid at_mid in
      (
        day',
        at_end,
        omega arith,
        λ s. total (omega arith) ∙ ap (charged_all cs) (loss (omega arith)),
      )
