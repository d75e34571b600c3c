-- ===== src/Portfolio/Calls/Days.antt =====
-- The day and the realized loss of a portfolio engine over any sequence of calls
-- (src/risk/portfolio_engine.py).
use greenfield.Base.{
  >>=-eq-ok, ok_eq, ℕ, ◌≤◌, Option, some, none, String, ◌≡◌, refl, sym, ◌∙◌, ap, List, [], ◌∷◌,
  Result, ok, err, arith, Floats, Result-cases, inl, inr, Datetime,
}
use greenfield.Portfolio.Records.{Error, PortfolioRiskDecision, PortfolioEntryProposal, utc}
use greenfield.Portfolio.Engine.{PortfolioRiskEngine, roll_day, positive_equity}
use greenfield.Portfolio.Entry.{evaluate_entry}
use greenfield.Portfolio.Entry.Cases.{
  Rolled, same_day, new_day, evaluate_entry-cases, roll_day-Rolled,
}
use greenfield.Portfolio.Calls.{
  Call, evaluate, open_position, close_position, activate, clear, observe_equity, execute,
  run_calls, commit, record_open, validate_open, record_close, settle, activate_kill_switch,
  clear_kill_switch, update_equity,
}

module _ {A : Type 0} ⦃F : Floats A⦄ where
  abbrev pub pnl_of : A → Result Error (Unit {0}) → Option A
  pnl_of pnl (ok done) = some pnl
  pnl_of pnl (err error) = none

  -- The profit or loss that a call realizes: that of a close that does not raise.
  abbrev pub closed_pnl : Call A → PortfolioRiskEngine A → Option A
  closed_pnl (close_position key pnl at) e = pnl_of pnl (record_close key pnl at e).0
  closed_pnl _ e = none

  abbrev pub added : Option A → A → A
  added none x = x
  added (some pnl) x = F.add x pnl

  -- A balance after what a sequence of calls realizes.
  unfoldable pub balance : List (Call A) → PortfolioRiskEngine A → A → A
  balance [] e x = x
  balance (c ∷ cs) e x = balance cs (execute c e) (added (closed_pnl c e) x)

  -- The day and the loss after a call are those of the rolled engine, with what the call realizes.
  record Accounted (pnl : Option A) (e e' : PortfolioRiskEngine A) : Type 0 where
    rolled : PortfolioRiskEngine A
    rolls : Rolled e rolled
    day : e'.current_day ≡ rolled.current_day
    loss : e'.daily_realized_pnl ≡ added pnl rolled.daily_realized_pnl

  accounted :
      (e e' : PortfolioRiskEngine A)
      → e'.current_day ≡ e.current_day
      → e'.daily_realized_pnl ≡ e.daily_realized_pnl
      → Accounted none e e'
  accounted e e' d l = record { rolled = e; rolls = same_day refl; day = d; loss = l }

  evaluate-Accounted :
      (p : PortfolioEntryProposal A) (equity : A) (e : PortfolioRiskEngine A)
      → Accounted none e (evaluate_entry p equity e).1
  evaluate-Accounted p equity e =
      let (e1, rolled, outcome) = evaluate_entry-cases p equity e in
      elim outcome [
        | inl refusal ↦ record {
          rolled = e1;
          rolls = rolled;
          day = ap (λ x. x.current_day) refusal.state;
          loss = ap (λ x. x.daily_realized_pnl) refusal.state;
        }
        | inr i ↦ record {
          rolled = e1;
          rolls = rolled;
          day = ap (λ x. x.current_day) i.state;
          loss = ap (λ x. x.daily_realized_pnl) i.state;
        }
      ]

  -- A call that leaves the day and the loss alone, raised or not.
  commit-Accounted :
      (e : PortfolioRiskEngine A) (made : Result Error (PortfolioRiskEngine A))
      → ((e' : PortfolioRiskEngine A)
          → made ≡ ok e'
          → (e'.current_day ≡ e.current_day) × (e'.daily_realized_pnl ≡ e.daily_realized_pnl))
      → Accounted none e (commit e made).1
  commit-Accounted e (err error) same = accounted e e refl refl
  commit-Accounted e (ok e') same = let (d, l) = same e' refl in accounted e e' d l

  abbrev Closed :
      A → PortfolioRiskEngine A → Result Error (Unit {0}) × PortfolioRiskEngine A → Type 0
  Closed pnl e out = Accounted (pnl_of pnl out.0) e out.1

  settle-Closed :
      (key : String) (pnl : A) (e e1 : PortfolioRiskEngine A)
      → Rolled e e1
      → (made : Result Error (PortfolioRiskEngine A)) → settle key pnl e1 ≡ made
      → Closed pnl e (commit e1 made)
  unfolding settle
  settle-Closed key pnl e e1 rolled (err error) h = record {
    rolled = e1;
    rolls = rolled;
    day = refl;
    loss = refl;
  }
  settle-Closed key pnl e e1 rolled (ok e') h = record {
    rolled = e1;
    rolls = rolled;
    day = ground arith;
    loss = ground arith;
  }

  close-Closed :
      (key : String) (pnl : A) (at : Datetime) (e : PortfolioRiskEngine A)
      → Closed pnl e (record_close key pnl at e)
  unfolding record_close
  close-Closed key pnl at e = elim (Result-cases (utc at)) [
    | inr (error, naive) ↦ rw (record_close, naive) (accounted e e refl refl)
    | inl (now, aware) ↦
        rw (record_close, aware)
          (settle-Closed key pnl e (roll_day now e).1 (roll_day-Rolled now e) _ refl)
  ]

  record_open-same :
      (p : PortfolioEntryProposal A) (d : PortfolioRiskDecision A) (e e' : PortfolioRiskEngine A)
      → record_open p d e ≡ ok e'
      → (e'.current_day ≡ e.current_day) × (e'.daily_realized_pnl ≡ e.daily_realized_pnl)
  unfolding record_open
  record_open-same p d e e' h =
      let (done, valid, made) = >>=-eq-ok (validate_open p d e) _ h in
      let same = sym (ok_eq _ e' made) in
      (ap (λ x. x.current_day) same, ap (λ x. x.daily_realized_pnl) same)

  update_equity-same :
      (equity : A) (e e' : PortfolioRiskEngine A)
      → update_equity equity e ≡ ok e'
      → (e'.current_day ≡ e.current_day) × (e'.daily_realized_pnl ≡ e.daily_realized_pnl)
  unfolding update_equity
  update_equity-same equity e e' h =
      let (done, valid, made) = >>=-eq-ok (positive_equity equity) _ h in
      let same = sym (ok_eq _ e' made) in
      (ap (λ x. x.current_day) same, ap (λ x. x.daily_realized_pnl) same)

  execute-Accounted :
      (c : Call A) (e : PortfolioRiskEngine A) → Accounted (closed_pnl c e) e (execute c e)
  unfolding execute activate_kill_switch clear_kill_switch
  execute-Accounted (evaluate p equity) e = evaluate-Accounted p equity e
  execute-Accounted (open_position p d) e = commit-Accounted e _ (record_open-same p d e)
  execute-Accounted (close_position key pnl at) e = close-Closed key pnl at e
  execute-Accounted (activate reason) e =
      commit-Accounted e (activate_kill_switch reason e) (λ e' h. (ground arith, ground arith))
  execute-Accounted (clear reason) e =
      commit-Accounted e (clear_kill_switch reason e) (λ e' h. (ground arith, ground arith))
  execute-Accounted (observe_equity equity) e = commit-Accounted e _ (update_equity-same equity e)

  -- A call keeps the day, with the loss but for what it realizes, or moves to a later day.
  execute-day :
      (c : Call A) (e : PortfolioRiskEngine A) (day : ℕ)
      → e.current_day ≡ some day
      → (day' : ℕ) × ((execute c e).current_day ≡ some day')
        × (day ≤ day')
        × (day' ≡ day
            → (execute c e).daily_realized_pnl ≡ added (closed_pnl c e) e.daily_realized_pnl)
  execute-day c e day h =
      let a = execute-Accounted c e in
      elim a.rolls [
        | same_day same ↦ (
          day,
          a.day ∙ ap (λ x. x.current_day) same ∙ h,
          omega arith,
          λ s. a.loss ∙ ap (λ x. added (closed_pnl c e) x.daily_realized_pnl) same,
        )
        | new_day day' later same ↦ (
          day',
          a.day ∙ ap (λ x. x.current_day) same,
          omega (arith, later day h),
          λ s. absurd (omega (arith, later day h)),
        )
      ]

  -- When a portfolio engine has a day, then after any sequence of calls it has that day or a later
  -- one, and when it is the same day the realized loss is the one before with the profit or loss of
  -- each close that did not raise added in turn.
  pub run_calls-day :
      (cs : List (Call A)) (e : PortfolioRiskEngine A) (day : ℕ)
      → e.current_day ≡ some day
      → (day' : ℕ) × ((run_calls cs e).current_day ≡ some day')
        × (day ≤ day')
        × (day' ≡ day → (run_calls cs e).daily_realized_pnl ≡ balance cs e e.daily_realized_pnl)
  unfolding run_calls balance
  run_calls-day [] e day h = (day, h, omega arith, λ s. refl)
  run_calls-day (c ∷ cs) e day h =
      let (mid, at_mid, before, loss) = execute-day c e day h in
      let (day', at_end, after, total) = run_calls-day cs (execute c e) mid at_mid in
      (
        day',
        at_end,
        omega arith,
        λ s. total (omega arith) ∙ ap (balance cs (execute c e)) (loss (omega arith)),
      )
