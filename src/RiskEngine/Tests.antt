-- ===== src/RiskEngine/Tests.antt =====
-- Tests of `RiskEngine` (src/risk/engine.py), in whole numbers.
use greenfield.Base.{
  ℕ, ℤ, pos, neg, ◌≡◌, ◌≤◌, refl, some, none, false, ◌*◌, List, [], ◌∷◌, zero, suc, string_length,
}
use greenfield.Portfolio.Sample.{whole_numbers}
use greenfield.RiskEngine.{
  roll_risk_day, RiskConfig, RiskEngine, Instrument, new_risk_engine, evaluate, refusal_reason,
  close_risk, open_risk,
}
use greenfield.RiskEngine.Days.{
  RiskCall, ask, open_at, close_at, run_all, run_all-day, OnDay, charged_all,
}

abbrev lots : Instrument ℤ ℤ
lots = record { make_qty = λ x. x; make_qty_down = λ x. x; as_double = λ x. x }

abbrev one_slot : RiskConfig ℤ
one_slot = record {
  risk_per_trade = pos 1;
  max_portfolio_risk = pos 3;
  max_daily_loss = pos 1;
  max_drawdown = pos 1;
  max_concurrent_positions = 1;
  max_leverage = pos 2;
  volatility_target = none;
}

-- A second day has begun at a loss.
abbrev second_day : RiskEngine ℤ
second_day = record (new_risk_engine one_slot) { current_day = some 2; daily_pnl = neg (pos 4) }

abbrev day : ℕ
day = 86400000000

-- A stale entry is refused, a fresh one is sized, and a stale close is charged.
abbrev calls : List (RiskCall ℤ ℤ)
calls =
    ask lots (pos 5) (pos 100) day none
    ∷ ask lots (pos 5) (pos 100) (2 * day) none
    ∷ open_at "BTC" (pos 1)
    ∷ close_at "BTC" (neg (pos 200)) day
    ∷ []

stale : (evaluate lots (pos 5) (pos 100) day none second_day).0.reason ≡ "out-of-order timestamp"
unfolding evaluate greenfield.RiskEngine.evaluate_rolled greenfield.RiskEngine.roll_risk_day
    greenfield.RiskEngine.roll_ledger greenfield.Base.date_of
stale = refl

sized : (evaluate lots (pos 5) (pos 100) (2 * day) none second_day).0.quantity ≡ pos 20
unfolding evaluate greenfield.RiskEngine.evaluate_rolled greenfield.RiskEngine.roll_risk_day
    greenfield.RiskEngine.roll_ledger greenfield.Base.date_of greenfield.RiskEngine.decide_entry
    refusal_reason neg greenfield.Base.◌*ℤ◌ greenfield.Base.max_of greenfield.Base.◌-ℤ◌
    greenfield.RiskEngine.available_risk greenfield.Base.values greenfield.RiskEngine.budgeted_risk
    greenfield.Base.min_of greenfield.RiskEngine.scaled_risk greenfield.RiskEngine.size_decision
    greenfield.RiskEngine.capped_notional
sized = refl

taken :
    (evaluate lots (pos 5) (pos 100) (2 * day) none (open_risk "BTC" (pos 1) second_day)).0.reason
    ≡ "max_concurrent_positions reached"
unfolding evaluate open_risk greenfield.RiskEngine.evaluate_rolled
    greenfield.RiskEngine.roll_risk_day greenfield.RiskEngine.roll_ledger greenfield.Base.date_of
    greenfield.RiskEngine.decide_entry refusal_reason greenfield.Base.insert
taken = refl

lost :
    (evaluate lots
      (pos 5)
      (pos 100)
      (2 * day)
      none
      (close_risk "BTC" (neg (pos 200)) day second_day)).0.reason
    ≡ "max_daily_loss breached"
unfolding evaluate close_risk greenfield.RiskEngine.evaluate_rolled
    greenfield.RiskEngine.roll_risk_day greenfield.RiskEngine.roll_ledger greenfield.Base.date_of
    greenfield.RiskEngine.decide_entry refusal_reason greenfield.Base.remove greenfield.Base.◌+ℤ◌
    neg greenfield.Base.◌*ℤ◌
lost = refl

run_all-day_example : OnDay 2 (charged_all calls (neg (pos 4))) (run_all calls second_day)
run_all-day_example = run_all-day calls second_day 2 refl
