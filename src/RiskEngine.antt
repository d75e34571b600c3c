-- ===== src/RiskEngine.antt =====
-- `RiskEngine` (src/risk/engine.py), the gate between a strategy and its orders: its day, `evaluate`,
-- `open_position` and `close_position`. A time is its wall clock in microseconds, the integer limit
-- is a natural number, and the instrument of the trading library is a parameter.
pub mod Budget
pub mod Days
pub mod Tests
use greenfield.Base.{
  ℕ, Bool, true, false, not, ◌&&◌, ◌||◌, Option, none, some, String, List, [], ◌∷◌, ltb, leb, ◌==◌,
  Floats, max_of, min_of, Dict, insert, remove, values, length, if◌then◌else◌, date_of,
}

pub record RiskConfig (A : Type 0) : Type 0 where
  pub risk_per_trade : A
  pub max_portfolio_risk : A
  pub max_daily_loss : A
  pub max_drawdown : A
  pub max_concurrent_positions : ℕ
  pub max_leverage : A
  pub volatility_target : Option A

pub record RiskDecision (A Q : Type 0) : Type 0 where
  pub approved : Bool
  pub quantity : Q
  pub risk_fraction : A
  pub reason : String

-- What the engine calls of an instrument: `make_qty`, plain and with `round_down`, and `as_double`.
pub record Instrument (A Q : Type 0) : Type 0 where
  pub make_qty : A → Q
  pub make_qty_down : A → Q
  pub as_double : Q → A

pub record RiskEngine (A : Type 0) : Type 0 where
  pub config : RiskConfig A
  pub open_positions : Dict A
  pub peak_equity : A
  pub daily_pnl : A
  pub current_day : Option ℕ

module _ {A : Type 0} ⦃F : Floats A⦄ where
  -- `__init__`
  abbrev pub new_risk_engine : RiskConfig A → RiskEngine A
  new_risk_engine config = record {
    config = config;
    open_positions = [];
    peak_equity = F.nil;
    daily_pnl = F.nil;
    current_day = none;
  }

  -- `_roll_day`, once the day is known
  unfoldable pub roll_ledger : ℕ → RiskEngine A → Option ℕ → Bool × RiskEngine A
  roll_ledger today e none = (true, record e { current_day = some today; daily_pnl = F.nil })
  roll_ledger today e (some current) =
      if ltb current today
      then (true, record e { current_day = some today; daily_pnl = F.nil })
      else (today == current, e)

  unfoldable pub roll_risk_day : ℕ → RiskEngine A → Bool × RiskEngine A
  roll_risk_day now e = roll_ledger (date_of now) e e.current_day

  -- `if self._peak_equity > 0: drawdown = ...`
  abbrev pub is_drawn_down : A → RiskEngine A → Bool
  is_drawn_down equity e =
      F.less F.nil e.peak_equity
      && F.at_most (F.divide (F.subtract equity e.peak_equity) e.peak_equity)
          (F.negative e.config.max_drawdown)

  -- `risk_fraction` before the budget
  unfoldable pub scaled_risk : (realized_vol target : Option A) → RiskConfig A → A
  scaled_risk (some vol) (some target) c =
      if F.less F.nil vol then F.times (F.divide target vol) c.risk_per_trade else c.risk_per_trade
  scaled_risk _ _ c = c.risk_per_trade

  unfoldable pub available_risk : RiskEngine A → A
  available_risk e = F.subtract e.config.max_portfolio_risk (F.total (values e.open_positions))

  -- `max(0.0, min(risk_fraction, available_risk))`
  unfoldable pub budgeted_risk : (realized_vol : Option A) → RiskEngine A → A
  budgeted_risk vol e =
      max_of F.nil
        (min_of (scaled_risk vol e.config.volatility_target e.config) (available_risk e ∷ []))

  -- the refusals of `evaluate` before a size is computed
  unfoldable pub refusal_reason :
      (price equity : A) → (realized_vol : Option A) → RiskEngine A → Option String
  refusal_reason price equity vol e =
      if leb e.config.max_concurrent_positions (length e.open_positions)
      then some "max_concurrent_positions reached"
      else if F.less F.nil equity
          && F.at_most e.daily_pnl (F.times (F.negative e.config.max_daily_loss) equity)
      then some "max_daily_loss breached"
      else if is_drawn_down equity e
      then some "max_drawdown breached"
      else if F.at_most (available_risk e) F.nil
      then some "max_portfolio_risk reached"
      else if F.at_most price F.nil || F.at_most (budgeted_risk vol e) F.nil
      then some "no valid risk budget"
      else none

  -- `min(equity * risk_fraction, equity * max_leverage)`
  unfoldable pub capped_notional : (equity : A) → (realized_vol : Option A) → RiskEngine A → A
  capped_notional equity vol e =
      min_of (F.times equity (budgeted_risk vol e)) (F.times equity e.config.max_leverage ∷ [])

  module _ {Q : Type 0} where
    abbrev pub refusal : Instrument A Q → String → RiskDecision A Q
    refusal i reason = record {
      approved = false;
      quantity = i.make_qty F.nil;
      risk_fraction = F.nil;
      reason = reason;
    }

    unfoldable pub size_decision :
        Instrument A Q → (quantity : Q) → (risk_fraction : A) → RiskDecision A Q
    size_decision i quantity fraction =
        if F.at_most (i.as_double quantity) F.nil
        then record {
          approved = false;
          quantity = quantity;
          risk_fraction = F.nil;
          reason = "computed size rounds to zero";
        }
        else record {
          approved = true;
          quantity = quantity;
          risk_fraction = fraction;
          reason = "approved";
        }

    unfoldable pub decide_entry :
        Instrument A Q
        → (price equity : A) → (realized_vol : Option A) → RiskEngine A
        → Option String
        → RiskDecision A Q
    decide_entry i price equity vol e (some reason) = refusal i reason
    decide_entry i price equity vol e none =
        size_decision i (i.make_qty_down (F.divide (capped_notional equity vol e) price))
          (budgeted_risk vol e)

    -- `evaluate` on the rolled engine
    unfoldable pub evaluate_rolled :
        Instrument A Q
        → (price equity : A) → (realized_vol : Option A) → Bool
        → RiskEngine A
        → RiskDecision A Q × RiskEngine A
    evaluate_rolled i price equity vol false e = (refusal i "out-of-order timestamp", e)
    evaluate_rolled i price equity vol true e =
        let e1 = record e { peak_equity = max_of e.peak_equity equity } in
        (decide_entry i price equity vol e1 (refusal_reason price equity vol e1), e1)

    unfoldable pub evaluate :
        Instrument A Q
        → (price equity : A) → (now : ℕ) → (realized_vol : Option A) → RiskEngine A
        → RiskDecision A Q × RiskEngine A
    evaluate i price equity now vol e =
        evaluate_rolled i price equity vol (roll_risk_day now e).0 (roll_risk_day now e).1

  unfoldable pub open_risk : String → (risk_fraction : A) → RiskEngine A → RiskEngine A
  open_risk key fraction e = record e { open_positions = insert key fraction e.open_positions }

  unfoldable pub close_risk : String → (realized_pnl : A) → (now : ℕ) → RiskEngine A → RiskEngine A
  close_risk key pnl now e =
      let rolled = (roll_risk_day now e).1 in
      record rolled {
        open_positions = remove key rolled.open_positions;
        daily_pnl = F.add rolled.daily_pnl pnl;
      }
