-- ===== src/RiskEngine/Budget.antt =====
-- What an approval of `RiskEngine.evaluate` (src/risk/engine.py) may commit.
use greenfield.Base.{◌<◌, false, ◌≡◌, Floats, values, length}
use greenfield.RiskEngine.{RiskEngine, RiskDecision, Instrument}

module _ {A : Type 0} ⦃F : Floats A⦄ {Q : Type 0} where
  -- A decision commits no more than the open positions leave, on an engine with a free slot.
  pub record IsCovered (i : Instrument A Q) (price equity : A) (e : RiskEngine A)
      (d : RiskDecision A Q) : Type 0 where
    free : length e.open_positions < e.config.max_concurrent_positions
    positive : F.at_most d.risk_fraction F.nil ≡ false
    left :
        F.less
          (F.subtract e.config.max_portfolio_risk (F.total (values e.open_positions)))
          d.risk_fraction
        ≡ false
    notional : A
    quantity : d.quantity ≡ i.make_qty_down (F.divide notional price)
    rounded : F.at_most (i.as_double d.quantity) F.nil ≡ false
    risked : F.less (F.times equity d.risk_fraction) notional ≡ false
    levered : F.less (F.times equity e.config.max_leverage) notional ≡ false
