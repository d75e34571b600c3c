-- ===== src/Portfolio/Engine.antt =====
-- The state of `PortfolioRiskEngine` (src/risk/portfolio_engine.py), what it reads of its positions,
-- its blocking rules, and its day.
use greenfield.Base.{
  text_ltb, insert, ℕ, Bool, false, true, not, ◌&&◌, ◌||◌, Option, none, some, String, List, [],
  ◌∷◌, ltb, leb, ◌==◌, Result, ok, raise_if, ◌>>◌, ◌=$◌, Floats, Dict, has_key, values, map, length,
  if◌then◌else◌, date_of, concat,
}
use greenfield.Portfolio.Records.{
  Error, bad_equity, PortfolioRiskConfig, PortfolioPosition, PortfolioEntryProposal,
  PortfolioRiskDecision, decision_post_init, contains, is_subset,
}

pub record PortfolioRiskEngine (A : Type 0) : Type 0 where
  pub config : PortfolioRiskConfig A
  pub positions : Dict (PortfolioPosition A)
  pub peak_equity : A
  pub daily_realized_pnl : A
  pub current_day : Option ℕ
  pub kill_switch_reason : Option String
  pub pending_decisions : Dict (PortfolioRiskDecision A)

abbrev pub select : {B : Type 0} → (B → Bool) → List B → List B
select p [] = []
select p (x ∷ xs) = if p x then x ∷ select p xs else select p xs

module _ {A : Type 0} where
  -- `sorted(..., key=lambda item: item.key)`
  unfoldable pub insert_by_key :
      PortfolioPosition A → List (PortfolioPosition A) → List (PortfolioPosition A)
  insert_by_key p [] = p ∷ []
  insert_by_key p (q ∷ qs) = if text_ltb q.key p.key then q ∷ insert_by_key p qs else p ∷ q ∷ qs

  unfoldable pub sort_by_key : List (PortfolioPosition A) → List (PortfolioPosition A)
  sort_by_key [] = []
  sort_by_key (p ∷ ps) = insert_by_key p (sort_by_key ps)

  -- `{position.key: position for position in positions}`
  unfoldable pub index_by_key :
      List (PortfolioPosition A) → Dict (PortfolioPosition A) → Dict (PortfolioPosition A)
  index_by_key [] d = d
  index_by_key (p ∷ ps) d = index_by_key ps (insert p.key p d)

module _ {A : Type 0} ⦃F : Floats A⦄ where
  -- `__init__` with a configuration
  abbrev pub new_engine : PortfolioRiskConfig A → PortfolioRiskEngine A
  new_engine config = record {
    config = config;
    positions = [];
    peak_equity = F.nil;
    daily_realized_pnl = F.nil;
    current_day = none;
    kill_switch_reason = none;
    pending_decisions = [];
  }

  -- `sum(abs(position.signed_notional) for position in ... if ...)`
  unfoldable pub gross_of : (PortfolioPosition A → Bool) → PortfolioRiskEngine A → A
  gross_of p e = F.total (map (λ q. F.magnitude q.signed_notional) (select p (values e.positions)))

  unfoldable pub gross_exposure : PortfolioRiskEngine A → A
  gross_exposure e = F.total (map (λ q. F.magnitude q.signed_notional) (values e.positions))

  unfoldable pub net_exposure : PortfolioRiskEngine A → A
  net_exposure e = F.total (map (λ q. q.signed_notional) (values e.positions))

  unfoldable pub committed_risk_fraction : PortfolioRiskEngine A → A
  committed_risk_fraction e = F.total (map (λ q. q.committed_risk_fraction) (values e.positions))

  -- `_positive_equity`
  unfoldable pub positive_equity : A → Result Error (Unit {0})
  positive_equity equity = raise_if (not (F.is_finite equity) || F.at_most equity F.nil) bad_equity

  -- `_roll_day`, once the day is known
  unfoldable pub roll_to : ℕ → PortfolioRiskEngine A → Option ℕ → Bool × PortfolioRiskEngine A
  roll_to day e none = (true, record e { current_day = some day; daily_realized_pnl = F.nil })
  roll_to day e (some current) =
      if ltb current day
      then (true, record e { current_day = some day; daily_realized_pnl = F.nil })
      else (day == current, e)

  unfoldable pub roll_day : ℕ → PortfolioRiskEngine A → Bool × PortfolioRiskEngine A
  unfolding roll_to
  roll_day now e = roll_to (date_of now) e e.current_day

  -- the drawdown test of `_blocking_reason`
  abbrev pub draws_down : A → PortfolioRiskEngine A → Bool
  draws_down equity e =
      F.less F.nil e.peak_equity
      && F.at_most e.config.maximum_drawdown_fraction
          (F.subtract F.unit (F.divide equity e.peak_equity))

  -- Some position is in another symbol that the proposal has no evidence on.
  abbrev pub lacks_evidence : PortfolioEntryProposal A → PortfolioRiskEngine A → Bool
  lacks_evidence p e = not (
      is_subset
        (map (λ q. q.symbol) (select (λ q. not (q.symbol =$ p.symbol)) (values e.positions)))
        p.correlation_checked_symbols)

  unfoldable pub limit_reason :
      PortfolioEntryProposal A → (equity : A) → PortfolioRiskEngine A → Option String
  unfolding contains
  limit_reason p equity e =
      if has_key p.key e.positions
      then some "POSITION_KEY_ALREADY_OPEN"
      else if leb e.config.maximum_open_positions (length e.positions)
      then some "MAXIMUM_OPEN_POSITIONS"
      else if F.at_most e.daily_realized_pnl
          (F.times (F.negative e.config.maximum_daily_loss_fraction) equity)
      then some "MAXIMUM_DAILY_LOSS"
      else if draws_down equity e
      then some "MAXIMUM_DRAWDOWN"
      else if lacks_evidence p e
      then some "MISSING_CORRELATION_EVIDENCE"
      else none

  -- `_blocking_reason`
  unfoldable pub blocking_reason :
      PortfolioEntryProposal A → (equity : A) → PortfolioRiskEngine A → Option String
  blocking_reason p equity e = elim e.kill_switch_reason [
    | some reason ↦ some (concat "KILL_SWITCH_ACTIVE:" reason)
    | none ↦ limit_reason p equity e
  ]

  -- `PortfolioRiskDecision(...)`
  unfoldable pub make_decision : PortfolioRiskDecision A → Result Error (PortfolioRiskDecision A)
  make_decision d = do decision_post_init d; ok d

  -- `_rejected`
  unfoldable pub rejected :
      (reason proposal_key : String)
      → PortfolioRiskEngine A
      → Result Error (PortfolioRiskDecision A)
  unfolding make_decision gross_exposure net_exposure committed_risk_fraction
  rejected reason proposal_key e = make_decision (record {
    proposal_key = proposal_key;
    approved = false;
    approved_signed_notional = F.nil;
    approved_risk_fraction = F.nil;
    reason = reason;
    projected_gross_exposure = gross_exposure e;
    projected_net_exposure = net_exposure e;
    projected_committed_risk_fraction = committed_risk_fraction e;
  })
