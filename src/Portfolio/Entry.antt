-- ===== src/Portfolio/Entry.antt =====
-- `PortfolioRiskEngine.evaluate_entry` (src/risk/portfolio_engine.py): the notional that the shared
-- budget leaves for a proposal.
pub mod Cases
pub mod Limits
pub mod Within
use greenfield.Base.{
  ℕ, Bool, false, true, not, ◌&&◌, ◌||◌, Option, none, some, String, List, [], ◌∷◌, Result, ok, err,
  raise_if, ◌>>=◌, ◌>>◌, ◌=$◌, Floats, max_of, min_of, insert, if◌then◌else◌,
}
use greenfield.Portfolio.Records.{
  Error, PortfolioPosition, PortfolioEntryProposal, PortfolioRiskDecision, contains, utc,
}
use greenfield.Portfolio.Engine.{
  PortfolioRiskEngine, gross_of, gross_exposure, net_exposure, committed_risk_fraction,
  positive_equity, roll_day, blocking_reason, make_decision, rejected,
}

module _ {A : Type 0} ⦃F : Floats A⦄ where
  abbrev pub requested : PortfolioEntryProposal A → A
  requested p = F.magnitude p.signed_notional

  abbrev pub is_long : PortfolioEntryProposal A → Bool
  is_long p = F.less F.nil p.signed_notional

  abbrev pub direction : PortfolioEntryProposal A → A
  direction p = if is_long p then F.unit else F.negative F.unit

  -- `max(0.0, multiple * equity - used)`
  abbrev pub room : (multiple equity used : A) → A
  room multiple equity used = max_of F.nil (F.subtract (F.times multiple equity) used)

  abbrev pub net_room : PortfolioEntryProposal A → (equity : A) → PortfolioRiskEngine A → A
  net_room p equity e =
      let limit = F.times e.config.maximum_net_exposure_multiple equity in
      if is_long p then F.subtract limit (net_exposure e) else F.add limit (net_exposure e)

  abbrev pub risk_room_fraction : PortfolioRiskEngine A → A
  risk_room_fraction e =
      max_of F.nil (F.subtract e.config.maximum_committed_risk_fraction (committed_risk_fraction e))

  abbrev pub risk_scaled_notional : PortfolioEntryProposal A → PortfolioRiskEngine A → A
  risk_scaled_notional p e =
      F.times (requested p)
        (min_of F.unit (F.divide (risk_room_fraction e) p.committed_risk_fraction ∷ []))

  -- what the `min` of `evaluate_entry` takes beside the requested notional
  unfoldable pub rooms : PortfolioEntryProposal A → (equity : A) → PortfolioRiskEngine A → List A
  unfolding gross_of gross_exposure net_exposure committed_risk_fraction max_of min_of contains
  rooms p equity e =
      room e.config.maximum_gross_exposure_multiple equity (gross_exposure e)
      ∷ max_of F.nil (net_room p equity e)
      ∷ room e.config.maximum_symbol_exposure_multiple equity
          (gross_of (λ q. q.symbol =$ p.symbol) e)
      ∷ room e.config.maximum_venue_exposure_multiple equity (gross_of (λ q. q.venue =$ p.venue) e)
      ∷ room e.config.maximum_strategy_exposure_multiple equity
          (gross_of (λ q. q.strategy =$ p.strategy) e)
      ∷ room e.config.maximum_engine_exposure_multiple equity
          (gross_of (λ q. q.engine =$ p.engine) e)
      ∷ room e.config.maximum_correlated_exposure_multiple equity
          (gross_of (λ q. contains q.symbol (p.symbol ∷ p.correlated_symbols)) e)
      ∷ risk_scaled_notional p e
      ∷ []

  unfoldable pub approved_notional :
      PortfolioEntryProposal A → (equity : A) → PortfolioRiskEngine A → A
  approved_notional p equity e = min_of (requested p) (rooms p equity e)

  abbrev pub approved_risk : PortfolioEntryProposal A → (approved : A) → A
  approved_risk p approved = F.divide (F.times p.committed_risk_fraction approved) (requested p)

  -- the approval, for a notional that has been found
  unfoldable pub approval :
      PortfolioEntryProposal A → (approved : A) → PortfolioRiskEngine A → PortfolioRiskDecision A
  unfolding gross_exposure net_exposure committed_risk_fraction
  approval p approved e =
      let signed = F.times (direction p) approved in
      let risk = approved_risk p approved in
      record {
        proposal_key = p.key;
        approved = true;
        approved_signed_notional = signed;
        approved_risk_fraction = risk;
        reason = "APPROVED";
        projected_gross_exposure = F.add (gross_exposure e) approved;
        projected_net_exposure = F.add (net_exposure e) signed;
        projected_committed_risk_fraction = F.add (committed_risk_fraction e) risk;
      }

  -- `self._pending_decisions[proposal.key] = decision`, unless building the decision has raised
  unfoldable pub issue :
      String
      → PortfolioRiskEngine A
      → Result Error (PortfolioRiskDecision A)
      → Result Error (PortfolioRiskDecision A) × PortfolioRiskEngine A
  issue key e (err raised) = (err raised, e)
  issue key e (ok d) = (ok d, record e { pending_decisions = insert key d e.pending_decisions })

  -- from `_blocking_reason` on
  unfoldable pub decide :
      PortfolioEntryProposal A
      → (equity : A) → PortfolioRiskEngine A
      → Option String
      → Result Error (PortfolioRiskDecision A) × PortfolioRiskEngine A
  decide p equity e (some reason) = (rejected reason p.key e, e)
  decide p equity e none =
      let approved = approved_notional p equity e in
      if F.less approved e.config.minimum_order_notional
      then (rejected "NO_PORTFOLIO_RISK_CAPACITY" p.key e, e)
      else issue p.key e (make_decision (approval p approved e))

  -- from `_positive_equity` on
  unfoldable pub weigh :
      PortfolioEntryProposal A
      → (equity : A) → PortfolioRiskEngine A
      → Result Error (PortfolioRiskDecision A) × PortfolioRiskEngine A
  weigh p equity e =
      let raised = record e { peak_equity = max_of e.peak_equity equity } in
      elim (positive_equity equity) [
        | err error ↦ (err error, e)
        | ok checked ↦ decide p equity raised (blocking_reason p equity raised)
      ]

  unfoldable pub evaluate_entry :
      PortfolioEntryProposal A
      → (equity : A) → PortfolioRiskEngine A
      → Result Error (PortfolioRiskDecision A) × PortfolioRiskEngine A
  evaluate_entry p equity e = elim (utc p.proposed_at_utc) [
    | err error ↦ (err error, e)
    | ok now ↦
        let (current, rolled) = roll_day now e in
        if current
        then weigh p equity rolled
        else (rejected "OUT_OF_ORDER_TIMESTAMP" p.key rolled, rolled)
  ]
