-- ===== src/Portfolio/Records.antt =====
-- The frozen records of src/risk/portfolio_engine.py, each with what its `__post_init__` refuses.
use greenfield.Base.{
  ℕ, Bool, false, not, ◌&&◌, ◌||◌, Option, none, some, String, List, [], ◌∷◌, ltb, Result, ok,
  raise_if, ◌>>=◌, ◌>>◌, any, all, is_blank, ◌=$◌, Datetime, Floats, not_positive_float, bool_eq,
}

pub data Error : Type 0 where
  -- ValueError of `PortfolioRiskConfig`
  bad_limit no_position_slot bad_fraction : Error
  -- ValueError of a position or a proposal
  blank_identifier bad_notional bad_risk repeated_checked repeated_correlated uncovered_correlated :
      Error
  own_symbol naive_timestamp : Error
  -- ValueError of a decision
  blank_decision not_finite nothing_allocated allocated : Error
  -- ValueError of a snapshot
  repeated_keys bad_peak bad_pnl blank_reason too_many_positions : Error
  -- ValueError and KeyError of the engine
  bad_equity not_approved other_proposal already_open not_issued bad_approved_notional : Error
  changed_direction bad_approved_risk unknown_position : Error

pub record PortfolioRiskConfig (A : Type 0) : Type 0 where
  pub maximum_gross_exposure_multiple : A
  pub maximum_net_exposure_multiple : A
  pub maximum_symbol_exposure_multiple : A
  pub maximum_venue_exposure_multiple : A
  pub maximum_strategy_exposure_multiple : A
  pub maximum_engine_exposure_multiple : A
  pub maximum_correlated_exposure_multiple : A
  pub maximum_committed_risk_fraction : A
  pub maximum_daily_loss_fraction : A
  pub maximum_drawdown_fraction : A
  pub maximum_open_positions : ℕ
  pub minimum_order_notional : A

pub record PortfolioPosition (A : Type 0) : Type 0 where
  pub key : String
  pub symbol : String
  pub venue : String
  pub strategy : String
  pub engine : String
  pub signed_notional : A
  pub committed_risk_fraction : A
  pub opened_at_utc : Datetime

pub record PortfolioEntryProposal (A : Type 0) : Type 0 where
  pub key : String
  pub symbol : String
  pub venue : String
  pub strategy : String
  pub engine : String
  pub signed_notional : A
  pub committed_risk_fraction : A
  pub correlation_checked_symbols : List String
  pub correlated_symbols : List String
  pub proposed_at_utc : Datetime

pub record PortfolioRiskDecision (A : Type 0) : Type 0 where
  pub proposal_key : String
  pub approved : Bool
  pub approved_signed_notional : A
  pub approved_risk_fraction : A
  pub reason : String
  pub projected_gross_exposure : A
  pub projected_net_exposure : A
  pub projected_committed_risk_fraction : A

-- `current_day` is a count of days.
pub record PortfolioRiskSnapshot (A : Type 0) : Type 0 where
  pub positions : List (PortfolioPosition A)
  pub peak_equity : A
  pub daily_realized_pnl : A
  pub current_day : Option ℕ
  pub kill_switch_reason : Option String

-- `_utc`
unfoldable pub utc : Datetime → Result Error ℕ
utc d = do raise_if (not d.aware) naive_timestamp; ok d.micros

-- `text in texts`
unfoldable pub contains : String → List String → Bool
contains t [] = false
contains t (s ∷ texts) = s =$ t || contains t texts

-- `len(set(texts)) != len(texts)`
unfoldable pub repeats : List String → Bool
repeats [] = false
repeats (t ∷ texts) = contains t texts || repeats texts

-- `texts.issubset(others)`
abbrev pub is_subset : List String → List String → Bool
is_subset texts others = all (λ t. contains t others) texts

-- `position.key for position in positions`
abbrev pub keys_of : {A : Type 0} → List (PortfolioPosition A) → List String
keys_of [] = []
keys_of (p ∷ ps) = p.key ∷ keys_of ps

module _ {A : Type 0} ⦃F : Floats A⦄ where
  unfoldable pub config_post_init : PortfolioRiskConfig A → Result Error (Unit {0})
  config_post_init c = do
    raise_if
        (any not_positive_float (
          c.maximum_gross_exposure_multiple ∷ c.maximum_net_exposure_multiple
          ∷ c.maximum_symbol_exposure_multiple ∷ c.maximum_venue_exposure_multiple
          ∷ c.maximum_strategy_exposure_multiple ∷ c.maximum_engine_exposure_multiple
          ∷ c.maximum_correlated_exposure_multiple ∷ c.maximum_committed_risk_fraction
          ∷ c.maximum_daily_loss_fraction ∷ c.maximum_drawdown_fraction ∷ c.minimum_order_notional
          ∷ []))
        bad_limit
    raise_if (ltb c.maximum_open_positions 1) no_position_slot
    raise_if
        (any (λ v. F.less F.unit v)
          (c.maximum_committed_risk_fraction ∷ c.maximum_daily_loss_fraction
            ∷ c.maximum_drawdown_fraction ∷ []))
        bad_fraction

  -- `not math.isfinite(v) or not 0 < v <= 1`
  abbrev pub bad_fraction_of : A → Bool
  bad_fraction_of v = not (F.is_finite v) || not (F.less F.nil v && F.at_most v F.unit)

  -- `not math.isfinite(v) or v == 0`
  abbrev pub bad_notional_of : A → Bool
  bad_notional_of v = not (F.is_finite v) || F.equals v F.nil

  unfoldable pub position_post_init : PortfolioPosition A → Result Error (Unit {0})
  unfolding utc
  position_post_init p = do
    raise_if (any is_blank (p.key ∷ p.symbol ∷ p.venue ∷ p.strategy ∷ p.engine ∷ []))
        blank_identifier
    raise_if (bad_notional_of p.signed_notional) bad_notional
    raise_if (bad_fraction_of p.committed_risk_fraction) bad_risk
    opened ← utc p.opened_at_utc
    ok tt

  unfoldable pub proposal_post_init : PortfolioEntryProposal A → Result Error (Unit {0})
  unfolding utc repeats contains
  proposal_post_init p = do
    raise_if (any is_blank (p.key ∷ p.symbol ∷ p.venue ∷ p.strategy ∷ p.engine ∷ []))
        blank_identifier
    raise_if (bad_notional_of p.signed_notional) bad_notional
    raise_if (bad_fraction_of p.committed_risk_fraction) bad_risk
    raise_if (repeats p.correlation_checked_symbols) repeated_checked
    raise_if (repeats p.correlated_symbols) repeated_correlated
    raise_if (not (is_subset p.correlated_symbols p.correlation_checked_symbols))
        uncovered_correlated
    raise_if
        (contains p.symbol p.correlation_checked_symbols || contains p.symbol p.correlated_symbols)
        own_symbol
    proposed ← utc p.proposed_at_utc
    ok tt

  unfoldable pub decision_post_init : PortfolioRiskDecision A → Result Error (Unit {0})
  decision_post_init d = do
    raise_if (is_blank d.proposal_key || is_blank d.reason) blank_decision
    raise_if
        (any (λ v. not (F.is_finite v))
          (d.approved_signed_notional ∷ d.approved_risk_fraction ∷ d.projected_gross_exposure
            ∷ d.projected_net_exposure ∷ d.projected_committed_risk_fraction ∷ []))
        not_finite
    raise_if
        (d.approved
          && (F.equals d.approved_signed_notional F.nil
              || F.at_most d.approved_risk_fraction F.nil))
        nothing_allocated
    raise_if
        (not d.approved
          && (not (F.equals d.approved_signed_notional F.nil)
              || not (F.equals d.approved_risk_fraction F.nil)))
        allocated

  unfoldable pub snapshot_post_init : PortfolioRiskSnapshot A → Result Error (Unit {0})
  unfolding repeats
  snapshot_post_init s = do
    raise_if (repeats (keys_of s.positions)) repeated_keys
    raise_if (not (F.is_finite s.peak_equity) || F.less s.peak_equity F.nil) bad_peak
    raise_if (not (F.is_finite s.daily_realized_pnl)) bad_pnl
    raise_if (elim s.kill_switch_reason [ none ↦ false | some r ↦ is_blank r ]) blank_reason

  -- Dataclass equality, which compares the fields.
  unfoldable pub decision_eq : PortfolioRiskDecision A → PortfolioRiskDecision A → Bool
  decision_eq a b =
      a.proposal_key =$ b.proposal_key
      && bool_eq a.approved b.approved
      && F.equals a.approved_signed_notional b.approved_signed_notional
      && F.equals a.approved_risk_fraction b.approved_risk_fraction
      && a.reason =$ b.reason
      && F.equals a.projected_gross_exposure b.projected_gross_exposure
      && F.equals a.projected_net_exposure b.projected_net_exposure
      && F.equals a.projected_committed_risk_fraction b.projected_committed_risk_fraction
