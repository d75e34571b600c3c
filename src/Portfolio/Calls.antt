-- ===== src/Portfolio/Calls.antt =====
-- The other methods of `PortfolioRiskEngine` (src/risk/portfolio_engine.py), and any sequence of
-- calls on one engine.
pub mod Effects
pub mod Invariant
pub mod Gate
pub mod Days
pub mod Restore
pub mod Restored
use greenfield.Base.{
  ℕ, Bool, false, true, not, ◌&&◌, ◌||◌, Option, none, some, String, List, [], ◌∷◌, ltb, length,
  Result, ok, err, raise_if, ◌>>=◌, ◌>>◌, ◌=$◌, is_blank, text_ltb, Datetime, Floats, max_of, Dict,
  has_key, lookup, insert, remove, values, if◌then◌else◌,
}
use greenfield.Portfolio.Records.{
  Error, not_approved, other_proposal, already_open, not_issued, bad_approved_notional,
  changed_direction, bad_approved_risk, unknown_position, bad_pnl, blank_reason, too_many_positions,
  PortfolioRiskConfig, PortfolioPosition, PortfolioEntryProposal, PortfolioRiskDecision,
  PortfolioRiskSnapshot, position_post_init, snapshot_post_init, decision_eq, utc,
}
use greenfield.Portfolio.Engine.{
  PortfolioRiskEngine, new_engine, roll_day, positive_equity, sort_by_key, index_by_key,
}
use greenfield.Portfolio.Entry.{evaluate_entry, requested, approved_risk}

module _ {A : Type 0} ⦃F : Floats A⦄ where
  abbrev pub opened_position :
      PortfolioEntryProposal A → PortfolioRiskDecision A → PortfolioPosition A
  opened_position p d = record {
    key = p.key;
    symbol = p.symbol;
    venue = p.venue;
    strategy = p.strategy;
    engine = p.engine;
    signed_notional = d.approved_signed_notional;
    committed_risk_fraction = d.approved_risk_fraction;
    opened_at_utc = p.proposed_at_utc;
  }

  -- `self._pending_decisions.get(key) == decision`
  unfoldable pub is_issued : PortfolioRiskDecision A → Option (PortfolioRiskDecision A) → Bool
  unfolding decision_eq
  is_issued d none = false
  is_issued d (some issued) = decision_eq issued d

  -- what `record_open` raises before it changes the engine
  unfoldable pub validate_open :
      PortfolioEntryProposal A
      → PortfolioRiskDecision A
      → PortfolioRiskEngine A
      → Result Error (Unit {0})
  unfolding position_post_init
  validate_open p d e = do
    raise_if (not d.approved) not_approved
    raise_if (not (d.proposal_key =$ p.key)) other_proposal
    raise_if (has_key p.key e.positions) already_open
    raise_if (not (is_issued d (lookup p.key e.pending_decisions))) not_issued
    let approved = F.magnitude d.approved_signed_notional
    raise_if (F.less (requested p) approved || F.less approved e.config.minimum_order_notional)
        bad_approved_notional
    raise_if (F.at_most (F.times d.approved_signed_notional p.signed_notional) F.nil)
        changed_direction
    raise_if (not (F.is_close d.approved_risk_fraction (approved_risk p approved)))
        bad_approved_risk
    position_post_init (opened_position p d)

  unfoldable pub record_open :
      PortfolioEntryProposal A
      → PortfolioRiskDecision A
      → PortfolioRiskEngine A
      → Result Error (PortfolioRiskEngine A)
  record_open p d e = do
    validate_open p d e
    ok (record e {
      positions = insert p.key (opened_position p d) e.positions;
      pending_decisions = remove p.key e.pending_decisions;
    })

  -- `record_close` after `_roll_day`
  unfoldable pub settle :
      String → (realized_pnl : A) → PortfolioRiskEngine A → Result Error (PortfolioRiskEngine A)
  settle key pnl e = do
    raise_if (not (has_key key e.positions)) unknown_position
    raise_if (not (F.is_finite pnl)) bad_pnl
    ok (record e {
      positions = remove key e.positions;
      daily_realized_pnl = F.add e.daily_realized_pnl pnl;
    })

  -- The object after a call that changes nothing when it raises, with what it returns.
  abbrev pub commit :
      PortfolioRiskEngine A
      → Result Error (PortfolioRiskEngine A)
      → Result Error (Unit {0}) × PortfolioRiskEngine A
  commit e (err raised) = (err raised, e)
  commit e (ok next) = (ok tt, next)

  -- A close that raises keeps the day that it has rolled.
  unfoldable pub record_close :
      String
      → (realized_pnl : A) → (closed_at_utc : Datetime) → PortfolioRiskEngine A
      → Result Error (Unit {0}) × PortfolioRiskEngine A
  unfolding utc
  record_close key pnl closed e = elim (utc closed) [
    | err error ↦ (err error, e)
    | ok now ↦ let rolled = (roll_day now e).1 in commit rolled (settle key pnl rolled)
  ]

  unfoldable pub activate_kill_switch :
      String → PortfolioRiskEngine A → Result Error (PortfolioRiskEngine A)
  activate_kill_switch reason e = do
    raise_if (is_blank reason) blank_reason
    ok (record e { kill_switch_reason = some reason })

  unfoldable pub clear_kill_switch :
      String → PortfolioRiskEngine A → Result Error (PortfolioRiskEngine A)
  clear_kill_switch operator_reason e = do
    raise_if (is_blank operator_reason) blank_reason
    ok (record e { kill_switch_reason = none })

  unfoldable pub update_equity : A → PortfolioRiskEngine A → Result Error (PortfolioRiskEngine A)
  update_equity equity e = do
    positive_equity equity
    ok (record e { peak_equity = max_of e.peak_equity equity })

  unfoldable pub snapshot : PortfolioRiskEngine A → Result Error (PortfolioRiskSnapshot A)
  unfolding snapshot_post_init
  snapshot e = do
    let s : PortfolioRiskSnapshot A = record {
      positions = sort_by_key (values e.positions);
      peak_equity = e.peak_equity;
      daily_realized_pnl = e.daily_realized_pnl;
      current_day = e.current_day;
      kill_switch_reason = e.kill_switch_reason;
    }
    snapshot_post_init s
    ok s

  unfoldable pub from_snapshot :
      PortfolioRiskConfig A → PortfolioRiskSnapshot A → Result Error (PortfolioRiskEngine A)
  from_snapshot config s = do
    raise_if (ltb config.maximum_open_positions (length s.positions)) too_many_positions
    ok (record (new_engine config) {
      positions = index_by_key s.positions [];
      peak_equity = s.peak_equity;
      daily_realized_pnl = s.daily_realized_pnl;
      current_day = s.current_day;
      kill_switch_reason = s.kill_switch_reason;
    })

-- The calls that change an engine.
pub data Call (A : Type 0) : Type 0 where
  evaluate : PortfolioEntryProposal A → (equity : A) → Call A
  open_position : PortfolioEntryProposal A → PortfolioRiskDecision A → Call A
  close_position : String → (realized_pnl : A) → Datetime → Call A
  activate clear : String → Call A
  observe_equity : A → Call A

module _ {A : Type 0} ⦃F : Floats A⦄ where
  unfoldable pub execute : Call A → PortfolioRiskEngine A → PortfolioRiskEngine A
  execute (evaluate p equity) e = (evaluate_entry p equity e).1
  execute (open_position p d) e = (commit e (record_open p d e)).1
  execute (close_position key pnl at) e = (record_close key pnl at e).1
  execute (activate reason) e = (commit e (activate_kill_switch reason e)).1
  execute (clear reason) e = (commit e (clear_kill_switch reason e)).1
  execute (observe_equity equity) e = (commit e (update_equity equity e)).1

  unfoldable pub run_calls : List (Call A) → PortfolioRiskEngine A → PortfolioRiskEngine A
  run_calls [] e = e
  run_calls (c ∷ cs) e = run_calls cs (execute c e)
