-- ===== src/Shadow/Session.antt =====
-- The public methods of `ShadowRuntime` (src/execution/shadow_runtime.py).
pub mod Committed
pub mod Resume
pub mod Hold
pub mod Killed
use greenfield.Base.{
  Bool, false, true, not, ◌||◌, ◌&&◌, Option, none, String, List, [], ◌∷◌, map, any, ◌=$◌,
  if◌then◌else◌, Result, ok, err, raise_if, ◌>>=◌, ◌>>◌, is_some, is_blank, concat, Datetime,
  Floats, Codec, opt_text_eq,
}
use greenfield.Portfolio.Records.{
  PortfolioRiskConfig, PortfolioEntryProposal, PortfolioRiskDecision, repeats,
}
use greenfield.Portfolio.Engine.{PortfolioRiskEngine}
use greenfield.Portfolio.Calls.{record_close, activate_kill_switch, from_snapshot}
use greenfield.Portfolio.Store
use greenfield.Portfolio.Store.{save, load, load_required}
use greenfield.Shadow.Record.{
  Error, not_shadow, existing_state, existing_records, proposals_on_wait, bad_close, blank_reason,
  naive_timestamp, no_audit, other_context, not_reconciled, initialized, eligible_no_order,
  virtual_close, safety_hold, ShadowSessionContext, ShadowAuditRecord, is_empty,
}
use greenfield.Shadow.Journal.{
  ShadowAuditJournal, ensure_available, verify, latest_risk_state_sha256,
}
use greenfield.Shadow.Decision.{
  MetaDecision, is_wait, is_arbitrage, action_text, validate_actionable,
}
use greenfield.Shadow.Runtime.{
  ShadowRuntime, or_engine, or_store, Offer, refused, accepted, Note, record_note, stage, offer,
  is_cut, risk_rejection, wait_note, commit_staged, Outcome,
}

pub data TradingMode : Type 0 where
  research backtest shadow paper live : TradingMode

-- `trading_mode is TradingMode.SHADOW`
abbrev pub is_shadow : TradingMode → Bool
is_shadow shadow = true
is_shadow _ = false

-- A record was written under another context.
abbrev pub is_foreign : ShadowSessionContext → ShadowAuditRecord → Bool
is_foreign c r =
    not (r.session_id =$ c.session_id)
    || not (r.dataset_fingerprint =$ c.dataset_fingerprint)
    || not (r.code_commit =$ c.code_commit)
    || not (r.config_fingerprint =$ c.config_fingerprint)

module _ {A T : Type 0} ⦃F : Floats A⦄ (C : Codec A T) (lower : String → String) where
  -- A call that raises before it has written anything leaves the runtime as it was.
  abbrev pub attempt :
      {B : Type 0} → Result Error B → (B → Outcome C lower) → ShadowRuntime A T → Outcome C lower
  attempt (err error) next rt = (err error, rt)
  attempt (ok b) next rt = next b

  abbrev pub eligible_note :
      (observation_id : String)
      → MetaDecision A
      → List (PortfolioEntryProposal A)
      → List (PortfolioRiskDecision A)
      → Option String
      → Note
  eligible_note id meta ps ds sum = record {
    observation_id = id;
    time = meta.decision_timestamp_utc;
    action = action_text meta.action;
    status = eligible_no_order;
    selected_engine_id = meta.selected_engine_id;
    proposal_keys = map (λ p. p.key) ps;
    risk_reasons = map (λ d. d.reason) ds;
    reason_codes = "SHADOW_ONLY_NO_ORDER_SUBMISSION" ∷ [];
    risk_state_sha256 = sum;
  }

  -- `observe` from the end of its loop on
  unfoldable pub conclude :
      (observation_id : String)
      → MetaDecision A
      → List (PortfolioEntryProposal A)
      → ShadowRuntime A T
      → Offer A
      → Outcome C lower
  unfolding record_note commit_staged
  conclude id meta ps rt (refused ds d) =
      record_note C lower
        (risk_rejection C lower id meta ps ds ("PORTFOLIO_RISK_REJECTED" ∷ d.reason ∷ [])) rt
  conclude id meta ps rt (accepted ds e) =
      if is_arbitrage meta.action && is_cut C lower ps ds
      then record_note C lower
          (risk_rejection C lower id meta ps ds ("ARBITRAGE_LEG_CAPACITY_MISMATCH" ∷ [])) rt
      else commit_staged C lower e meta.decision_timestamp_utc (eligible_note id meta ps ds) rt

  -- what `observe` works out before it writes anything, for a decision that is not to wait
  unfoldable pub weigh_offer :
      MetaDecision A
      → List (PortfolioEntryProposal A)
      → (equity : A) → ShadowRuntime A T
      → Result Error (Offer A)
  unfolding validate_actionable stage offer
  weigh_offer meta ps equity rt = do
    validate_actionable lower meta ps
    staged ← stage C lower rt
    offer C lower ps equity staged []

  -- `observe` once the observation is known to be new
  unfoldable pub observe_new :
      MetaDecision A
      → (observation_id : String) → List (PortfolioEntryProposal A)
      → (equity : A) → ShadowRuntime A T
      → Outcome C lower
  unfolding conclude weigh_offer
  observe_new meta id ps equity rt =
      if is_wait meta.action
      then (if is_empty ps
          then record_note C lower (wait_note C lower id meta) rt
          else (err proposals_on_wait, rt))
      else attempt (weigh_offer meta ps equity rt) (conclude id meta ps rt) rt

  unfoldable pub observe :
      MetaDecision A
      → (observation_id : String) → List (PortfolioEntryProposal A)
      → (equity : A) → ShadowRuntime A T
      → Outcome C lower
  unfolding ensure_available observe_new
  observe meta id ps equity rt =
      attempt (ensure_available C id rt.journal) (λ done. observe_new meta id ps equity rt) rt

  -- the loop of `close_virtual`, on the staged engine
  unfoldable pub close_each :
      List (String × A)
      → (closed_at : Datetime) → PortfolioRiskEngine A
      → Result Error (PortfolioRiskEngine A)
  unfolding record_close
  close_each [] at e = ok e
  close_each ((key, pnl) ∷ rest) at e = do
    or_engine (record_close key pnl at e).0
    close_each rest at (record_close key pnl at e).1

  abbrev pub utc : Datetime → Result Error (Unit {0})
  utc d = raise_if (not d.aware) naive_timestamp

  abbrev pub keys_closed : List (String × A) → List String
  keys_closed [] = []
  keys_closed ((key, pnl) ∷ rest) = key ∷ keys_closed rest

  unfoldable pub close_staged :
      (observation_id : String)
      → List (String × A)
      → (closed_at_utc : Datetime) → ShadowRuntime A T
      → Result Error (PortfolioRiskEngine A)
  unfolding ensure_available stage close_each repeats
  close_staged id pnls at rt = do
    ensure_available C id rt.journal
    utc at
    raise_if (is_empty pnls || repeats (keys_closed pnls)) bad_close
    staged ← stage C lower rt
    close_each pnls at staged

  abbrev pub close_note : (observation_id : String) → List String → Datetime → Option String → Note
  close_note id keys at sum = record {
    observation_id = id;
    time = at;
    action = "CLOSE";
    status = virtual_close;
    selected_engine_id = none;
    proposal_keys = keys;
    risk_reasons = [];
    reason_codes = "VIRTUAL_POSITION_CLOSED" ∷ [];
    risk_state_sha256 = sum;
  }

  unfoldable pub close_virtual :
      (observation_id : String)
      → List (String × A)
      → (closed_at_utc : Datetime) → ShadowRuntime A T
      → Outcome C lower
  unfolding close_staged commit_staged
  close_virtual id pnls at rt =
      attempt (close_staged id pnls at rt)
        (λ e. commit_staged C lower e at (close_note id (keys_closed pnls) at) rt) rt

  unfoldable pub hold_staged :
      (observation_id reason : String)
      → (activated_at_utc : Datetime) → ShadowRuntime A T
      → Result Error (PortfolioRiskEngine A)
  unfolding ensure_available stage activate_kill_switch
  hold_staged id reason at rt = do
    ensure_available C id rt.journal
    utc at
    raise_if (is_blank reason) blank_reason
    staged ← stage C lower rt
    or_engine (activate_kill_switch reason staged)

  abbrev pub hold_note : (observation_id reason : String) → Datetime → Option String → Note
  hold_note id reason at sum = record {
    observation_id = id;
    time = at;
    action = "SAFETY_HOLD";
    status = safety_hold;
    selected_engine_id = none;
    proposal_keys = [];
    risk_reasons = reason ∷ [];
    reason_codes = "SHADOW_EVENT_LOOP_FAILURE_THRESHOLD" ∷ [];
    risk_state_sha256 = sum;
  }

  unfoldable pub activate_safety_hold :
      (observation_id reason : String)
      → (activated_at_utc : Datetime) → ShadowRuntime A T
      → Outcome C lower
  unfolding hold_staged commit_staged
  activate_safety_hold id reason at rt =
      attempt (hold_staged id reason at rt)
        (λ e. commit_staged C lower e at (hold_note id reason at) rt) rt

  -- `resume`, which returns a runtime over the same file and journal
  unfoldable pub resume :
      TradingMode
      → ShadowSessionContext
      → (risk_store : Option T) → ShadowAuditJournal T
      → PortfolioRiskConfig A
      → Result Error (ShadowRuntime A T)
  unfolding load_required verify latest_risk_state_sha256 from_snapshot
  resume mode context file j config = do
    s ← or_store (load_required C file)
    records ← verify C j.file
    raise_if (is_empty records) no_audit
    raise_if (any (is_foreign context) records) other_context
    journal_checksum ← latest_risk_state_sha256 C j
    store_checksum ← or_store (Store.checksum C file)
    raise_if (is_some journal_checksum && not (opt_text_eq journal_checksum store_checksum))
        not_reconciled
    engine ← or_engine (from_snapshot config s)
    raise_if (not (is_shadow mode)) not_shadow
    ok (record { context = context; risk_engine = engine; risk_store = file; journal = j })

  abbrev pub initial_note : ShadowSessionContext → Datetime → Option String → Note
  initial_note c at sum = record {
    observation_id = concat c.session_id ":initialize";
    time = at;
    action = "INITIALIZE";
    status = initialized;
    selected_engine_id = none;
    proposal_keys = [];
    risk_reasons = [];
    reason_codes = "SHADOW_SESSION_INITIALIZED" ∷ [];
    risk_state_sha256 = sum;
  }

  unfoldable pub validate_new :
      TradingMode → (risk_store : Option T) → ShadowAuditJournal T → Result Error (Unit {0})
  unfolding load verify
  validate_new mode file j = do
    raise_if (not (is_shadow mode)) not_shadow
    found ← or_store (load C file)
    raise_if (is_some found) existing_state
    records ← verify C j.file
    raise_if (not (is_empty records)) existing_records

  -- `initialize_new`: the runtime that it returns, or leaves behind on the disk when it raises
  unfoldable pub initialize_new :
      TradingMode → (initialized_at_utc : Datetime) → ShadowRuntime A T → Outcome C lower
  unfolding validate_new commit_staged
  initialize_new mode at rt =
      attempt (validate_new mode rt.risk_store rt.journal)
        (λ done. commit_staged C lower rt.risk_engine at (initial_note rt.context at) rt) rt
