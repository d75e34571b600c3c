-- ===== src/Demo/Ledger.antt =====
-- `AutonomousDemoStateStore` (src/execution/demo_autonomous_state.py). A method runs in one
-- transaction: what it raises before `commit` leaves the database as it was.
pub mod Transition
pub mod Invariant
pub mod Calls
pub mod Retry
use greenfield.Base.{
  Datetime, ℕ, Bool, true, false, not, ◌&&◌, ◌||◌, Option, none, some, String, ◌=$◌, is_blank, List,
  [], ◌∷◌, ◌++◌, any, ◌==◌, Result, ok, err, raise_if, or_raise, ◌>>=◌, ◌>>◌, if◌then◌else◌,
  Decimal, dec_eq, dec_zero, opt_dec_eq, is_some,
}
use greenfield.Demo.Errors.{
  Error, bad_action, incomplete_identity, blank_reason, not_finite, identity_conflict,
  another_active, unknown_trade, wrong_phase, payload_conflict, not_in_hold, has_exposure,
  assertion, utc, positive,
}
use greenfield.Demo.Trade.{
  SetupAction, action_code, AutonomousTradePhase, observed, entry_submitted, open_position,
  exit_submitted, closed, safety_hold, phase_eq, active_phases, AutonomousTradeRecord, Database,
  Update, set_entry_client_order_id, set_entry_fill_price, set_opened_at_utc,
  set_exit_client_order_id, set_exit_reason, set_realized_pnl_usd, set_closed_at_utc,
  set_safety_reason, assign, conflicts,
}
use greenfield.Demo.Table.{in_phases, fetch, fetch_active, update_where, constrain}

-- What `begin_trade` is asked for, beside the time.
pub record TradeRequest : Type 0 where
  pub observation_id : String
  pub candidate_id : String
  pub symbol : String
  pub action : SetupAction
  pub target_quantity : Decimal
  pub reference_price : Decimal
  pub stop_loss_bps : Option Decimal
  pub take_profit_bps : Option Decimal

abbrev positive_if_set : Option Decimal → Result Error (Unit {0})
positive_if_set none = ok tt
positive_if_set (some d) = positive d

-- the argument checks of `begin_trade`
unfoldable pub validate_request : TradeRequest → Result Error (Unit {0})
unfolding positive
validate_request r = do
  raise_if (not (action_code r.action == 0 || action_code r.action == 1)) bad_action
  raise_if (is_blank r.observation_id || is_blank r.candidate_id || is_blank r.symbol)
      incomplete_identity
  positive r.target_quantity
  positive r.reference_price
  positive_if_set r.stop_loss_bps
  positive_if_set r.take_profit_bps

-- `actual == requested`
unfoldable pub same_request : AutonomousTradeRecord → TradeRequest → Bool
same_request t r =
    (t.candidate_id =$ r.candidate_id)
    && (t.symbol =$ r.symbol)
    && action_code t.action == action_code r.action
    && dec_eq t.target_quantity r.target_quantity
    && dec_eq t.reference_price r.reference_price
    && opt_dec_eq t.stop_loss_bps r.stop_loss_bps
    && opt_dec_eq t.take_profit_bps r.take_profit_bps

-- the row that `begin_trade` inserts
unfoldable pub new_trade : String → TradeRequest → ℕ → AutonomousTradeRecord
new_trade id r now = record {
  trade_id = id;
  observation_id = r.observation_id;
  candidate_id = r.candidate_id;
  symbol = r.symbol;
  action = r.action;
  phase = observed;
  target_quantity = r.target_quantity;
  reference_price = r.reference_price;
  stop_loss_bps = r.stop_loss_bps;
  take_profit_bps = r.take_profit_bps;
  entry_client_order_id = none;
  entry_fill_price = none;
  opened_at_utc = none;
  exit_client_order_id = none;
  exit_reason = none;
  realized_pnl_usd = none;
  closed_at_utc = none;
  safety_reason = none;
  created_at_utc = now;
  updated_at_utc = now;
}

-- The transaction of `begin_trade`, once the row of the observation has been looked up.
unfoldable pub insert_trade :
    String
    → TradeRequest
    → ℕ
    → Database
    → Option AutonomousTradeRecord
    → Result Error (AutonomousTradeRecord × Database)
insert_trade id r now db (some existing) =
    if same_request existing r then ok (existing, db) else err identity_conflict
insert_trade id r now db none = do
  active ← fetch_active db.trades
  raise_if (is_some active) another_active
  rows ← constrain (db.trades ++ new_trade id r now ∷ [])
  result ← or_raise (fetch id rows) assertion
  ok (result, record db { trades = rows })

-- `trade_id_of` is `f"demo-{uuid.uuid5(_TRADE_NAMESPACE, observation_id).hex}"`.
unfoldable pub begin_trade :
    (trade_id_of : String → String)
    → TradeRequest
    → Datetime
    → Database
    → Result Error (AutonomousTradeRecord × Database)
unfolding validate_request insert_trade
begin_trade trade_id_of r now_utc db = do
  validate_request r
  now ← utc now_utc
  let id = trade_id_of r.observation_id
  insert_trade id r now db (fetch id db.trades)

abbrev assign_all : List Update → AutonomousTradeRecord → AutonomousTradeRecord
assign_all [] t = t
assign_all (u ∷ us) t = assign_all us (assign u t)

-- the row after the UPDATE of `_transition`
unfoldable pub moved :
    AutonomousTradePhase → List Update → ℕ → AutonomousTradeRecord → AutonomousTradeRecord
unfolding assign
moved target updates now t = assign_all updates (record t { phase = target; updated_at_utc = now })

-- `_transition`; `replaceable` tells the columns of `replaceable_fields`.
unfoldable pub transition :
    String
    → (allowed : List AutonomousTradePhase) → (target : AutonomousTradePhase)
    → (updates : List Update) → Datetime
    → (replaceable : Update → Bool) → Database
    → Result Error (AutonomousTradeRecord × Database)
unfolding moved
transition id allowed target updates now_utc replaceable db = do
  existing ← or_raise (fetch id db.trades) unknown_trade
  raise_if (not (in_phases existing.phase allowed)) wrong_phase
  raise_if
      (any (λ u. phase_eq existing.phase target && not (replaceable u) && conflicts u existing)
        updates)
      payload_conflict
  now ← utc now_utc
  rows ← constrain (update_where id (moved target updates now) db.trades)
  result ← or_raise (fetch id rows) assertion
  ok (result, record db { trades = rows })

abbrev pub never : Update → Bool
never _ = false

abbrev pub exit_order : Update → Bool
exit_order (set_exit_client_order_id _) = true
exit_order _ = false

unfoldable pub mark_entry_submitted :
    String
    → (client_order_id : String) → Datetime
    → Database
    → Result Error (AutonomousTradeRecord × Database)
mark_entry_submitted id client_order_id now_utc =
    transition id (observed ∷ entry_submitted ∷ []) entry_submitted
      (set_entry_client_order_id client_order_id ∷ []) now_utc never

unfoldable pub mark_open :
    String
    → (fill_price : Decimal) → (opened_at_utc : Datetime) → Database
    → Result Error (AutonomousTradeRecord × Database)
mark_open id fill_price opened_at_utc db = do
  positive fill_price
  opened ← utc opened_at_utc
  transition id (entry_submitted ∷ open_position ∷ []) open_position
      (set_entry_fill_price fill_price ∷ set_opened_at_utc opened ∷ []) opened_at_utc never db

unfoldable pub mark_exit_submitted :
    String
    → (client_order_id reason : String) → Datetime
    → Database
    → Result Error (AutonomousTradeRecord × Database)
mark_exit_submitted id client_order_id reason now_utc db = do
  raise_if (is_blank reason) blank_reason
  transition id (open_position ∷ exit_submitted ∷ []) exit_submitted
      (set_exit_client_order_id client_order_id ∷ set_exit_reason reason ∷ []) now_utc exit_order db

unfoldable pub mark_closed :
    String
    → (realized_pnl_usd : Decimal) → (closed_at_utc : Datetime) → Database
    → Result Error (AutonomousTradeRecord × Database)
mark_closed id pnl closed_at_utc db = do
  raise_if (not pnl.finite) not_finite
  closed_at ← utc closed_at_utc
  transition id (entry_submitted ∷ exit_submitted ∷ closed ∷ []) closed
      (set_realized_pnl_usd pnl ∷ set_closed_at_utc closed_at ∷ []) closed_at_utc never db

unfoldable pub mark_safety_hold :
    String
    → (reason : String) → Datetime
    → Database
    → Result Error (AutonomousTradeRecord × Database)
mark_safety_hold id reason now_utc db = do
  raise_if (is_blank reason) blank_reason
  transition id active_phases safety_hold (set_safety_reason reason ∷ []) now_utc never db

unfoldable pub close_unsubmitted_safety_hold :
    String → (closed_at_utc : Datetime) → Database → Result Error (AutonomousTradeRecord × Database)
close_unsubmitted_safety_hold id closed_at_utc db = do
  existing ← or_raise (fetch id db.trades) unknown_trade
  raise_if (not (phase_eq existing.phase safety_hold)) not_in_hold
  raise_if
      (is_some existing.entry_client_order_id
        || is_some existing.opened_at_utc
        || is_some existing.exit_client_order_id)
      has_exposure
  closed_at ← utc closed_at_utc
  transition id (safety_hold ∷ []) closed
      (set_exit_reason "UNSUBMITTED_ATTEMPT_CLEARED"
        ∷ set_realized_pnl_usd dec_zero
        ∷ set_closed_at_utc closed_at
        ∷ [])
      closed_at_utc never db

unfoldable pub active_trade : Database → Result Error (Option AutonomousTradeRecord)
active_trade db = fetch_active db.trades
