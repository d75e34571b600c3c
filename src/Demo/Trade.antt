-- ===== src/Demo/Trade.antt =====
-- The rows of the autonomous Demo ledger: trades and days of risk
-- (src/execution/demo_autonomous_state.py, src/engines/contracts.py).
use greenfield.Base.{
  ℕ, Bool, false, Option, none, some, String, List, [], ◌∷◌, ◌==◌, Decimal, ◌=$◌, dec_text_eq, not,
}

pub data SetupAction : Type 0 where
  long short wait arbitrage : SetupAction

pub data AutonomousTradePhase : Type 0 where
  observed entry_submitted open_position exit_submitted closed safety_hold : AutonomousTradePhase

abbrev pub phase_code : AutonomousTradePhase → ℕ
phase_code observed = 0
phase_code entry_submitted = 1
phase_code open_position = 2
phase_code exit_submitted = 3
phase_code closed = 4
phase_code safety_hold = 5

abbrev pub phase_eq : AutonomousTradePhase → AutonomousTradePhase → Bool
phase_eq p q = phase_code p == phase_code q

abbrev pub action_code : SetupAction → ℕ
action_code long = 0
action_code short = 1
action_code wait = 2
action_code arbitrage = 3

abbrev pub active_phases : List AutonomousTradePhase
active_phases = observed ∷ entry_submitted ∷ open_position ∷ exit_submitted ∷ safety_hold ∷ []

-- Times of the ledger are microseconds of UTC.
pub record AutonomousTradeRecord : Type 0 where
  pub trade_id : String
  pub observation_id : String
  pub candidate_id : String
  pub symbol : String
  pub action : SetupAction
  pub phase : AutonomousTradePhase
  pub target_quantity : Decimal
  pub reference_price : Decimal
  pub stop_loss_bps : Option Decimal
  pub take_profit_bps : Option Decimal
  pub entry_client_order_id : Option String
  pub entry_fill_price : Option Decimal
  pub opened_at_utc : Option ℕ
  pub exit_client_order_id : Option String
  pub exit_reason : Option String
  pub realized_pnl_usd : Option Decimal
  pub closed_at_utc : Option ℕ
  pub safety_reason : Option String
  pub created_at_utc : ℕ
  pub updated_at_utc : ℕ

-- `utc_date` counts days.
pub record AutonomousDailyRiskRecord : Type 0 where
  pub utc_date : ℕ
  pub starting_capital_usd : Decimal
  pub entries : ℕ
  pub realized_pnl_usd : Decimal
  pub cooldown_until_utc : Option ℕ
  pub kill_switch_reason : Option String
  pub updated_at_utc : ℕ

-- The two tables.
pub record Database : Type 0 where
  pub trades : List AutonomousTradeRecord
  pub days : List AutonomousDailyRiskRecord

-- One item of the dictionary `updates` that `_transition` takes: a column and its new value.
pub data Update : Type 0 where
  set_entry_client_order_id : String → Update
  set_entry_fill_price : Decimal → Update
  set_opened_at_utc : ℕ → Update
  set_exit_client_order_id : String → Update
  set_exit_reason : String → Update
  set_realized_pnl_usd : Decimal → Update
  set_closed_at_utc : ℕ → Update
  set_safety_reason : String → Update

-- `SET column = ?`
unfoldable pub assign : Update → AutonomousTradeRecord → AutonomousTradeRecord
assign (set_entry_client_order_id v) t = record t { entry_client_order_id = some v }
assign (set_entry_fill_price v) t = record t { entry_fill_price = some v }
assign (set_opened_at_utc v) t = record t { opened_at_utc = some v }
assign (set_exit_client_order_id v) t = record t { exit_client_order_id = some v }
assign (set_exit_reason v) t = record t { exit_reason = some v }
assign (set_realized_pnl_usd v) t = record t { realized_pnl_usd = some v }
assign (set_closed_at_utc v) t = record t { closed_at_utc = some v }
assign (set_safety_reason v) t = record t { safety_reason = some v }

-- `normalized not in {None, value}`, by the kind of the column
abbrev pub text_conflicts : Option String → String → Bool
text_conflicts none v = false
text_conflicts (some w) v = not (w =$ v)

abbrev pub decimal_conflicts : Option Decimal → Decimal → Bool
decimal_conflicts none v = false
decimal_conflicts (some w) v = not (dec_text_eq w v)

abbrev pub time_conflicts : Option ℕ → ℕ → Bool
time_conflicts none v = false
time_conflicts (some w) v = not (w == v)

unfoldable pub conflicts : Update → AutonomousTradeRecord → Bool
conflicts (set_entry_client_order_id v) t = text_conflicts t.entry_client_order_id v
conflicts (set_entry_fill_price v) t = decimal_conflicts t.entry_fill_price v
conflicts (set_opened_at_utc v) t = time_conflicts t.opened_at_utc v
conflicts (set_exit_client_order_id v) t = text_conflicts t.exit_client_order_id v
conflicts (set_exit_reason v) t = text_conflicts t.exit_reason v
conflicts (set_realized_pnl_usd v) t = decimal_conflicts t.realized_pnl_usd v
conflicts (set_closed_at_utc v) t = time_conflicts t.closed_at_utc v
conflicts (set_safety_reason v) t = text_conflicts t.safety_reason v
