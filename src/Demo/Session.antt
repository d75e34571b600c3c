-- ===== src/Demo/Session.antt =====
-- Any sequence of calls on one ledger, each of them a transaction that commits or rolls back.
pub mod Effects
pub mod Invariant
pub mod Final
pub mod Days
pub mod Gate
pub mod Limits
use greenfield.Base.{Datetime, ℕ, ◌≡◌, String, List, [], ◌∷◌, Decimal, Result, ok, err}
use greenfield.Demo.Errors.{Error}
use greenfield.Demo.Risk.{AutonomousDemoRiskConfig}
use greenfield.Demo.Trade.{Database}
use greenfield.Demo.Ledger.{
  TradeRequest, begin_trade, mark_entry_submitted, mark_open, mark_exit_submitted, mark_closed,
  mark_safety_hold, close_unsubmitted_safety_hold,
}
use greenfield.Demo.Daily.{
  authorize_entry, record_entry, record_close, activate_kill_switch, commit,
}

-- The calls that write.
pub data Call : Type 0 where
  begin : TradeRequest → Datetime → Call
  entry_submitted : String → (client_order_id : String) → Datetime → Call
  opened : String → (fill_price : Decimal) → Datetime → Call
  exit_submitted : String → (client_order_id reason : String) → Datetime → Call
  closed : String → (realized_pnl_usd : Decimal) → Datetime → Call
  safety_hold : String → (reason : String) → Datetime → Call
  close_hold : String → Datetime → Call
  authorize : Datetime → (capital : Decimal) → Call
  entry : Datetime → (capital : Decimal) → Call
  close : Datetime → (capital realized_pnl_usd : Decimal) → Call
  kill : Datetime → (capital : Decimal) → (reason : String) → Call

abbrev after : {A : Type 0} → Database → Result Error (A × Database) → Database
after db (ok (_, db')) = db'
after db (err _) = db

-- One store runs under one configuration.
module _ (trade_id_of : String → String) (config : AutonomousDemoRiskConfig) where
  unfoldable pub execute : Call → Database → Database
  execute (begin q now) db = after db (begin_trade trade_id_of q now db)
  execute (entry_submitted id order now) db = after db (mark_entry_submitted id order now db)
  execute (opened id fill at) db = after db (mark_open id fill at db)
  execute (exit_submitted id order reason now) db =
      after db (mark_exit_submitted id order reason now db)
  execute (closed id pnl at) db = after db (mark_closed id pnl at db)
  execute (safety_hold id reason now) db = after db (mark_safety_hold id reason now db)
  execute (close_hold id at) db = after db (close_unsubmitted_safety_hold id at db)
  execute (authorize now capital) db = after db (authorize_entry now capital config db)
  execute (entry now capital) db = after db (record_entry now capital config db)
  execute (close now capital pnl) db = after db (record_close now capital pnl config db)
  execute (kill now capital reason) db = after db (activate_kill_switch now capital reason db)

  unfoldable pub run : List Call → Database → Database
  unfolding execute
  run [] db = db
  run (c ∷ cs) db = run cs (execute c db)

abbrev pub empty_database : Database
empty_database = record { trades = []; days = [] }
