-- ===== src/Demo/Session/Effects.antt =====
-- The effect of one call on the days (src/execution/demo_autonomous_state.py).
use greenfield.Base.{
  Datetime, ℕ, Bool, ◌+◌, ◌≡◌, refl, some, String, List, ok, err, Result, inl, inr, Decimal, ap,
}
use greenfield.Demo.Errors.{Error, add_seconds}
use greenfield.Demo.Risk.{AutonomousDemoRiskConfig, daily_loss_limit_usd}
use greenfield.Demo.Trade.{
  AutonomousTradeRecord, AutonomousTradePhase, Update, AutonomousDailyRiskRecord, Database,
}
use greenfield.Demo.Ledger.Transition.{transition-Moves}
use greenfield.Demo.Ledger.{transition, mark_entry_submitted}
use greenfield.Demo.Ledger.Calls.{
  mark_entry_submitted-transition, mark_open-transition, mark_exit_submitted-transition,
  mark_closed-transition, mark_safety_hold-transition, close_hold-transition, begin_trade-cases,
}
use greenfield.Demo.Daily.{validate_entry_authorization}
use greenfield.Demo.Daily.Frame.{
  DayCall, closing, authorize_entry-DayCall, record_entry-DayCall, record_close-DayCall,
  activate_kill_switch-DayCall,
}
use greenfield.Demo.Session.{
  Call, begin, entry_submitted, opened, exit_submitted, closed, safety_hold, close_hold, authorize,
  entry, close, kill, after, execute,
}

pub after-elim :
    {A : Type 0} (db : Database) (P : Database → Type 0) (m : Result Error (A × Database))
    → P db
    → ((a : A) (db' : Database) → m ≡ ok (a, db') → P db')
    → P (after db m)
after-elim db P (ok (a, db')) p step = step a db' refl
after-elim db P (err e) p step = p

pub data Write (config : AutonomousDemoRiskConfig) (now : Datetime) (capital : Decimal)
    (prior r : AutonomousDailyRiskRecord) : Type 0 where
  authorized :
      validate_entry_authorization prior now.micros capital config ≡ ok tt
      → r ≡ prior
      → Write config now capital prior r
  counted :
      validate_entry_authorization prior now.micros capital config ≡ ok tt
      → r ≡ record prior { entries = prior.entries + 1; updated_at_utc = now.micros }
      → Write config now capital prior r
  settled :
      (db : Database) (pnl limit : Decimal) (cooldown : ℕ)
      → daily_loss_limit_usd prior.starting_capital_usd config ≡ ok limit
      → add_seconds now.micros config.cooldown_seconds ≡ ok cooldown
      → r ≡ closing now capital config db pnl limit cooldown prior prior
      → Write config now capital prior r
  switched :
      (reason : String)
      → r ≡ record prior { kill_switch_reason = some reason; updated_at_utc = now.micros }
      → Write config now capital prior r

pub data Effect (config : AutonomousDemoRiskConfig) (db db' : Database) : Type 0 where
  quiet : db'.days ≡ db.days → Effect config db db'
  writes :
      (now : Datetime) (capital : Decimal) (prior r : AutonomousDailyRiskRecord)
      → DayCall now.micros capital db prior r db'
      → Write config now capital prior r
      → Effect config db db'

module _ (trade_id_of : String → String) (config : AutonomousDemoRiskConfig) where
  transition-quiet :
      (id : String) (allowed : List AutonomousTradePhase) (target : AutonomousTradePhase)
      (us : List Update) (now : Datetime) (rep : Update → Bool) (db : Database)
      (r : AutonomousTradeRecord) (db' : Database)
      → transition id allowed target us now rep db ≡ ok (r, db')
      → db'.days ≡ db.days
  transition-quiet id allowed target us now rep db r db' h =
      (transition-Moves id allowed target us now rep db r db' h).1.same_days

  -- Each call is quiet on the days or makes one of the four writes.
  pub execute-Effect :
      (c : Call) (db : Database) → Effect config db (execute trade_id_of config c db)
  unfolding execute
  execute-Effect (begin q now) db = after-elim db (Effect config db) _ (quiet refl) (λ r db' h.
      elim (begin_trade-cases trade_id_of q now db r db' h) [
        | inl same ↦ quiet (ap (λ d. d.days) same)
        | inr (_, _, e) ↦ quiet e
      ])
  execute-Effect (entry_submitted id order now) db =
      after-elim db (Effect config db) (mark_entry_submitted id order now db) (quiet refl)
        (λ r db' h. quiet (
          transition-quiet id _ _ _ _ _ db r db'
            (mark_entry_submitted-transition id db r db' order now h)))
  execute-Effect (opened id fill at) db =
      after-elim db (Effect config db) _ (quiet refl) (λ r db' h.
        quiet (transition-quiet id _ _ _ _ _ db r db' (mark_open-transition id db r db' fill at h)))
  execute-Effect (exit_submitted id order reason now) db =
      after-elim db (Effect config db) _ (quiet refl) (λ r db' h. quiet (
        transition-quiet id _ _ _ _ _ db r db'
          (mark_exit_submitted-transition id db r db' order reason now h)))
  execute-Effect (closed id pnl at) db = after-elim db (Effect config db) _ (quiet refl) (λ r db' h.
      quiet (transition-quiet id _ _ _ _ _ db r db' (mark_closed-transition id db r db' pnl at h)))
  execute-Effect (safety_hold id reason now) db =
      after-elim db (Effect config db) _ (quiet refl) (λ r db' h. quiet (
        transition-quiet id _ _ _ _ _ db r db'
          (mark_safety_hold-transition id db r db' reason now h)))
  execute-Effect (close_hold id at) db = after-elim db (Effect config db) _ (quiet refl) (λ r db' h.
      quiet (transition-quiet id _ _ _ _ _ db r db' (close_hold-transition id db r db' at h)))
  execute-Effect (authorize now capital) db =
      after-elim db (Effect config db) _ (quiet refl) (λ r db' h.
        let (p, c) = authorize_entry-DayCall now capital config db r db' h in
        writes now capital r r c (authorized p refl))
  execute-Effect (entry now capital) db =
      after-elim db (Effect config db) _ (quiet refl) (λ r db' h.
        let (prior, p, e, c) = record_entry-DayCall now capital config db r db' h in
        writes now capital prior r c (counted p e))
  execute-Effect (close now capital pnl) db =
      after-elim db (Effect config db) _ (quiet refl) (λ r db' h.
        let (prior, limit, cooldown, l, t, e, c) =
          record_close-DayCall now capital config db pnl r db' h in
        writes now capital prior r c (settled db pnl limit cooldown l t e))
  execute-Effect (kill now capital reason) db =
      after-elim db (Effect config db) _ (quiet refl) (λ r db' h.
        let (prior, e, c) = activate_kill_switch-DayCall now capital reason db r db' h in
        writes now capital prior r c (switched reason e))
