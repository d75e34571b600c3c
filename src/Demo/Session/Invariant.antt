-- ===== src/Demo/Session/Invariant.antt =====
-- The trades table over any sequence of calls (src/execution/demo_autonomous_state.py).
use greenfield.Base.{◌≡◌, String, List, [], ◌∷◌}
use greenfield.Demo.Risk.{AutonomousDemoRiskConfig}
use greenfield.Demo.Trade.{Database}
use greenfield.Demo.Ledger.Invariant
use greenfield.Demo.Ledger.Invariant.{IsValid}
use greenfield.Demo.Daily.Frame.{
  authorize_entry-DayCall, record_entry-DayCall, record_close-DayCall, activate_kill_switch-DayCall,
}
use greenfield.Demo.Session.{
  Call, begin, entry_submitted, opened, exit_submitted, closed, safety_hold, close_hold, authorize,
  entry, close, kill, execute, run,
}
use greenfield.Demo.Session.Effects.{after-elim}

same_trades : (db db' : Database) → db'.trades ≡ db.trades → IsValid db → IsValid db'
same_trades db db' e v = record {
  unique = rw e v.unique;
  one_active = rw e v.one_active;
  coherent = rw e v.coherent;
}

module _ (trade_id_of : String → String) (config : AutonomousDemoRiskConfig) where
  execute-IsValid :
      (c : Call) (db : Database) → IsValid db → IsValid (execute trade_id_of config c db)
  unfolding execute
  execute-IsValid (begin q now) db v =
      after-elim db IsValid _ v
        (λ r db' h. Invariant.begin_trade-IsValid "" db r db' trade_id_of q now h v)
  execute-IsValid (entry_submitted id order now) db v =
      after-elim db IsValid _ v
        (λ r db' h. Invariant.mark_entry_submitted-IsValid id db r db' order now h v)
  execute-IsValid (opened id fill at) db v =
      after-elim db IsValid _ v (λ r db' h. Invariant.mark_open-IsValid id db r db' fill at h v)
  execute-IsValid (exit_submitted id order reason now) db v =
      after-elim db IsValid _ v
        (λ r db' h. Invariant.mark_exit_submitted-IsValid id db r db' order reason now h v)
  execute-IsValid (closed id pnl at) db v =
      after-elim db IsValid _ v (λ r db' h. Invariant.mark_closed-IsValid id db r db' pnl at h v)
  execute-IsValid (safety_hold id reason now) db v =
      after-elim db IsValid _ v
        (λ r db' h. Invariant.mark_safety_hold-IsValid id db r db' reason now h v)
  execute-IsValid (close_hold id at) db v =
      after-elim db IsValid _ v
        (λ r db' h. Invariant.close_unsubmitted_safety_hold-IsValid id db r db' at h v)
  execute-IsValid (authorize now capital) db v = after-elim db IsValid _ v (λ r db' h.
      same_trades db db' (authorize_entry-DayCall now capital config db r db' h).1.trades v)
  execute-IsValid (entry now capital) db v = after-elim db IsValid _ v (λ r db' h.
      let (_, _, _, c) = record_entry-DayCall now capital config db r db' h in
      same_trades db db' c.trades v)
  execute-IsValid (close now capital pnl) db v = after-elim db IsValid _ v (λ r db' h.
      let (_, _, _, _, _, _, c) = record_close-DayCall now capital config db pnl r db' h in
      same_trades db db' c.trades v)
  execute-IsValid (kill now capital reason) db v = after-elim db IsValid _ v (λ r db' h.
      let (_, _, c) = activate_kill_switch-DayCall now capital reason db r db' h in
      same_trades db db' c.trades v)

  -- Any sequence of calls on the ledger, those that raise included, keeps the invariant of the
  -- trades: the UNIQUE columns differ, at most one trade is active, and each row has the columns
  -- filled that its phase wants.
  pub run-IsValid :
      (cs : List Call) (db : Database) → IsValid db → IsValid (run trade_id_of config cs db)
  unfolding run
  run-IsValid [] db v = v
  run-IsValid (c ∷ cs) db v =
      run-IsValid cs (execute trade_id_of config c db) (execute-IsValid c db v)
