-- ===== src/Demo/Ledger/Transition.antt =====
-- What a successful `_transition` has done (src/execution/demo_autonomous_state.py).
use greenfield.Base.{
  Datetime, ℕ, Bool, true, false, not, ◌&&◌, ◌≡◌, refl, some, String, List, [], ◌∷◌, any, arith, ok,
  ◌∙◌, Option-cases, inl, inr,
}
use greenfield.Demo.Errors.{utc}
use greenfield.Demo.Trade.{
  AutonomousTradePhase, AutonomousTradeRecord, Database, Update, assign, conflicts, phase_eq,
  set_entry_client_order_id,
}
use greenfield.Demo.Table.{in_phases, fetch, update_where, is_unique, constrain}
use greenfield.Demo.Table.Laws.{fetch-update_where}
use greenfield.Demo.Ledger.{assign_all, moved, transition}

trade_id-assign : (u : Update) (t : AutonomousTradeRecord) → (assign u t).trade_id ≡ t.trade_id
unfolding assign
trade_id-assign (set_entry_client_order_id v) t = refl
trade_id-assign _ t = refl

trade_id-assign_all :
    (us : List Update) (t : AutonomousTradeRecord) → (assign_all us t).trade_id ≡ t.trade_id
trade_id-assign_all [] t = refl
trade_id-assign_all (u ∷ us) t = trade_id-assign_all us (assign u t) ∙ trade_id-assign u t

pub trade_id-moved :
    (target : AutonomousTradePhase) (us : List Update) (now : ℕ) (t : AutonomousTradeRecord)
    → (moved target us now t).trade_id ≡ t.trade_id
unfolding moved
trade_id-moved target us now t =
    trade_id-assign_all us (record t { phase = target; updated_at_utc = now })

-- The payload of a repeated transition that does not agree with the row.
abbrev pub payload_clash :
    AutonomousTradePhase → List Update → (Update → Bool) → AutonomousTradeRecord → Bool
payload_clash target us rep t =
    any (λ u. phase_eq t.phase target && not (rep u) && conflicts u t) us

-- A successful transition found a row in an allowed phase, whose payload agrees, and wrote
-- that row alone.
pub record Moves (id : String) (allowed : List AutonomousTradePhase) (target : AutonomousTradePhase)
    (us : List Update) (now : Datetime) (rep : Update → Bool) (db : Database)
    (t r : AutonomousTradeRecord) (db' : Database) : Type 0 where
  pub found : fetch id db.trades ≡ some t
  pub permitted : in_phases t.phase allowed ≡ true
  pub agrees : payload_clash target us rep t ≡ false
  pub zoned : now.aware ≡ true
  pub written : r ≡ moved target us now.micros t
  pub rows : db'.trades ≡ update_where id (moved target us now.micros) db.trades
  pub same_days : db'.days ≡ db.days
  pub unique : is_unique db'.trades ≡ true

module _ (id : String) (allowed : List AutonomousTradePhase) (target : AutonomousTradePhase)
    (us : List Update) (now : Datetime) (rep : Update → Bool) (db : Database) where
  pub transition-Moves :
      (r : AutonomousTradeRecord) (db' : Database)
      → transition id allowed target us now rep db ≡ ok (r, db')
      → (t : AutonomousTradeRecord) × Moves id allowed target us now rep db t r db'
  unfolding transition constrain utc
  transition-Moves r db' h = elim (Option-cases (fetch id db.trades)) [
    | inl missing ↦ absurd (ground arith)
    | inr (t, found) ↦
        let back =
          fetch-update_where id (moved target us now.micros) (trade_id-moved target us now.micros)
            db.trades t found in
        (
          t,
          record {
            found = found;
            permitted = ground arith;
            agrees = ground arith;
            zoned = ground arith;
            written = ground arith;
            rows = ground arith;
            same_days = ground arith;
            unique = ground arith;
          },
        )
  ]
