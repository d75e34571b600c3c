-- ===== src/Demo/Ledger/Calls.antt =====
-- The methods of the ledger by the transition that they run (src/execution/demo_autonomous_state.py).
use greenfield.Base.{
  Datetime, ◌≡◌, refl, Option, some, none, String, [], ◌∷◌, ok, arith, Decimal, dec_zero,
  Option-cases, Result-cases, inl, inr, ◌++◌, ◌⊎◌, ℕ,
}
use greenfield.Demo.Errors.{utc, positive}
use greenfield.Demo.Trade.{
  observed, entry_submitted, open_position, exit_submitted, closed, safety_hold, active_phases,
  AutonomousTradeRecord, Database, set_entry_client_order_id, set_entry_fill_price,
  set_opened_at_utc, set_exit_client_order_id, set_exit_reason, set_realized_pnl_usd,
  set_closed_at_utc, set_safety_reason,
}
use greenfield.Demo.Table.{fetch, fetch_active, constrain}
use greenfield.Demo.Ledger.{
  transition, never, exit_order, TradeRequest, new_trade, insert_trade, begin_trade,
  validate_request, mark_entry_submitted, mark_open, mark_exit_submitted, mark_closed,
  mark_safety_hold, close_unsubmitted_safety_hold,
}
use greenfield.Demo.Ledger.Invariant.{close_unsubmitted-transition, close_missing, insert_trade-new}

module _ (id : String) (db : Database) (r : AutonomousTradeRecord) (db' : Database) where
  pub mark_entry_submitted-transition :
      (order : String) (now : Datetime)
      → mark_entry_submitted id order now db ≡ ok (r, db')
      → transition id
          (observed ∷ entry_submitted ∷ [])
          entry_submitted
          (set_entry_client_order_id order ∷ [])
          now
          never
          db
        ≡ ok (r, db')
  unfolding mark_entry_submitted
  mark_entry_submitted-transition order now h = h

  pub mark_open-transition :
      (fill : Decimal) (opened : Datetime)
      → mark_open id fill opened db ≡ ok (r, db')
      → transition id
          (entry_submitted ∷ open_position ∷ [])
          open_position
          (set_entry_fill_price fill ∷ set_opened_at_utc opened.micros ∷ [])
          opened
          never
          db
        ≡ ok (r, db')
  unfolding mark_open positive utc
  mark_open-transition fill opened h = ground arith

  pub mark_exit_submitted-transition :
      (order reason : String) (now : Datetime)
      → mark_exit_submitted id order reason now db ≡ ok (r, db')
      → transition id
          (open_position ∷ exit_submitted ∷ [])
          exit_submitted
          (set_exit_client_order_id order ∷ set_exit_reason reason ∷ [])
          now
          exit_order
          db
        ≡ ok (r, db')
  unfolding mark_exit_submitted
  mark_exit_submitted-transition order reason now h = ground arith

  pub mark_closed-transition :
      (pnl : Decimal) (at : Datetime)
      → mark_closed id pnl at db ≡ ok (r, db')
      → transition id
          (entry_submitted ∷ exit_submitted ∷ closed ∷ [])
          closed
          (set_realized_pnl_usd pnl ∷ set_closed_at_utc at.micros ∷ [])
          at
          never
          db
        ≡ ok (r, db')
  unfolding mark_closed utc
  mark_closed-transition pnl at h = ground arith

  pub mark_safety_hold-transition :
      (reason : String) (now : Datetime)
      → mark_safety_hold id reason now db ≡ ok (r, db')
      → transition id active_phases safety_hold (set_safety_reason reason ∷ []) now never db
        ≡ ok (r, db')
  unfolding mark_safety_hold
  mark_safety_hold-transition reason now h = ground arith

  pub close_hold-transition :
      (at : Datetime)
      → close_unsubmitted_safety_hold id at db ≡ ok (r, db')
      → transition id
          (safety_hold ∷ [])
          closed
          (set_exit_reason "UNSUBMITTED_ATTEMPT_CLEARED"
            ∷ set_realized_pnl_usd dec_zero
            ∷ set_closed_at_utc at.micros
            ∷ [])
          at
          never
          db
        ≡ ok (r, db')
  close_hold-transition at h = elim (Option-cases (fetch id db.trades)) [
    | inl missing ↦ absurd (close_missing id db r db' at missing h)
    | inr (t, found) ↦ (close_unsubmitted-transition id db r db' at t found h).1
  ]

insert_trade-days :
    (id : String) (q : TradeRequest) (now : ℕ) (db : Database) (r : AutonomousTradeRecord)
    (db' : Database)
    → insert_trade id q now db none ≡ ok (r, db')
    → db'.days ≡ db.days
unfolding insert_trade constrain
insert_trade-days id q now db r db' h = elim (Result-cases (fetch_active db.trades)) [
  | inl (active, found) ↦ ground arith
  | inr (e, found) ↦ absurd (ground arith)
]

-- What `begin_trade` leaves: the database, or the database and a new row.
abbrev pub Begins : String → TradeRequest → ℕ → Database → Database → Type 0
Begins id q now db db' =
    (db' ≡ db)
    ⊎ ((fetch id db.trades ≡ none)
        × (db'.trades ≡ db.trades ++ new_trade id q now ∷ [])
        × (db'.days ≡ db.days))

insert_trade-Begins :
    (id : String) (q : TradeRequest) (now : ℕ) (db : Database) (r : AutonomousTradeRecord)
    (db' : Database) (o : Option AutonomousTradeRecord)
    → fetch id db.trades ≡ o
    → insert_trade id q now db o ≡ ok (r, db')
    → Begins id q now db db'
unfolding insert_trade
insert_trade-Begins id q now db r db' (some t) e h = inl (ground arith)
insert_trade-Begins id q now db r db' none e h =
    inr (e, (insert_trade-new id q now db r db' h).1, insert_trade-days id q now db r db' h)

-- A request that is repeated returns its row; a new one is appended.
pub begin_trade-cases :
    (trade_id_of : String → String) (q : TradeRequest) (now : Datetime) (db : Database)
    (r : AutonomousTradeRecord) (db' : Database)
    → begin_trade trade_id_of q now db ≡ ok (r, db')
    → Begins (trade_id_of q.observation_id) q now.micros db db'
unfolding begin_trade utc
begin_trade-cases trade_id_of q now db r db' h = elim (Result-cases (validate_request q)) [
  | inr (e, refused) ↦ absurd (ground arith)
  | inl (tt, valid) ↦
      insert_trade-Begins (trade_id_of q.observation_id) q now.micros db r db' _ refl (ground arith)
]
