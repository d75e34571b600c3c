-- ===== src/Demo/Ledger/Retry.antt =====
-- Calls of the ledger that are repeated (src/execution/demo_autonomous_state.py).
use greenfield.Base.{
  Datetime, ℕ, Bool, true, false, ◌≡◌, refl, some, none, String, ◌=$◌, List, [], ◌∷◌, ok, arith,
  Decimal, dec_text_eq_refl, Result-cases, Bool-cases, inl, inr, ap, ◌∙◌, sym, Result, Option,
  text_refl, opt_dec_refl,
}
use greenfield.Demo.Errors.{Error, utc, positive}
use greenfield.Demo.Trade.{
  AutonomousTradePhase, AutonomousTradeRecord, Database, Update, assign, conflicts,
}
use greenfield.Demo.Table.{
  Trades, in_phases, fetch, fetch_active, update_where, is_unique, constrain,
}
use greenfield.Demo.Table.Laws.{fetch-update_where, fetch-append_none}
use greenfield.Demo.Ledger.{
  moved, transition, TradeRequest, validate_request, same_request, new_trade, insert_trade,
  begin_trade, mark_entry_submitted, mark_open, mark_exit_submitted, mark_closed, mark_safety_hold,
}
use greenfield.Demo.Ledger.Calls.{
  mark_entry_submitted-transition, mark_open-transition, mark_exit_submitted-transition,
  mark_closed-transition, mark_safety_hold-transition,
}
use greenfield.Demo.Ledger.Transition.{transition-Moves, trade_id-moved, payload_clash}

update_where_twice :
    (id : String) (f : AutonomousTradeRecord → AutonomousTradeRecord)
    (keep : (u : AutonomousTradeRecord) → (f u).trade_id ≡ u.trade_id)
    (again : (u : AutonomousTradeRecord) → f (f u) ≡ f u) (ts : Trades)
    → update_where id f (update_where id f ts) ≡ update_where id f ts
unfolding update_where
update_where_twice id f keep again [] = refl
update_where_twice id f keep again (t ∷ ts) = elim (Bool-cases (t.trade_id =$ id)) [
  | inl same ↦
      let e : ((f t).trade_id =$ id) ≡ true = rw (keep t) same in
      rw (same, e, again t) (ap (◌∷◌ (f t)) (update_where_twice id f keep again ts))
  | inr other ↦ rw (other, other) (ap (◌∷◌ t) (update_where_twice id f keep again ts))
]

module _ (id : String) (allowed : List AutonomousTradePhase) (target : AutonomousTradePhase)
    (us : List Update) (now : Datetime) (rep : Update → Bool) (db : Database) where
  abbrev f : AutonomousTradeRecord → AutonomousTradeRecord
  f = moved target us now.micros

  -- The converse of `transition-Moves`.
  transition_runs :
      (t : AutonomousTradeRecord)
      → fetch id db.trades ≡ some t
      → in_phases t.phase allowed ≡ true
      → payload_clash target us rep t ≡ false
      → now.aware ≡ true
      → is_unique (update_where id f db.trades) ≡ true
      → transition id allowed target us now rep db
        ≡ ok (f t, record db { trades = update_where id f db.trades })
  unfolding transition constrain utc
  transition_runs t found permitted agrees zoned unique =
      let back = fetch-update_where id f (trade_id-moved target us now.micros) db.trades t found in
      ground arith

transition-again :
    (id : String) (allowed : List AutonomousTradePhase) (target : AutonomousTradePhase)
    (us : List Update) (now : Datetime) (rep : Update → Bool) (db : Database)
    (r : AutonomousTradeRecord) (db' : Database)
    → ((n : ℕ) (t : AutonomousTradeRecord) → in_phases (moved target us n t).phase allowed ≡ true)
    → ((n : ℕ) (t : AutonomousTradeRecord)
        → payload_clash target us rep (moved target us n t) ≡ false)
    → ((n : ℕ) (t : AutonomousTradeRecord)
        → moved target us n (moved target us n t) ≡ moved target us n t)
    → transition id allowed target us now rep db ≡ ok (r, db')
    → transition id allowed target us now rep db' ≡ ok (r, db')
transition-again id allowed target us now rep db r db' stays agrees twice h =
    let (t, m) = transition-Moves id allowed target us now rep db r db' h in
    let g = moved target us now.micros in
    let rows : update_where id g db'.trades ≡ db'.trades = rw m.rows (
      update_where_twice id g (trade_id-moved target us now.micros) (twice now.micros) db.trades) in
    let found : fetch id db'.trades ≡ some (g t) =
      rw m.rows
        (fetch-update_where id g (trade_id-moved target us now.micros) db.trades t m.found) in
    transition_runs id allowed target us now rep db' (g t) found (stays now.micros t)
      (agrees now.micros t) m.zoned (rw rows m.unique)
    ∙ (λ i. ok ((twice now.micros t ∙ sym m.written) i, record db' { trades = rows i }))

-- The transitions that a caller may have to repeat.
pub data Mark : Type 0 where
  entry_mark : (client_order_id : String) → Datetime → Mark
  open_mark : (fill_price : Decimal) → Datetime → Mark
  exit_mark : (client_order_id reason : String) → Datetime → Mark
  closed_mark : (realized_pnl_usd : Decimal) → Datetime → Mark
  hold_mark : (reason : String) → Datetime → Mark

abbrev pub mark : Mark → String → Database → Result Error (AutonomousTradeRecord × Database)
mark (entry_mark order now) id db = mark_entry_submitted id order now db
mark (open_mark fill at) id db = mark_open id fill at db
mark (exit_mark order reason now) id db = mark_exit_submitted id order reason now db
mark (closed_mark pnl at) id db = mark_closed id pnl at db
mark (hold_mark reason now) id db = mark_safety_hold id reason now db

-- When one of `mark_entry_submitted`, `mark_open`, `mark_exit_submitted`, `mark_closed` and
-- `mark_safety_hold` has succeeded, the same call succeeds again with the same row and leaves the
-- database as it was.
pub mark-again :
    (m : Mark) (id : String) (db : Database) (r : AutonomousTradeRecord) (db' : Database)
    → mark m id db ≡ ok (r, db')
    → mark m id db' ≡ ok (r, db')
unfolding mark_entry_submitted mark_open mark_exit_submitted mark_closed mark_safety_hold moved
    assign conflicts utc positive
mark-again (entry_mark order now) id db r db' h =
    let again =
      transition-again id _ _ _ now _ db r db' (λ n t. refl)
        (λ n t. ground (arith, text_refl order)) (λ n t. refl)
        (mark_entry_submitted-transition id db r db' order now h) in
    ground arith
mark-again (open_mark fill at) id db r db' h =
    let again =
      transition-again id _ _ _ at _ db r db' (λ n t. refl)
        (λ n t. ground (arith, dec_text_eq_refl fill)) (λ n t. refl)
        (mark_open-transition id db r db' fill at h) in
    ground arith
mark-again (exit_mark order reason now) id db r db' h =
    let again =
      transition-again id _ _ _ now _ db r db' (λ n t. refl)
        (λ n t. ground (arith, text_refl reason)) (λ n t. refl)
        (mark_exit_submitted-transition id db r db' order reason now h) in
    ground arith
mark-again (closed_mark pnl at) id db r db' h =
    let again =
      transition-again id _ _ _ at _ db r db' (λ n t. refl)
        (λ n t. ground (arith, dec_text_eq_refl pnl)) (λ n t. refl)
        (mark_closed-transition id db r db' pnl at h) in
    ground arith
mark-again (hold_mark reason now) id db r db' h =
    let again =
      transition-again id _ _ _ now _ db r db' (λ n t. refl)
        (λ n t. ground (arith, text_refl reason)) (λ n t. refl)
        (mark_safety_hold-transition id db r db' reason now h) in
    ground arith

module _ (trade_id_of : String → String) (q : TradeRequest) (now : Datetime) where
  same_request-new_trade : (id : String) (n : ℕ) → same_request (new_trade id q n) q ≡ true
  unfolding same_request new_trade
  same_request-new_trade id n = ground (
    arith,
    text_refl q.candidate_id,
    text_refl q.symbol,
    opt_dec_refl q.stop_loss_bps,
    opt_dec_refl q.take_profit_bps,
  )

  new_trade-id : (id : String) (n : ℕ) → (new_trade id q n).trade_id ≡ id
  unfolding new_trade
  new_trade-id id n = refl

  insert_trade-again :
      (id : String) (n : ℕ) (db : Database) (r : AutonomousTradeRecord) (db' : Database)
      (o : Option AutonomousTradeRecord)
      → fetch id db.trades ≡ o
      → insert_trade id q n db o ≡ ok (r, db')
      → (fetch id db'.trades ≡ some r) × (same_request r q ≡ true)
  unfolding insert_trade constrain
  insert_trade-again id n db r db' (some t) e h = (ground arith, ground arith)
  insert_trade-again id n db r db' none e h = elim (Result-cases (fetch_active db.trades)) [
    | inl (active, found) ↦
        let back = fetch-append_none id db.trades (new_trade id q n) e (new_trade-id id n) in
        let row : r ≡ new_trade id q n = ground arith in
        (ground arith, rw row (same_request-new_trade id n))
    | inr (x, failed) ↦ absurd (ground arith)
  ]

  -- When `begin_trade` has succeeded, the same request at any later time with a time zone returns
  -- the same row and leaves the database as it was.
  pub begin_trade-again :
      (later : Datetime) (db : Database) (r : AutonomousTradeRecord) (db' : Database)
      → later.aware ≡ true
      → begin_trade trade_id_of q now db ≡ ok (r, db')
      → begin_trade trade_id_of q later db' ≡ ok (r, db')
  unfolding begin_trade utc insert_trade
  begin_trade-again later db r db' zoned h = elim (Result-cases (validate_request q)) [
    | inr (x, refused) ↦ absurd (ground arith)
    | inl (tt, valid) ↦
        let id = trade_id_of q.observation_id in
        let (found, same) = insert_trade-again id now.micros db r db' _ refl (ground arith) in
        ground arith
  ]
