-- ===== src/Demo/Ledger/Invariant.antt =====
-- The trades table and the methods of the ledger (src/execution/demo_autonomous_state.py).
use greenfield.Base.{
  Datetime, ℕ, ◌≤◌, Bool, true, false, ◌≡◌, refl, some, none, String, List, [], ◌∷◌, ◌++◌, arith,
  ok, is_some, is_blank, raise_if, not, All, All-append, subst, sym, Option, Option-cases,
  Result-cases, Bool-cases, ◌=$◌, some_eq, >>=-eq-ok, Decimal, dec_zero, ◌≢◌, inl, inr,
}
use greenfield.Demo.Errors.{utc, positive, blank_reason, not_finite}
use greenfield.Demo.Trade.{
  AutonomousTradePhase, observed, entry_submitted, open_position, exit_submitted, closed,
  safety_hold, AutonomousTradeRecord, Database, Update, assign, set_exit_reason,
  set_realized_pnl_usd, set_closed_at_utc,
}
use greenfield.Demo.Table.{Trades, in_phases, fetch, fetch_active, is_unique, constrain}
use greenfield.Demo.Table.Laws.{
  All-update_where, active_one, count_active, count_active-update_where, count_active-append,
  fetch_active-count,
}
use greenfield.Demo.Ledger.{
  moved, transition, TradeRequest, new_trade, insert_trade, begin_trade, validate_request, never,
  mark_entry_submitted, mark_open, mark_exit_submitted, mark_closed, mark_safety_hold,
  close_unsubmitted_safety_hold,
}
use greenfield.Demo.Ledger.Transition.{transition-Moves}

abbrev IsFilled {ℓ} : {A : Type ℓ} → Option A → Type 0
IsFilled o = is_some o ≡ true

abbrev IsUnfilled {ℓ} : {A : Type ℓ} → Option A → Type 0
IsUnfilled o = is_some o ≡ false

-- What the columns of a row hold in each phase.
abbrev pub Fits : AutonomousTradePhase → AutonomousTradeRecord → Type 0
Fits observed t =
    IsUnfilled t.entry_client_order_id
    × IsUnfilled t.opened_at_utc
    × IsUnfilled t.exit_client_order_id
Fits entry_submitted t = IsFilled t.entry_client_order_id
Fits open_position t =
    IsFilled t.entry_client_order_id × IsFilled t.entry_fill_price × IsFilled t.opened_at_utc
Fits exit_submitted t =
    IsFilled t.entry_client_order_id
    × IsFilled t.opened_at_utc
    × IsFilled t.exit_client_order_id
    × IsFilled t.exit_reason
Fits closed t = IsFilled t.realized_pnl_usd × IsFilled t.closed_at_utc
Fits safety_hold t = IsFilled t.safety_reason

abbrev pub IsCoherent : AutonomousTradeRecord → Type 0
IsCoherent t = Fits t.phase t

pub record IsValid (db : Database) : Type 0 where
  pub unique : is_unique db.trades ≡ true
  pub one_active : count_active db.trades ≤ 1
  pub coherent : All IsCoherent db.trades

All-fetch {ℓ} :
    (P : AutonomousTradeRecord → Type ℓ) (id : String) (ts : Trades) (t : AutonomousTradeRecord)
    → All P ts
    → fetch id ts ≡ some t
    → P t
unfolding fetch
All-fetch P id [] t h e = absurd (ground arith)
All-fetch P id (u ∷ ts) t h e = elim (Bool-cases (u.trade_id =$ id)) [
  | inl same ↦ subst P (some_eq u t (rw same at e)) h.0
  | inr other ↦ All-fetch P id ts t h.1 (rw other at e)
]

module _ (id : String) (allowed : List AutonomousTradePhase) (target : AutonomousTradePhase)
    (us : List Update) (now : Datetime) (rep : Update → Bool)
    (fits : (n : ℕ) (t : AutonomousTradeRecord)
      → in_phases t.phase allowed ≡ true
      → IsCoherent t
      → IsCoherent (moved target us n t))
    (calm : (n : ℕ) (t : AutonomousTradeRecord)
      → in_phases t.phase allowed ≡ true
      → active_one (moved target us n t) ≤ active_one t)
    (db : Database) (r : AutonomousTradeRecord) (db' : Database) where
  transition-IsValid :
      transition id allowed target us now rep db ≡ ok (r, db') → IsValid db → IsValid db'
  transition-IsValid h v =
      let (t, m) = transition-Moves id allowed target us now rep db r db' h in
      let f = moved target us now.micros in
      let step = count_active-update_where id f t db.trades v.unique m.found in
      let quiet = calm now.micros t m.permitted in
      record {
        unique = m.unique;
        one_active = subst (λ ts. count_active ts ≤ 1) (sym m.rows) (omega arith);
        coherent = subst (All IsCoherent) (sym m.rows) (
            All-update_where id f t IsCoherent db.trades v.unique m.found
              (fits now.micros t m.permitted
                (All-fetch IsCoherent id db.trades t v.coherent m.found))
              v.coherent);
      }

active_one-new_trade :
    (id : String) (q : TradeRequest) (now : ℕ) → active_one (new_trade id q now) ≡ 1
unfolding new_trade
active_one-new_trade id q now = refl

new_trade-IsCoherent : (id : String) (q : TradeRequest) (now : ℕ) → IsCoherent (new_trade id q now)
unfolding new_trade
new_trade-IsCoherent id q now = (refl, refl, refl)

-- A trade is inserted only while none is active.
pub insert_trade-new :
    (id : String) (q : TradeRequest) (now : ℕ) (db : Database) (r : AutonomousTradeRecord)
    (db' : Database)
    → insert_trade id q now db none ≡ ok (r, db')
    → (fetch_active db.trades ≡ ok none)
      × (db'.trades ≡ db.trades ++ new_trade id q now ∷ [])
      × (is_unique (db.trades ++ new_trade id q now ∷ []) ≡ true)
unfolding insert_trade constrain
insert_trade-new id q now db r db' h = elim (Result-cases (fetch_active db.trades)) [
  | inl (active, found) ↦ (ground arith, ground arith, ground arith)
  | inr (e, found) ↦ absurd (ground arith)
]

insert_trade-IsValid :
    (id : String) (q : TradeRequest) (now : ℕ) (db : Database) (r : AutonomousTradeRecord)
    (db' : Database) (o : Option AutonomousTradeRecord)
    → insert_trade id q now db o ≡ ok (r, db')
    → IsValid db
    → IsValid db'
unfolding insert_trade
insert_trade-IsValid id q now db r db' (some t) h v = subst IsValid (ground arith) v
insert_trade-IsValid id q now db r db' none h v =
    let (idle, rows, unique) = insert_trade-new id q now db r db' h in
    record {
      unique = rw rows unique;
      one_active = rw rows (
          omega (
            arith,
            fetch_active-count db.trades idle,
            count_active-append db.trades (new_trade id q now ∷ []),
            active_one-new_trade id q now,
          ));
      coherent =
          rw rows
            (All-append IsCoherent db.trades _ v.coherent (new_trade-IsCoherent id q now, tt));
    }

module _ (id : String) (db : Database) (r : AutonomousTradeRecord) (db' : Database) where
  pub close_missing :
      (closed_at : Datetime)
      → fetch id db.trades ≡ none
      → close_unsubmitted_safety_hold id closed_at db ≢ ok (r, db')
  unfolding close_unsubmitted_safety_hold
  close_missing closed_at missing h = ground arith

  -- The submission of an entry order keeps the invariant.
  pub mark_entry_submitted-IsValid :
      (order : String) (now : Datetime)
      → mark_entry_submitted id order now db ≡ ok (r, db')
      → IsValid db
      → IsValid db'
  unfolding mark_entry_submitted moved assign
  mark_entry_submitted-IsValid order now h v =
      transition-IsValid id _ _ _ now _ (λ n t p c. ground arith) (λ n t p. ground arith) db r db' h
        v

  pub mark_open-IsValid :
      (fill : Decimal) (opened : Datetime)
      → mark_open id fill opened db ≡ ok (r, db')
      → IsValid db
      → IsValid db'
  unfolding mark_open moved assign
  mark_open-IsValid fill opened h v =
      let (_, _, h₁) = >>=-eq-ok (positive fill) _ h in
      let (now, _, h₂) = >>=-eq-ok (utc opened) _ h₁ in
      transition-IsValid id _ _ _ opened _ (λ n t p c. ground arith) (λ n t p. ground arith) db r
        db' h₂ v

  pub mark_exit_submitted-IsValid :
      (order reason : String) (now : Datetime)
      → mark_exit_submitted id order reason now db ≡ ok (r, db')
      → IsValid db
      → IsValid db'
  unfolding mark_exit_submitted moved assign
  mark_exit_submitted-IsValid order reason now h v =
      let (_, _, h₁) = >>=-eq-ok (raise_if (is_blank reason) blank_reason) _ h in
      transition-IsValid id _ _ _ now _ (λ n t p c. ground arith) (λ n t p. ground arith) db r db'
        h₁ v

  pub mark_closed-IsValid :
      (pnl : Decimal) (closed_at : Datetime)
      → mark_closed id pnl closed_at db ≡ ok (r, db')
      → IsValid db
      → IsValid db'
  unfolding mark_closed moved assign
  mark_closed-IsValid pnl closed_at h v =
      let (_, _, h₁) = >>=-eq-ok (raise_if (not pnl.finite) not_finite) _ h in
      let (now, _, h₂) = >>=-eq-ok (utc closed_at) _ h₁ in
      transition-IsValid id _ _ _ closed_at _ (λ n t p c. ground arith) (λ n t p. ground arith) db r
        db' h₂ v

  pub mark_safety_hold-IsValid :
      (reason : String) (now : Datetime)
      → mark_safety_hold id reason now db ≡ ok (r, db')
      → IsValid db
      → IsValid db'
  unfolding mark_safety_hold moved assign
  mark_safety_hold-IsValid reason now h v =
      let (_, _, h₁) = >>=-eq-ok (raise_if (is_blank reason) blank_reason) _ h in
      transition-IsValid id _ _ _ now _ (λ n t p c. ground arith) (λ n t p. ground arith) db r db'
        h₁ v

  -- The check of exposure, and then the transition.
  pub close_unsubmitted-transition :
      (closed_at : Datetime) (t : AutonomousTradeRecord)
      → fetch id db.trades ≡ some t
      → close_unsubmitted_safety_hold id closed_at db ≡ ok (r, db')
      → (Fits observed t)
        × (transition id
              (safety_hold ∷ [])
              closed
              (set_exit_reason "UNSUBMITTED_ATTEMPT_CLEARED"
                ∷ set_realized_pnl_usd dec_zero
                ∷ set_closed_at_utc closed_at.micros
                ∷ [])
              closed_at
              never
              db
            ≡ ok (r, db'))
  unfolding close_unsubmitted_safety_hold utc
  close_unsubmitted-transition closed_at t found h = (ground arith, ground arith)

  pub close_unsubmitted_safety_hold-IsValid :
      (closed_at : Datetime)
      → close_unsubmitted_safety_hold id closed_at db ≡ ok (r, db')
      → IsValid db
      → IsValid db'
  unfolding moved assign
  close_unsubmitted_safety_hold-IsValid closed_at h v = elim (Option-cases (fetch id db.trades)) [
    | inl missing ↦ absurd (close_missing closed_at missing h)
    | inr (t, found) ↦
        transition-IsValid id _ _ _ closed_at _ (λ n t p c. ground arith) (λ n t p. ground arith) db
          r db' (close_unsubmitted-transition closed_at t found h).1 v
  ]

  -- A new trade is the only active one, and a repeated request changes nothing.
  pub begin_trade-IsValid :
      (trade_id_of : String → String) (q : TradeRequest) (now : Datetime)
      → begin_trade trade_id_of q now db ≡ ok (r, db')
      → IsValid db
      → IsValid db'
  unfolding begin_trade
  begin_trade-IsValid trade_id_of q now h v =
      let (_, _, h₁) = >>=-eq-ok (validate_request q) _ h in
      let (n, _, h₂) = >>=-eq-ok (utc now) _ h₁ in
      insert_trade-IsValid (trade_id_of q.observation_id) q n db r db'
        (fetch (trade_id_of q.observation_id) db.trades) h₂ v
