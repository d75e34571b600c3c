-- ===== src/Demo/Session/Final.antt =====
-- Closed trades over any sequence of calls (src/execution/demo_autonomous_state.py).
use greenfield.Base.{
  Datetime, ℕ, Bool, true, false, ◌≡◌, refl, some, String, ◌=$◌, =$_iff, List, [], ◌∷◌, ok, arith,
  Decimal, dec_text_eq→eq, sym, subst, ap, ◌∙◌, Bool-cases, inl, inr, is_some, some_eq,
  Option-cases,
}
use greenfield.Demo.Risk.{AutonomousDemoRiskConfig}
use greenfield.Demo.Trade.{
  AutonomousTradePhase, AutonomousTradeRecord, Database, Update, assign, conflicts,
  set_realized_pnl_usd, set_closed_at_utc,
}
use greenfield.Demo.Trade
use greenfield.Demo.Table.{in_phases, fetch}
use greenfield.Demo.Table.Laws.{fetch-update_where, fetch-update_where_ne, fetch-append}
use greenfield.Demo.Ledger.{transition, moved, never}
use greenfield.Demo.Ledger.Transition.{transition-Moves, trade_id-moved, payload_clash}
use greenfield.Demo.Ledger.Calls.{
  mark_entry_submitted-transition, mark_open-transition, mark_exit_submitted-transition,
  mark_closed-transition, mark_safety_hold-transition, close_hold-transition, begin_trade-cases,
}
use greenfield.Demo.Daily.Frame.{
  authorize_entry-DayCall, record_entry-DayCall, record_close-DayCall, activate_kill_switch-DayCall,
}
use greenfield.Demo.Session.{
  Call, begin, entry_submitted, opened, exit_submitted, closed, safety_hold, close_hold, authorize,
  entry, close, kill, execute, run,
}
use greenfield.Demo.Session.Effects.{after-elim}

-- A row that is closed with its PnL and its time.
pub record IsFinal (t : AutonomousTradeRecord) : Type 0 where
  pub phase : t.phase ≡ Trade.closed
  pub pnl : is_some t.realized_pnl_usd ≡ true
  pub time : is_some t.closed_at_utc ≡ true

-- The same row but for the time of its last write.
abbrev pub Same : AutonomousTradeRecord → AutonomousTradeRecord → Type 0
Same t t' = t' ≡ record t { updated_at_utc = t'.updated_at_utc }

abbrev Keeps : String → AutonomousTradeRecord → Database → Type 0
Keeps j t db = (t' : AutonomousTradeRecord) × (fetch j db.trades ≡ some t') × Same t t'

Same-refl : (t : AutonomousTradeRecord) → Same t t
Same-refl t = refl

Same-trans : (t u v : AutonomousTradeRecord) → Same t u → Same u v → Same t v
Same-trans t u v p q =
    q
    ∙ ap {A = AutonomousTradeRecord} {B = AutonomousTradeRecord}
        (λ x. record x { updated_at_utc = v.updated_at_utc }) p

-- Closing a closed row again wants the same payload, and so writes the same row.
close_again :
    (pnl : Decimal) (at n : ℕ) (t : AutonomousTradeRecord)
    → IsFinal t
    → payload_clash Trade.closed (set_realized_pnl_usd pnl ∷ set_closed_at_utc at ∷ []) never t
      ≡ false
    → Same t (moved Trade.closed (set_realized_pnl_usd pnl ∷ set_closed_at_utc at ∷ []) n t)
unfolding moved assign conflicts
close_again pnl at n t f agrees = elim (Option-cases t.realized_pnl_usd) [
  | inl unset ↦ absurd (ground arith)
  | inr (p, e) ↦ elim (Option-cases t.closed_at_utc) [
    | inl unset ↦ absurd (ground arith)
    | inr (c, e') ↦
        let same : p ≡ pnl = dec_text_eq→eq p pnl (ground arith) in
        let time : c ≡ at = ground arith in ground arith
  ]
]

module _ (j : String) (t : AutonomousTradeRecord) (db : Database)
    (found : fetch j db.trades ≡ some t) where
  transition-Keeps :
      (id : String) (allowed : List AutonomousTradePhase) (target : AutonomousTradePhase)
      (us : List Update) (now : Datetime) (rep : Update → Bool) (r : AutonomousTradeRecord)
      (db' : Database)
      → transition id allowed target us now rep db ≡ ok (r, db')
      → (in_phases t.phase allowed ≡ true
          → payload_clash target us rep t ≡ false
          → (n : ℕ) → Same t (moved target us n t))
      → Keeps j t db'
  transition-Keeps id allowed target us now rep r db' h rewrite_same =
      let (u, m) = transition-Moves id allowed target us now rep db r db' h in
      let f = moved target us now.micros in
      elim (Bool-cases (j =$ id)) [
        | inl same ↦
            let e : j ≡ id = (=$_iff j id).0 same in
            let same_row : u ≡ t =
              some_eq u t (sym m.found ∙ subst (λ k. fetch k db.trades ≡ some t) e found) in
            let back =
              fetch-update_where id f (trade_id-moved target us now.micros) db.trades u m.found in
            (
              f t,
              rw e (ap (fetch id) m.rows ∙ back ∙ ap (λ x. some (f x)) same_row),
              rewrite_same (subst (λ x. in_phases x.phase allowed ≡ true) same_row m.permitted)
                  (subst (λ x. payload_clash target us rep x ≡ false) same_row m.agrees) now.micros,
            )
        | inr other ↦ (
          t,
          ap (fetch j) m.rows
              ∙ fetch-update_where_ne id f (trade_id-moved target us now.micros) j db.trades
                  (λ e. ground (arith, =$_iff j id))
              ∙ found,
          Same-refl t,
        )
      ]

  quiet_trades : (db' : Database) → db'.trades ≡ db.trades → Keeps j t db'
  quiet_trades db' e = (t, ap (fetch j) e ∙ found, Same-refl t)

module _ (trade_id_of : String → String) (config : AutonomousDemoRiskConfig) where
  execute-Keeps :
      (j : String) (t : AutonomousTradeRecord) (c : Call) (db : Database)
      → fetch j db.trades ≡ some t
      → IsFinal t
      → Keeps j t (execute trade_id_of config c db)
  unfolding execute
  execute-Keeps j t (begin q now) db found f =
      after-elim db (Keeps j t) _ (quiet_trades j t db found db refl) (λ r db' h.
        elim (begin_trade-cases trade_id_of q now db r db' h) [
          | inl same ↦ quiet_trades j t db found db' (ap (λ d. d.trades) same)
          | inr (_, e, _) ↦ (t, ap (fetch j) e ∙ fetch-append j db.trades _ t found, Same-refl t)
        ])
  execute-Keeps j t (entry_submitted id order now) db found f =
      after-elim db (Keeps j t) _ (quiet_trades j t db found db refl) (λ r db' h.
        transition-Keeps j t db found id _ _ _ _ _ r db'
          (mark_entry_submitted-transition id db r db' order now h)
          (λ p _ n. absurd (ground arith)))
  execute-Keeps j t (opened id fill at) db found f =
      after-elim db (Keeps j t) _ (quiet_trades j t db found db refl) (λ r db' h.
        transition-Keeps j t db found id _ _ _ _ _ r db'
          (mark_open-transition id db r db' fill at h) (λ p _ n. absurd (ground arith)))
  execute-Keeps j t (exit_submitted id order reason now) db found f =
      after-elim db (Keeps j t) _ (quiet_trades j t db found db refl) (λ r db' h.
        transition-Keeps j t db found id _ _ _ _ _ r db'
          (mark_exit_submitted-transition id db r db' order reason now h)
          (λ p _ n. absurd (ground arith)))
  execute-Keeps j t (closed id pnl at) db found f =
      after-elim db (Keeps j t) _ (quiet_trades j t db found db refl) (λ r db' h.
        transition-Keeps j t db found id _ _ _ _ _ r db'
          (mark_closed-transition id db r db' pnl at h)
          (λ _ agrees n. close_again pnl at.micros n t f agrees))
  execute-Keeps j t (safety_hold id reason now) db found f =
      after-elim db (Keeps j t) _ (quiet_trades j t db found db refl) (λ r db' h.
        transition-Keeps j t db found id _ _ _ _ _ r db'
          (mark_safety_hold-transition id db r db' reason now h) (λ p _ n. absurd (ground arith)))
  execute-Keeps j t (close_hold id at) db found f =
      after-elim db (Keeps j t) _ (quiet_trades j t db found db refl) (λ r db' h.
        transition-Keeps j t db found id _ _ _ _ _ r db' (close_hold-transition id db r db' at h)
          (λ p _ n. absurd (ground arith)))
  execute-Keeps j t (authorize now capital) db found f =
      after-elim db (Keeps j t) _ (quiet_trades j t db found db refl) (λ r db' h.
        quiet_trades j t db found db'
          (authorize_entry-DayCall now capital config db r db' h).1.trades)
  execute-Keeps j t (entry now capital) db found f =
      after-elim db (Keeps j t) _ (quiet_trades j t db found db refl) (λ r db' h.
        let (_, _, _, c) = record_entry-DayCall now capital config db r db' h in
        quiet_trades j t db found db' c.trades)
  execute-Keeps j t (close now capital pnl) db found f =
      after-elim db (Keeps j t) _ (quiet_trades j t db found db refl) (λ r db' h.
        let (_, _, _, _, _, _, c) = record_close-DayCall now capital config db pnl r db' h in
        quiet_trades j t db found db' c.trades)
  execute-Keeps j t (kill now capital reason) db found f =
      after-elim db (Keeps j t) _ (quiet_trades j t db found db refl) (λ r db' h.
        let (_, _, c) = activate_kill_switch-DayCall now capital reason db r db' h in
        quiet_trades j t db found db' c.trades)

  Same-IsFinal : (t t' : AutonomousTradeRecord) → Same t t' → IsFinal t → IsFinal t'
  Same-IsFinal t t' e f = record {
    phase = ap (λ x. x.phase) e ∙ f.phase;
    pnl = ap (λ x. is_some x.realized_pnl_usd) e ∙ f.pnl;
    time = ap (λ x. is_some x.closed_at_utc) e ∙ f.time;
  }

  -- A row that is CLOSED with its PnL and its closing time is found after any sequence of calls,
  -- and only its `updated_at_utc` may be another.
  pub run-Keeps :
      (j : String) (t : AutonomousTradeRecord) (cs : List Call) (db : Database)
      → fetch j db.trades ≡ some t
      → IsFinal t
      → (t' : AutonomousTradeRecord) × (fetch j (run trade_id_of config cs db).trades ≡ some t')
        × Same t t'
  unfolding run
  run-Keeps j t [] db found f = (t, found, Same-refl t)
  run-Keeps j t (c ∷ cs) db found f =
      let (u, there, p) = execute-Keeps j t c db found f in
      let (v, then_there, q) =
        run-Keeps j u cs (execute trade_id_of config c db) there (Same-IsFinal t u p f) in
      (v, then_there, Same-trans t u v p q)
