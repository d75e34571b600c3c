-- ===== src/Demo/Table.antt =====
-- The statements that the ledger sends to its two tables, and the UNIQUE constraints of the schema
-- (src/execution/demo_autonomous_state.py).
pub mod Laws
pub mod Day
use greenfield.Base.{
  ℕ, Bool, true, false, not, ◌&&◌, ◌||◌, Option, none, some, String, ◌=$◌, List, [], ◌∷◌, any, ◌==◌,
  Result, ok, err, if◌then◌else◌,
}
use greenfield.Demo.Errors.{Error, multiple_active, integrity}
use greenfield.Demo.Trade.{
  AutonomousTradeRecord, AutonomousTradePhase, AutonomousDailyRiskRecord, phase_eq, active_phases,
}

abbrev pub Trades : Type 0
Trades = List AutonomousTradeRecord

abbrev pub Days : Type 0
Days = List AutonomousDailyRiskRecord

-- `phase in phases`
abbrev pub in_phases : AutonomousTradePhase → List AutonomousTradePhase → Bool
in_phases p ps = any (λ q. phase_eq p q) ps

abbrev pub is_active : AutonomousTradeRecord → Bool
is_active t = in_phases t.phase active_phases

-- `_fetch`: SELECT ... WHERE trade_id = ?
unfoldable pub fetch : String → Trades → Option AutonomousTradeRecord
fetch id [] = none
fetch id (t ∷ ts) = if t.trade_id =$ id then some t else fetch id ts

unfoldable pub active_rows : Trades → Trades
active_rows [] = []
active_rows (t ∷ ts) = let rest = active_rows ts in if is_active t then t ∷ rest else rest

-- `_fetch_active`: with at most one row the order of the selection does not matter.
abbrev one_row : Trades → Result Error (Option AutonomousTradeRecord)
one_row [] = ok none
one_row (t ∷ []) = ok (some t)
one_row (t ∷ u ∷ ts) = err multiple_active

unfoldable pub fetch_active : Trades → Result Error (Option AutonomousTradeRecord)
unfolding active_rows
fetch_active ts = one_row (active_rows ts)

-- UPDATE ... WHERE trade_id = ?
unfoldable pub update_where :
    String → (AutonomousTradeRecord → AutonomousTradeRecord) → Trades → Trades
update_where id f [] = []
update_where id f (t ∷ ts) = (if t.trade_id =$ id then f t else t) ∷ update_where id f ts

-- Two NULLs do not clash in a UNIQUE column.
abbrev pub both_set : Option String → Option String → Bool
both_set (some a) (some b) = a =$ b
both_set none b = false
both_set (some a) none = false

unfoldable pub clashes : AutonomousTradeRecord → AutonomousTradeRecord → Bool
clashes t u =
    (t.trade_id =$ u.trade_id)
    || (t.observation_id =$ u.observation_id)
    || both_set t.entry_client_order_id u.entry_client_order_id
    || both_set t.exit_client_order_id u.exit_client_order_id

unfoldable pub is_unique : Trades → Bool
is_unique [] = true
is_unique (t ∷ ts) = not (any (λ u. clashes t u) ts) && is_unique ts

-- A statement that would break a constraint raises.
unfoldable pub constrain : Trades → Result Error Trades
constrain ts = if is_unique ts then ok ts else err integrity

-- `_fetch_day`
unfoldable pub fetch_day : ℕ → Days → Option AutonomousDailyRiskRecord
fetch_day d [] = none
fetch_day d (r ∷ rs) = if r.utc_date == d then some r else fetch_day d rs

unfoldable pub update_day :
    ℕ → (AutonomousDailyRiskRecord → AutonomousDailyRiskRecord) → Days → Days
update_day d f [] = []
update_day d f (r ∷ rs) = (if r.utc_date == d then f r else r) ∷ update_day d f rs
