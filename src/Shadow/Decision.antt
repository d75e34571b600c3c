-- ===== src/Shadow/Decision.antt =====
-- What the shadow runtime is asked to observe (src/engines/meta.py, src/engines/contracts.py), and
-- `_validate_actionable` (src/execution/shadow_runtime.py).
use greenfield.Base.{
  Bool, false, true, not, ◌||◌, ◌&&◌, Option, String, List, [], ◌∷◌, ◌++◌, map, any, all, ◌==◌,
  ◌=$◌, if◌then◌else◌, Result, raise_if, or_raise, ◌>>=◌, ◌>>◌, length, Datetime, Floats, bool_eq,
  ℕ, suc,
}
use greenfield.Demo.Trade.{SetupAction, long, short, wait, arbitrage}
use greenfield.Portfolio.Records.{PortfolioEntryProposal, repeats}
use greenfield.Shadow.Record.{
  Error, no_setup, legs_mismatch, repeated_keys, wrong_legs, wrong_time, over_allocation,
  over_total, unbalanced, is_empty,
}

abbrev pub is_wait : SetupAction → Bool
is_wait wait = true
is_wait _ = false

abbrev pub is_arbitrage : SetupAction → Bool
is_arbitrage arbitrage = true
is_arbitrage _ = false

-- `action.value`
abbrev pub action_text : SetupAction → String
action_text long = "LONG"
action_text short = "SHORT"
action_text wait = "WAIT"
action_text arbitrage = "ARBITRAGE"

pub data LegSide : Type 0 where
  buy sell : LegSide

abbrev pub is_buy : LegSide → Bool
is_buy buy = true
is_buy sell = false

pub record SetupLeg : Type 0 where
  pub symbol : String
  pub venue : String
  pub side : LegSide

-- A `MetaDecision`, with the legs of its setup; its rankings are not read here.
pub record MetaDecision (A : Type 0) : Type 0 where
  pub action : SetupAction
  pub decision_timestamp_utc : Datetime
  pub selected_engine_id : Option String
  pub selected_setup : Option (List SetupLeg)
  pub allocated_notional : A
  pub reason_codes : List String

-- The symbol, the venue in lower case, and whether the sign is 1.
abbrev pub Exposure : Type 0
Exposure = String × String × Bool

abbrev pub same_exposure : Exposure → Exposure → Bool
same_exposure x y = x.0 =$ y.0 && x.1 =$ y.1 && bool_eq x.2 y.2

unfoldable pub count_of : Exposure → List Exposure → ℕ
count_of x [] = 0
count_of x (y ∷ ys) = let rest = count_of x ys in if same_exposure x y then suc rest else rest

-- `Counter(xs) == Counter(ys)`
unfoldable pub same_counts : List Exposure → List Exposure → Bool
unfolding count_of
same_counts xs ys = all (λ x. count_of x xs == count_of x ys) (xs ++ ys)

abbrev pub leg_exposure : (lower : String → String) → SetupLeg → Exposure
leg_exposure lower leg = (leg.symbol, lower leg.venue, is_buy leg.side)

module _ {A : Type 0} ⦃F : Floats A⦄ (lower : String → String) where
  abbrev pub proposal_exposure : PortfolioEntryProposal A → Exposure
  proposal_exposure p = (p.symbol, lower p.venue, F.less F.nil p.signed_notional)

  abbrev pub notionals : List (PortfolioEntryProposal A) → List A
  notionals ps = map (λ p. F.magnitude p.signed_notional) ps

  -- the legs start balanced
  abbrev pub is_balanced : List A → Bool
  is_balanced [] = true
  is_balanced (first ∷ rest) = all (λ value. F.is_close value first) rest

  -- `_validate_actionable`, for the legs of a selected setup
  unfoldable pub validate_legs :
      MetaDecision A → List SetupLeg → List (PortfolioEntryProposal A) → Result Error (Unit {0})
  unfolding repeats same_counts
  validate_legs meta legs ps = do
    raise_if (is_empty ps || not (length ps == length legs)) legs_mismatch
    raise_if (repeats (map (λ p. p.key) ps)) repeated_keys
    raise_if (not (same_counts (map proposal_exposure ps) (map (leg_exposure lower) legs)))
        wrong_legs
    raise_if (any (λ p. not (p.proposed_at_utc.micros == meta.decision_timestamp_utc.micros)) ps)
        wrong_time
    raise_if (any (λ value. F.less meta.allocated_notional value) (notionals ps)) over_allocation
    raise_if
        (not (is_arbitrage meta.action) && F.less meta.allocated_notional (F.total (notionals ps)))
        over_total
    raise_if (is_arbitrage meta.action && not (is_balanced (notionals ps))) unbalanced

  unfoldable pub validate_actionable :
      MetaDecision A → List (PortfolioEntryProposal A) → Result Error (Unit {0})
  unfolding validate_legs
  validate_actionable meta ps = do
    legs ← or_raise meta.selected_setup no_setup
    engine_id ← or_raise meta.selected_engine_id no_setup
    validate_legs meta legs ps
