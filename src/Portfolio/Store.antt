-- ===== src/Portfolio/Store.antt =====
-- `PortfolioRiskStateStore` (src/risk/portfolio_state_store.py). A file is its text, if it exists; it
-- is replaced as a whole.
pub mod Roundtrip
use greenfield.Base.{
  ℕ, Bool, false, true, not, ◌||◌, ◌&&◌, Option, none, some, String, List, [], ◌∷◌, map, any, ◌==◌,
  ◌=$◌, if◌then◌else◌, Result, ok, err, raise_if, or_raise, ◌>>=◌, ◌>>◌, Floats, Datetime, ℤ, pos,
  eqb_ℤ, string_length, Value, null, boolean, integer, real, text, array, object, Fields, end,
  field, field_of, without_field, items_of, list_of, Codec,
}
use greenfield.Portfolio.Records
use greenfield.Portfolio.Records.{
  PortfolioPosition, PortfolioRiskSnapshot, position_post_init, snapshot_post_init, utc,
}

pub data StoreError : Type 0 where
  -- PortfolioRiskStateError
  absent not_json not_object unsupported_schema missing_checksum checksum_mismatch : StoreError
  invalid_payload : StoreError
  -- ValueError of `_utc`
  naive_timestamp : StoreError

-- A KeyError, TypeError or ValueError inside `_decode` becomes a PortfolioRiskStateError.
abbrev pub or_invalid : {B : Type 0} → Result Records.Error B → Result StoreError B
or_invalid (ok b) = ok b
or_invalid (err e) = err invalid_payload

module _ {A T : Type 0} ⦃F : Floats A⦄ (C : Codec A T) where
  abbrev pub optional_text : Option String → Value A
  optional_text none = null
  optional_text (some t) = text t

  abbrev pub position_to_value : PortfolioPosition A → Value A
  position_to_value p = object (
      field "key" (text p.key) (
        field "symbol" (text p.symbol) (
          field "venue" (text p.venue) (
            field "strategy" (text p.strategy) (
              field "engine" (text p.engine) (
                field "signed_notional" (real p.signed_notional) (
                  field "committed_risk_fraction" (real p.committed_risk_fraction)
                    (field "opened_at_utc" (text (C.isoformat p.opened_at_utc.micros)) end))))))))

  abbrev pub day_to_value : Option ℕ → Value A
  day_to_value none = null
  day_to_value (some day) = text (C.day_isoformat day)

  -- `_snapshot_to_dict`
  unfoldable pub snapshot_to_value : PortfolioRiskSnapshot A → Value A
  unfolding items_of
  snapshot_to_value s = object (
      field "positions" (array (items_of (map position_to_value s.positions))) (
        field "peak_equity" (real s.peak_equity) (
          field "daily_realized_pnl" (real s.daily_realized_pnl) (
            field "current_day" (day_to_value s.current_day)
              (field "kill_switch_reason" (optional_text s.kill_switch_reason) end)))))

  -- `value[key]`
  abbrev pub require : String → Fields A → Result StoreError (Value A)
  require k fs = or_raise (field_of k fs) invalid_payload

  -- `isinstance(value, str)`
  abbrev pub string_of : Value A → Result StoreError String
  string_of (text t) = ok t
  string_of _ = err invalid_payload

  abbrev finite : A → Result StoreError A
  finite a = do raise_if (not (F.is_finite a)) invalid_payload; ok a

  -- `_number`
  abbrev pub number : Value A → Result StoreError A
  number (integer n) = finite (C.to_float n)
  number (real a) = finite a
  number _ = err invalid_payload

  -- `_parse_datetime`
  abbrev pub parse_datetime : Value A → Result StoreError Datetime
  parse_datetime (text t) = or_raise (C.fromisoformat t) invalid_payload
  parse_datetime _ = err invalid_payload

  abbrev pub text_field : String → Fields A → Result StoreError String
  text_field k fs = do v ← require k fs; string_of v

  -- `_position_from_dict` of an object
  unfoldable pub position_from_fields : Fields A → Result StoreError (PortfolioPosition A)
  unfolding field_of
  position_from_fields fs = do
    key ← text_field "key" fs
    symbol ← text_field "symbol" fs
    venue ← text_field "venue" fs
    strategy ← text_field "strategy" fs
    engine ← text_field "engine" fs
    raw_notional ← require "signed_notional" fs
    notional ← number raw_notional
    raw_risk ← require "committed_risk_fraction" fs
    risk ← number raw_risk
    raw_opened ← require "opened_at_utc" fs
    opened ← parse_datetime raw_opened
    let p : PortfolioPosition A = record {
      key = key;
      symbol = symbol;
      venue = venue;
      strategy = strategy;
      engine = engine;
      signed_notional = notional;
      committed_risk_fraction = risk;
      opened_at_utc = opened;
    }
    or_invalid (position_post_init p)
    ok p

  abbrev pub position_from_value : Value A → Result StoreError (PortfolioPosition A)
  unfolding position_from_fields
  position_from_value (object fs) = position_from_fields fs
  position_from_value _ = err invalid_payload

  unfoldable pub positions_from : List (Value A) → Result StoreError (List (PortfolioPosition A))
  positions_from [] = ok []
  positions_from (v ∷ vs) = do p ← position_from_value v; ps ← positions_from vs; ok (p ∷ ps)

  abbrev pub items_from : Value A → Result StoreError (List (Value A))
  unfolding list_of
  items_from (array vs) = ok (list_of vs)
  items_from _ = err invalid_payload

  -- `date.fromisoformat(value) if value else None`
  abbrev pub day_from_value : Value A → Result StoreError (Option ℕ)
  day_from_value null = ok none
  day_from_value (text t) =
      if t =$ ""
      then ok none
      else (do day ← or_raise (C.day_fromisoformat t) invalid_payload; ok (some day))
  day_from_value _ = err invalid_payload

  abbrev pub optional_string : Value A → Result StoreError (Option String)
  optional_string null = ok none
  optional_string (text t) = ok (some t)
  optional_string _ = err invalid_payload

  -- `_snapshot_from_dict`
  unfoldable pub snapshot_from_fields : Fields A → Result StoreError (PortfolioRiskSnapshot A)
  unfolding positions_from field_of
  snapshot_from_fields fs = do
    raw_positions ← require "positions" fs
    items ← items_from raw_positions
    positions ← positions_from items
    raw_day ← require "current_day" fs
    raw_peak ← require "peak_equity" fs
    peak ← number raw_peak
    raw_pnl ← require "daily_realized_pnl" fs
    pnl ← number raw_pnl
    raw_reason ← require "kill_switch_reason" fs
    reason ← optional_string raw_reason
    day ← day_from_value raw_day
    let s : PortfolioRiskSnapshot A = record {
      positions = positions;
      peak_equity = peak;
      daily_realized_pnl = pnl;
      current_day = day;
      kill_switch_reason = reason;
    }
    or_invalid (snapshot_post_init s)
    ok s

  -- `_digest`
  abbrev pub digest : Fields A → String
  digest payload = C.sha256 (C.dumps (object payload))

  -- `schema_version == 1`, which `True` and `1.0` are too
  abbrev pub is_schema : Option (Value A) → Bool
  is_schema (some (integer n)) = eqb_ℤ n (pos 1)
  is_schema (some (boolean b)) = b
  is_schema (some (real a)) = F.equals a F.unit
  is_schema _ = false

  -- `isinstance(checksum, str) and len(checksum) == 64`
  abbrev pub checksum_of : Option (Value A) → Result StoreError String
  checksum_of (some (text t)) = do raise_if (not (string_length t == 64)) missing_checksum; ok t
  checksum_of _ = err missing_checksum

  abbrev pub object_from : (error : StoreError) → Value A → Result StoreError (Fields A)
  object_from error (object fs) = ok fs
  object_from error _ = err error

  -- what `_decode` does with a payload whose checksum is right
  unfoldable pub decode_payload : Fields A → Result StoreError (PortfolioRiskSnapshot A)
  unfolding snapshot_from_fields utc
  decode_payload payload = do
    raw_saved ← require "saved_at_utc" payload
    saved ← parse_datetime raw_saved
    or_invalid (utc saved)
    raw_snapshot ← require "snapshot" payload
    fs ← object_from invalid_payload raw_snapshot
    snapshot_from_fields fs

  -- `_decode` of an object
  unfoldable pub decode_envelope : Fields A → Result StoreError (PortfolioRiskSnapshot A)
  unfolding decode_payload without_field field_of
  decode_envelope envelope = do
    raise_if (not (is_schema (field_of "schema_version" envelope))) unsupported_schema
    checksum ← checksum_of (field_of "sha256" envelope)
    let payload = without_field "sha256" envelope
    raise_if (not (checksum =$ digest payload)) checksum_mismatch
    decode_payload payload

  unfoldable pub decode : T → Result StoreError (PortfolioRiskSnapshot A)
  unfolding decode_envelope
  decode file = do
    value ← or_raise (C.loads file) not_json
    envelope ← object_from not_object value
    decode_envelope envelope

  -- the payload and the envelope of `save`
  unfoldable pub payload_of : PortfolioRiskSnapshot A → (saved_at : ℕ) → Fields A
  unfolding snapshot_to_value
  payload_of s saved =
      field "schema_version" (integer (pos 1)) (
        field "saved_at_utc" (text (C.isoformat saved))
          (field "snapshot" (snapshot_to_value s) end))

  unfoldable pub envelope_of : PortfolioRiskSnapshot A → (saved_at : ℕ) → Fields A
  unfolding payload_of
  envelope_of s saved =
      let payload = payload_of s saved in field "sha256" (text (digest payload)) payload

  -- The checksum, and the new text of the file.
  unfoldable pub save :
      PortfolioRiskSnapshot A → (saved_at_utc : Datetime) → Result StoreError (String × T)
  unfolding envelope_of
  save s saved_at_utc = do
    raise_if (not saved_at_utc.aware) naive_timestamp
    let saved = saved_at_utc.micros
    ok (digest (payload_of s saved), C.dumps (object (envelope_of s saved)))

  unfoldable pub load : Option T → Result StoreError (Option (PortfolioRiskSnapshot A))
  unfolding decode
  load none = ok none
  load (some file) = do s ← decode file; ok (some s)

  unfoldable pub load_required : Option T → Result StoreError (PortfolioRiskSnapshot A)
  unfolding load
  load_required file = do found ← load file; or_raise found absent

  -- `str(envelope["sha256"])`, which `_decode` has found to be a text
  abbrev pub sha256_text : T → Result StoreError String
  sha256_text file = do
    value ← or_raise (C.loads file) not_json
    envelope ← object_from not_object value
    checksum_of (field_of "sha256" envelope)

  unfoldable pub checksum : Option T → Result StoreError (Option String)
  unfolding decode
  checksum none = ok none
  checksum (some file) = do decode file; sum ← sha256_text file; ok (some sum)
