-- ===== src/Shadow/Record.antt =====
-- The records of the shadow audit (src/execution/shadow_runtime.py), and their JSON.
pub mod Roundtrip
use greenfield.Base.{
  ℕ, ◌<◌, Bool, false, true, not, ◌||◌, ◌&&◌, Option, none, some, String, List, [], ◌∷◌, map, any,
  ◌==◌, ◌=$◌, if◌then◌else◌, Result, ok, err, raise_if, or_raise, ◌>>=◌, ◌>>◌, Datetime,
  string_length, is_blank, ◌≡◌, refl, arith, ap, Value, null, text, array, object, Fields, end,
  field, field_of, items_of, list_of, list_of-items_of, Codec, Readable, ==_iff,
}

pub data Error : Type 0 where
  -- ValueError
  incomplete_context blank_identifier naive_timestamp no_reason_codes blank_fingerprint : Error
  bad_checksum blank_observation not_shadow existing_state existing_records proposals_on_wait :
      Error
  no_setup legs_mismatch repeated_keys wrong_legs wrong_time over_allocation over_total unbalanced :
      Error
  bad_close blank_reason : Error
  -- ShadowAuditError
  duplicate_observation invalid_audit no_audit other_context not_reconciled : Error
  -- what the risk engine and its store raise
  engine_error store_error : Error

pub data ShadowStatus : Type 0 where
  initialized wait risk_rejected eligible_no_order virtual_close safety_hold : ShadowStatus

-- `status.value`
abbrev pub status_text : ShadowStatus → String
status_text initialized = "INITIALIZED"
status_text wait = "WAIT"
status_text risk_rejected = "RISK_REJECTED"
status_text eligible_no_order = "ELIGIBLE_NO_ORDER"
status_text virtual_close = "VIRTUAL_CLOSE"
status_text safety_hold = "SAFETY_HOLD"

-- `ShadowStatus(text)`
abbrev pub status_of : String → Option ShadowStatus
status_of t =
    if t =$ "INITIALIZED"
    then some initialized
    else if t =$ "WAIT"
    then some wait
    else if t =$ "RISK_REJECTED"
    then some risk_rejected
    else if t =$ "ELIGIBLE_NO_ORDER"
    then some eligible_no_order
    else if t =$ "VIRTUAL_CLOSE"
    then some virtual_close
    else if t =$ "SAFETY_HOLD"
    then some safety_hold
    else none

pub record ShadowSessionContext : Type 0 where
  pub session_id : String
  pub dataset_fingerprint : String
  pub code_commit : String
  pub config_fingerprint : String

unfoldable pub context_post_init : ShadowSessionContext → Result Error (Unit {0})
context_post_init c =
    raise_if
      (any is_blank
        (c.session_id ∷ c.dataset_fingerprint ∷ c.code_commit ∷ c.config_fingerprint ∷ []))
      incomplete_context

pub record ShadowAuditRecord : Type 0 where
  pub observation_id : String
  pub session_id : String
  pub decision_timestamp_utc : Datetime
  pub action : String
  pub status : ShadowStatus
  pub selected_engine_id : Option String
  pub proposal_keys : List String
  pub risk_reasons : List String
  pub reason_codes : List String
  pub dataset_fingerprint : String
  pub code_commit : String
  pub config_fingerprint : String
  pub risk_state_sha256 : Option String

-- `checksum is not None and len(checksum) != 64`
abbrev pub is_bad_checksum : Option String → Bool
is_bad_checksum none = false
is_bad_checksum (some sum) = not (string_length sum == 64)

-- `not texts`
abbrev pub is_empty : {B : Type 0} → List B → Bool
is_empty [] = true
is_empty (t ∷ texts) = false

unfoldable pub record_post_init : ShadowAuditRecord → Result Error (Unit {0})
record_post_init r = do
  raise_if (is_blank r.observation_id || is_blank r.session_id) blank_identifier
  raise_if (not r.decision_timestamp_utc.aware) naive_timestamp
  raise_if (is_blank r.action || is_empty r.reason_codes) no_reason_codes
  raise_if (any is_blank (r.dataset_fingerprint ∷ r.code_commit ∷ r.config_fingerprint ∷ []))
      blank_fingerprint
  raise_if (is_bad_checksum r.risk_state_sha256) bad_checksum

module _ {A T : Type 0} (C : Codec A T) where
  abbrev pub optional_text : Option String → Value A
  optional_text none = null
  optional_text (some t) = text t

  abbrev pub texts : List String → Value A
  unfolding items_of
  texts ts = array (items_of (map text ts))

  -- `_record_to_dict`
  unfoldable pub record_to_value : ShadowAuditRecord → Value A
  record_to_value r = object (
      field "observation_id" (text r.observation_id) (
        field "session_id" (text r.session_id) (
          field "decision_timestamp_utc" (text (C.isoformat r.decision_timestamp_utc.micros)) (
            field "action" (text r.action) (
              field "status" (text (status_text r.status)) (
                field "selected_engine_id" (optional_text r.selected_engine_id) (
                  field "proposal_keys" (texts r.proposal_keys) (
                    field "risk_reasons" (texts r.risk_reasons) (
                      field "reason_codes" (texts r.reason_codes) (
                        field "dataset_fingerprint" (text r.dataset_fingerprint) (
                          field "code_commit" (text r.code_commit) (
                            field "config_fingerprint" (text r.config_fingerprint) (
                              field "risk_state_sha256" (optional_text r.risk_state_sha256)
                                end)))))))))))))

  abbrev pub require : String → Fields A → Result Error (Value A)
  require k fs = or_raise (field_of k fs) invalid_audit

  abbrev pub as_string : Value A → Result Error String
  as_string (text t) = ok t
  as_string _ = err invalid_audit

  -- `_string`
  abbrev pub string_field : String → Fields A → Result Error String
  string_field k fs = do v ← require k fs; as_string v

  abbrev pub as_optional_string : Value A → Result Error (Option String)
  as_optional_string null = ok none
  as_optional_string (text t) = ok (some t)
  as_optional_string _ = err invalid_audit

  -- `_optional_string`
  abbrev pub optional_string_field : String → Fields A → Result Error (Option String)
  optional_string_field k fs = do v ← require k fs; as_optional_string v

  abbrev pub as_strings : List (Value A) → Result Error (List String)
  as_strings [] = ok []
  as_strings (v ∷ vs) = do t ← as_string v; ts ← as_strings vs; ok (t ∷ ts)

  abbrev pub as_string_tuple : Value A → Result Error (List String)
  unfolding list_of
  as_string_tuple (array vs) = as_strings (list_of vs)
  as_string_tuple _ = err invalid_audit

  -- `_string_tuple`
  abbrev pub string_tuple_field : String → Fields A → Result Error (List String)
  unfolding list_of
  string_tuple_field k fs = do v ← require k fs; as_string_tuple v

  -- `_record_from_dict` of an object, whose exceptions `verify` turns into a ShadowAuditError
  unfoldable pub record_from_fields : Fields A → Result Error ShadowAuditRecord
  unfolding field_of list_of
  record_from_fields fs = do
    observation_id ← string_field "observation_id" fs
    session_id ← string_field "session_id" fs
    raw_time ← string_field "decision_timestamp_utc" fs
    time ← or_raise (C.fromisoformat raw_time) invalid_audit
    action ← string_field "action" fs
    raw_status ← string_field "status" fs
    status ← or_raise (status_of raw_status) invalid_audit
    engine_id ← optional_string_field "selected_engine_id" fs
    proposal_keys ← string_tuple_field "proposal_keys" fs
    risk_reasons ← string_tuple_field "risk_reasons" fs
    reason_codes ← string_tuple_field "reason_codes" fs
    dataset ← string_field "dataset_fingerprint" fs
    code_commit ← string_field "code_commit" fs
    config ← string_field "config_fingerprint" fs
    sum ← optional_string_field "risk_state_sha256" fs
    let r : ShadowAuditRecord = record {
      observation_id = observation_id;
      session_id = session_id;
      decision_timestamp_utc = time;
      action = action;
      status = status;
      selected_engine_id = engine_id;
      proposal_keys = proposal_keys;
      risk_reasons = risk_reasons;
      reason_codes = reason_codes;
      dataset_fingerprint = dataset;
      code_commit = code_commit;
      config_fingerprint = config;
      risk_state_sha256 = sum;
    }
    record_post_init r
    ok r

  -- `_record_from_dict`
  abbrev pub record_from_value : Value A → Result Error ShadowAuditRecord
  unfolding record_from_fields
  record_from_value (object fs) = record_from_fields fs
  record_from_value _ = err invalid_audit
