-- ===== src/Shadow/Record/Roundtrip.antt =====
-- Audit records that are read back from their JSON (src/execution/shadow_runtime.py).
use greenfield.Base.{
  ◌<◌, true, none, some, String, Option, List, [], ◌∷◌, map, ok, ◌≡◌, refl, arith, text,
  list_of-items_of, Codec, Readable, time_read-aware, field_of,
}
use greenfield.Shadow.Record.{
  ShadowStatus, initialized, wait, risk_rejected, eligible_no_order, virtual_close, safety_hold,
  status_text, status_of, ShadowAuditRecord, record_post_init, optional_text, texts, as_strings,
  as_string_tuple, as_optional_string, record_to_value, record_from_value, record_from_fields,
}

module _ {A T : Type 0} (C : Codec A T) where
  as_strings-map : (ts : List String) → as_strings C (map text ts) ≡ ok ts
  as_strings-map [] = refl
  as_strings-map (t ∷ ts) = rw (as_strings-map ts) refl

  as_string_tuple-texts : (ts : List String) → as_string_tuple C (texts C ts) ≡ ok ts
  unfolding as_string_tuple texts
  as_string_tuple-texts ts = rw (list_of-items_of (map text ts)) (as_strings-map ts)

  status_of-status_text : (s : ShadowStatus) → status_of (status_text s) ≡ some s
  status_of-status_text initialized = refl
  status_of-status_text wait = refl
  status_of-status_text risk_rejected = refl
  status_of-status_text eligible_no_order = refl
  status_of-status_text virtual_close = refl
  status_of-status_text safety_hold = refl

  as_optional_string-optional_text :
      (t : Option String) → as_optional_string C (optional_text C t) ≡ ok t
  as_optional_string-optional_text none = refl
  as_optional_string-optional_text (some t) = refl

  record-aware :
      (r : ShadowAuditRecord) → record_post_init r ≡ ok tt → r.decision_timestamp_utc.aware ≡ true
  unfolding record_post_init
  record-aware r h = ground arith

  -- A record that passes its checks is read back from its JSON.
  pub record_from_value-record_to_value :
      Readable C
      → (r : ShadowAuditRecord) → record_post_init r ≡ ok tt
      → r.decision_timestamp_utc.micros < 315537897600000000
      → record_from_value C (record_to_value C r) ≡ ok r
  unfolding record_from_fields record_to_value field_of
  record_from_value-record_to_value readable r valid early =
      rw
        (
          time_read-aware C readable r.decision_timestamp_utc (record-aware r valid) early,
          status_of-status_text r.status,
          as_optional_string-optional_text r.selected_engine_id,
          as_string_tuple-texts r.proposal_keys,
          as_string_tuple-texts r.risk_reasons,
          as_string_tuple-texts r.reason_codes,
          as_optional_string-optional_text r.risk_state_sha256,
          valid,
        )
        refl
