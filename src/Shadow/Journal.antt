-- ===== src/Shadow/Journal.antt =====
-- `ShadowAuditJournal` (src/execution/shadow_runtime.py). A file is its lines, if it exists; a line
-- is written whole, and has no line break, which JSON escapes.
pub mod Refines
pub mod Reopen
use greenfield.Base.{
  Bool, false, true, not, ◌||◌, ◌&&◌, Option, none, some, String, List, [], ◌∷◌, ◌++◌, map, ◌==◌,
  ◌=$◌, if◌then◌else◌, Result, ok, err, raise_if, or_raise, ◌>>=◌, ◌>>◌, string_length, is_blank,
  Value, null, text, object, Fields, end, field, field_of, Codec,
}
use greenfield.Portfolio.Records.{contains}
use greenfield.Shadow.Record.{
  Error, duplicate_observation, invalid_audit, blank_observation, ShadowAuditRecord,
  record_to_value, record_from_value, optional_text, require,
}

pub record ShadowAuditJournal (T : Type 0) : Type 0 where
  pub file : Option (List T)
  pub observation_ids : List String
  pub last_hash : Option String

-- The local variables of `verify`.
pub record Scan : Type 0 where
  pub records : List ShadowAuditRecord
  pub previous : Option String
  pub seen : List String

abbrev pub start : Scan
start = record { records = []; previous = none; seen = [] }

abbrev pub lines_of : {T : Type 0} → Option (List T) → List T
lines_of none = []
lines_of (some lines) = lines

module _ {A T : Type 0} (C : Codec A T) where
  -- `{"previous_sha256": ..., "record": ...}`
  abbrev pub chained : (previous payload : Value A) → Fields A
  chained previous payload = field "previous_sha256" previous (field "record" payload end)

  -- `_digest`
  abbrev pub digest : Fields A → String
  digest fs = C.sha256 (C.dumps (object fs))

  abbrev pub envelope : (previous payload : Value A) → (checksum : String) → Value A
  envelope previous payload checksum = object (
      field "previous_sha256" previous
        (field "record" payload (field "sha256" (text checksum) end)))

  -- what `append` computes and writes
  abbrev pub checksum_after : ShadowAuditRecord → ShadowAuditJournal T → String
  unfolding record_to_value
  checksum_after r j = digest (chained (optional_text C j.last_hash) (record_to_value C r))

  abbrev pub line_after : ShadowAuditRecord → ShadowAuditJournal T → T
  unfolding record_to_value
  line_after r j =
      C.dumps (envelope (optional_text C j.last_hash) (record_to_value C r) (checksum_after r j))

  unfoldable pub appended : ShadowAuditRecord → ShadowAuditJournal T → ShadowAuditJournal T
  appended r j = record {
    file = some (lines_of j.file ++ line_after r j ∷ []);
    observation_ids = j.observation_ids ++ r.observation_id ∷ [];
    last_hash = some (checksum_after r j);
  }

  unfoldable pub append :
      ShadowAuditRecord → ShadowAuditJournal T → Result Error (String × ShadowAuditJournal T)
  unfolding contains
  append r j = do
    raise_if (contains r.observation_id j.observation_ids) duplicate_observation
    ok (checksum_after r j, appended r j)

  unfoldable pub ensure_available :
      (observation_id : String) → ShadowAuditJournal T → Result Error (Unit {0})
  unfolding contains
  ensure_available id j = do
    raise_if (is_blank id) blank_observation
    raise_if (contains id j.observation_ids) duplicate_observation

  -- `actual_previous == previous`
  abbrev pub is_previous : Value A → Option String → Bool
  is_previous null none = true
  is_previous (text t) (some previous) = t =$ previous
  is_previous _ _ = false

  abbrev pub object_of : Value A → Result Error (Fields A)
  object_of (object fs) = ok fs
  object_of _ = err invalid_audit

  -- `isinstance(checksum, str) and len(checksum) == 64`
  abbrev pub checksum_of : Value A → Result Error String
  checksum_of (text t) = do raise_if (not (string_length t == 64)) invalid_audit; ok t
  checksum_of _ = err invalid_audit

  -- the body of the loop of `verify`
  unfoldable pub verify_line : T → Scan → Result Error Scan
  unfolding contains field_of
  verify_line line s = do
    value ← or_raise (C.loads line) invalid_audit
    fs ← object_of value
    actual_previous ← require C "previous_sha256" fs
    raw_checksum ← require C "sha256" fs
    raw_record ← require C "record" fs
    raise_if (not (is_previous actual_previous s.previous)) invalid_audit
    checksum ← checksum_of raw_checksum
    raise_if (not (checksum =$ digest (chained actual_previous raw_record))) invalid_audit
    r ← record_from_value C raw_record
    raise_if (contains r.observation_id s.seen) invalid_audit
    ok (record {
      records = s.records ++ r ∷ [];
      previous = some checksum;
      seen = s.seen ++ r.observation_id ∷ [];
    })

  unfoldable pub verify_lines : List T → Scan → Result Error Scan
  verify_lines [] s = ok s
  verify_lines (line ∷ lines) s = do next ← verify_line line s; verify_lines lines next

  -- `verify`
  unfoldable pub verify : Option (List T) → Result Error (List ShadowAuditRecord)
  unfolding verify_lines
  verify file = do s ← verify_lines (lines_of file) start; ok s.records

  abbrev pub last_line : List T → Option T
  last_line [] = none
  last_line (line ∷ []) = some line
  last_line (line ∷ next ∷ lines) = last_line (next ∷ lines)

  -- `str(json.loads(line)["sha256"])` of a line that `verify` has let through
  abbrev pub hash_of_line : T → Result Error String
  unfolding field_of
  hash_of_line line = do
    value ← or_raise (C.loads line) invalid_audit
    fs ← object_of value
    raw ← require C "sha256" fs
    checksum_of raw

  abbrev pub hash_of_last : Option T → Result Error (Option String)
  hash_of_last none = ok none
  hash_of_last (some line) = do sum ← hash_of_line line; ok (some sum)

  -- `_read_last_hash`
  unfoldable pub read_last_hash : Option (List T) → Result Error (Option String)
  read_last_hash file = hash_of_last (last_line (lines_of file))

  -- `__init__`
  unfoldable pub open_journal : Option (List T) → Result Error (ShadowAuditJournal T)
  unfolding verify read_last_hash
  open_journal file = do
    verified ← verify file
    last ← read_last_hash file
    ok (record {
      file = file;
      observation_ids = map (λ r. r.observation_id) verified;
      last_hash = last;
    })

  -- the last risk-state checksum among records in order, or else the given one
  unfoldable pub latest_among : Option String → List ShadowAuditRecord → Option String
  latest_among last [] = last
  latest_among last (r ∷ rs) = elim r.risk_state_sha256 [
    | none ↦ latest_among last rs
    | some sum ↦ latest_among (some sum) rs
  ]

  -- `latest_risk_state_sha256`
  unfoldable pub latest_risk_state_sha256 : ShadowAuditJournal T → Result Error (Option String)
  unfolding verify latest_among
  latest_risk_state_sha256 j = do rs ← verify j.file; ok (latest_among none rs)

  unfoldable pub find_record : String → List ShadowAuditRecord → Option ShadowAuditRecord
  find_record id [] = none
  find_record id (r ∷ rs) = if r.observation_id =$ id then some r else find_record id rs

  unfoldable pub find : String → ShadowAuditJournal T → Result Error (Option ShadowAuditRecord)
  unfolding verify find_record
  find id j = do rs ← verify j.file; ok (find_record id rs)

  -- Records that are appended in turn, those that are refused left out.
  abbrev pub or_same :
      ShadowAuditJournal T → Result Error (String × ShadowAuditJournal T) → ShadowAuditJournal T
  or_same j (err e) = j
  or_same j (ok (sum, next)) = next

  unfoldable pub append_all : List ShadowAuditRecord → ShadowAuditJournal T → ShadowAuditJournal T
  unfolding append
  append_all [] j = j
  append_all (r ∷ rs) j = append_all rs (or_same j (append r j))
