-- ===== src/Shadow/Journal/Reopen.antt =====
-- Opening a shadow audit journal on a file (src/execution/shadow_runtime.py).
use greenfield.Base.{
  not, Option, none, some, String, List, [], ◌∷◌, ◌++◌, map, ◌=$◌, ◌≡◌, refl, sym, ap, ◌∙◌, subst,
  Result, ok, raise_if, or_raise, string_length, >>=-eq-ok, ok_eq, Value, Fields, Codec, Readable,
  All,
}
use greenfield.Portfolio.Records.{contains}
use greenfield.Shadow.Record.{Error, invalid_audit, ShadowAuditRecord, require, record_from_value}
use greenfield.Shadow.Journal.{
  ShadowAuditJournal, Scan, start, lines_of, chained, digest, append_all, verify_line, verify_lines,
  verify, object_of, checksum_of, is_previous, open_journal, read_last_hash, last_line,
  hash_of_last, hash_of_line,
}
use greenfield.Shadow.Journal.Refines.{
  Represents, CanRecord, record_all, append_all-Represents, map_append,
}

module _ {A T : Type 0} (C : Codec A T) where
  -- What a line that is let through adds.
  record Adds (line : T) (s s1 : Scan) : Type 0 where
    line_record : ShadowAuditRecord
    sum : String
    hash : hash_of_line C line ≡ ok sum
    found : s1 ≡ record {
      records = s.records ++ line_record ∷ [];
      previous = some sum;
      seen = s.seen ++ line_record.observation_id ∷ [];
    }

  hash_of_line-ok :
      (line : T) (value : Value A) (fs : Fields A) (raw : Value A) (sum : String)
      → ◌≡◌ {A = Result Error (Value A)} (or_raise (C.loads line) invalid_audit) (ok value)
      → object_of C value ≡ ok fs
      → require C "sha256" fs ≡ ok raw
      → checksum_of C raw ≡ ok sum
      → hash_of_line C line ≡ ok sum
  unfolding hash_of_line
  hash_of_line-ok line value fs raw sum loaded is_object at_sum is_sum =
      rw (loaded, is_object, at_sum) is_sum

  verify_line-Adds : (line : T) (s s1 : Scan) → verify_line C line s ≡ ok s1 → Adds line s s1
  unfolding verify_line
  verify_line-Adds line s s1 h =
      let (value, loaded, h1) = >>=-eq-ok (or_raise (C.loads line) invalid_audit) _ h in
      let (fs, is_object, h2) = >>=-eq-ok (object_of C value) _ h1 in
      let (previous, at_previous, h3) = >>=-eq-ok (require C "previous_sha256" fs) _ h2 in
      let (raw_sum, at_sum, h4) = >>=-eq-ok (require C "sha256" fs) _ h3 in
      let (raw_record, at_record, h5) = >>=-eq-ok (require C "record" fs) _ h4 in
      let (done, linked, h6) =
        >>=-eq-ok (raise_if (not (is_previous C previous s.previous)) invalid_audit) _ h5 in
      let (sum, is_sum, h7) = >>=-eq-ok (checksum_of C raw_sum) _ h6 in
      let (done2, equal, h8) =
        >>=-eq-ok (raise_if (not (sum =$ digest C (chained C previous raw_record))) invalid_audit) _
          h7 in
      let (r, read, h9) = >>=-eq-ok (record_from_value C raw_record) _ h8 in
      let (done3, fresh, made) =
        >>=-eq-ok (raise_if (contains r.observation_id s.seen) invalid_audit) _ h9 in
      record {
        line_record = r;
        sum = sum;
        hash = hash_of_line-ok line value fs raw_sum sum loaded is_object at_sum is_sum;
        found = sym (ok_eq _ s1 made);
      }

  verify_lines-last :
      (line : T) (lines : List T) (s s1 : Scan)
      → verify_lines C (line ∷ lines) s ≡ ok s1
      → hash_of_last C (last_line C (line ∷ lines)) ≡ ok s1.previous
  unfolding verify_lines
  verify_lines-last line [] s s1 h =
      let (mid, first, rest) = >>=-eq-ok (verify_line C line s) (verify_lines C []) h in
      let a = verify_line-Adds line s mid first in
      rw a.hash (ap (λ x. ok x.previous) (sym a.found ∙ ok_eq mid s1 rest))
  verify_lines-last line (next ∷ lines) s s1 h =
      let (mid, first, rest) = >>=-eq-ok (verify_line C line s) (verify_lines C (next ∷ lines)) h in
      verify_lines-last next lines mid s1 rest

  verify_lines-seen :
      (lines : List T) (s s1 : Scan)
      → verify_lines C lines s ≡ ok s1
      → s.seen ≡ map (λ r. r.observation_id) s.records
      → s1.seen ≡ map (λ r. r.observation_id) s1.records
  unfolding verify_lines
  verify_lines-seen [] s s1 h same =
      subst (λ x. x.seen ≡ map (λ r. r.observation_id) x.records) (ok_eq s s1 h) same
  verify_lines-seen (line ∷ lines) s s1 h same =
      let (mid, first, rest) = >>=-eq-ok (verify_line C line s) (verify_lines C lines) h in
      let a = verify_line-Adds line s mid first in
      verify_lines-seen lines mid s1 rest (
        subst (λ x. x.seen ≡ map (λ r. r.observation_id) x.records) (sym a.found)
          (ap (λ ids. ids ++ a.line_record.observation_id ∷ []) same
            ∙ sym (map_append C s.records a.line_record)))

  read_last_hash-previous :
      (file : Option (List T)) (s : Scan) (last : Option String)
      → verify_lines C (lines_of file) start ≡ ok s
      → read_last_hash C file ≡ ok last
      → s.previous ≡ last
  unfolding read_last_hash verify_lines
  read_last_hash-previous none s last h k =
      ap (λ x. x.previous) (sym (ok_eq start s h)) ∙ ok_eq none last k
  read_last_hash-previous (some []) s last h k =
      ap (λ x. x.previous) (sym (ok_eq start s h)) ∙ ok_eq none last k
  read_last_hash-previous (some (line ∷ lines)) s last h k =
      ok_eq _ _ (sym (verify_lines-last line lines start s h) ∙ k)

  verify-scan :
      (file : Option (List T)) (rs : List ShadowAuditRecord)
      → verify C file ≡ ok rs
      → (s : Scan) × (verify_lines C (lines_of file) start ≡ ok s) × (s.records ≡ rs)
  unfolding verify
  verify-scan file rs h =
      let (s, scanned, at_rs) = >>=-eq-ok (verify_lines C (lines_of file) start) _ h in
      (s, scanned, ok_eq s.records rs at_rs)

  pub scan-verify :
      (file : Option (List T)) (s : Scan)
      → verify_lines C (lines_of file) start ≡ ok s
      → verify C file ≡ ok s.records
  unfolding verify
  scan-verify file s h = rw h refl

  open_journal-facts :
      (file : Option (List T)) (j : ShadowAuditJournal T)
      → open_journal C file ≡ ok j
      → (rs : List ShadowAuditRecord) × (last : Option String) × (verify C file ≡ ok rs)
        × (read_last_hash C file ≡ ok last)
        × (record {
          file = file;
          observation_ids = map (λ r. r.observation_id) rs;
          last_hash = last;
        }
            ≡ j)
  unfolding open_journal
  open_journal-facts file j h =
      let (rs, verified, h1) = >>=-eq-ok (verify C file) _ h in
      let (last, read, made) = >>=-eq-ok (read_last_hash C file) _ h1 in
      (rs, last, verified, read, ok_eq _ j made)

  pub open_journal-Represents :
      (file : Option (List T)) (j : ShadowAuditJournal T)
      → open_journal C file ≡ ok j
      → (rs : List ShadowAuditRecord) × (verify C file ≡ ok rs) × Represents C j rs
  open_journal-Represents file j h =
      let (rs, last, verified, read, made) = open_journal-facts file j h in
      let (s, scanned, at_rs) = verify-scan file rs verified in
      let seen = verify_lines-seen (lines_of file) start s scanned refl in
      (
        rs,
        verified,
        subst (λ x. Represents C x rs) made
            (record {
              scan = s;
              verified = scanned;
              records = at_rs;
              last = read_last_hash-previous file s last scanned read;
              ids = seen ∙ ap (map (λ r. r.observation_id)) at_rs;
              seen = seen;
            }),
      )

  -- When Python's JSON and time texts can be read back and every digest has 64 characters, a
  -- journal that is opened on a file and then given records to append, each of which passes its
  -- checks and is timed before the end of the year 9999, leaves a file that verifies to the records
  -- of the old file followed by the new ones in turn, without those whose observation is already
  -- there.
  pub verify-append_all :
      Readable C
      → ((t : T) → string_length (C.sha256 t) ≡ 64)
      → (file : Option (List T)) (j : ShadowAuditJournal T) (new : List ShadowAuditRecord)
      → open_journal C file ≡ ok j
      → All CanRecord new
      → (rs : List ShadowAuditRecord) × (verify C file ≡ ok rs)
        × (verify C (append_all C new j).file ≡ ok (record_all new rs))
  verify-append_all readable long file j new h can =
      let (rs, verified, rep) = open_journal-Represents file j h in
      let after = append_all-Represents C readable long new j rs can rep in
      (rs, verified, scan-verify _ after.scan after.verified ∙ ap ok after.records)
